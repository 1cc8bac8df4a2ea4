-- ===== src/World/Eots/Matches.antt =====
-- engine/world/battleground_eots.go: the matches from their start, and the flag in them.
use moreno_go_moreno_core.Common.{
  ℕ, ◌<◌, ◌≡◌, inl, inr, refl, arith, [], ◌==◌, ◌&&◌, leb, if◌then◌else◌, Option, none, some, Bool,
  true, false, Bool-cases, ==→eq,
}
use moreno_go_moreno_core.World.Wsg.{team_for_race}
use moreno_go_moreno_core.World.Eots.{
  State, Session, Outcome, carried, flag_center_entry, flag_dropped_entry, new_state, new_tower,
  tower_at, get_eots_tower_id_from_banner_entry,
}
use moreno_go_moreno_core.World.Eots.Flag.{use_center_flag, use_dropped_flag}
use moreno_go_moreno_core.World.Eots.Towers.{
  use_tower, handle_eots_game_object_use, carries, is_controlled_by_team,
}
use moreno_go_moreno_core.World.Eots.Events.{
  Event, uses, dies, leaves, returns, respawns, ticks, step, or_same, Named, Sound, same_board,
  same_flag,
}
use moreno_go_moreno_core.World.Eots.Scores.{tick_eots_resources-Scores}
use moreno_go_moreno_core.World.Eots.Boards.{
  Boards, claim_for_alliance-Boards, claim_for_horde-Boards,
}
use moreno_go_moreno_core.World.Eots.Flags.{
  use_center_flag-Sound, use_dropped_flag-Sound, handle_eots_player_death-Sound,
  handle_eots_player_leave-Sound, return_timer-Sound, capture_eots_flag-Sound,
}

Boards-Sound : (s s' : State) → Sound s → Boards s s' → Sound s'
Boards-Sound s s' v b = record {
  board = b.board;
  flag = same_flag b.flag v.flag;
  score = rw (b.score.0, b.score.1, b.score.2, b.score.3) v.score;
}

on_test :
    (b : Bool) (o p : Outcome)
    → (b ≡ true → Sound o.0)
    → (b ≡ false → Sound p.0)
    → Sound (if b then o else p).0
on_test true o p f g = f refl
on_test false o p f g = g refl

left_true : (a b : Bool) → (a && b) ≡ true → a ≡ true
left_true true b e = refl
left_true false b e = ground arith

module _ (sess : Session) (s : State) (counter : ℕ) (v : Sound s) (n : s.winner ≡ none) where
  use_tower-Sound : (tower_id : ℕ) → tower_id < 4 → Sound (use_tower sess tower_id s counter).0
  unfolding use_tower
  use_tower-Sound tower_id h =
      let team = team_for_race sess.race in
      on_test (sess.too_far tower_id) _ _ (λ e. v)
        (λ e.
          on_test (carries sess s && is_controlled_by_team team (tower_at s.towers tower_id)) _ _
            (λ c.
              let k = left_true _ _ (left_true _ _ c) in
              capture_eots_flag-Sound sess team s v n (==→eq s.flag_state carried k))
            (λ c.
              on_test (team == 0) _ _
                (λ t. Boards-Sound s _ v (claim_for_alliance-Boards tower_id h s v.board counter))
                (λ t. Boards-Sound s _ v (claim_for_horde-Boards tower_id h s v.board counter))))

leb→gt : (a b : ℕ) → leb a b ≡ false → b < a
leb→gt a b h = ground arith

-- What holds of a state and of what each use of an object makes of it holds after any use.
module _ (P : State → Type 0) (s : State) (counter : ℕ) (v : P s) where
  on_winner :
      (winner : Option ℕ) (o : Option Outcome)
      → (winner ≡ none → P (or_same s counter o).0)
      → P
          (or_same s counter
            (elim winner as (λ _. Option Outcome) [ some w ↦ some (s, counter, []) | none ↦ o ])).0
  on_winner none o f = f refl
  on_winner (some w) o f = v

  on_entry :
      (b : Bool) (o : Outcome) (p : Option Outcome)
      → P o.0
      → P (or_same s counter p).0
      → P (or_same s counter (if b then some o else p)).0
  on_entry true o p f g = f
  on_entry false o p f g = g

  on_tower :
      (sess : Session)
      → ((i : ℕ) → i < 4 → P (use_tower sess i s counter).0)
      → (tower_id : Option ℕ)
      → P
          (or_same s counter (elim tower_id as (λ _. Option Outcome) [
            | none ↦ none
            | some i ↦ if leb 4 i then none else some (use_tower sess i s counter)
          ])).0
  on_tower sess f none = v
  on_tower sess f (some i) = elim (Bool-cases (leb 4 i)) [
    | inl e ↦ rw e v
    | inr e ↦ rw e (f i (leb→gt 4 i e))
  ]

  pub use_cases :
      (sess : Session) (entry : ℕ)
      → (s.winner ≡ none
          → P (use_center_flag sess s counter).0
            × P (use_dropped_flag sess s counter).0
            × ((i : ℕ) → i < 4 → P (use_tower sess i s counter).0))
      → P (step (uses sess entry) s counter).0
  unfolding step handle_eots_game_object_use
  use_cases sess entry f = on_winner s.winner _ (λ n.
      on_entry (entry == flag_center_entry) _ _ (f n).0 (
        on_entry (entry == flag_dropped_entry) _ _ (f n).1
          (on_tower sess (f n).2 (get_eots_tower_id_from_banner_entry entry))))

pub step-Sound :
    (e : Event) (s : State) (counter : ℕ) → Sound s → Named e → Sound (step e s counter).0
unfolding step
step-Sound (uses sess entry) s counter v g = use_cases Sound s counter v sess entry (λ n. (
  use_center_flag-Sound sess s counter v g,
  use_dropped_flag-Sound sess s counter v g,
  use_tower-Sound sess s counter v n,
))
step-Sound (dies sess) s counter v g = handle_eots_player_death-Sound sess s counter v
step-Sound (leaves sess) s counter v g = handle_eots_player_leave-Sound sess s counter v
step-Sound returns s counter v g = return_timer-Sound s v
step-Sound respawns s counter v g = v
step-Sound (ticks elapsed) s counter v g =
    let k = tick_eots_resources-Scores elapsed s v.score in
    record { board = same_board k.board v.board; flag = same_flag k.flag v.flag; score = k.score }

pub new_state-Sound : (map_id : ℕ) → Sound (new_state map_id)
unfolding new_state new_tower
new_state-Sound map_id = record {
  board = record {
    size = refl;
    shown = (omega arith, refl, (omega arith, refl, (omega arith, refl, (omega arith, refl, tt))));
    alliance = refl;
    horde = refl;
  };
  flag = inl (refl, refl, refl);
  score = (refl, inl (refl, omega arith, omega arith));
}

-- The states that a battleground reaches from its start.
pub data Reach : State → ℕ → Type 0 where
  start : (map_id counter : ℕ) → Reach (new_state map_id) counter
  next :
      {s : State} {counter : ℕ} (e : Event)
      → Reach s counter
      → Named e
      → Reach (step e s counter).0 (step e s counter).1

-- In every state that a battleground reaches, with its timers running at any time, the counts of
-- towers are the numbers of towers that the sides hold, each tower shows the banner of its state, a
-- player has the flag exactly while it is carried, a flag on the ground has a return timer, and a
-- side has won exactly when it has all the resources, provided that every player has a guid.
pub Reach-Sound : {s : State} {counter : ℕ} → Reach s counter → Sound s
Reach-Sound (start map_id counter) = new_state-Sound map_id
Reach-Sound (next {s} {counter} e r g) = step-Sound e s counter (Reach-Sound r) g
