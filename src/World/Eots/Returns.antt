-- ===== src/World/Eots/Returns.antt =====
-- engine/world/battleground_eots.go: while the flag is on the ground, a timer of its return runs.
use moreno_go_moreno_core.Common.{
  ℕ, ◌≡◌, ◌≢◌, refl, sym, ◌∙◌, arith, Bool, true, false, List, [], ◌∷◌, ◌++◌, ◌==◌, ◌&&◌, leb,
  if◌then◌else◌, if-cases, Option, none, some, Bool-cases, inl, inr,
}
use moreno_go_moreno_core.World.Wsg.{team_for_race}
use moreno_go_moreno_core.World.Eots.{
  Tower, State, Session, Effect, message, has_captured, Outcome, at_center, dropped,
  controlled_alliance, controlled_horde, new_state, flag_center_entry, flag_dropped_entry,
  eots_map_id, score_alliance, score_horde, tower_at, get_eots_tower_id_from_banner_entry,
}
use moreno_go_moreno_core.World.Eots.Flag.{
  use_center_flag, use_dropped_flag, capture_eots_flag, drop_eots_flag, return_timer, respawn_timer,
  capture_points, handle_eots_player_death, handle_eots_player_leave,
}
use moreno_go_moreno_core.World.Eots.Towers.{
  update_eots_tower_banner, update_eots_tower_world_states, show_tower, take_for_alliance,
  take_for_horde, claim_for_alliance, claim_for_horde, use_tower, handle_eots_game_object_use,
  carries, is_controlled_by_team,
}
use moreno_go_moreno_core.World.Eots.Resources.{tick_eots_resources}
use moreno_go_moreno_core.World.Eots.Events.{
  Event, uses, dies, leaves, returns, respawns, ticks, step, or_same,
}
use moreno_go_moreno_core.World.Eots.Matches.{Reach-Sound}
use moreno_go_moreno_core.World.Eots.Timers.{
  after_effects, before_event, Run, begins, goes_on, Run-Reach, Untimed-append, Keeps,
  score_alliance-Keeps, score_horde-Keeps, take_for_alliance-Keeps, take_for_horde-Keeps,
  tick-Keeps, banner-Untimed, world_states-Untimed,
}

-- A flag on the ground has a timer that runs; `r` is whether one ran before.
abbrev Timed : Bool → Outcome → Type 0
Timed r o = o.0.flag_state ≡ dropped → after_effects o.2 r ≡ true

module _ (s : State) (counter : ℕ) (r : Bool) (v : s.flag_state ≡ dropped → r ≡ true) where
  kept-Timed : (c : ℕ) (o : State × List Effect) → Keeps s o → Timed r (o.0, c, o.1)
  kept-Timed c o k d = k.1 r ∙ v (sym k.0 ∙ d)

  center-Timed : (sess : Session) → Timed r (use_center_flag sess s counter)
  unfolding use_center_flag
  center-Timed sess =
      if-cases (Timed r) (s.flag_state == at_center) _ _
        (λ e.
          if-cases (Timed r) sess.far_from_center _ _ (λ f. v) (λ f d. absurd (omega (arith, d))))
        (λ e. v)

  dropped-Timed : (sess : Session) → Timed r (use_dropped_flag sess s counter)
  unfolding use_dropped_flag
  dropped-Timed sess =
      if-cases (Timed r) (s.flag_state == dropped) _ _ (λ e d. absurd (omega (arith, d))) (λ e. v)

  drop-Timed : (sess : Session) → Timed r (drop_eots_flag sess s counter)
  unfolding drop_eots_flag
  drop-Timed sess d = elim (Bool-cases s.flag_return_timer) [
    | inl e ↦ rw e refl
    | inr e ↦ rw e refl
  ]

  death-Timed : (sess : Session) → Timed r (handle_eots_player_death sess s counter)
  unfolding handle_eots_player_death
  death-Timed sess =
      if-cases (Timed r) (sess.map_id == eots_map_id) _ _
        (λ e.
          if-cases (Timed r) (s.flag_carrier_guid == sess.guid) _ _ (λ f. drop-Timed sess) (λ f. v))
        (λ e. v)

  leave-Timed : (sess : Session) → Timed r (handle_eots_player_leave sess s counter)
  unfolding handle_eots_player_leave
  leave-Timed sess =
      if-cases (Timed r) (sess.map_id == eots_map_id) _ _
        (λ e.
          if-cases (Timed r) (s.flag_carrier_guid == sess.guid) _ _ (λ f. drop-Timed sess) (λ f. v))
        (λ e. v)

  capture-Timed :
      (sess : Session) (team : ℕ)
      → let o = capture_eots_flag sess team s in Timed r (o.0, counter, o.1)
  unfolding capture_eots_flag
  capture-Timed sess team d =
      let freed = record s { flag_carrier_guid = 0; flag_state = at_center } in
      let points = capture_points s team in
      let a = score_alliance-Keeps points freed in
      let h = score_horde-Keeps points freed in
      elim (Bool-cases (team == 0)) [
        | inl e ↦
            let z : (score_alliance points freed).0.flag_state ≡ dropped = rw e at d in
            absurd (omega (arith, a.0, z))
        | inr e ↦
            let z : (score_horde points freed).0.flag_state ≡ dropped = rw e at d in
            absurd (omega (arith, h.0, z))
      ]

  show-Timed :
      (team tower_id : ℕ) (t : Tower) (o : State × List Effect)
      → Keeps s o
      → Timed r (show_tower team tower_id o.0 t counter o.1)
  unfolding show_tower
  show-Timed team tower_id t o k d =
      let (shown, c, e) = update_eots_tower_banner o.0 tower_id t counter in
      let told = update_eots_tower_world_states o.0 tower_id shown in
      let last = message o.0.map_id (has_captured team tower_id) ∷ [] in
      let all = Untimed-append o.1 (e ++ (told ++ last)) k.1 (
        Untimed-append e (told ++ last) (banner-Untimed o.0 tower_id t counter)
          (Untimed-append told last (world_states-Untimed o.0 tower_id shown) (λ q. refl))) in
      all r ∙ v (sym k.0 ∙ d)

  alliance-Timed : (tower_id : ℕ) (t : Tower) → Timed r (claim_for_alliance tower_id s t counter)
  unfolding claim_for_alliance
  alliance-Timed tower_id t =
      if-cases (Timed r) (t.state == controlled_alliance) _ _ (λ e. v)
        (λ e.
          show-Timed 0 tower_id (record t { state = controlled_alliance }) (take_for_alliance s t)
            (take_for_alliance-Keeps s t))

  horde-Timed : (tower_id : ℕ) (t : Tower) → Timed r (claim_for_horde tower_id s t counter)
  unfolding claim_for_horde
  horde-Timed tower_id t =
      if-cases (Timed r) (t.state == controlled_horde) _ _ (λ e. v)
        (λ e.
          show-Timed 1 tower_id (record t { state = controlled_horde }) (take_for_horde s t)
            (take_for_horde-Keeps s t))

  tower-Timed : (sess : Session) (tower_id : ℕ) → Timed r (use_tower sess tower_id s counter)
  unfolding use_tower
  tower-Timed sess tower_id =
      let t = tower_at s.towers tower_id in
      let team = team_for_race sess.race in
      if-cases (Timed r) (sess.too_far tower_id) _ _ (λ e. v)
        (λ e.
          if-cases (Timed r) (carries sess s && is_controlled_by_team team t) _ _
            (λ f. capture-Timed sess team)
            (λ f.
              if-cases (Timed r) (team == 0) _ _ (λ g. alliance-Timed tower_id t)
                (λ g. horde-Timed tower_id t)))

  banner-Timed :
      (sess : Session) (tower_id : Option ℕ)
      → Timed r (
          or_same s counter (elim tower_id as (λ _. Option Outcome) [
            | none ↦ none
            | some i ↦ if leb 4 i then none else some (use_tower sess i s counter)
          ]))
  banner-Timed sess none = v
  banner-Timed sess (some i) =
      if-cases (λ (o : Option Outcome). Timed r (or_same s counter o)) (leb 4 i) _ _ (λ e. v)
        (λ e. tower-Timed sess i)

  won-Timed :
      (winner : Option ℕ) (o : Option Outcome)
      → Timed r (or_same s counter o)
      → Timed r (
          or_same s counter
            (elim winner as (λ _. Option Outcome) [ some w ↦ some (s, counter, []) | none ↦ o ]))
  won-Timed none o k = k
  won-Timed (some w) o k = v

  uses-Timed :
      (sess : Session) (entry : ℕ)
      → Timed r (or_same s counter (handle_eots_game_object_use sess entry s counter))
  unfolding handle_eots_game_object_use
  uses-Timed sess entry =
      let P = λ (o : Option Outcome). Timed r (or_same s counter o) in
      won-Timed s.winner _ (
        if-cases P (entry == flag_center_entry) _ _ (λ f. center-Timed sess)
          (λ f.
            if-cases P (entry == flag_dropped_entry) _ _ (λ g. dropped-Timed sess)
              (λ g. banner-Timed sess (get_eots_tower_id_from_banner_entry entry))))

  respawn-Timed : Timed r (s, counter, respawn_timer s)
  unfolding respawn_timer
  respawn-Timed d = elim (Bool-cases (s.flag_center_guid == 0)) [
    | inl e ↦ rw e (v d)
    | inr e ↦ rw e (v d)
  ]

-- The return timer runs: the flag is then not on the ground.
returns-Timed : (s : State) (counter : ℕ) → Timed false (step returns s counter)
unfolding step return_timer
returns-Timed s counter d = elim (Bool-cases (s.flag_state == dropped)) [
  | inl e ↦ absurd (let z = rw e at d in omega (arith, z))
  | inr e ↦ absurd (let z : s.flag_state ≡ dropped = rw e at d in ground (arith, z, e))
]

step-Timed :
    (e : Event) (s : State) (counter : ℕ) (r : Bool)
    → (s.flag_state ≡ dropped → r ≡ true)
    → Timed (before_event e r) (step e s counter)
unfolding step
step-Timed (uses sess entry) s counter r v = uses-Timed s counter r v sess entry
step-Timed (dies sess) s counter r v = death-Timed s counter r v sess
step-Timed (leaves sess) s counter r v = leave-Timed s counter r v sess
step-Timed returns s counter r v = returns-Timed s counter
step-Timed respawns s counter r v = respawn-Timed s counter r v
step-Timed (ticks elapsed) s counter r v =
    kept-Timed s counter r v counter (tick_eots_resources elapsed s) (tick-Keeps elapsed s)

new_state-center : (map_id : ℕ) → (new_state map_id).flag_state ≢ dropped
unfolding new_state
new_state-center map_id d = omega (arith, d)

Run-Timed :
    {s : State} {counter : ℕ} {running : Bool}
    → Run s counter running
    → s.flag_state ≡ dropped
    → running ≡ true
Run-Timed (begins map_id counter) d = absurd (new_state-center map_id d)
Run-Timed (goes_on {s} {counter} {running} e run g) d =
    step-Timed e s counter running (Run-Timed run) d

-- A flag on the ground is never lost, however often it is dropped: in every state that a
-- battleground reaches, with its timers running at any time, a return timer has been started that has
-- neither been stopped nor run since, and when a return timer runs, the flag is back at the center and
-- nobody carries it, provided that every player has a guid.
pub Run-returns :
    {s : State} {counter : ℕ} {running : Bool}
    → Run s counter running
    → s.flag_state ≡ dropped
    → let s' = (return_timer s).0 in
      (running ≡ true)
      × (s'.flag_state ≡ at_center)
      × (s'.flag_carrier_guid ≡ 0)
      × (s'.flag_dropped_guid ≡ 0)
unfolding return_timer
Run-returns {s} run d =
    let f = (Reach-Sound (Run-Reach run)).flag in
    let c : s.flag_carrier_guid ≡ 0 = ground (arith, f, d) in rw d (Run-Timed run d, refl, c, refl)
