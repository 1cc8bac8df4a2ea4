-- ===== src/World/Eots/Scores.antt =====
-- engine/world/battleground_eots.go: what the resources and the winner are after a score and after
-- time has passed.
use Prim.Native.Nat.{min}
use moreno_go_moreno_core.Common.{
  ℕ, zero, suc, ◌+◌, ◌-◌, ◌%◌, ◌^◌, ◌<◌, ◌≤◌, ◌≡◌, inl, inr, refl, arith, List, [], ◌&&◌, Bool,
  true, false, ltb, leb, if◌then◌else◌, Option, none, some, get_or, Bool-cases, is_none,
}
use moreno_go_moreno_core.World.Eots.{
  State, Effect, eots_max_resources, eots_tower_tick_points, score_alliance, score_horde,
}
use moreno_go_moreno_core.World.Clock.{later_ms, at_least}
use moreno_go_moreno_core.World.Eots.Resources.{
  alliance_loop, horde_loop, tick_alliance, tick_horde, tick_eots_resources,
}
use moreno_go_moreno_core.World.Eots.Events.{
  Score, SameBoard, SameFlag, SameBoard-trans, SameFlag-trans,
}

-- The score is as it should be, and nothing but the resources, the winner and the times changes.
pub record Scores (s s' : State) : Type 0 where
  pub board : SameBoard s s'
  pub flag : SameFlag s s'
  pub score : Score s'.max_resources s'.winner s'.alliance_resources s'.horde_resources

pub Scores-trans : {s s' s'' : State} → Scores s s' → Scores s' s'' → Scores s s''
Scores-trans a b = record {
  board = SameBoard-trans a.board b.board;
  flag = SameFlag-trans a.flag b.flag;
  score = b.score;
}

abbrev pub Scored : State → Type 0
Scored s = Score s.max_resources s.winner s.alliance_resources s.horde_resources

pub Scores-self : (s : State) → Scored s → Scores s s
Scores-self s h = record {
  board = record { towers = refl; alliance = refl; horde = refl };
  flag = record { state = refl; carrier = refl; guid = refl; timer = refl };
  score = h;
}

below : (most sum : ℕ) → leb most sum ≡ false → most ≡ eots_max_resources → sum < eots_max_resources
below most sum e m = ground arith

-- While the match goes on, neither side has all the resources.
pub going :
    (s : State)
    → Scored s
    → s.winner ≡ none
    → (s.alliance_resources < eots_max_resources) × (s.horde_resources < eots_max_resources)
going s v n = ground (arith, v.1)

module _ (points : ℕ) (s : State) (h : points ≤ 500) (v : Scored s) (n : s.winner ≡ none) where
  pub score_alliance-Scores : Scores s (score_alliance points s).0
  unfolding score_alliance
  score_alliance-Scores =
      let g = going s v n in
      let sum = (s.alliance_resources + points) % 2 ^ 32 in
      elim (Bool-cases (leb s.max_resources sum)) [
        | inl e ↦ rw e (record {
          board = record { towers = refl; alliance = refl; horde = refl };
          flag = record { state = refl; carrier = refl; guid = refl; timer = refl };
          score = (v.0, inr (inl (refl, v.0, g.1)));
        })
        | inr e ↦ rw e (record {
          board = record { towers = refl; alliance = refl; horde = refl };
          flag = record { state = refl; carrier = refl; guid = refl; timer = refl };
          score = (v.0, inl (n, below s.max_resources sum e v.0, g.1));
        })
      ]

  pub score_horde-Scores : Scores s (score_horde points s).0
  unfolding score_horde
  score_horde-Scores =
      let g = going s v n in
      let sum = (s.horde_resources + points) % 2 ^ 32 in
      elim (Bool-cases (leb s.max_resources sum)) [
        | inl e ↦ rw e (record {
          board = record { towers = refl; alliance = refl; horde = refl };
          flag = record { state = refl; carrier = refl; guid = refl; timer = refl };
          score = (v.0, inr (inr (refl, g.0, v.0)));
        })
        | inr e ↦ rw e (record {
          board = record { towers = refl; alliance = refl; horde = refl };
          flag = record { state = refl; carrier = refl; guid = refl; timer = refl };
          score = (v.0, inl (n, g.0, below s.max_resources sum e v.0));
        })
      ]

module _ (points : ℕ) (s : State) (h : points ≤ 500) (v : Scored s) (n : s.winner ≡ none) where
  pub score_alliance-total :
      ((score_alliance points s).0.alliance_resources
        ≡ min eots_max_resources (s.alliance_resources + points))
      × ((score_alliance points s).0.winner
          ≡ (if leb eots_max_resources (s.alliance_resources + points) then some 0 else none))
  unfolding score_alliance
  score_alliance-total = let g = going s v n in ground (arith, v.0, g, n, h)

  pub score_horde-total :
      ((score_horde points s).0.horde_resources
        ≡ min eots_max_resources (s.horde_resources + points))
      × ((score_horde points s).0.winner
          ≡ (if leb eots_max_resources (s.horde_resources + points) then some 1 else none))
  unfolding score_horde
  score_horde-total = let g = going s v n in ground (arith, v.0, g, n, h)

is_none→none : (w : Option ℕ) → is_none w ≡ true → w ≡ none
is_none→none none e = refl
is_none→none (some x) e = ground arith

-- A time that is put aside is no part of the score.
module _ (s : State) (t : ℕ) (v : Scored s) where
  alliance_time-Scores : Scores s (record s { alliance_accum_ms = t })
  alliance_time-Scores = record {
    board = record { towers = refl; alliance = refl; horde = refl };
    flag = record { state = refl; carrier = refl; guid = refl; timer = refl };
    score = v;
  }

  horde_time-Scores : Scores s (record s { horde_accum_ms = t })
  horde_time-Scores = record {
    board = record { towers = refl; alliance = refl; horde = refl };
    flag = record { state = refl; carrier = refl; guid = refl; timer = refl };
    score = v;
  }

split : (a b : Bool) → (a && b) ≡ true → (a ≡ true) × (b ≡ true)
split true b e = (refl, e)
split false b e = ground arith

on_test :
    {s : State} (b : Bool) (o p : State × List Effect)
    → (b ≡ true → Scores s o.0)
    → Scores s p.0
    → Scores s (if b then o else p).0
on_test true o p f g = f refl
on_test false o p f g = g

module _ (rate : ℕ) (h : rate ≤ 500) where
  alliance_loop-Scores : (fuel : ℕ) (s : State) → Scored s → Scores s (alliance_loop fuel rate s).0
  unfolding alliance_loop
  alliance_loop-Scores zero s v = Scores-self s v
  alliance_loop-Scores (suc fuel) s v =
      let taken = record s { alliance_accum_ms = s.alliance_accum_ms - 1000 } in
      on_test {s = s} (at_least 1000 s.alliance_accum_ms && is_none s.winner) _ _
        (λ e.
          let n = is_none→none s.winner (split _ _ e).1 in
          let one = score_alliance-Scores rate taken h v n in
          let all =
            Scores-trans one (alliance_loop-Scores fuel (score_alliance rate taken).0 one.score) in
          Scores-trans (alliance_time-Scores s (s.alliance_accum_ms - 1000) v) all)
        (Scores-self s v)

  horde_loop-Scores : (fuel : ℕ) (s : State) → Scored s → Scores s (horde_loop fuel rate s).0
  unfolding horde_loop
  horde_loop-Scores zero s v = Scores-self s v
  horde_loop-Scores (suc fuel) s v =
      let taken = record s { horde_accum_ms = s.horde_accum_ms - 1000 } in
      on_test {s = s} (at_least 1000 s.horde_accum_ms && is_none s.winner) _ _
        (λ e.
          let n = is_none→none s.winner (split _ _ e).1 in
          let one = score_horde-Scores rate taken h v n in
          let all =
            Scores-trans one (horde_loop-Scores fuel (score_horde rate taken).0 one.score) in
          Scores-trans (horde_time-Scores s (s.horde_accum_ms - 1000) v) all)
        (Scores-self s v)

pub rate-le : (count : ℕ) → get_or eots_tower_tick_points count 0 ≤ 500
rate-le zero = omega arith
rate-le (suc zero) = omega arith
rate-le (suc (suc zero)) = omega arith
rate-le (suc (suc (suc zero))) = omega arith
rate-le (suc (suc (suc (suc zero)))) = omega arith
rate-le (suc (suc (suc (suc (suc n))))) = omega arith

module _ (elapsed : ℕ) (s : State) (v : Scored s) where
  tick_alliance-Scores : Scores s (tick_alliance elapsed s).0
  unfolding tick_alliance
  tick_alliance-Scores =
      let time = later_ms s.alliance_accum_ms elapsed in
      let count = s.alliance_towers_count in
      on_test {s = s} (ltb 0 count && leb count 4) _ _
        (λ e.
          let all =
            alliance_loop-Scores (get_or eots_tower_tick_points count 0) (rate-le count) (suc time)
              (record s { alliance_accum_ms = time }) v in
          Scores-trans (alliance_time-Scores s time v) all)
        (Scores-self s v)

  tick_horde-Scores : Scores s (tick_horde elapsed s).0
  unfolding tick_horde
  tick_horde-Scores =
      let time = later_ms s.horde_accum_ms elapsed in
      let count = s.horde_towers_count in
      on_test {s = s} (ltb 0 count && leb count 4) _ _
        (λ e.
          let all =
            horde_loop-Scores (get_or eots_tower_tick_points count 0) (rate-le count) (suc time)
              (record s { horde_accum_ms = time }) v in
          Scores-trans (horde_time-Scores s time v) all)
        (Scores-self s v)

on_winner :
    (s : State) (winner : Option ℕ) (o : State × List Effect)
    → Scored s
    → Scores s o.0
    → Scores s (elim winner as (λ _. State × List Effect) [ some w ↦ (s, []) | none ↦ o ]).0
on_winner s none o v f = f
on_winner s (some w) o v f = Scores-self s v

pub tick_eots_resources-Scores :
    (elapsed : ℕ) (s : State) → Scored s → Scores s (tick_eots_resources elapsed s).0
unfolding tick_eots_resources
tick_eots_resources-Scores elapsed s v =
    let a = tick_alliance-Scores elapsed s v in
    on_winner s s.winner _ v
      (Scores-trans a (tick_horde-Scores elapsed (tick_alliance elapsed s).0 a.score))
