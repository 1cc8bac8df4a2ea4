-- ===== src/World/Eots/Yields.antt =====
-- engine/world/battleground_eots.go: what a tick yields, in one formula.
use Prim.Native.Nat.{min}
use moreno_go_moreno_core.Common.{
  ℕ, zero, suc, ◌+◌, ◌*◌, ◌^◌, ◌<◌, ◌≤◌, lt→leb, ◌⊎◌, ◌≡◌, refl, ap, subst, sym, arith, [], ◌&&◌,
  Bool, true, false, ltb, leb, if◌then◌else◌, Option, none, some, get_or, is_none, on_none,
  if-cases, List, Bool-cases, inl, inr, leb→le, ◌∙◌,
}
use moreno_go_moreno_core.World.Clock.{later_ms, at_least, intervals, remaining}
use moreno_go_moreno_core.World.Ab.Resources.{Tally, award_loop}
use moreno_go_moreno_core.World.Ab.Awards.{Yields, timed_loop-Yields}
use moreno_go_moreno_core.World.Eots.{State, Effect, eots_max_resources, eots_tower_tick_points}
use moreno_go_moreno_core.World.Eots.Resources.{
  tick_alliance, tick_horde, tick_eots_resources, horde_loop,
}
use moreno_go_moreno_core.World.Eots.Scores.{rate-le, going}
use moreno_go_moreno_core.World.Eots.Matches.{Reach, Reach-Sound}
use moreno_go_moreno_core.World.Eots.Rounds.{
  AllianceTells, HordeTells, alliance_loop-award, horde_loop-award,
}

abbrev pub rate_of : ℕ → ℕ
rate_of count = get_or eots_tower_tick_points count 0

-- The reference: the points of all the whole seconds in a time, and the time that is left.
abbrev pub eots_due : ℕ → ℕ → ℕ
eots_due count time = rate_of count * intervals 1000 time

abbrev pub eots_left : ℕ → ℕ → ℕ → ℕ
eots_left count accum elapsed =
    if ltb 0 count && leb count 4 then remaining 1000 (later_ms accum elapsed) else accum

no_rate : (count : ℕ) → (ltb 0 count && leb count 4) ≡ false → rate_of count ≡ 0
no_rate zero e = refl
no_rate (suc zero) e = ground arith
no_rate (suc (suc zero)) e = ground arith
no_rate (suc (suc (suc zero))) e = ground arith
no_rate (suc (suc (suc (suc zero)))) e = ground arith
no_rate (suc (suc (suc (suc (suc n))))) e = refl

still :
    (team most rate k : ℕ) (t : Tally)
    → rate ≡ 0
    → t.winner ≡ none
    → t.resources < most
    → Yields team most rate k t.accum_ms t.resources t
still team most rate k t e n l =
    let same : rate * k ≡ 0 = rw e (omega arith) in
    record {
      resources = omega (arith, same);
      winner = rw (lt→leb most (t.resources + rate * k) (omega (arith, same))) n;
      time = inl refl;
    }

module _ (elapsed most : ℕ) (s : State) (m : s.max_resources ≡ most) where
  alliance-Due :
      s.winner ≡ none
      → s.alliance_resources < most
      → most ≤ 2 ^ 31
      → let count = s.alliance_towers_count in
        (t : Tally) × AllianceTells most s t (tick_alliance elapsed s).0
        × Yields 0 most
            (rate_of count)
            (intervals 1000 (later_ms s.alliance_accum_ms elapsed))
            (eots_left count s.alliance_accum_ms elapsed)
            s.alliance_resources
            t
  unfolding tick_alliance
  alliance-Due w l b =
      let time = later_ms s.alliance_accum_ms elapsed in
      let count = s.alliance_towers_count in
      let later = record s { alliance_accum_ms = time } in
      let t : Tally = record {
        accum_ms = time;
        resources = s.alliance_resources;
        winner = s.winner;
        effects = [];
      } in
      let idle : Tally = record t { accum_ms = s.alliance_accum_ms } in
      let rate = rate_of count in
      let le = rate-le count in
      elim (Bool-cases (ltb 0 count && leb count 4)) [
        | inl e ↦ rw e (
          award_loop (suc time) s.map_id 0 1000 rate most t,
          alliance_loop-award s.map_id rate most (suc time) later t m (refl, refl, refl),
          timed_loop-Yields s.map_id 0 1000 rate most (suc time) t (omega arith) w l (omega arith)
              (omega (arith, le)),
        )
        | inr e ↦ rw e (
          idle,
          (m, refl, refl, refl, (refl, refl, refl)),
          still 0 most rate (intervals 1000 time) idle (no_rate count e) w l,
        )
      ]

  horde-Due :
      s.winner ≡ none
      → s.horde_resources < most
      → most ≤ 2 ^ 31
      → let count = s.horde_towers_count in
        (t : Tally) × HordeTells most s t (tick_horde elapsed s).0
        × Yields 1 most
            (rate_of count)
            (intervals 1000 (later_ms s.horde_accum_ms elapsed))
            (eots_left count s.horde_accum_ms elapsed)
            s.horde_resources
            t
  unfolding tick_horde
  horde-Due w l b =
      let time = later_ms s.horde_accum_ms elapsed in
      let count = s.horde_towers_count in
      let later = record s { horde_accum_ms = time } in
      let t : Tally = record {
        accum_ms = time;
        resources = s.horde_resources;
        winner = s.winner;
        effects = [];
      } in
      let idle : Tally = record t { accum_ms = s.horde_accum_ms } in
      let rate = rate_of count in
      let le = rate-le count in
      elim (Bool-cases (ltb 0 count && leb count 4)) [
        | inl e ↦ rw e (
          award_loop (suc time) s.map_id 1 1000 rate most t,
          horde_loop-award s.map_id rate most (suc time) later t m (refl, refl, refl),
          timed_loop-Yields s.map_id 1 1000 rate most (suc time) t (omega arith) w l (omega arith)
              (omega (arith, le)),
        )
        | inr e ↦ rw e (
          idle,
          (m, refl, refl, refl, (refl, refl, refl)),
          still 1 most rate (intervals 1000 time) idle (no_rate count e) w l,
        )
      ]

and_some : (b : Bool) {w : ℕ} (winner : Option ℕ) → winner ≡ some w → (b && is_none winner) ≡ false
and_some true winner e = rw e refl
and_some false winner e = refl

-- A side gets nothing once there is a winner.
horde_decided :
    (elapsed : ℕ) (s : State) {w : ℕ}
    → s.winner ≡ some w
    → let s' = (tick_horde elapsed s).0 in
      (s'.horde_resources ≡ s.horde_resources)
      × (s'.winner ≡ s.winner)
      × (s'.alliance_resources ≡ s.alliance_resources)
      × (s'.alliance_accum_ms ≡ s.alliance_accum_ms)
unfolding tick_horde horde_loop
horde_decided elapsed s d =
    let time = later_ms s.horde_accum_ms elapsed in
    let count = s.horde_towers_count in
    let P : State × List Effect → Type 0 = λ o.
      (o.0.horde_resources ≡ s.horde_resources)
      × (o.0.winner ≡ s.winner)
      × (o.0.alliance_resources ≡ s.alliance_resources)
      × (o.0.alliance_accum_ms ≡ s.alliance_accum_ms) in
    if-cases P (ltb 0 count && leb count 4) _ _
      (λ e. rw (and_some (at_least 1000 time) s.winner d) (refl, refl, refl, refl))
      (λ e. (refl, refl, refl, refl))

tick_going :
    (elapsed : ℕ) (s : State)
    → s.winner ≡ none
    → (tick_eots_resources elapsed s).0 ≡ (tick_horde elapsed (tick_alliance elapsed s).0).0
unfolding tick_eots_resources
tick_going elapsed s n =
    ap (λ (o : State × List Effect). o.0) (on_none {B = State × List Effect} s.winner (s, []) _ n)

-- In every state that a battleground reaches, a tick of a match that goes on gives each side the
-- points of all the whole seconds in its time at once, cut at the greatest number of resources. A
-- side whose points reach that number wins, the Alliance before the Horde, which then gets nothing;
-- with no winner each side keeps the time that is left, and a side with no towers the time of
-- before. A time is that of before with the elapsed one, an int64 that wraps; a negative one holds no
-- second. Every player has a guid.
pub tick_eots_resources-due :
    {s : State} {counter : ℕ}
    → Reach s counter
    → s.winner ≡ none
    → (elapsed : ℕ)
    → let a =
        s.alliance_resources
        + eots_due s.alliance_towers_count (later_ms s.alliance_accum_ms elapsed) in
      let h =
        s.horde_resources + eots_due s.horde_towers_count (later_ms s.horde_accum_ms elapsed) in
      let s' = (tick_eots_resources elapsed s).0 in
      (s'.alliance_resources ≡ min eots_max_resources a)
      × (s'.horde_resources
          ≡ (if leb eots_max_resources a then s.horde_resources else min eots_max_resources h))
      × (s'.winner ≡ (
          if leb eots_max_resources a
          then some 0
          else if leb eots_max_resources h
          then some 1
          else none))
      × ((s'.alliance_accum_ms ≡ eots_left s.alliance_towers_count s.alliance_accum_ms elapsed)
          ⊎ (eots_max_resources ≤ a))
      × ((s'.horde_accum_ms ≡ eots_left s.horde_towers_count s.horde_accum_ms elapsed)
          ⊎ (eots_max_resources ≤ a)
          ⊎ (eots_max_resources ≤ h))
tick_eots_resources-due {s} r n elapsed =
    let v = Reach-Sound r in
    let g = going s v.score n in
    let most = eots_max_resources in
    let m = v.score.0 in
    let s1 = (tick_alliance elapsed s).0 in
    let (t, f, y) = alliance-Due elapsed most s m n (omega (arith, g.0)) (omega arith) in
    let a =
      s.alliance_resources
      + eots_due s.alliance_towers_count (later_ms s.alliance_accum_ms elapsed) in
    elim (Bool-cases (leb most a)) [
      | inl w ↦
          let first : s1.winner ≡ some 0 = sym f.4.2 ∙ y.winner ∙ rw w in
          let d = horde_decided elapsed s1 first in
          rw (tick_going elapsed s n, w)
            (
              d.2 ∙ sym f.4.1 ∙ y.resources,
              d.0 ∙ f.1,
              d.1 ∙ first,
              elim y.time [ inl x ↦ inl (d.3 ∙ sym f.4.0 ∙ x) | inr x ↦ inr x ],
              inr (inl (leb→le most a w)),
            )
      | inr w ↦
          let first : s1.winner ≡ none = sym f.4.2 ∙ y.winner ∙ rw w in
          let h =
            s.horde_resources + eots_due s.horde_towers_count (later_ms s.horde_accum_ms elapsed) in
          let hh : s1.horde_resources
                + eots_due s1.horde_towers_count (later_ms s1.horde_accum_ms elapsed)
              ≡ h =
            rw (f.1, f.2, f.3) refl in
          let ll : eots_left s1.horde_towers_count s1.horde_accum_ms elapsed
              ≡ eots_left s.horde_towers_count s.horde_accum_ms elapsed =
            rw (f.2, f.3) refl in
          let (t2, f2, z) =
            horde-Due elapsed most s1 f.0 first (omega (arith, g.1, f.1)) (omega arith) in
          rw (tick_going elapsed s n, w)
            (
              f2.1 ∙ sym f.4.1 ∙ y.resources,
              sym f2.4.1 ∙ z.resources ∙ ap (min most) hh,
              sym f2.4.2 ∙ z.winner ∙ ap (λ (x : ℕ). if leb most x then some 1 else none) hh,
              elim y.time [ inl x ↦ inl (f2.2 ∙ sym f.4.0 ∙ x) | inr x ↦ inr x ],
              elim z.time [
                | inl x ↦ inl (sym f2.4.0 ∙ x ∙ ll)
                | inr x ↦ inr (inr (subst (λ (k : ℕ). most ≤ k) hh x))
              ],
            )
    ]
