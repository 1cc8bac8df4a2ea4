-- ===== src/World/Ab/Yields.antt =====
-- engine/world/battleground_ab.go: what a tick yields, in one formula.
use Prim.Native.Nat.{min}
use moreno_go_moreno_core.Common.{
  ℕ, zero, suc, ◌+◌, ◌*◌, ◌^◌, ◌<◌, ◌≤◌, lt→leb, lt→ltb, ◌⊎◌, ◌≡◌, refl, arith, [], ◌&&◌, true,
  false, ltb, leb, if◌then◌else◌, none, some, get_or, Bool-cases, inl, inr, leb→le, ◌∙◌,
}
use moreno_go_moreno_core.World.Clock.{later_ms, intervals, remaining}
use moreno_go_moreno_core.World.Ab.{State, ab_tick_intervals, ab_tick_points}
use moreno_go_moreno_core.World.Ab.Resources.{Tally, award_loop, accumulate, tick_resources}
use moreno_go_moreno_core.World.Ab.Awards.{Yields, decided, timed_loop-Yields}

-- The reference: the points of all the whole intervals in a time, and the time that is left.
abbrev pub due : ℕ → ℕ → ℕ
due bases time = get_or ab_tick_points bases 0 * intervals (get_or ab_tick_intervals bases 0) time

abbrev pub left : ℕ → ℕ → ℕ → ℕ
left bases accum elapsed =
    if ltb 0 bases && leb bases 5
    then remaining (get_or ab_tick_intervals bases 0) (later_ms accum elapsed)
    else accum

module _ (map_id team most elapsed : ℕ) (t : Tally) where
  abbrev later : Tally
  later = record t { accum_ms = later_ms t.accum_ms elapsed }

  idle :
      (k : ℕ) → t.winner ≡ none → t.resources < most → Yields team most 0 k t.accum_ms t.resources t
  idle k n l =
      let same : 0 * k ≡ 0 = omega arith in
      record {
        resources = omega (arith, same);
        winner = rw (lt→leb most (t.resources + 0 * k) (omega (arith, same))) n;
        time = inl refl;
      }

  whole :
      (interval points : ℕ)
      → 0 < interval
      → t.winner ≡ none
      → t.resources < most
      → most + points < 2 ^ 32
      → Yields team most points
          (intervals interval (later_ms t.accum_ms elapsed))
          (remaining interval (later_ms t.accum_ms elapsed))
          t.resources
          (award_loop (suc (later_ms t.accum_ms elapsed)) map_id team interval points most later)
  whole interval points p n l b =
      let time = later_ms t.accum_ms elapsed in
      timed_loop-Yields map_id team interval points most (suc time) later p n l (omega arith) b

  accumulate-Yields :
      (bases : ℕ)
      → t.winner ≡ none
      → t.resources < most
      → most ≤ 2 ^ 31
      → Yields team most
          (get_or ab_tick_points bases 0)
          (intervals (get_or ab_tick_intervals bases 0) (later_ms t.accum_ms elapsed))
          (left bases t.accum_ms elapsed)
          t.resources
          (accumulate map_id team bases most elapsed t)
  unfolding accumulate
  accumulate-Yields zero n l b = idle (intervals 0 (later_ms t.accum_ms elapsed)) n l
  accumulate-Yields (suc zero) n l b = whole 12000 10 (omega arith) n l (omega arith)
  accumulate-Yields (suc (suc zero)) n l b = whole 9000 10 (omega arith) n l (omega arith)
  accumulate-Yields (suc (suc (suc zero))) n l b = whole 6000 10 (omega arith) n l (omega arith)
  accumulate-Yields (suc (suc (suc (suc zero)))) n l b =
      whole 3000 10 (omega arith) n l (omega arith)
  accumulate-Yields (suc (suc (suc (suc (suc zero))))) n l b =
      whole 1000 30 (omega arith) n l (omega arith)
  accumulate-Yields (suc (suc (suc (suc (suc (suc m)))))) n l b =
      let far : leb (suc (suc (suc (suc (suc (suc m)))))) 5 ≡ false = lt→leb _ _ (omega arith) in
      let some_bases : ltb 0 (suc (suc (suc (suc (suc (suc m)))))) ≡ true =
        lt→ltb _ _ (omega arith) in
      rw (far, some_bases) (idle (intervals 0 (later_ms t.accum_ms elapsed)) n l)

  accumulate_decided :
      (bases : ℕ) {w : ℕ}
      → t.winner ≡ some w
      → ((accumulate map_id team bases most elapsed t).resources ≡ t.resources)
        × ((accumulate map_id team bases most elapsed t).winner ≡ t.winner)
  unfolding accumulate
  accumulate_decided bases d =
      rw
        (decided map_id team (get_or ab_tick_intervals bases 0) (get_or ab_tick_points bases 0) most
          (suc (later_ms t.accum_ms elapsed)) later d)
        (ground arith)

-- A tick of a match that goes on, with both sides below the greatest number of resources, gives each
-- side the points of all the whole intervals in its time at once, cut at the greatest number of
-- resources. A side whose points reach that number wins, the Alliance before the Horde, which then
-- gets nothing; with no winner each side keeps the time that is left, and a side with no bases the
-- time of before. A time is that of before with the elapsed one, an int64 that wraps; a negative one holds no
-- interval. The greatest number of resources is at most 2 ^ 31.
pub tick_resources-due :
    (elapsed : ℕ) (ab : State)
    → ab.winner ≡ none
    → ab.alliance_resources < ab.max_resources
    → ab.horde_resources < ab.max_resources
    → ab.max_resources ≤ 2 ^ 31
    → let a =
        ab.alliance_resources
        + due ab.alliance_bases_count (later_ms ab.alliance_accum_ms elapsed) in
      let h = ab.horde_resources + due ab.horde_bases_count (later_ms ab.horde_accum_ms elapsed) in
      let ab' = (tick_resources elapsed ab).0 in
      (ab'.alliance_resources ≡ min ab.max_resources a)
      × (ab'.horde_resources
          ≡ (if leb ab.max_resources a then ab.horde_resources else min ab.max_resources h))
      × (ab'.winner ≡ (
          if leb ab.max_resources a
          then some 0
          else if leb ab.max_resources h
          then some 1
          else none))
      × ((ab'.alliance_accum_ms ≡ left ab.alliance_bases_count ab.alliance_accum_ms elapsed)
          ⊎ (ab.max_resources ≤ a))
      × ((ab'.horde_accum_ms ≡ left ab.horde_bases_count ab.horde_accum_ms elapsed)
          ⊎ (ab.max_resources ≤ a)
          ⊎ (ab.max_resources ≤ h))
unfolding tick_resources
tick_resources-due elapsed ab n la lh b =
    let t : Tally = record {
      accum_ms = ab.alliance_accum_ms;
      resources = ab.alliance_resources;
      winner = none;
      effects = [];
    } in
    let won = accumulate ab.map_id 0 ab.alliance_bases_count ab.max_resources elapsed t in
    let y =
      accumulate-Yields ab.map_id 0 ab.max_resources elapsed t ab.alliance_bases_count refl la b in
    let t2 : Tally = record {
      accum_ms = ab.horde_accum_ms;
      resources = ab.horde_resources;
      winner = won.winner;
      effects = won.effects;
    } in
    let a =
      ab.alliance_resources + due ab.alliance_bases_count (later_ms ab.alliance_accum_ms elapsed) in
    elim (Bool-cases (leb ab.max_resources a)) [
      | inl w ↦
          let first : won.winner ≡ some 0 = y.winner ∙ rw w in
          let d =
            accumulate_decided ab.map_id 1 ab.max_resources elapsed t2 ab.horde_bases_count first in
          rw (n, w) (y.resources, d.0, d.1 ∙ first, y.time, inr (inl (leb→le ab.max_resources a w)))
      | inr w ↦
          let first : won.winner ≡ none = y.winner ∙ rw w in
          let z =
            accumulate-Yields ab.map_id 1 ab.max_resources elapsed t2 ab.horde_bases_count first lh
              b in
          rw (n, w)
            (
              y.resources,
              z.resources,
              z.winner,
              y.time,
              elim z.time [ inl k ↦ inl k | inr k ↦ inr (inr k) ],
            )
    ]
