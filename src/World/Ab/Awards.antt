-- ===== src/World/Ab/Awards.antt =====
-- engine/world/battleground_ab.go: what the rounds of a loop of a tick yield, all together.
use Prim.Native.Nat.{min}
use native.Mathlib.Nat.{div-add-mod', mod-lt, div-le_self}
use moreno_go_moreno_core.Common.{
  ℕ, zero, suc, ◌+◌, ◌-◌, ◌*◌, ◌/◌, ◌%◌, ◌^◌, ◌<◌, ◌≤◌, lt→leb, ltb→lt, ltb→le, ◌⊎◌, ◌≡◌, refl, ap,
  sym, arith, true, false, ltb, leb, if◌then◌else◌, none, some, Bool-cases, inl, inr, le→leb,
  leb→le, ◌∙◌, is_none,
}
use moreno_go_moreno_core.World.Clock.{
  at_least, intervals, remaining, enough_time, too_little, negative_time,
}
use moreno_go_moreno_core.World.Ab.Resources.{Tally, award, award_loop}

-- What so many intervals give: the resources, and the winner where they are enough.
pub record Yields (team most points k rest before : ℕ) (t : Tally) : Type 0 where
  pub resources : t.resources ≡ min most (before + points * k)
  pub winner : t.winner ≡ (if leb most (before + points * k) then some team else none)
  pub time : (t.accum_ms ≡ rest) ⊎ (most ≤ before + points * k)

module _ (map_id team interval points most : ℕ) where
  award_on :
      (t : Tally)
      → t.resources + points < most
      → most + points < 2 ^ 32
      → ((award map_id team interval points most t).accum_ms ≡ t.accum_ms - interval)
        × ((award map_id team interval points most t).resources ≡ t.resources + points)
        × ((award map_id team interval points most t).winner ≡ t.winner)
  unfolding award
  award_on t h b = ground arith

  award_won :
      (t : Tally)
      → t.resources < most
      → most ≤ t.resources + points
      → most + points < 2 ^ 32
      → ((award map_id team interval points most t).resources ≡ most)
        × ((award map_id team interval points most t).winner ≡ some team)
  unfolding award
  award_won t l h b = ground arith

  pub decided :
      (fuel : ℕ) (t : Tally) {w : ℕ}
      → t.winner ≡ some w
      → award_loop fuel map_id team interval points most t ≡ t
  unfolding award_loop
  decided zero t e = refl
  decided (suc fuel) t e = ground arith

  goes :
      (fuel : ℕ) (t : Tally)
      → at_least interval t.accum_ms ≡ true
      → is_none t.winner ≡ true
      → award_loop (suc fuel) map_id team interval points most t
        ≡ award_loop fuel map_id team interval points most
            (award map_id team interval points most t)
  unfolding award_loop
  goes fuel t g n = rw (g, n)

  stops :
      (fuel : ℕ) (t : Tally)
      → at_least interval t.accum_ms ≡ false
      → award_loop (suc fuel) map_id team interval points most t ≡ t
  unfolding award_loop
  stops fuel t g = rw g

  pub award_loop-Yields :
      (fuel k rest : ℕ) (t : Tally)
      → k < fuel
      → t.accum_ms ≡ k * interval + rest
      → rest < interval
      → t.accum_ms < 2 ^ 63
      → t.winner ≡ none
      → t.resources < most
      → most + points < 2 ^ 32
      → Yields team most points k rest t.resources
          (award_loop fuel map_id team interval points most t)
  award_loop-Yields zero k rest t h a r s n l b = elim h [ ]
  award_loop-Yields (suc fuel) zero rest t h a r s n l b =
      let stop = too_little interval t.accum_ms (omega arith) in
      rw (stops fuel t stop) (record {
        resources = omega arith;
        winner = rw (lt→leb most (t.resources + points * 0) (omega arith)) n;
        time = inl (omega arith);
      })
  award_loop-Yields (suc fuel) (suc k) rest t h a r s n l b =
      let go = enough_time interval t.accum_ms (omega arith) s in
      let more : points * suc k ≡ points + points * k = omega arith in
      let t1 = award map_id team interval points most t in
      rw (goes fuel t go (ap is_none n)) (elim (Bool-cases (leb most (t.resources + points))) [
        | inl w ↦
            let o = award_won t l (leb→le most (t.resources + points) w) b in
            let past : most ≤ t.resources + points * suc k =
              omega (arith, more, leb→le most (t.resources + points) w) in
            rw (decided fuel t1 o.1) (record {
              resources = omega (arith, o.0);
              winner = rw (le→leb most (t.resources + points * suc k) past) o.1;
              time = inr past;
            })
        | inr w ↦
            let o = award_on t (ground arith) b in
            let y =
              award_loop-Yields fuel k rest t1 (omega arith) (omega (arith, o.0)) r
                (omega (arith, o.0)) (o.2 ∙ n) (ground (arith, o.1)) b in
            let sum : t1.resources + points * k ≡ t.resources + points * suc k =
              omega (arith, o.1, more) in
            record {
              resources = y.resources ∙ ap (min most) sum;
              winner = y.winner ∙ ap (λ (x : ℕ). if leb most x then some team else none) sum;
              time = rw (← sum) y.time;
            }
      ])

  no_time-Yields :
      (k : ℕ) (t : Tally)
      → t.winner ≡ none
      → t.resources < most
      → Yields team most points 0 t.accum_ms t.resources t
  no_time-Yields k t n l =
      let same : points * 0 ≡ 0 = omega arith in
      record {
        resources = omega (arith, same);
        winner = rw (lt→leb most (t.resources + points * 0) (omega (arith, same))) n;
        time = inl refl;
      }

  -- With a round for each millisecond and one more, from any time.
  pub timed_loop-Yields :
      (fuel : ℕ) (t : Tally)
      → 0 < interval
      → t.winner ≡ none
      → t.resources < most
      → t.accum_ms < fuel
      → most + points < 2 ^ 32
      → Yields team most points
          (intervals interval t.accum_ms)
          (remaining interval t.accum_ms)
          t.resources
          (award_loop fuel map_id team interval points most t)
  timed_loop-Yields zero t p n l h b = absurd (omega arith)
  timed_loop-Yields (suc fuel) t p n l h b =
      let time = t.accum_ms in
      elim (Bool-cases (ltb time (2 ^ 63))) [
        | inl e ↦ rw e (
            award_loop-Yields (suc fuel) (time / interval) (time % interval) t
              (omega (arith, div-le_self time interval)) (sym (div-add-mod' time interval))
              (mod-lt time p) (ltb→lt time (2 ^ 63) e) n l b)
        | inr e ↦
            rw (e, stops fuel t (negative_time interval time (ltb→le time (2 ^ 63) e)))
              (no_time-Yields 0 t n l)
      ]
