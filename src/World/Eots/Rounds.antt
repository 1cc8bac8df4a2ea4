-- ===== src/World/Eots/Rounds.antt =====
-- engine/world/battleground_eots.go: the loops of a tick, round by round, are those of Arathi Basin
-- with an interval of one second, whose sums are known.
use moreno_go_moreno_core.Common.{
  List, ℕ, zero, suc, ◌+◌, ◌-◌, ◌≡◌, refl, ◌∙◌, arith, ◌%◌, ◌^◌, ◌&&◌, leb, Bool, true, false,
  Bool-cases, inl, inr, if◌then◌else◌, Option, is_none,
}
use moreno_go_moreno_core.World.Clock.{at_least}
use moreno_go_moreno_core.World.Ab.Resources.{Tally, award, award_loop}
use moreno_go_moreno_core.World.Eots.{State, Effect, score_alliance, score_horde}
use moreno_go_moreno_core.World.Eots.Resources.{alliance_loop, horde_loop}

-- A tally is that of a side with these numbers.
abbrev pub Tells : Tally → ℕ → ℕ → Option ℕ → Type 0
Tells t accum resources winner =
    (t.accum_ms ≡ accum) × (t.resources ≡ resources) × (t.winner ≡ winner)

-- What becomes of one side, with the other as it was.
abbrev pub AllianceTells : ℕ → State → Tally → State → Type 0
AllianceTells most s t s' =
    (s'.max_resources ≡ most)
    × (s'.horde_resources ≡ s.horde_resources)
    × (s'.horde_accum_ms ≡ s.horde_accum_ms)
    × (s'.horde_towers_count ≡ s.horde_towers_count)
    × Tells t s'.alliance_accum_ms s'.alliance_resources s'.winner

abbrev pub HordeTells : ℕ → State → Tally → State → Type 0
HordeTells most s t s' =
    (s'.max_resources ≡ most)
    × (s'.alliance_resources ≡ s.alliance_resources)
    × (s'.alliance_accum_ms ≡ s.alliance_accum_ms)
    × (s'.alliance_towers_count ≡ s.alliance_towers_count)
    × Tells t s'.horde_accum_ms s'.horde_resources s'.winner

on_round :
    (P : Tally → State → Type 0) (b c : Bool)
    → b ≡ c
    → (x y : Tally) (o p : State × List Effect) → P x o.0
    → P y p.0
    → P (if b then x else y) (if c then o else p).0
on_round P true true e x y o p f g = f
on_round P false false e x y o p f g = g
on_round P true false e x y o p f g = ground arith
on_round P false true e x y o p f g = ground arith

module _ (map_id rate most : ℕ) where
  alliance-award :
      (s : State) (t : Tally)
      → s.max_resources ≡ most
      → Tells t s.alliance_accum_ms s.alliance_resources s.winner
      → let taken = record s { alliance_accum_ms = s.alliance_accum_ms - 1000 } in
        AllianceTells most s (award map_id 0 1000 rate most t) (score_alliance rate taken).0
  unfolding award score_alliance
  alliance-award s t m (a, r, w) =
      let sum = (s.alliance_resources + rate) % 2 ^ 32 in
      elim (Bool-cases (leb most sum)) [
        | inl e ↦ rw (m, a, r, w, e) (refl, refl, refl, refl, (refl, refl, refl))
        | inr e ↦ rw (m, a, r, w, e) (refl, refl, refl, refl, (refl, refl, refl))
      ]

  pub alliance_loop-award :
      (fuel : ℕ) (s : State) (t : Tally)
      → s.max_resources ≡ most
      → Tells t s.alliance_accum_ms s.alliance_resources s.winner
      → AllianceTells most s
          (award_loop fuel map_id 0 1000 rate most t)
          (alliance_loop fuel rate s).0
  unfolding alliance_loop award_loop
  alliance_loop-award zero s t m e = (m, refl, refl, refl, e)
  alliance_loop-award (suc fuel) s t m e =
      let taken = record s { alliance_accum_ms = s.alliance_accum_ms - 1000 } in
      let one = alliance-award s t m e in
      let all =
        alliance_loop-award fuel (score_alliance rate taken).0 (award map_id 0 1000 rate most t)
          one.0 one.4 in
      let same : (at_least 1000 t.accum_ms && is_none t.winner)
          ≡ (at_least 1000 s.alliance_accum_ms && is_none s.winner) =
        rw (e.0, e.2) refl in
      on_round (AllianceTells most s) _ _ same _ _ _ _
        (all.0, all.1 ∙ one.1, all.2 ∙ one.2, all.3 ∙ one.3, all.4) (m, refl, refl, refl, e)

  horde-award :
      (s : State) (t : Tally)
      → s.max_resources ≡ most
      → Tells t s.horde_accum_ms s.horde_resources s.winner
      → let taken = record s { horde_accum_ms = s.horde_accum_ms - 1000 } in
        HordeTells most s (award map_id 1 1000 rate most t) (score_horde rate taken).0
  unfolding award score_horde
  horde-award s t m (a, r, w) =
      let sum = (s.horde_resources + rate) % 2 ^ 32 in
      elim (Bool-cases (leb most sum)) [
        | inl e ↦ rw (m, a, r, w, e) (refl, refl, refl, refl, (refl, refl, refl))
        | inr e ↦ rw (m, a, r, w, e) (refl, refl, refl, refl, (refl, refl, refl))
      ]

  pub horde_loop-award :
      (fuel : ℕ) (s : State) (t : Tally)
      → s.max_resources ≡ most
      → Tells t s.horde_accum_ms s.horde_resources s.winner
      → HordeTells most s (award_loop fuel map_id 1 1000 rate most t) (horde_loop fuel rate s).0
  unfolding horde_loop award_loop
  horde_loop-award zero s t m e = (m, refl, refl, refl, e)
  horde_loop-award (suc fuel) s t m e =
      let taken = record s { horde_accum_ms = s.horde_accum_ms - 1000 } in
      let one = horde-award s t m e in
      let all =
        horde_loop-award fuel (score_horde rate taken).0 (award map_id 1 1000 rate most t) one.0
          one.4 in
      let same : (at_least 1000 t.accum_ms && is_none t.winner)
          ≡ (at_least 1000 s.horde_accum_ms && is_none s.winner) =
        rw (e.0, e.2) refl in
      on_round (HordeTells most s) _ _ same _ _ _ _
        (all.0, all.1 ∙ one.1, all.2 ∙ one.2, all.3 ∙ one.3, all.4) (m, refl, refl, refl, e)
