-- ===== src/World/Diminishing/Durations.antt =====
-- engine/world/diminishing.go, applyDiminishingToDuration: how long a spell lasts.
use moreno_go_moreno_core.Common.{
  ℕ, zero, suc, ◌/◌, ◌^◌, ◌<◌, ◌≤◌, ◌≡◌, ◌≢◌, refl, ap, arith, Bool, true, false, ◌==◌,
  if◌then◌else◌, lt→ltb,
}
use moreno_go_moreno_core.World.Diminishing.Groups.{
  group_of, is_group_duration_limited, diminishing_none,
}
use moreno_go_moreno_core.World.Diminishing.{
  Returns, get_diminishing, duration_limit, float32, scale, level_quarters, capped,
  apply_diminishing_to_duration,
}

float32_exact : (n : ℕ) → n < 2 ^ 24 → float32 n ≡ n
unfolding float32
float32_exact n h = rw (lt→ltb n (2 ^ 24) h)

-- The duration at a level, for a duration that `float32` keeps.
abbrev pub at_level : ℕ → ℕ → ℕ
at_level n l = if l == 3 then 0 else n / 2 ^ l

quarters_le : (l : ℕ) → level_quarters l ≤ 4
unfolding level_quarters
quarters_le l = ground arith

scale_le : (overflowed n q : ℕ) → n < 2 ^ 24 → q ≤ 4 → scale overflowed n q ≤ n
unfolding scale
scale_le o n zero h k = rw (float32_exact n h) (ground arith)
scale_le o n (suc zero) h k = rw (float32_exact n h) (ground arith)
scale_le o n (suc (suc zero)) h k = rw (float32_exact n h) (ground arith)
scale_le o n (suc (suc (suc zero))) h k = rw (float32_exact n h) (ground arith)
scale_le o n (suc (suc (suc (suc zero)))) h k = rw (float32_exact n h) (ground arith)
scale_le o n (suc (suc (suc (suc (suc q))))) h k = absurd (omega arith)

capped_le :
    (group n : ℕ) → is_group_duration_limited group ≡ true → capped group n true ≤ duration_limit
unfolding capped
capped_le group n g = rw g (ground arith)

none_unlimited : is_group_duration_limited diminishing_none ≡ false
unfolding is_group_duration_limited
none_unlimited = refl

module _ (overflowed now spell mechanic duration : ℕ) (pvp : Bool) (ds : Returns) where
  -- What the spell asks for after the limit between players.
  abbrev pub limited : ℕ
  limited = capped (group_of spell mechanic) duration pvp

  abbrev pub outcome : ℕ × ℕ × Bool
  outcome = (apply_diminishing_to_duration overflowed now spell mechanic duration pvp ds).0

  abbrev pub level_now : ℕ
  level_now = (get_diminishing now (group_of spell mechanic) ds).0

  -- Between players a spell of a limited group never lasts more than 10 seconds, at whatever level
  -- and with whatever duration.
  pub duration_limited :
      pvp ≡ true
      → is_group_duration_limited (group_of spell mechanic) ≡ true
      → outcome.1 ≤ duration_limit
  unfolding apply_diminishing_to_duration
  duration_limited p g =
      let b : limited ≤ duration_limit = rw p (capped_le (group_of spell mechanic) duration g) in
      let other : group_of spell mechanic ≢ diminishing_none =
        λ e. cc (ap is_group_duration_limited e, none_unlimited) in
      ground (
        arith,
        b,
        other,
        scale_le overflowed limited (level_quarters level_now) (omega arith)
            (quarters_le level_now),
      )
