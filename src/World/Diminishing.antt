-- ===== src/World/Diminishing.antt =====
-- engine/world/diminishing.go: diminishing returns. A spell that takes control of a player belongs
-- to a group; each hit of a group makes the next one of that group shorter. Times are nanoseconds.
pub mod Groups
pub mod Levels
pub mod Durations
use moreno_go_moreno_core.Common.{
  ℕ, ◌+◌, ◌-◌, ◌*◌, ◌/◌, ◌%◌, ◌^◌, Bool, true, false, ◌&&◌, not, List, [], ◌∷◌, ltb, leb, ◌==◌,
  if◌then◌else◌, Option, none, some, get_or, set, map,
}
use moreno_go_moreno_core.World.Diminishing.Groups.{
  group_of, is_group_duration_limited, diminishing_none, diminishing_limit_only, diminishing_max,
}

-- A time that was never set is `none`.
pub record DiminishingReturn : Type 0 where
  pub hit_count : ℕ
  pub stack : ℕ
  pub hit_time : Option ℕ

abbrev pub no_return : DiminishingReturn
no_return = record { hit_count = 0; stack = 0; hit_time = none }

-- The array of a session, one entry to a group.
abbrev pub Returns : Type 0
Returns = List DiminishingReturn

abbrev pub level_immune : ℕ
level_immune = 3

abbrev pub duration_limit : ℕ
duration_limit = 10000

abbrev pub reset_duration : ℕ
reset_duration = 15000000000

-- `time.Since(t) > diminishingResetDuration`, of a time that was set.
abbrev pub past_reset : ℕ → Option ℕ → Bool
past_reset now none = false
past_reset now (some t) = ltb (t + reset_duration) now

unfoldable pub get_diminishing : ℕ → ℕ → Returns → ℕ × Returns
get_diminishing now group ds =
    let dim = get_or ds group no_return in
    if leb diminishing_max group
    then (0, ds)
    else if dim.hit_count == 0
    then (0, ds)
    else if dim.stack == 0 && past_reset now dim.hit_time
    then (0, set ds group (record dim { hit_count = 0 }))
    else (dim.hit_count, ds)

unfoldable pub incr_diminishing : ℕ → ℕ → Returns → Returns
incr_diminishing now group ds =
    let (level, ds') = get_diminishing now group ds in
    let dim = get_or ds' group no_return in
    if leb diminishing_max group
    then ds
    else if ltb level level_immune
    then set ds' group (record dim { hit_count = level + 1 })
    else ds'

unfoldable pub apply_diminishing_aura : ℕ → ℕ → Bool → Returns → Returns
apply_diminishing_aura now group apply ds =
    let dim = get_or ds group no_return in
    let down = record dim {
      stack = dim.stack - 1;
      hit_time = if dim.stack - 1 == 0 then some now else dim.hit_time;
    } in
    if leb diminishing_max group
    then ds
    else if apply
    then set ds group (record dim { stack = (dim.stack + 1) % 2 ^ 16 })
    else if ltb 0 dim.stack
    then set ds group down
    else ds

unfoldable pub clear_diminishings : Returns → Returns
clear_diminishings ds = map (λ d. no_return) ds

-- `float32(n)` for a word of 32 bits: 24 bits are kept, the last one rounded to even.
unfoldable pub round_to : ℕ → ℕ → ℕ
round_to u n =
    let q = n / u in
    let r = n % u in
    let up = if q % 2 == 0 then q else q + 1 in
    (if ltb (2 * r) u then q else if ltb u (2 * r) then q + 1 else up) * u

unfoldable pub float32 : ℕ → ℕ
unfolding round_to
float32 n =
    if ltb n (2 ^ 24)
    then n
    else if ltb n (2 ^ 25)
    then round_to 2 n
    else if ltb n (2 ^ 26)
    then round_to 4 n
    else if ltb n (2 ^ 27)
    then round_to 8 n
    else if ltb n (2 ^ 28)
    then round_to 16 n
    else if ltb n (2 ^ 29)
    then round_to 32 n
    else if ltb n (2 ^ 30)
    then round_to 64 n
    else if ltb n (2 ^ 31)
    then round_to 128 n
    else round_to 256 n

-- `uint32(float32(n) * mod)`, where `mod` is a number of quarters: such a product is exact. Of a
-- product past 32 bits the language leaves the conversion to the machine: that is `overflowed`.
unfoldable pub scale : ℕ → ℕ → ℕ → ℕ
unfolding float32
scale overflowed n quarters =
    let p = float32 n * quarters / 4 in if ltb p (2 ^ 32) then p else overflowed

-- The `switch` on the level.
unfoldable pub level_quarters : ℕ → ℕ
level_quarters level =
    if level == 0
    then 4
    else if level == 1
    then 2
    else if level == 2
    then 1
    else if level == 3
    then 0
    else 4

unfoldable pub capped : ℕ → ℕ → Bool → ℕ
capped group duration pvp =
    if pvp && is_group_duration_limited group && ltb duration_limit duration
    then duration_limit
    else duration

-- The group, the duration and whether the spell takes hold.
unfoldable pub apply_diminishing_to_duration :
    ℕ → ℕ → ℕ → ℕ → ℕ → Bool → Returns → (ℕ × ℕ × Bool) × Returns
apply_diminishing_to_duration overflowed now spell mechanic duration pvp ds =
    let group = group_of spell mechanic in
    let limited = capped group duration pvp in
    let (level, ds') = get_diminishing now group ds in
    let shorter = scale overflowed limited (level_quarters level) in
    if group == diminishing_none
    then ((diminishing_none, duration, true), ds)
    else if duration == 0
    then ((diminishing_none, duration, true), ds)
    else if group == diminishing_limit_only
    then ((group, limited, true), ds)
    else if shorter == 0
    then ((group, 0, false), ds')
    else ((group, shorter, true), ds')
