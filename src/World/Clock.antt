-- ===== src/World/Clock.antt =====
-- engine/world/battleground_ab.go and battleground_eots.go: an int64 of milliseconds, held as its word
-- in two's complement. A word of 2 ^ 63 or more is a negative time.
use moreno_go_moreno_core.Common.{
  ℕ, ◌+◌, ◌/◌, ◌%◌, ◌^◌, ◌≤◌, ◌<◌, ◌≡◌, Bool, true, false, ◌&&◌, ltb, leb, if◌then◌else◌, refl,
  arith, le→leb, lt→leb, lt→ltb, le→ltb,
}

-- The sum of two times, which wraps.
abbrev pub later_ms : ℕ → ℕ → ℕ
later_ms accum elapsed = (accum + elapsed) % 2 ^ 64

-- The comparison `time >= interval` of int64, for an interval that is not negative.
abbrev pub at_least : ℕ → ℕ → Bool
at_least interval time = leb interval time && ltb time (2 ^ 63)

-- How often an interval fits into a time, and what is then left: a negative time holds none.
abbrev pub intervals : ℕ → ℕ → ℕ
intervals interval time = if ltb time (2 ^ 63) then time / interval else 0

abbrev pub remaining : ℕ → ℕ → ℕ
remaining interval time = if ltb time (2 ^ 63) then time % interval else time

pub enough_time :
    (interval time : ℕ) → interval ≤ time → time < 2 ^ 63 → at_least interval time ≡ true
enough_time interval time h b = rw (le→leb interval time h, lt→ltb time (2 ^ 63) b) refl

pub too_little : (interval time : ℕ) → time < interval → at_least interval time ≡ false
too_little interval time h = rw (lt→leb interval time h) refl

pub negative_time : (interval time : ℕ) → 2 ^ 63 ≤ time → at_least interval time ≡ false
negative_time interval time h = ground (arith, le→ltb time (2 ^ 63) h)
