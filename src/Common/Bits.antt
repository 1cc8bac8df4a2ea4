-- ===== src/Common/Bits.antt =====
-- The bits of a number, and what `|` and `&` with a shifted operand do to them.
use Prim.Native.Nat.{
  ℕ, zero, suc, ◌+◌, ◌-◌, ◌*◌, ◌/◌, ◌%◌, ◌^◌, ◌≤◌, ◌<◌, min, max, bit_and, bit_or, digits,
  bit_and-bitwise, bit_or-bitwise,
}
use mathlib.Core.Path.{◌≡◌, refl, ap, sym, ◌∙◌}
use mathlib.Core.Logic.{◌≢◌}
use native.Mathlib.Omega.{arith}
use native.Mathlib.Nat.{pow-suc}
use moreno_go_moreno_core.Common.Tests.{◌==◌}

-- An operation on the digits of two numbers: `both` of a digit of each, and `last` of what is left
-- of the second one once the first has run out.
module _ (last : ℕ → ℕ) (both : ℕ → ℕ → ℕ) where
  run_out : (rounds y : ℕ) → digits last both rounds zero y ≡ last y
  run_out zero y = refl
  run_out (suc rounds) y = refl

  next_digit : ℕ → ℕ → ℕ → ℕ
  next_digit x y rest = rest * 2 + both (x % 2) (y % 2)

  -- More rounds than the first number has digits make no difference.
  spare_rounds :
      (few many x y : ℕ)
      → x ≤ few
      → few ≤ many
      → digits last both many x y ≡ digits last both few x y
  unfolding next_digit
  spare_rounds few many zero y h k = run_out many y ∙ sym (run_out few y)
  spare_rounds zero many (suc x) y h k = absurd (omega (arith, h))
  spare_rounds (suc few) zero (suc x) y h k = absurd (omega (arith, k))
  spare_rounds (suc few) (suc many) (suc x) y h k =
      ap (next_digit (suc x) y)
        (spare_rounds few many (suc x / 2) (y / 2) (omega (arith, h)) (omega (arith, k)))

  halves :
      (x y : ℕ)
      → digits last both (suc x) (suc x) y
        ≡ digits last both (suc x / 2) (suc x / 2) (y / 2) * 2 + both (suc x % 2) (y % 2)
  unfolding next_digit
  halves x y =
      let h : suc x / 2 ≤ x = omega arith in
      ap (next_digit (suc x) y) (spare_rounds (suc x / 2) x (suc x / 2) (y / 2) (omega arith) h)

pub zero-bit_or : (y : ℕ) → bit_or 0 y ≡ y
zero-bit_or y = bit_or-bitwise 0 y

pub bit_and_step : (x y : ℕ) → bit_and x y ≡ bit_and (x / 2) (y / 2) * 2 + min (x % 2) (y % 2)
bit_and_step zero y = omega (arith, bit_and-bitwise 0 y, bit_and-bitwise 0 (y / 2))
bit_and_step (suc x) y =
    let low = bit_and-bitwise (suc x / 2) (y / 2) in
    bit_and-bitwise (suc x) y
    ∙ halves (λ b. zero) min x y
    ∙ ap (λ (d : ℕ). d * 2 + min (suc x % 2) (y % 2)) (sym low)

pub bit_or_step : (x y : ℕ) → bit_or x y ≡ bit_or (x / 2) (y / 2) * 2 + max (x % 2) (y % 2)
bit_or_step zero y = omega (arith, zero-bit_or y, zero-bit_or (y / 2))
bit_or_step (suc x) y =
    let low = bit_or-bitwise (suc x / 2) (y / 2) in
    bit_or-bitwise (suc x) y
    ∙ halves (λ b. b) max x y
    ∙ ap (λ (d : ℕ). d * 2 + max (suc x % 2) (y % 2)) (sym low)

-- The second number is 0.
and_nothing : (rounds x : ℕ) → digits (λ b. zero) min rounds x 0 ≡ 0
and_nothing zero x = refl
and_nothing (suc rounds) zero = refl
and_nothing (suc rounds) (suc x) = omega (arith, and_nothing rounds (suc x / 2))

pub bit_and-zero : (x : ℕ) → bit_and x 0 ≡ 0
bit_and-zero x = bit_and-bitwise x 0 ∙ and_nothing x x

or_nothing : (rounds x : ℕ) → x ≤ rounds → digits (λ b. b) max rounds x 0 ≡ x
or_nothing rounds zero h = run_out (λ b. b) max rounds 0
or_nothing zero (suc x) h = absurd (omega (arith, h))
or_nothing (suc rounds) (suc x) h = omega (arith, or_nothing rounds (suc x / 2) (omega (arith, h)))

pub bit_or-zero : (x : ℕ) → bit_or x 0 ≡ x
bit_or-zero x = let enough : x ≤ x = omega arith in bit_or-bitwise x 0 ∙ or_nothing x x enough

-- The bit at a position, 0 or 1.
abbrev pub bit : ℕ → ℕ → ℕ
bit zero a = a % 2
bit (suc k) a = bit k (a / 2)

-- `|` with a number that is shifted past all the bits of the other one adds it.
pub bit_or-disjoint : (k a b : ℕ) → a < 2 ^ k → bit_or a (b * 2 ^ k) ≡ a + b * 2 ^ k
bit_or-disjoint zero zero b h = omega (arith, zero-bit_or (b * 2 ^ 0))
bit_or-disjoint zero (suc a) b h = absurd (omega arith)
bit_or-disjoint (suc k) a b h =
    let e : 2 ^ suc k ≡ 2 ^ k * 2 = pow-suc 2 k in
    let d : b * 2 ^ suc k ≡ (b * 2 ^ k) * 2 = omega (arith, ap (λ (t : ℕ). b * t) e) in
    rw d (
      omega (
        arith,
        bit_or_step a ((b * 2 ^ k) * 2),
        ap (bit_or (a / 2)) (let q : (b * 2 ^ k) * 2 / 2 ≡ b * 2 ^ k = omega arith in q),
        bit_or-disjoint k (a / 2) b (omega arith),
      ))

pow_half : (k : ℕ) → 2 ^ suc k / 2 ≡ 2 ^ k
pow_half k = omega (arith, pow-suc 2 k)

pub bit_and-pow : (k a : ℕ) → bit_and a (2 ^ k) ≡ bit k a * 2 ^ k
bit_and-pow zero a = omega (arith, bit_and_step a 1, bit_and-zero (a / 2))
bit_and-pow (suc k) a = omega (
  arith,
  bit_and_step a (2 ^ suc k),
  ap (bit_and (a / 2)) (pow_half k),
  bit_and-pow k (a / 2),
  pow-suc 2 k,
  ap (λ (t : ℕ). bit k (a / 2) * t) (pow-suc 2 k),
)

pub bit-bit_or_pow_self : (k a : ℕ) → bit k (bit_or a (2 ^ k)) ≡ 1
bit-bit_or_pow_self zero a = omega (arith, bit_or_step a 1)
bit-bit_or_pow_self (suc k) a =
    let e : bit_or a (2 ^ suc k) / 2 ≡ bit_or (a / 2) (2 ^ k) =
      omega (arith, bit_or_step a (2 ^ suc k), ap (bit_or (a / 2)) (pow_half k)) in
    rw e (bit-bit_or_pow_self k (a / 2))

pub bit-bit_or_pow_ne : (j k a : ℕ) → j ≢ k → bit j (bit_or a (2 ^ k)) ≡ bit j a
bit-bit_or_pow_ne zero zero a h = absurd (h refl)
bit-bit_or_pow_ne zero (suc k) a h = omega (arith, bit_or_step a (2 ^ suc k), pow-suc 2 k)
bit-bit_or_pow_ne (suc j) zero a h =
    let e : bit_or a 1 / 2 ≡ a / 2 = omega (arith, bit_or_step a 1, bit_or-zero (a / 2)) in
    ap (bit j) e
bit-bit_or_pow_ne (suc j) (suc k) a h =
    let e : bit_or a (2 ^ suc k) / 2 ≡ bit_or (a / 2) (2 ^ k) =
      omega (arith, bit_or_step a (2 ^ suc k), ap (bit_or (a / 2)) (pow_half k)) in
    rw e (bit-bit_or_pow_ne j k (a / 2) (λ q. h (ap suc q)))

pub bit-zero : (k : ℕ) → bit k 0 ≡ 0
bit-zero zero = refl
bit-zero (suc k) = bit-zero k

pub bit-le : (k a : ℕ) → bit k a ≤ 1
bit-le zero a = omega arith
bit-le (suc k) a = bit-le k (a / 2)

pub pow-pos : (k : ℕ) → 0 < 2 ^ k
pow-pos zero = omega arith
pow-pos (suc k) = omega (arith, pow-suc 2 k, pow-pos k)

-- A number has no bits past its size.
pub bit_past : (k a : ℕ) → a < 2 ^ k → bit k a ≡ 0
bit_past zero a h = omega arith
bit_past (suc k) a h = bit_past k (a / 2) (omega (arith, pow-suc 2 k))

-- `a &^ (1 << k)` clears one bit.
pub bit-clear_self : (k a : ℕ) → bit k (a - bit_and a (2 ^ k)) ≡ 0
bit-clear_self zero a = omega (arith, bit_and-pow 0 a)
bit-clear_self (suc k) a =
    let e : (a - bit_and a (2 ^ suc k)) / 2 ≡ a / 2 - bit_and (a / 2) (2 ^ k) =
      omega (arith, bit_and_step a (2 ^ suc k), pow-suc 2 k, ap (bit_and (a / 2)) (pow_half k)) in
    rw e (bit-clear_self k (a / 2))

bit_and-le_pow : (k a : ℕ) → bit_and a (2 ^ k) ≤ a
bit_and-le_pow zero a = omega (arith, bit_and-pow 0 a)
bit_and-le_pow (suc k) a = omega (
  arith,
  bit_and_step a (2 ^ suc k),
  pow-suc 2 k,
  ap (bit_and (a / 2)) (pow_half k),
  bit_and-le_pow k (a / 2),
)

pub bit-clear_ne : (j k a : ℕ) → j ≢ k → bit j (a - bit_and a (2 ^ k)) ≡ bit j a
bit-clear_ne zero zero a h = absurd (h refl)
bit-clear_ne zero (suc k) a h =
    let e : bit_and a (2 ^ suc k) ≡ bit_and (a / 2) (2 ^ k) * 2 =
      omega (arith, bit_and_step a (2 ^ suc k), pow-suc 2 k, ap (bit_and (a / 2)) (pow_half k)) in
    rw e (omega (arith, bit_and-le_pow k (a / 2)))
bit-clear_ne (suc j) zero a h =
    let e : (a - bit_and a 1) / 2 ≡ a / 2 = omega (arith, bit_and-pow 0 a) in ap (bit j) e
bit-clear_ne (suc j) (suc k) a h =
    let e : (a - bit_and a (2 ^ suc k)) / 2 ≡ a / 2 - bit_and (a / 2) (2 ^ k) =
      omega (arith, bit_and_step a (2 ^ suc k), pow-suc 2 k, ap (bit_and (a / 2)) (pow_half k)) in
    rw e (bit-clear_ne j k (a / 2) (λ q. h (ap suc q)))

bit_or_comm_fuel : (n a b : ℕ) → a ≤ n → b ≤ n → bit_or a b ≡ bit_or b a
bit_or_comm_fuel zero zero zero h k = refl
bit_or_comm_fuel zero zero (suc b) h k = absurd (omega arith)
bit_or_comm_fuel zero (suc a) b h k = absurd (omega arith)
bit_or_comm_fuel (suc n) a b h k = omega (
  arith,
  bit_or_step a b,
  bit_or_step b a,
  bit_or_comm_fuel n (a / 2) (b / 2) (omega arith) (omega arith),
)

pub bit_or_comm : (a b : ℕ) → bit_or a b ≡ bit_or b a
bit_or_comm a b = bit_or_comm_fuel (a + b) a b (omega arith) (omega arith)

-- `(q << k) | r` is a sum where `r` has at most `k` bits.
pub bit_or-fields : (k q r : ℕ) → r < 2 ^ k → bit_or (q * 2 ^ k) r ≡ q * 2 ^ k + r
bit_or-fields k q r h = omega (arith, bit_or_comm (q * 2 ^ k) r, bit_or-disjoint k r q h)

-- The top bit that is there already changes nothing.
pub bit_or-top : (k x : ℕ) → x < 2 ^ k → bit_or (2 ^ k) (2 ^ k + x) ≡ 2 ^ k + x
bit_or-top zero zero h = refl
bit_or-top zero (suc x) h = absurd (omega arith)
bit_or-top (suc k) x h =
    let q : (2 ^ suc k + x) / 2 ≡ 2 ^ k + x / 2 = omega (arith, pow-suc 2 k) in
    omega (
      arith,
      bit_or_step (2 ^ suc k) (2 ^ suc k + x),
      ap (λ (t : ℕ). bit_or t ((2 ^ suc k + x) / 2)) (pow_half k),
      ap (bit_or (2 ^ k)) q,
      bit_or-top k (x / 2) (omega (arith, pow-suc 2 k)),
      pow-suc 2 k,
    )

mul-pow_test : (x i : ℕ) → x ≤ 1 → (x * 2 ^ i == 0) ≡ (x == 0)
mul-pow_test zero i h = ground arith
mul-pow_test (suc zero) i h = ground (arith, pow-pos i)
mul-pow_test (suc (suc x)) i h = absurd (omega arith)

-- To test a bit by `&` is to look whether it is 0.
pub test-pow : (i m : ℕ) → (bit_and m (2 ^ i) == 0) ≡ (bit i m == 0)
test-pow i m = rw (bit_and-pow i m) (mul-pow_test (bit i m) i (bit-le i m))
