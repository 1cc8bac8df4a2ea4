-- ===== src/Protocol/Mask/Laws.antt =====
-- pkg/protocol/updates.go, UpdateMask: a mask is a set of field indices below its size.
use moreno_go_moreno_core.Common.{
  ℕ, zero, suc, ◌+◌, ◌-◌, ◌/◌, ◌%◌, ◌^◌, ◌<◌, ◌≡◌, ◌≢◌, refl, ap, inl, inr, false, not, ◌||◌, ◌&&◌,
  List, arith, leb, ◌==◌, if◌then◌else◌, length, get_or, set, replicate, bit_and, bit_or, Option,
  none, some, length-replicate, length-set, get_or-set_self, get_or-set_ne, Bool-cases, ==→eq,
  ==→ne, lt→leb,
}
use moreno_go_moreno_core.Common.Bits.{
  bit, bit-bit_or_pow_self, bit-bit_or_pow_ne, bit-clear_self, bit-clear_ne, bit-zero, test-pow,
}
use moreno_go_moreno_core.Protocol.Buffer.{ℤ, pos, negsuc}
use moreno_go_moreno_core.Protocol.Mask.{
  UpdateMask, new_update_mask, set_field, clear_field, has_field,
}

-- There is a word for every 32 fields, the last one maybe in part.
abbrev pub IsValid : UpdateMask → Type 0
IsValid m = length m.bits ≡ (m.fields + 31) / 32

abbrev pub AllValid : Option UpdateMask → Type 0
AllValid none = Unit
AllValid (some m) = IsValid m

-- Making a mask, setting and clearing keep the number of words and of fields right.
pub mask-IsValid :
    (size index : ℤ) (m : UpdateMask)
    → IsValid m
    → IsValid (new_update_mask size)
      × AllValid (set_field (some m) index)
      × AllValid (clear_field (some m) index)
unfolding new_update_mask set_field clear_field
mask-IsValid (negsuc n) (negsuc i) m v = (refl, tt, tt)
mask-IsValid (pos n) (negsuc i) m v = (length-replicate ((n + 31) / 32) 0, tt, tt)
mask-IsValid (negsuc n) (pos i) m v = ground (
  arith,
  length-set m.bits (i / 32) (bit_or (get_or m.bits (i / 32) 0) (2 ^ (i % 32))),
  length-set m.bits (i / 32)
      (get_or m.bits (i / 32) 0 - bit_and (get_or m.bits (i / 32) 0) (2 ^ (i % 32))),
)
mask-IsValid (pos n) (pos i) m v = ground (
  arith,
  length-replicate {A = ℕ} ((n + 31) / 32) 0,
  length-set m.bits (i / 32) (bit_or (get_or m.bits (i / 32) 0) (2 ^ (i % 32))),
  length-set m.bits (i / 32)
      (get_or m.bits (i / 32) 0 - bit_and (get_or m.bits (i / 32) 0) (2 ^ (i % 32))),
)

-- The bit of a field.
abbrev bit_of : List ℕ → ℕ → ℕ
bit_of bits j = bit (j % 32) (get_or bits (j / 32) 0)

has_field-bit :
    (m : UpdateMask) (j : ℕ)
    → has_field (some m) (pos j) ≡ (if leb m.fields j then false else not (bit_of m.bits j == 0))
unfolding has_field
has_field-bit m j = rw (test-pow (j % 32) (get_or m.bits (j / 32) 0))

word_ne : (i j : ℕ) → i ≢ j → i / 32 ≡ j / 32 → j % 32 ≢ i % 32
word_ne i j h e = omega arith

-- A write to the word of field `i` that keeps its other bits keeps the other fields.
bit_of-set_ne :
    (bits : List ℕ) (i j w : ℕ)
    → i / 32 < length bits
    → i ≢ j
    → (j % 32 ≢ i % 32 → bit (j % 32) w ≡ bit (j % 32) (get_or bits (i / 32) 0))
    → bit_of (set bits (i / 32) w) j ≡ bit_of bits j
bit_of-set_ne bits i j w h n k = elim (Bool-cases (i / 32 == j / 32)) [
  | inl e ↦
      let q : i / 32 ≡ j / 32 = ==→eq (i / 32) (j / 32) e in
      rw (← q) (rw (get_or-set_self bits (i / 32) w 0 h) (k (word_ne i j n q)))
  | inr e ↦ ap (bit (j % 32)) (get_or-set_ne bits (i / 32) (j / 32) w 0 (==→ne (i / 32) (j / 32) e))
]

in_words : (m : UpdateMask) (i : ℕ) → IsValid m → i < m.fields → i / 32 < length m.bits
in_words m i v h = omega arith

get_or-replicate : (n k z : ℕ) → get_or (replicate n z) k z ≡ z
get_or-replicate zero k z = refl
get_or-replicate (suc n) zero z = refl
get_or-replicate (suc n) (suc k) z = get_or-replicate n k z

-- A new mask, of any size, has no field at any index.
pub has_field-new : (size index : ℤ) → has_field (some (new_update_mask size)) index ≡ false
unfolding new_update_mask has_field
has_field-new (negsuc n) (negsuc i) = refl
has_field-new (negsuc n) (pos i) = ground arith
has_field-new (pos n) (negsuc i) = refl
has_field-new (pos n) (pos i) =
    rw (get_or-replicate ((n + 31) / 32) (i / 32) 0)
      (ground (arith, test-pow (i % 32) 0, bit-zero (i % 32)))

-- Setting a field of a mask that has room for it adds that field and keeps the others.
pub has_field-set_field :
    (m : UpdateMask) (i j : ℕ)
    → IsValid m
    → i < m.fields
    → has_field (set_field (some m) (pos i)) (pos j) ≡ (i == j || has_field (some m) (pos j))
unfolding set_field
has_field-set_field m i j v h =
    let w = bit_or (get_or m.bits (i / 32) 0) (2 ^ (i % 32)) in
    let m' : UpdateMask = record m { bits = set m.bits (i / 32) w } in
    rw (lt→leb m.fields i h, has_field-bit m j, has_field-bit m' j)
      (elim (Bool-cases (i == j)) [
        | inl e ↦
            let q : i ≡ j = ==→eq i j e in
            rw (e, ← q)
              (rw (
                lt→leb m.fields i h,
                get_or-set_self m.bits (i / 32) w 0 (in_words m i v h),
                bit-bit_or_pow_self (i % 32) (get_or m.bits (i / 32) 0),
              ))
        | inr e ↦ rw (
          e,
          bit_of-set_ne m.bits i j w (in_words m i v h) (==→ne i j e)
              (bit-bit_or_pow_ne (j % 32) (i % 32) (get_or m.bits (i / 32) 0)),
        )
      ])

-- Clearing a field of a mask that has room for it removes that field and keeps the others.
pub has_field-clear_field :
    (m : UpdateMask) (i j : ℕ)
    → IsValid m
    → i < m.fields
    → has_field (clear_field (some m) (pos i)) (pos j)
      ≡ (not (i == j) && has_field (some m) (pos j))
unfolding clear_field
has_field-clear_field m i j v h =
    let a = get_or m.bits (i / 32) 0 in
    let w = a - bit_and a (2 ^ (i % 32)) in
    let m' : UpdateMask = record m { bits = set m.bits (i / 32) w } in
    rw (lt→leb m.fields i h, has_field-bit m j, has_field-bit m' j)
      (elim (Bool-cases (i == j)) [
        | inl e ↦
            let q : i ≡ j = ==→eq i j e in
            rw (e, ← q)
              (rw (
                lt→leb m.fields i h,
                get_or-set_self m.bits (i / 32) w 0 (in_words m i v h),
                bit-clear_self (i % 32) a,
              ))
        | inr e ↦ rw (
          e,
          bit_of-set_ne m.bits i j w (in_words m i v h) (==→ne i j e)
              (bit-clear_ne (j % 32) (i % 32) a),
        )
      ])
