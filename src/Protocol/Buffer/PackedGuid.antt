-- ===== src/Protocol/Buffer/PackedGuid.antt =====
-- pkg/protocol/buffer.go, WritePackedGUID and ReadPackedGUID: a mask of the bytes that are not 0,
-- then those bytes.
use native.Mathlib.Nat.{pow-suc}
use native.Mathlib.Numerals.{towards_suc}
use moreno_go_moreno_core.Common.{
  ℕ, suc, ◌+◌, ◌*◌, ◌^◌, ◌<◌, ◌≤◌, ◌≡◌, refl, sym, ap, subst, ◌∙◌, inl, inr, true, false, List, [],
  ◌∷◌, ◌++◌, arith, length, All, length-append, append_assoc, append-nil, ==→eq, ◌==◌,
  if◌then◌else◌, bit_and, bit_or, Bool-cases,
}
use moreno_go_moreno_core.Common.Bits.{
  bit, bit-bit_or_pow_self, bit-bit_or_pow_ne, bit_or-disjoint, bit_past, test-pow,
}
use moreno_go_moreno_core.Protocol.Buffer.{
  Buffer, done, int_limit, from_le, le_bytes, read_u8, guid_mask, guid_parts, guid_loop,
  read_packed_guid, write_packed_guid, len,
}
use moreno_go_moreno_core.Protocol.Buffer.Reads.{
  Reads, read_word-Reads, >>=-Reads, Reads-after, placed,
}

abbrev IsByte : ℕ → Type 0
IsByte b = b < 256

-- The mask has the bit of each byte that is not 0, and no bit of one that is.
abbrev Matches : ℕ → ℕ → List ℕ → Type 0
Matches mask i [] = Unit
Matches mask i (b ∷ bs) = ((bit_and mask (2 ^ i) == 0) ≡ (b == 0)) × Matches mask (suc i) bs

-- The loop leaves the bits below its index.
bit-guid_mask : (j i : ℕ) (bs : List ℕ) (m : ℕ) → j < i → bit j (guid_mask i bs m) ≡ bit j m
unfolding guid_mask
bit-guid_mask j i [] m h = refl
bit-guid_mask j i (b ∷ bs) m h =
    bit-guid_mask j (suc i) bs (if b == 0 then m else bit_or m (2 ^ i)) (omega arith)
    ∙ elim (Bool-cases (b == 0)) [
      | inl e ↦ rw e
      | inr e ↦ rw e (bit-bit_or_pow_ne j i m (omega arith))
    ]

next_mask-lt : (i b m : ℕ) → m < 2 ^ i → (if b == 0 then m else bit_or m (2 ^ i)) < 2 ^ suc i
next_mask-lt i b m h = ground (arith, pow-suc 2 i, bit_or-disjoint i m 1)

head-Matches :
    (i b : ℕ) (bs : List ℕ) (m : ℕ)
    → m < 2 ^ i
    → (bit_and (guid_mask i (b ∷ bs) m) (2 ^ i) == 0) ≡ (b == 0)
unfolding guid_mask
head-Matches i b bs m h =
    rw
      (
        test-pow i (guid_mask (suc i) bs (if b == 0 then m else bit_or m (2 ^ i))),
        bit-guid_mask i (suc i) bs (if b == 0 then m else bit_or m (2 ^ i)) (omega arith),
      )
      (elim (Bool-cases (b == 0)) [
        | inl e ↦ rw (e, bit_past i m h) refl
        | inr e ↦ rw (e, bit-bit_or_pow_self i m) refl
      ])

guid_mask-Matches : (i : ℕ) (bs : List ℕ) (m : ℕ) → m < 2 ^ i → Matches (guid_mask i bs m) i bs
unfolding guid_mask
guid_mask-Matches i [] m h = tt
guid_mask-Matches i (b ∷ bs) m h =
    (head-Matches i b bs m h, guid_mask-Matches (suc i) bs _ (next_mask-lt i b m h))

read_u8-Reads : (b : ℕ) → Reads read_u8 (b ∷ []) b
unfolding read_u8
read_u8-Reads b pre post h = read_word-Reads (b ∷ []) pre post h ∙ ground arith

pow-bytes : (i : ℕ) → 2 ^ (8 * suc i) ≡ 256 * 2 ^ (8 * i)
pow-bytes i = let e : 8 * suc i ≡ 8 * i + 8 = omega arith in rw e (simp towards_suc (omega arith))

below_next :
    (i b value : ℕ)
    → b < 256
    → value < 2 ^ (8 * i)
    → bit_or value (b * 2 ^ (8 * i)) < 2 ^ (8 * suc i)
below_next i b value hb hv = rw (bit_or-disjoint (8 * i) value b hv, pow-bytes i) (grind arith)

parts_skip :
    (mask i b : ℕ) (bs : List ℕ)
    → (bit_and mask (2 ^ i) == 0) ≡ true
    → guid_parts mask i (b ∷ bs) ≡ guid_parts mask (suc i) bs
unfolding guid_parts
parts_skip mask i b bs e = rw e

parts_take :
    (mask i b : ℕ) (bs : List ℕ)
    → (bit_and mask (2 ^ i) == 0) ≡ false
    → guid_parts mask i (b ∷ bs) ≡ b ∷ guid_parts mask (suc i) bs
unfolding guid_parts
parts_take mask i b bs e = rw e

-- The loop adds up the bytes that the mask announces.
guid_loop-Reads :
    (bs : List ℕ) (i mask value : ℕ)
    → All IsByte bs
    → Matches mask i bs
    → value < 2 ^ (8 * i)
    → Reads
        (guid_loop (length bs) i mask value)
        (guid_parts mask i bs)
        (value + from_le bs * 2 ^ (8 * i))
unfolding guid_loop guid_parts
guid_loop-Reads [] i mask value hb hm hv pre post h = ground (arith, append-nil pre)
guid_loop-Reads (b ∷ bs) i mask value hb hm hv pre post h =
    elim (Bool-cases (bit_and mask (2 ^ i) == 0)) [
      | inl e ↦
          let z : b ≡ 0 = ==→eq b 0 (sym hm.0 ∙ e) in
          let v : value + (b + 256 * from_le bs) * 2 ^ (8 * i)
              ≡ value + from_le bs * 2 ^ (8 * suc i) =
            rw z (omega (arith, ap (λ (t : ℕ). from_le bs * t) (pow-bytes i))) in
          rw (e, v)
            (guid_loop-Reads bs (suc i) mask value hb.1 hm.1 (omega (arith, pow-bytes i)) pre post
              (rw (parts_skip mask i b bs e) at h))
      | inr e ↦
          let w : bit_or value (b * 2 ^ (8 * i)) ≡ value + b * 2 ^ (8 * i) =
            bit_or-disjoint (8 * i) value b hv in
          let v : value + (b + 256 * from_le bs) * 2 ^ (8 * i)
              ≡ bit_or value (b * 2 ^ (8 * i)) + from_le bs * 2 ^ (8 * suc i) =
            omega (arith, w, ap (λ (t : ℕ). from_le bs * t) (pow-bytes i)) in
          rw (e, v)
            (>>=-Reads read_u8
              (λ part. guid_loop (length bs) (suc i) mask (bit_or value (part * 2 ^ (8 * i))))
              (b ∷ []) (guid_parts mask (suc i) bs) b _ (read_u8-Reads b)
              (guid_loop-Reads bs (suc i) mask (bit_or value (b * 2 ^ (8 * i))) hb.1 hm.1
                (below_next i b value hb.0 hv))
              pre post (rw (parts_take mask i b bs e) at h))
    ]

-- The bytes that the packed form of `v` has: the mask and the parts that are not 0.
pub packed : ℕ → List ℕ
packed v = guid_mask 0 (le_bytes 8 v) 0 ∷ guid_parts (guid_mask 0 (le_bytes 8 v) 0) 0 (le_bytes 8 v)

le_bytes-All : (v : ℕ) → All IsByte (le_bytes 8 v)
le_bytes-All v = omega arith

from_le-le_bytes : (v : ℕ) → v < 2 ^ 64 → 0 + from_le (le_bytes 8 v) * 2 ^ (8 * 0) ≡ v
from_le-le_bytes v h = omega arith

pub read_packed_guid-Reads : (v : ℕ) → v < 2 ^ 64 → Reads read_packed_guid (packed v) v
unfolding read_packed_guid packed
read_packed_guid-Reads v h =
    let bs = le_bytes 8 v in
    let mask = guid_mask 0 bs 0 in
    >>=-Reads read_u8 (λ m. guid_loop 8 0 m 0) (mask ∷ []) (guid_parts mask 0 bs) mask v
      (read_u8-Reads mask)
      (subst (λ (r : ℕ). Reads (guid_loop 8 0 mask 0) (guid_parts mask 0 bs) r)
        (from_le-le_bytes v h)
        (guid_loop-Reads bs 0 mask 0 (le_bytes-All v) (guid_mask-Matches 0 bs 0 (omega arith))
          (omega arith)))

pub write_packed_guid-bytes :
    (v : ℕ) (b : Buffer) → write_packed_guid v b ≡ record b { bytes = b.bytes ++ packed v }
unfolding write_packed_guid packed
write_packed_guid-bytes v b = λ i. record b {
  bytes =
      append_assoc b.bytes (guid_mask 0 (le_bytes 8 v) 0 ∷ [])
        (guid_parts (guid_mask 0 (le_bytes 8 v) 0) 0 (le_bytes 8 v)) i;
}

guid_parts-le : (mask i : ℕ) (bs : List ℕ) → length (guid_parts mask i bs) ≤ length bs
unfolding guid_parts
guid_parts-le mask i [] = omega arith
guid_parts-le mask i (b ∷ bs) = ground (arith, guid_parts-le mask (suc i) bs)

-- The packed form of a guid has 1 to 9 bytes.
pub packed_size : (v : ℕ) → (1 ≤ length (packed v)) × (length (packed v) ≤ 9)
unfolding packed
packed_size v = omega (arith, guid_parts-le (guid_mask 0 (le_bytes 8 v) 0) 0 (le_bytes 8 v))

-- A guid of 64 bits that is written in packed form after any bytes, and followed by any bytes, is
-- read back from where it was written, and the read ends where the write did, at most 9 bytes
-- further on, provided that the buffer's length is a Go `int`.
pub read_packed_guid-write_packed_guid :
    (v : ℕ) (b : Buffer) (post : List ℕ)
    → v < 2 ^ 64
    → len b + 9 + length post < int_limit
    → let w = write_packed_guid v b in
      (read_packed_guid (placed w post (len b)) ≡ done v (placed w post (len w)))
      × (len b < len w)
      × (len w ≤ len b + 9)
read_packed_guid-write_packed_guid v b post hv h =
    let size : len (record b { bytes = b.bytes ++ packed v }) ≡ len b + length (packed v) =
      length-append b.bytes (packed v) in
    rw (write_packed_guid-bytes v b) (
      (rw size (
          Reads-after read_packed_guid (packed v) v b post (length (packed v))
            (read_packed_guid-Reads v hv) refl (omega (arith, packed_size v)))),
      omega (arith, size, packed_size v),
      omega (arith, size, packed_size v),
    )
