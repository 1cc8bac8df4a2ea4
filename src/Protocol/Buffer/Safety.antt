-- ===== src/Protocol/Buffer/Safety.antt =====
-- pkg/protocol/buffer.go: no read of a packet goes out of the packet, whatever its bytes are.
use moreno_go_moreno_core.Common.{
  take, take-append-drop, length-take_le, sym, ℕ, zero, suc, ◌+◌, ◌*◌, ◌^◌, ◌<◌, ◌≤◌, ◌≡◌, refl, ap,
  ◌∙◌, ◌⊎◌, inl, inr, List, [], ◌∷◌, ◌++◌, arith, length, drop, ◌==◌, not, ltb, Bool-cases, bit_and,
  bit_or, lt→leb,
}
use moreno_go_moreno_core.Protocol.Buffer.{
  negsuc, unexpected_eof, Buffer, Outcome, done, fail, panic, M, pure, int_limit, len, pos, read, ℤ,
  from_word, read_word, read_u8, read_u16, read_u32, read_u64, read_i8, read_i16, read_i32,
  read_i64, read_bool, read_string, read_cstring, scan_cstring, guid_loop, read_packed_guid,
  from_le,
}

-- The bytes are the same ones, and the position has not moved back or out of them.
pub record Extends (b b' : Buffer) : Type 0 where
  pub same : b'.bytes ≡ b.bytes
  pub forward : b.pos ≤ b'.pos
  pub inside : b'.pos ≤ len b

abbrev pub Safe {ℓ} : {A : Type ℓ} → Buffer → Outcome A → Type 0
Safe b (done a b') = Extends b b'
Safe b (fail e b') = Extends b b'
Safe b panic = ⊥

stay : (b : Buffer) → b.pos ≤ len b → Extends b b
stay b h = record { same = refl; forward = omega arith; inside = h }

read-Safe : (n : ℕ) (b : Buffer) → b.pos ≤ len b → len b + n < int_limit → Safe b (read (pos n) b)
unfolding read
read-Safe n b h r =
    rw (lt→leb int_limit (b.pos + n) (omega arith)) (elim (Bool-cases (ltb (len b) (b.pos + n))) [
      | inl e ↦ rw e (stay b h)
      | inr e ↦ rw e (record { same = refl; forward = omega arith; inside = ground arith })
    ])

step-Safe {ℓ κ} :
    {A : Type ℓ} {B : Type κ} (b : Buffer) (o : Outcome A) (f : A → M B)
    → Safe b o
    → ((a : A) (b' : Buffer) → Extends b b' → Safe b (f a b'))
    → Safe b (elim o [ done a b' ↦ f a b' | fail e b' ↦ fail e b' | panic ↦ panic ])
step-Safe b (done a b') f s k = k a b' s
step-Safe b (fail e b') f s k = s
step-Safe b panic f s k = s

then_Extends : (b c d : Buffer) → Extends b c → Extends c d → Extends b d
then_Extends b c d x y = record {
  same = y.same ∙ x.same;
  forward = omega arith;
  inside = omega (arith, ap length x.same);
}

widen {ℓ} : {A : Type ℓ} (b c : Buffer) (o : Outcome A) → Extends b c → Safe c o → Safe b o
widen b c (done a d) x s = then_Extends b c d x s
widen b c (fail e d) x s = then_Extends b c d x s
widen b c panic x s = s

read_word-Safe :
    (n : ℕ) (b : Buffer) → b.pos ≤ len b → len b + n < int_limit → Safe b (read_word n b)
unfolding read_word
read_word-Safe n b h r =
    step-Safe b (read (pos n) b) (λ bs. pure (from_le bs)) (read-Safe n b h r) (λ a b' x. x)

guid_loop-Safe :
    (n i mask value : ℕ) (b : Buffer)
    → b.pos ≤ len b
    → len b + 1 < int_limit
    → Safe b (guid_loop n i mask value b)
unfolding guid_loop read_u8
guid_loop-Safe zero i mask value b h r = stay b h
guid_loop-Safe (suc n) i mask value b h r = elim (Bool-cases (bit_and mask (2 ^ i) == 0)) [
  | inl e ↦ rw e (guid_loop-Safe n (suc i) mask value b h r)
  | inr e ↦ rw e (
      step-Safe b (read_word 1 b)
        (λ part. guid_loop n (suc i) mask (bit_or value (part * 2 ^ (8 * i))))
        (read_word-Safe 1 b h r)
        (λ part b' x. widen b b' _ x (
          guid_loop-Safe n (suc i) mask (bit_or value (part * 2 ^ (8 * i))) b'
            (omega (arith, ap length x.same)) (omega (arith, ap length x.same)))))
]

packed-Safe : (b : Buffer) → b.pos ≤ len b → len b + 1 < int_limit → Safe b (read_packed_guid b)
unfolding read_packed_guid read_u8
packed-Safe b h r =
    step-Safe b (read_word 1 b) (λ mask. guid_loop 8 0 mask 0) (read_word-Safe 1 b h r)
      (λ mask b' x. widen b b' _ x (
        guid_loop-Safe 8 0 mask 0 b' (omega (arith, ap length x.same))
          (omega (arith, ap length x.same))))

scan-Safe :
    (acc cs : List ℕ) (b : Buffer) (i : ℕ)
    → b.pos ≤ i
    → i + length cs ≤ len b
    → Safe b (scan_cstring acc cs b i)
unfolding scan_cstring
scan-Safe acc [] b i h k = stay b (omega arith)
scan-Safe acc (c ∷ cs) b i h k = elim (Bool-cases (c == 0)) [
  | inl e ↦ rw e (record { same = refl; forward = omega arith; inside = omega arith })
  | inr e ↦ rw e (scan-Safe (acc ++ c ∷ []) cs b (suc i) (omega arith) (omega arith))
]

length-drop : (n : ℕ) (xs : List ℕ) → n ≤ length xs → n + length (drop n xs) ≡ length xs
length-drop zero xs h = omega arith
length-drop (suc n) [] h = absurd (omega arith)
length-drop (suc n) (x ∷ xs) h = omega (arith, length-drop n xs (omega arith))

cstring-Safe : (b : Buffer) → b.pos ≤ len b → Safe b (read_cstring b)
unfolding read_cstring
cstring-Safe b h =
    scan-Safe [] (drop b.pos b.bytes) b b.pos (omega arith)
      (omega (arith, length-drop b.pos b.bytes h))

-- The size where it is not negative.
abbrev pub magnitude : ℤ → ℕ
magnitude (pos n) = n
magnitude (negsuc n) = 0

sized-Safe :
    (n : ℤ) (b : Buffer) → b.pos ≤ len b → len b + magnitude n < int_limit → Safe b (read n b)
unfolding read
sized-Safe (pos n) b h r = read-Safe n b h r
sized-Safe (negsuc n) b h r = stay b h

map-Safe {ℓ κ} :
    {A : Type ℓ} {B : Type κ} (b : Buffer) (o : Outcome A) (f : A → B)
    → Safe b o
    → Safe b (elim o [ done a b' ↦ done (f a) b' | fail e b' ↦ fail e b' | panic ↦ panic ])
map-Safe b o f s = step-Safe b o (λ a. pure (f a)) s (λ a b' x. x)

-- From a position inside the buffer, the reads of an unsigned word, of a signed word, of a bool, of
-- a text that ends with a zero, of a packed guid, and of bytes or of a text of a given size each
-- give a value or fail, and never panic. In both cases the bytes stay as they are and the position
-- stays inside them and does not move back. The buffer's length with 8 is below 2 ^ 63, and so it is
-- with the given size, where that is not negative.
pub reads_Safe :
    (b : Buffer) (size : ℤ)
    → b.pos ≤ len b
    → len b + 8 < int_limit
    → len b + magnitude size < int_limit
    → Safe b (read_u8 b)
      × Safe b (read_u16 b)
      × Safe b (read_u32 b)
      × Safe b (read_u64 b)
      × Safe b (read_i8 b)
      × Safe b (read_i16 b)
      × Safe b (read_i32 b)
      × Safe b (read_i64 b)
      × Safe b (read_bool b)
      × Safe b (read_cstring b)
      × Safe b (read_packed_guid b)
      × Safe b (read size b)
      × Safe b (read_string size b)
unfolding read_u8 read_u16 read_u32 read_u64 read_i8 read_i16 read_i32 read_i64 read_bool
    read_string
reads_Safe b size h r k =
    let word = λ (n : ℕ) (m : n ≤ 8). read_word-Safe n b h (omega arith) in
    (
      word 1 (omega arith),
      word 2 (omega arith),
      word 4 (omega arith),
      word 8 (omega arith),
      map-Safe b (read_word 1 b) (from_word 8) (word 1 (omega arith)),
      map-Safe b (read_word 2 b) (from_word 16) (word 2 (omega arith)),
      map-Safe b (read_word 4 b) (from_word 32) (word 4 (omega arith)),
      map-Safe b (read_word 8 b) (from_word 64) (word 8 (omega arith)),
      map-Safe b (read_word 1 b) (λ v. not (v == 0)) (word 1 (omega arith)),
      cstring-Safe b h,
      packed-Safe b h (omega arith),
      sized-Safe size b h k,
      sized-Safe size b h k,
    )

-- The bytes behind the position are enough for a read of `n`: they are its value, and the position
-- moves behind them.
abbrev pub Reads : Buffer → ℕ → Type 0
Reads b n =
    (pre : List ℕ) × (value : List ℕ) × (post : List ℕ) × (b.bytes ≡ pre ++ (value ++ post))
    × (length pre ≡ b.pos)
    × (length value ≡ n)
    × (read (pos n) b ≡ done value (record b { pos = b.pos + n }))

read-Reads : (b : Buffer) (n : ℕ) → b.pos + n ≤ len b → len b < int_limit → Reads b n
unfolding read
read-Reads b n k h =
    let behind = drop b.pos b.bytes in
    let enough : n ≤ length behind = omega (arith, length-drop b.pos b.bytes (omega arith)) in
    (
      take b.pos b.bytes,
      take n behind,
      drop n behind,
      sym (
          ap (λ (ys : List ℕ). take b.pos b.bytes ++ ys) (take-append-drop n behind)
          ∙ take-append-drop b.pos b.bytes),
      length-take_le b.pos b.bytes (omega arith),
      length-take_le n behind enough,
      ground arith,
    )

-- A read of a given size, from any position in a buffer of fewer than 2 ^ 63 bytes, has one of three
-- outcomes. The bytes are there: they are the value, and the position moves behind them. They are
-- not there: the read fails and the buffer stays. Position and size add up to 2 ^ 63 or more: the sum
-- wraps to a negative number, passes the test, and the slice panics. A negative size fails.
pub read_outcomes :
    (b : Buffer) (n : ℕ)
    → len b < int_limit
    → (((b.pos + n ≤ len b) × Reads b n)
        ⊎ (((len b < b.pos + n)
              × (b.pos + n < int_limit)
              × (read (pos n) b ≡ fail unexpected_eof b))
            ⊎ ((int_limit ≤ b.pos + n) × (read (pos n) b ≡ panic))))
      × (read (negsuc n) b ≡ fail unexpected_eof b)
unfolding read
read_outcomes b n h = (
  elim (Bool-cases (ltb (len b) (b.pos + n))) [
    | inr k ↦ let fits : b.pos + n ≤ len b = ground arith in inl (fits, read-Reads b n fits h)
    | inl k ↦ elim (Bool-cases (ltb (b.pos + n) int_limit)) [
      | inr w ↦ inr (inr (ground arith, ground arith))
      | inl f ↦ inr (inl (ground arith, ground arith, ground arith))
    ]
  ],
  refl,
)
