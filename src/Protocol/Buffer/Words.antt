-- ===== src/Protocol/Buffer/Words.antt =====
-- pkg/protocol/buffer.go, the fixed-size values and texts: what is written is read back, and what
-- a read does when there are too few bytes.
use moreno_go_moreno_core.Common.{
  ℕ, ◌+◌, ◌*◌, ◌^◌, ◌<◌, ◌≡◌, refl, subst, List, [], ◌∷◌, ◌++◌, arith, length, append_assoc,
  length-append,
}
use moreno_go_moreno_core.Protocol.Buffer.{
  Buffer, done, M, ◌>>=◌, pure, int_limit, le_bytes, len, ℤ, pos, negsuc, to_word, from_word,
  read_word, read_u8, read_u16, read_u32, read_u64, read_i8, read_i16, read_i32, read_i64,
  read_cstring, write_u8, write_u16, write_u32, write_u64, write_i8, write_i16, write_i32,
  write_i64, write_cstring,
}
use moreno_go_moreno_core.Protocol.Buffer.Reads.{
  Reads, read_word-Reads, Reads-after, placed, NoZero, read_cstring-Reads,
}

pub u8-Reads : (v : ℕ) → Reads read_u8 (v ∷ []) v
unfolding read_u8
u8-Reads v =
    subst (λ (x : ℕ). Reads (read_word 1) (v ∷ []) x) (omega arith) (read_word-Reads (v ∷ []))

pub u16-Reads : (v : ℕ) → v < 2 ^ 16 → Reads read_u16 (le_bytes 2 v) v
unfolding read_u16
u16-Reads v h =
    subst (λ (x : ℕ). Reads (read_word 2) (le_bytes 2 v) x) (omega arith)
      (read_word-Reads (le_bytes 2 v))

pub u32-Reads : (v : ℕ) → v < 2 ^ 32 → Reads read_u32 (le_bytes 4 v) v
unfolding read_u32
u32-Reads v h =
    subst (λ (x : ℕ). Reads (read_word 4) (le_bytes 4 v) x) (omega arith)
      (read_word-Reads (le_bytes 4 v))

pub u64-Reads : (v : ℕ) → v < 2 ^ 64 → Reads read_u64 (le_bytes 8 v) v
unfolding read_u64
u64-Reads v h =
    subst (λ (x : ℕ). Reads (read_word 8) (le_bytes 8 v) x) (omega arith)
      (read_word-Reads (le_bytes 8 v))

-- What the writes add to the bytes.
pub write_u8-bytes : (v : ℕ) (b : Buffer) → write_u8 v b ≡ record b { bytes = b.bytes ++ v ∷ [] }
unfolding write_u8
write_u8-bytes v b = refl

pub write_u32-bytes :
    (v : ℕ) (b : Buffer) → write_u32 v b ≡ record b { bytes = b.bytes ++ le_bytes 4 v }
unfolding write_u32
write_u32-bytes v b = refl

pub write_u64-bytes :
    (v : ℕ) (b : Buffer) → write_u64 v b ≡ record b { bytes = b.bytes ++ le_bytes 8 v }
unfolding write_u64
write_u64-bytes v b = refl

module _ (b : Buffer) (post : List ℕ) where
  -- What `m` reads from the end of `b`, after `w` has written there.
  abbrev pub BackAfter {ℓ} : {A : Type ℓ} → (Buffer → Buffer) → M A → A → ℕ → Type ℓ
  BackAfter w m v n = m (placed (w b) post (len b)) ≡ done v (placed (w b) post (len b + n))

-- Each of the unsigned words of 8, 16, 32 and 64 bits that is written after any bytes, and
-- followed by any bytes, is read back from where it was written, and the read moves on by the
-- word's size, provided that the buffer's length is a Go `int`.
pub read_words-write_words :
    (b : Buffer) (post : List ℕ) (v8 v16 v32 v64 : ℕ)
    → v16 < 2 ^ 16
    → v32 < 2 ^ 32
    → v64 < 2 ^ 64
    → len b + 8 + length post < int_limit
    → BackAfter b post (write_u8 v8) read_u8 v8 1
      × BackAfter b post (write_u16 v16) read_u16 v16 2
      × BackAfter b post (write_u32 v32) read_u32 v32 4
      × BackAfter b post (write_u64 v64) read_u64 v64 8
unfolding write_u8 write_u16 write_u32 write_u64
read_words-write_words b post v8 v16 v32 v64 h16 h32 h64 h = (
  Reads-after read_u8 (v8 ∷ []) v8 b post 1 (u8-Reads v8) refl (omega arith),
  Reads-after read_u16 (le_bytes 2 v16) v16 b post 2 (u16-Reads v16 h16) refl (omega arith),
  Reads-after read_u32 (le_bytes 4 v32) v32 b post 4 (u32-Reads v32 h32) refl (omega arith),
  Reads-after read_u64 (le_bytes 8 v64) v64 b post 8 (u64-Reads v64 h64) refl (omega arith),
)

-- A Go integer of `w` bits.
abbrev pub Fits : ℕ → ℤ → Type 0
Fits w (pos n) = 2 * n < 2 ^ w
Fits w (negsuc n) = 2 * n < 2 ^ w

signed_value8 : (v : ℤ) → Fits 8 v → from_word 8 (to_word 8 v) ≡ v
signed_value8 (pos n) h = ground arith
signed_value8 (negsuc n) h = ground arith

signed_value16 : (v : ℤ) → Fits 16 v → from_word 16 (to_word 16 v) ≡ v
signed_value16 (pos n) h = ground arith
signed_value16 (negsuc n) h = ground arith

signed_value32 : (v : ℤ) → Fits 32 v → from_word 32 (to_word 32 v) ≡ v
signed_value32 (pos n) h = ground arith
signed_value32 (negsuc n) h = ground arith

signed_value64 : (v : ℤ) → Fits 64 v → from_word 64 (to_word 64 v) ≡ v
signed_value64 (pos n) h = ground arith
signed_value64 (negsuc n) h = ground arith

to_word-lt : (w : ℕ) (v : ℤ) → 0 < 2 ^ w → to_word w v < 2 ^ w
to_word-lt w (pos n) h = grind arith
to_word-lt w (negsuc n) h = omega arith

-- A word's reader, followed by the change of sign.
signed-Reads :
    (w : ℕ) (m : M ℕ) (enc : List ℕ) (v : ℤ)
    → Reads m enc (to_word w v)
    → from_word w (to_word w v) ≡ v
    → Reads (m >>= λ x. pure (from_word w x)) enc v
signed-Reads w m enc v r e pre post h = rw (r pre post h, ◌>>=◌, e)

-- The same of the signed words: each is written in two's complement and read back.
pub read_ints-write_ints :
    (b : Buffer) (post : List ℕ) (v8 v16 v32 v64 : ℤ)
    → Fits 8 v8
    → Fits 16 v16
    → Fits 32 v32
    → Fits 64 v64
    → len b + 8 + length post < int_limit
    → BackAfter b post (write_i8 v8) read_i8 v8 1
      × BackAfter b post (write_i16 v16) read_i16 v16 2
      × BackAfter b post (write_i32 v32) read_i32 v32 4
      × BackAfter b post (write_i64 v64) read_i64 v64 8
unfolding write_i8 write_i16 write_i32 write_i64 read_i8 read_i16 read_i32 read_i64
read_ints-write_ints b post v8 v16 v32 v64 h8 h16 h32 h64 h = (
  Reads-after read_i8 (to_word 8 v8 ∷ []) v8 b post 1
      (signed-Reads 8 read_u8 _ v8 (u8-Reads _) (signed_value8 v8 h8)) refl (omega arith),
  Reads-after read_i16 (le_bytes 2 (to_word 16 v16)) v16 b post 2
      (signed-Reads 16 read_u16 _ v16 (u16-Reads _ (to_word-lt 16 v16 (omega arith)))
        (signed_value16 v16 h16))
      refl (omega arith),
  Reads-after read_i32 (le_bytes 4 (to_word 32 v32)) v32 b post 4
      (signed-Reads 32 read_u32 _ v32 (u32-Reads _ (to_word-lt 32 v32 (omega arith)))
        (signed_value32 v32 h32))
      refl (omega arith),
  Reads-after read_i64 (le_bytes 8 (to_word 64 v64)) v64 b post 8
      (signed-Reads 64 read_u64 _ v64 (u64-Reads _ (to_word-lt 64 v64 (omega arith)))
        (signed_value64 v64 h64))
      refl (omega arith),
)

pub write_cstring-bytes :
    (s : List ℕ) (b : Buffer) → write_cstring s b ≡ record b { bytes = b.bytes ++ (s ++ 0 ∷ []) }
unfolding write_cstring
write_cstring-bytes s b = λ i. record b { bytes = append_assoc b.bytes s (0 ∷ []) i }

-- A text with no zero byte that is written with its end mark is read back, and the read ends
-- behind the mark, whatever follows it.
pub read_cstring-write_cstring :
    (s : List ℕ) (b : Buffer) (post : List ℕ)
    → NoZero s
    → len b + (length s + 1) + length post < int_limit
    → BackAfter b post (write_cstring s) read_cstring s (length s + 1)
read_cstring-write_cstring s b post nz h = rw (write_cstring-bytes s b) (
    Reads-after read_cstring (s ++ 0 ∷ []) s b post (length s + 1) (read_cstring-Reads s nz)
      (omega (arith, length-append s (0 ∷ []))) h)
