-- ===== src/Protocol/Buffer.antt =====
-- pkg/protocol/buffer.go: the byte buffer of every packet. Bytes and words are numbers, a Go `int`
-- that may be negative is the type `ℤ`, and a text is the list of its bytes.
pub mod Reads
pub mod Words
pub mod PackedGuid
pub mod Safety
use moreno_go_moreno_core.Common.{
  ℕ, zero, suc, ◌+◌, ◌-◌, ◌*◌, ◌/◌, ◌%◌, ◌^◌, ◌≡◌, Bool, true, false, List, [], ◌∷◌, ◌++◌, ltb, leb,
  ◌==◌, if◌then◌else◌, length, take, drop, bit_and, bit_or, not,
}

pub record Buffer : Type 0 where
  pub bytes : List ℕ
  pub pos : ℕ

pub data Error : Type 0 where
  unexpected_eof position_range put_range : Error

-- What a method leaves: a value and the buffer, an error and the buffer, or a run-time panic.
pub data Outcome {ℓ} (A : Type ℓ) : Type ℓ where
  done : A → Buffer → Outcome A
  fail : Error → Buffer → Outcome A
  panic : Outcome A

-- A method that reads: `fail` and `panic` end the caller, which returns the error at once.
abbrev pub M {ℓ} : Type ℓ → Type ℓ
M A = Buffer → Outcome A

infixl 5 ◌>>=◌
abbrev pub ◌>>=◌ {ℓ κ} : {A : Type ℓ} {B : Type κ} → M A → (A → M B) → M B
◌>>=◌ m f b = elim (m b) [ done a b' ↦ f a b' | fail e b' ↦ fail e b' | panic ↦ panic ]

abbrev pub pure {ℓ} : {A : Type ℓ} → A → M A
pure a b = done a b

-- A Go `int` argument: `negsuc n` is -(n + 1).
pub data ℤ : Type 0 where
  pos : ℕ → ℤ
  negsuc : ℕ → ℤ

-- The length of a slice and the sums of two such lengths stay below this, or wrap.
abbrev pub int_limit : ℕ
int_limit = 2 ^ 63

unfoldable pub new_buffer : Buffer
new_buffer = record { bytes = []; pos = 0 }

unfoldable pub new_reader : List ℕ → Buffer
new_reader bs = record { bytes = bs; pos = 0 }

abbrev pub len : Buffer → ℕ
len b = length b.bytes

unfoldable pub remaining : Buffer → ℤ
remaining b = if leb b.pos (len b) then pos (len b - b.pos) else negsuc (b.pos - len b - 1)

unfoldable pub reset_read : Buffer → Buffer
reset_read b = record b { pos = 0 }

unfoldable pub set_position : ℤ → M (Unit {0})
set_position (negsuc n) b = fail position_range b
set_position (pos n) b =
    if ltb (len b) n then fail position_range b else done tt (record b { pos = n })

unfoldable pub write : List ℕ → Buffer → Buffer
write bs b = record b { bytes = b.bytes ++ bs }

-- `copy(b.data[pos:], data)`, where the test has made room for all of `data`.
unfoldable pub overwrite : List ℕ → ℕ → List ℕ → List ℕ
overwrite xs n ds = take n xs ++ (ds ++ drop (n + length ds) xs)

-- The sum wraps past `int_limit` and is then negative: the test passes and the slice panics.
unfoldable pub put : ℤ → List ℕ → M (Unit {0})
put (negsuc n) ds b = fail put_range b
put (pos n) ds b =
    if leb int_limit (n + length ds)
    then panic
    else if ltb (len b) (n + length ds)
    then fail put_range b
    else done tt (record b { bytes = overwrite b.bytes n ds })

-- The `n` bytes of a word, the lowest first, as `binary.LittleEndian` writes them.
abbrev pub le_bytes : ℕ → ℕ → List ℕ
le_bytes zero v = []
le_bytes (suc n) v = (v % 256) ∷ le_bytes n (v / 256)

abbrev pub from_le : List ℕ → ℕ
from_le [] = 0
from_le (b ∷ bs) = b + 256 * from_le bs

unfoldable pub write_u8 : ℕ → Buffer → Buffer
unfolding write
write_u8 v b = write (v ∷ []) b

unfoldable pub write_bool : Bool → Buffer → Buffer
unfolding write
write_bool v b = write ((if v then 1 else 0) ∷ []) b

unfoldable pub write_u16 : ℕ → Buffer → Buffer
unfolding write
write_u16 v b = write (le_bytes 2 v) b

unfoldable pub write_u32 : ℕ → Buffer → Buffer
unfolding write
write_u32 v b = write (le_bytes 4 v) b

unfoldable pub write_u64 : ℕ → Buffer → Buffer
unfolding write
write_u64 v b = write (le_bytes 8 v) b

-- Two's complement in `w` bits, as the conversions `uint32(int32)` and back read it.
abbrev pub to_word : ℕ → ℤ → ℕ
to_word w (pos n) = n % 2 ^ w
to_word w (negsuc n) = 2 ^ w - 1 - n % 2 ^ w

abbrev pub from_word : ℕ → ℕ → ℤ
from_word w v = if ltb (2 * v) (2 ^ w) then pos v else negsuc (2 ^ w - 1 - v)

unfoldable pub write_i8 : ℤ → Buffer → Buffer
unfolding write_u8
write_i8 v = write_u8 (to_word 8 v)

unfoldable pub write_i16 : ℤ → Buffer → Buffer
unfolding write_u16
write_i16 v = write_u16 (to_word 16 v)

unfoldable pub write_i32 : ℤ → Buffer → Buffer
unfolding write_u32
write_i32 v = write_u32 (to_word 32 v)

unfoldable pub write_i64 : ℤ → Buffer → Buffer
unfolding write_u64
write_i64 v = write_u64 (to_word 64 v)

unfoldable pub write_string : List ℕ → Buffer → Buffer
unfolding write
write_string s b = write s b

unfoldable pub write_cstring : List ℕ → Buffer → Buffer
unfolding write write_u8
write_cstring s b = write_u8 0 (write s b)

-- `mask |= 1 << i` for each byte that is not 0.
unfoldable pub guid_mask : ℕ → List ℕ → ℕ → ℕ
guid_mask i [] mask = mask
guid_mask i (b ∷ bs) mask = guid_mask (suc i) bs (if b == 0 then mask else bit_or mask (2 ^ i))

unfoldable pub guid_parts : ℕ → ℕ → List ℕ → List ℕ
guid_parts mask i [] = []
guid_parts mask i (b ∷ bs) =
    let rest = guid_parts mask (suc i) bs in if bit_and mask (2 ^ i) == 0 then rest else b ∷ rest

unfoldable pub write_packed_guid : ℕ → Buffer → Buffer
unfolding write write_u8
write_packed_guid v b =
    let bs = le_bytes 8 v in
    let mask = guid_mask 0 bs 0 in write (guid_parts mask 0 bs) (write_u8 mask b)

unfoldable pub read : ℤ → M (List ℕ)
read (negsuc n) b = fail unexpected_eof b
read (pos n) b =
    if leb int_limit (b.pos + n)
    then panic
    else if ltb (len b) (b.pos + n)
    then fail unexpected_eof b
    else done (take n (drop b.pos b.bytes)) (record b { pos = b.pos + n })

unfoldable pub read_word : ℕ → M ℕ
read_word n = do bs ← read (pos n); pure (from_le bs)

unfoldable pub read_u8 : M ℕ
unfolding read_word
read_u8 = read_word 1

unfoldable pub read_bool : M Bool
unfolding read_u8
read_bool = do v ← read_u8; pure (not (v == 0))

unfoldable pub read_u16 : M ℕ
unfolding read_word
read_u16 = read_word 2

unfoldable pub read_u32 : M ℕ
unfolding read_word
read_u32 = read_word 4

unfoldable pub read_u64 : M ℕ
unfolding read_word
read_u64 = read_word 8

unfoldable pub read_i8 : M ℤ
unfolding read_u8
read_i8 = do v ← read_u8; pure (from_word 8 v)

unfoldable pub read_i16 : M ℤ
unfolding read_u16
read_i16 = do v ← read_u16; pure (from_word 16 v)

unfoldable pub read_i32 : M ℤ
unfolding read_u32
read_i32 = do v ← read_u32; pure (from_word 32 v)

unfoldable pub read_i64 : M ℤ
unfolding read_u64
read_i64 = do v ← read_u64; pure (from_word 64 v)

unfoldable pub read_string : ℤ → M (List ℕ)
unfolding read
read_string n = read n

-- The bytes before the first 0 of `bs` and how far the position moves, if there is a 0.
unfoldable pub scan_cstring : List ℕ → List ℕ → Buffer → ℕ → Outcome (List ℕ)
scan_cstring acc [] b i = fail unexpected_eof b
scan_cstring acc (c ∷ cs) b i =
    if c == 0
    then done acc (record b { pos = suc i })
    else scan_cstring (acc ++ (c ∷ [])) cs b (suc i)

unfoldable pub read_cstring : M (List ℕ)
unfolding scan_cstring
read_cstring b = scan_cstring [] (drop b.pos b.bytes) b b.pos

-- The loop of `ReadPackedGUID`: `n` rounds are left, the round is for bit `i`.
unfoldable pub guid_loop : ℕ → ℕ → ℕ → ℕ → M ℕ
guid_loop zero i mask value = pure value
guid_loop (suc n) i mask value =
    let more = read_u8 >>= λ part. guid_loop n (suc i) mask (bit_or value (part * 2 ^ (8 * i))) in
    let skip = guid_loop n (suc i) mask value in if bit_and mask (2 ^ i) == 0 then skip else more

unfoldable pub read_packed_guid : M ℕ
unfolding guid_loop read_u8
read_packed_guid = do mask ← read_u8; guid_loop 8 0 mask 0
