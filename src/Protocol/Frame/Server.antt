-- ===== src/Protocol/Frame/Server.antt =====
-- pkg/protocol/world.go, EncodeServerFrame, against the way a client reads a server's header.
use moreno_go_moreno_core.Common.{
  ℕ, ◌+◌, ◌-◌, ◌*◌, ◌/◌, ◌%◌, ◌<◌, ◌≤◌, ◌≡◌, ap, List, [], ◌∷◌, ◌++◌, arith, leb, if◌then◌else◌,
  length, drop, bit_or,
}
use moreno_go_moreno_core.Common.Bits.{bit_or-fields, bit_or-top}
use moreno_go_moreno_core.Protocol.Buffer.{le_bytes}
use moreno_go_moreno_core.Protocol.Frame.{Result, ok, err, encode_server_frame}

-- What a client makes of the first bytes: the size that they announce and the size of the header
-- without the opcode. A first byte of 128 or more marks a size of three bytes.
pub announced : List ℕ → ℕ × ℕ
announced [] = (0, 0)
announced (a ∷ []) = (0, 0)
announced (a ∷ b ∷ []) = (a * 256 + b, 2)
announced (a ∷ b ∷ c ∷ rest) =
    if leb 128 a then ((a - 128) * 65536 + b * 256 + c, 3) else (a * 256 + b, 2)

-- `r` is a frame whose header has the size that is given with it, which announces the bytes that
-- stand behind the size, and there stand the opcode and the payload.
abbrev pub Announces : Result (List ℕ × ℕ) → ℕ → List ℕ → Type 0
Announces (err e) opcode payload = ⊥
Announces (ok (frame, header)) opcode payload =
    ((announced frame).0 ≡ length payload + 2)
    × ((announced frame).1 + 2 ≡ header)
    × (drop (announced frame).1 frame ≡ le_bytes 2 opcode ++ payload)

-- A payload of less than 0x800000 - 2 bytes is framed so that a client reads the right size, of
-- opcode and payload together, and finds the opcode and the payload behind it.
pub encode_server_frame-Announces :
    (opcode : ℕ) (payload : List ℕ)
    → length payload + 2 < 0x800000
    → Announces (encode_server_frame opcode payload) opcode payload
unfolding encode_server_frame announced
encode_server_frame-Announces opcode payload h =
    ground (arith, bit_or-fields 7 1 ((length payload + 2) / 65536 % 256) (omega arith))

top_byte : (n : ℕ) → 128 ≤ n → n < 256 → bit_or 128 n ≡ n
top_byte n h k = omega (
  arith,
  bit_or-top 7 (n - 128) (omega arith),
  ap (bit_or 128) (let q : 128 + (n - 128) ≡ n = omega arith in q),
)

-- A payload from 0x800000 - 2 bytes up to the limit is framed too, but the mark of the long form
-- takes the place of the size's highest bit: a client reads 0x800000 bytes too few.
pub encode_server_frame_ambiguous :
    (opcode : ℕ) (payload : List ℕ)
    → 0x800000 ≤ length payload + 2
    → length payload + 2 ≤ 0xffffff
    → (frame : List ℕ) × (encode_server_frame opcode payload ≡ ok (frame, 5))
      × ((announced frame).0 + 0x800000 ≡ length payload + 2)
unfolding encode_server_frame announced
encode_server_frame_ambiguous opcode payload lo hi = (
  bit_or 0x80 ((length payload + 2) / 65536 % 256)
      ∷ ((length payload + 2) / 256 % 256)
      ∷ ((length payload + 2) % 256)
      ∷ (le_bytes 2 opcode ++ payload),
  ground arith,
  ground (arith, top_byte ((length payload + 2) / 65536 % 256) (omega arith) (omega arith)),
)
