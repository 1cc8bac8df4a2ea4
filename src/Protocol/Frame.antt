-- ===== src/Protocol/Frame.antt =====
-- pkg/protocol/world.go: the frames around a packet, from the server and from the client.
pub mod Server
pub mod Client
use moreno_go_moreno_core.Common.{
  ℕ, zero, suc, ◌+◌, ◌-◌, ◌*◌, ◌/◌, ◌%◌, ◌^◌, ◌≡◌, Bool, true, false, List, [], ◌∷◌, ◌++◌, ltb, leb,
  ◌==◌, not, ◌||◌, if◌then◌else◌, length, take, drop, bit_or, Option, none, some,
}
use moreno_go_moreno_core.Protocol.Buffer.{le_bytes, from_le}

pub data FrameError : Type 0 where
  too_large bad_header_length bad_size eof unexpected_eof decrypt_failed : FrameError

pub data Result {ℓ} (A : Type ℓ) : Type ℓ where
  ok : A → Result A
  err : FrameError → Result A

-- The frame and the size of its header; the sizes are those of `byte(...)` conversions.
unfoldable pub encode_server_frame : ℕ → List ℕ → Result (List ℕ × ℕ)
encode_server_frame opcode payload =
    let size = length payload + 2 in
    let long =
      bit_or 0x80 (size / 65536 % 256)
      ∷ (size / 256 % 256)
      ∷ (size % 256)
      ∷ (le_bytes 2 opcode ++ payload) in
    let short = (size / 256 % 256) ∷ (size % 256) ∷ (le_bytes 2 opcode ++ payload) in
    if ltb 0xffffff size
    then err too_large
    else if ltb 0x7fff size
    then ok (long, 5)
    else ok (short, 4)

abbrev pub client_header_size : ℕ
client_header_size = 6

pub record ClientFrameHeader : Type 0 where
  pub size : ℕ
  pub opcode : ℕ
  pub payload_size : ℕ

unfoldable pub header_fields : List ℕ → ClientFrameHeader
header_fields [] = record { size = 0; opcode = 0; payload_size = 0 }
header_fields (hi ∷ []) = record { size = 0; opcode = 0; payload_size = 0 }
header_fields (hi ∷ lo ∷ rest) = record {
  size = hi * 256 + lo;
  opcode = from_le rest;
  payload_size = hi * 256 + lo - 4;
}

unfoldable pub decode_client_frame_header : List ℕ → Result ClientFrameHeader
unfolding header_fields
decode_client_frame_header header =
    let h = header_fields header in
    if not (length header == client_header_size)
    then err bad_header_length
    else if ltb h.size 4 || leb 10240 h.size
    then err bad_size
    else ok h

-- `io.ReadFull` on a stream that gives the bytes of a list and then ends: the bytes that were
-- asked for and what is left of the stream. A read that falls short has taken what there was.
unfoldable pub read_full : ℕ → List ℕ → Result (List ℕ) × List ℕ
read_full n stream =
    if leb n (length stream)
    then (ok (take n stream), drop n stream)
    else (err (if length stream == 0 then eof else unexpected_eof), [])

-- `decrypt` is the caller's; `none` of the outer kind is the nil function.
abbrev pub Decrypt : Type 0
Decrypt = Option (List ℕ → Option (List ℕ))

unfoldable pub decrypt_header : Decrypt → List ℕ → Result (List ℕ)
decrypt_header none header = ok header
decrypt_header (some f) header = elim (f header) [ none ↦ err decrypt_failed | some h ↦ ok h ]

unfoldable pub read_payload :
    ClientFrameHeader → Result (List ℕ) × List ℕ → Result (ClientFrameHeader × List ℕ) × List ℕ
read_payload h (ok payload, rest) = (ok (h, payload), rest)
read_payload h (err e, rest) = (err e, rest)

unfoldable pub read_parsed :
    Result ClientFrameHeader → List ℕ → Result (ClientFrameHeader × List ℕ) × List ℕ
unfolding read_payload read_full
read_parsed (err e) stream = (err e, stream)
read_parsed (ok h) stream = read_payload h (read_full h.payload_size stream)

unfoldable pub read_decrypted :
    Result (List ℕ) → List ℕ → Result (ClientFrameHeader × List ℕ) × List ℕ
unfolding read_parsed decode_client_frame_header
read_decrypted (err e) stream = (err e, stream)
read_decrypted (ok header) stream = read_parsed (decode_client_frame_header header) stream

unfoldable pub read_header :
    Decrypt → Result (List ℕ) × List ℕ → Result (ClientFrameHeader × List ℕ) × List ℕ
unfolding read_decrypted decrypt_header
read_header decrypt (err e, stream) = (err e, stream)
read_header decrypt (ok header, stream) = read_decrypted (decrypt_header decrypt header) stream

unfoldable pub read_client_frame : Decrypt → List ℕ → Result (ClientFrameHeader × List ℕ) × List ℕ
unfolding read_header read_full
read_client_frame decrypt stream = read_header decrypt (read_full client_header_size stream)
