-- ===== src/Protocol/Frame/Client.antt =====
-- pkg/protocol/world.go, ReadClientFrame: what a client sends, frame after frame, is what is read.
use moreno_go_moreno_core.Common.{
  ℕ, ◌+◌, ◌-◌, ◌/◌, ◌%◌, ◌^◌, ◌<◌, ◌≤◌, ◌≡◌, refl, ◌∙◌, subst, List, [], ◌∷◌, ◌++◌, arith, length,
  drop, le→leb, take-append, drop-append, take-append-drop, length-take_le, length-append, Option,
  some, append_assoc,
}
use moreno_go_moreno_core.Protocol.Buffer.{le_bytes}
use moreno_go_moreno_core.Protocol.Frame.{
  Result, ok, err, ClientFrameHeader, Decrypt, decode_client_frame_header, read_full, read_header,
  read_parsed, read_decrypted, decrypt_header, read_payload, header_fields, read_client_frame,
}

-- A packet as a client means it.
pub record ClientPacket : Type 0 where
  pub opcode : ℕ
  pub payload : List ℕ

-- The header that a client sends: the size of opcode and payload, the high byte first, and the
-- opcode, the low byte first.
pub client_header : ClientPacket → List ℕ
client_header p =
    ((length p.payload + 4) / 256) ∷ ((length p.payload + 4) % 256) ∷ le_bytes 4 p.opcode

abbrev pub IsPacket : ClientPacket → Type 0
IsPacket p = (p.opcode < 2 ^ 32) × (length p.payload + 4 < 10240)

-- What is read of the packet.
abbrev pub frame_of : ClientPacket → ClientFrameHeader × List ℕ
frame_of p = (
  record { size = length p.payload + 4; opcode = p.opcode; payload_size = length p.payload },
  p.payload,
)

decode-client_header :
    (p : ClientPacket)
    → IsPacket p
    → decode_client_frame_header (client_header p) ≡ ok (frame_of p).0
unfolding decode_client_frame_header client_header
decode-client_header p h = ground arith

read_full-append : (xs rest : List ℕ) → read_full (length xs) (xs ++ rest) ≡ (ok xs, rest)
unfolding read_full
read_full-append xs rest = rw (
  le→leb (length xs) (length (xs ++ rest)) (omega (arith, length-append xs rest)),
  take-append xs rest,
  drop-append xs rest,
)

header_size : (p : ClientPacket) → length (client_header p) ≡ 6
unfolding client_header
header_size p = refl

module _ (encrypt : List ℕ → List ℕ) (decrypt : List ℕ → Option (List ℕ)) where
  -- The bytes on the wire: the header encrypted, the payload as it is.
  pub wire : ClientPacket → List ℕ
  wire p = encrypt (client_header p) ++ p.payload

  -- Where the caller's `decrypt` undoes the client's `encrypt`, which keeps the size of a header,
  -- the bytes of a packet are read as that packet, and what follows them is left in the stream.
  pub read_client_frame-wire :
      ((h : List ℕ) → decrypt (encrypt h) ≡ some h)
      → ((h : List ℕ) → length (encrypt h) ≡ length h)
      → (p : ClientPacket) (rest : List ℕ) → IsPacket p
      → read_client_frame (some decrypt) (wire p ++ rest) ≡ (ok (frame_of p), rest)
  unfolding wire read_client_frame
  read_client_frame-wire undo size p rest h =
      let n : length (encrypt (client_header p)) ≡ 6 = size (client_header p) ∙ header_size p in
      rw (
        append_assoc (encrypt (client_header p)) p.payload rest,
        (subst
            (λ (k : ℕ).
              read_full k (encrypt (client_header p) ++ (p.payload ++ rest))
              ≡ (ok (encrypt (client_header p)), p.payload ++ rest))
            n (read_full-append (encrypt (client_header p)) (p.payload ++ rest))),
        undo (client_header p),
        decode-client_header p h,
        read_full-append p.payload rest,
      )

read_full-ok :
    (n : ℕ) (stream xs rest : List ℕ)
    → read_full n stream ≡ (ok xs, rest)
    → (length xs ≡ n) × (stream ≡ xs ++ rest) × (rest ≡ drop n stream)
unfolding read_full
read_full-ok n stream xs rest e = ground (arith, take-append-drop n stream, length-take_le n stream)

-- What a header that was accepted says.
abbrev HeaderFits : ClientFrameHeader → Type 0
HeaderFits h = (4 ≤ h.size) × (h.size < 10240) × (h.payload_size + 4 ≡ h.size)

fields-size : (bs : List ℕ) → (header_fields bs).payload_size ≡ (header_fields bs).size - 4
unfolding header_fields
fields-size [] = refl
fields-size (a ∷ []) = refl
fields-size (a ∷ b ∷ bs) = refl

decode-HeaderFits :
    (bs : List ℕ) (h : ClientFrameHeader) → decode_client_frame_header bs ≡ ok h → HeaderFits h
unfolding decode_client_frame_header
decode-HeaderFits bs h e = ground (arith, fields-size bs)

abbrev Sound : List ℕ → Result (ClientFrameHeader × List ℕ) × List ℕ → Type 0
Sound stream (err e, rest) = Unit
Sound stream (ok (h, payload), rest) =
    (4 ≤ h.size) × (h.size < 10240) × (length payload + 4 ≡ h.size) × (stream ≡ payload ++ rest)

payload_Sound :
    (h : ClientFrameHeader) (stream : List ℕ) (r : Result (List ℕ) × List ℕ)
    → HeaderFits h
    → read_full h.payload_size stream ≡ r
    → Sound stream (read_payload h r)
unfolding read_payload
payload_Sound h stream (err e, rest) f q = tt
payload_Sound h stream (ok xs, rest) f q =
    let (l, s, _) = read_full-ok h.payload_size stream xs rest q in (f.0, f.1, omega arith, s)

parsed_Sound :
    (bs stream : List ℕ) (r : Result ClientFrameHeader)
    → decode_client_frame_header bs ≡ r
    → Sound stream (read_parsed r stream)
unfolding read_parsed
parsed_Sound bs stream (err e) q = tt
parsed_Sound bs stream (ok h) q =
    payload_Sound h stream (read_full h.payload_size stream) (decode-HeaderFits bs h q) refl

decrypted_Sound : (stream : List ℕ) (r : Result (List ℕ)) → Sound stream (read_decrypted r stream)
unfolding read_decrypted
decrypted_Sound stream (err e) = tt
decrypted_Sound stream (ok bs) = parsed_Sound bs stream (decode_client_frame_header bs) refl

header_Sound :
    (decrypt : Decrypt) (stream : List ℕ) (r : Result (List ℕ) × List ℕ)
    → read_full 6 stream ≡ r
    → Sound (drop 6 stream) (read_header decrypt r)
unfolding read_header
header_Sound decrypt stream (err e, rest) q = tt
header_Sound decrypt stream (ok bs, rest) q =
    let (_, _, d) = read_full-ok 6 stream bs rest q in
    subst (λ (s : List ℕ). Sound s (read_decrypted (decrypt_header decrypt bs) rest)) d
      (decrypted_Sound rest (decrypt_header decrypt bs))

-- Whatever a stream holds and whatever `decrypt` makes of its first six bytes, a frame that is
-- read has a size from 4 to 10239, which counts the payload and the opcode, and the payload and
-- the rest of the stream are what stood behind those six bytes.
pub read_client_frame_sound :
    (decrypt : Decrypt) (stream rest payload : List ℕ) (h : ClientFrameHeader)
    → read_client_frame decrypt stream ≡ (ok (h, payload), rest)
    → (4 ≤ h.size)
      × (h.size < 10240)
      × (length payload + 4 ≡ h.size)
      × (drop 6 stream ≡ payload ++ rest)
unfolding read_client_frame
read_client_frame_sound decrypt stream rest payload h e =
    subst (Sound (drop 6 stream)) e (header_Sound decrypt stream (read_full 6 stream) refl)
