-- ===== src/Tests/Wire.antt =====
-- pkg/protocol: packets, frames and masks of a few bytes.
use moreno_go_moreno_core.Common.{
  ◌⊎◌, ℕ, ◌==◌, ◌||◌, ◌+◌, ◌-◌, ap, drop, ◌<◌, ◌≤◌, ◌≡◌, refl, arith, false, List, [], ◌∷◌, ◌++◌,
  length, none, some, replicate, length-replicate,
}
use moreno_go_moreno_core.Protocol.Buffer.{
  guid_mask, guid_parts, read_i8, read_i16, read_i32, read_i64, read_bool, read_string, write,
  read_word, Buffer, done, fail, panic, unexpected_eof, int_limit, pos, negsuc, len, new_reader,
  new_buffer, read, read_packed_guid, write_packed_guid, read_cstring, write_u8, write_u32, read_u8,
  read_u16, read_u32, read_u64,
}
use moreno_go_moreno_core.Protocol.Buffer.Reads.{placed}
use moreno_go_moreno_core.Protocol.Buffer.PackedGuid.{read_packed_guid-write_packed_guid}
use moreno_go_moreno_core.Protocol.Buffer.Safety.{Safe, reads_Safe, Reads, read_outcomes}
use moreno_go_moreno_core.Protocol.Spells.{
  SpellTargetData, no_location, read_spell_target_data, write_spell_target_data,
  write_spell_target_location,
}
use moreno_go_moreno_core.Protocol.Spells.Targets.{IsTarget, named, read_target-write_target}
use moreno_go_moreno_core.Protocol.Auras.{
  AuraUpdateRecord, write_aura_update_record, aura_flags, flag_word,
}
use moreno_go_moreno_core.Protocol.Auras.Updates.{
  read_aura_update_record, seen, IsAura, read_aura-write_aura,
}
use moreno_go_moreno_core.Protocol.Mask.{UpdateMask, set_field, has_field}
use moreno_go_moreno_core.Protocol.Mask.Laws.{has_field-set_field}
use moreno_go_moreno_core.Protocol.Packets.{ThreatEntry, build_threat_update, write_entries}
use moreno_go_moreno_core.Protocol.Packets.Threat.{read_threat_update, read-build_threat_update}
use moreno_go_moreno_core.Protocol.Frame.{
  read_full, read_header, decrypt_header, read_decrypted, read_parsed, read_payload,
  decode_client_frame_header, header_fields, ok, ClientFrameHeader, encode_server_frame,
  read_client_frame,
}
use moreno_go_moreno_core.Protocol.Frame.Client.{
  ClientPacket, wire, frame_of, read_client_frame-wire, read_client_frame_sound,
}
use moreno_go_moreno_core.Protocol.Frame.Server.{
  announced, Announces, encode_server_frame-Announces, encode_server_frame_ambiguous,
}

abbrev one_byte : Buffer
one_byte = record { bytes = 7 ∷ []; pos = 0 }

abbrev player_guid : ℕ
player_guid = 0x0000000100000A05

-- The mask names the bytes 0, 1 and 4.
packed_guid_run : (write_packed_guid player_guid new_buffer).bytes ≡ 19 ∷ 5 ∷ 10 ∷ 1 ∷ []
unfolding write_packed_guid guid_mask guid_parts write write_u8 new_buffer
packed_guid_run = refl

read_packed_guid_example :
    let w = write_packed_guid player_guid one_byte in
    (read_packed_guid (placed w (9 ∷ []) 1) ≡ done player_guid (placed w (9 ∷ []) (len w)))
    × (len one_byte < len w)
    × (len w ≤ 10)
read_packed_guid_example =
    read_packed_guid-write_packed_guid player_guid one_byte (9 ∷ []) (omega arith) (omega arith)

reads_Safe_example :
    Safe one_byte (read_u8 one_byte)
    × Safe one_byte (read_u16 one_byte)
    × Safe one_byte (read_u32 one_byte)
    × Safe one_byte (read_u64 one_byte)
    × Safe one_byte (read_i8 one_byte)
    × Safe one_byte (read_i16 one_byte)
    × Safe one_byte (read_i32 one_byte)
    × Safe one_byte (read_i64 one_byte)
    × Safe one_byte (read_bool one_byte)
    × Safe one_byte (read_cstring one_byte)
    × Safe one_byte (read_packed_guid one_byte)
    × Safe one_byte (read (pos 3) one_byte)
    × Safe one_byte (read_string (pos 3) one_byte)
reads_Safe_example = reads_Safe one_byte (pos 3) (omega arith) (omega arith) (omega arith)

-- A word is missing three bytes.
read_u32_short : read_u32 one_byte ≡ fail unexpected_eof one_byte
unfolding read_u32 read_word read
read_u32_short = refl

abbrev second_byte : Buffer
second_byte = record { bytes = 7 ∷ 8 ∷ []; pos = 1 }

-- One byte is there.
read_outcomes_example :
    (((second_byte.pos + 1 ≤ len second_byte) × Reads second_byte 1)
      ⊎ (((len second_byte < second_byte.pos + 1)
            × (second_byte.pos + 1 < int_limit)
            × (read (pos 1) second_byte ≡ fail unexpected_eof second_byte))
          ⊎ ((int_limit ≤ second_byte.pos + 1) × (read (pos 1) second_byte ≡ panic))))
    × (read (negsuc 1) second_byte ≡ fail unexpected_eof second_byte)
read_outcomes_example = read_outcomes second_byte 1 (omega arith)

read_wraps : read (pos 9223372036854775807) second_byte ≡ panic
unfolding read
read_wraps = refl

-- A cipher for the tests: each byte moves by 3.
abbrev encrypt : List ℕ → List ℕ
encrypt [] = []
encrypt (b ∷ bs) = (b + 3) ∷ encrypt bs

abbrev decrypt : List ℕ → List ℕ
decrypt [] = []
decrypt (b ∷ bs) = (b - 3) ∷ decrypt bs

decrypt-encrypt : (h : List ℕ) → decrypt (encrypt h) ≡ h
decrypt-encrypt [] = refl
decrypt-encrypt (b ∷ bs) = grind (arith, decrypt-encrypt bs)

length-encrypt : (h : List ℕ) → length (encrypt h) ≡ length h
length-encrypt [] = refl
length-encrypt (b ∷ bs) = omega (arith, length-encrypt bs)

abbrev ping : ClientPacket
ping = record { opcode = 0x1DC; payload = 1 ∷ 0 ∷ 0 ∷ 0 ∷ 50 ∷ 0 ∷ 0 ∷ 0 ∷ [] }

read_client_frame_example :
    read_client_frame
      (some (λ h. some (decrypt h)))
      (wire encrypt (λ h. some (decrypt h)) ping ++ 77 ∷ [])
    ≡ (ok (frame_of ping), 77 ∷ [])
read_client_frame_example =
    read_client_frame-wire encrypt (λ h. some (decrypt h)) (λ h. ap some (decrypt-encrypt h))
      length-encrypt ping (77 ∷ []) (omega arith, omega arith)

abbrev plain_payload : List ℕ
plain_payload = 5 ∷ 6 ∷ []

abbrev plain_header : ClientFrameHeader
plain_header = record { size = 6; opcode = 0x1DC; payload_size = 2 }

abbrev plain_stream : List ℕ
plain_stream = 0 ∷ 6 ∷ 0xDC ∷ 1 ∷ 0 ∷ 0 ∷ 5 ∷ 6 ∷ 7 ∷ []

plain_read : read_client_frame none plain_stream ≡ (ok (plain_header, 5 ∷ 6 ∷ []), 7 ∷ [])
unfolding read_client_frame read_full read_header decrypt_header read_decrypted read_parsed
    read_payload decode_client_frame_header header_fields
plain_read = refl

read_client_frame_sound_example :
    (4 ≤ 6)
    × (6 < 10240)
    × (length plain_payload + 4 ≡ 6)
    × (drop 6 plain_stream ≡ plain_payload ++ 7 ∷ [])
read_client_frame_sound_example =
    read_client_frame_sound none plain_stream (7 ∷ []) plain_payload plain_header plain_read

encode_server_frame-Announces_example :
    Announces (encode_server_frame 0x1DD (1 ∷ 2 ∷ [])) 0x1DD (1 ∷ 2 ∷ [])
encode_server_frame-Announces_example =
    encode_server_frame-Announces 0x1DD (1 ∷ 2 ∷ []) (omega arith)

-- A payload of any length.
zeros : ℕ → List ℕ
zeros n = replicate n 0

length-zeros : (n : ℕ) → length (zeros n) ≡ n
unfolding zeros
length-zeros n = length-replicate n 0

ambiguous_example :
    (frame : List ℕ) × (encode_server_frame 0x1DD (zeros 0x800000) ≡ ok (frame, 5))
    × ((announced frame).0 + 0x800000 ≡ length (zeros 0x800000) + 2)
ambiguous_example =
    encode_server_frame_ambiguous 0x1DD (zeros 0x800000) (omega (arith, length-zeros 0x800000))
      (omega (arith, length-zeros 0x800000))

abbrev threats : List ThreatEntry
threats =
    record { victim_guid = player_guid; threat = 1200 }
    ∷ record { victim_guid = 3; threat = 7 }
    ∷ []

read-build_threat_update_example :
    let packet = build_threat_update 0xF130000A00000001 threats in
    read_threat_update (new_reader packet)
    ≡ done (0xF130000A00000001, threats) (record { bytes = packet; pos = length packet })
unfolding build_threat_update write_entries write_packed_guid guid_mask guid_parts write write_u8
    write_u32 new_buffer
read-build_threat_update_example =
    read-build_threat_update 0xF130000A00000001 threats (omega arith) (omega arith) (omega arith)
      (omega arith)

-- Two words, in which the fields 3 and 33 are set.
abbrev two_words : UpdateMask
two_words = record { bits = 8 ∷ 2 ∷ []; fields = 40 }

has_field-set_field_example :
    has_field (set_field (some two_words) (pos 39)) (pos 33)
    ≡ (39 == 33 || has_field (some two_words) (pos 33))
has_field-set_field_example = has_field-set_field two_words 39 33 refl (omega arith)

-- A spell at a unit, with a place; its text is not sent.
abbrev target : SpellTargetData
target = record {
  flags = 0x42;
  unit_guid = 0xF130000A00000001;
  item_guid = 5;
  source = no_location;
  destination = record { transport = 0; x = 0x42280000; y = 0; z = 7 };
  string_target = 65 ∷ [];
}

target-IsTarget : IsTarget target
target-IsTarget = record {
  flags = omega arith;
  unit_guid = omega arith;
  item_guid = omega arith;
  source = omega arith;
  destination = omega arith;
  string_target = omega arith;
}

read_target_example :
    let w = write_spell_target_data target one_byte in
    read_spell_target_data (placed w (9 ∷ []) 1) ≡ done (named target) (placed w (9 ∷ []) (len w))
unfolding write_spell_target_data write_spell_target_location write_u32 write_packed_guid write
    write_u8 guid_mask guid_parts
read_target_example =
    read_target-write_target target one_byte (9 ∷ []) target-IsTarget (omega arith)

-- A harmful aura of another caster, for 8 of 10 seconds.
abbrev aura : AuraUpdateRecord
aura = record {
  caster_guid = player_guid;
  slot = 4;
  spell_id = 118;
  positive = false;
  max_duration_ms = 10000;
  duration_ms = 8000;
  caster_level = 0;
  stack_count = 1;
}

aura_sizes : IsAura 77 aura
aura_sizes = record {
  caster_guid = omega arith;
  spell_id = omega arith;
  max_duration_ms = omega arith;
  duration_ms = omega arith;
}

read_aura-write_aura_example :
    let w = write_aura_update_record 77 aura one_byte in
    read_aura_update_record 77 (placed w (9 ∷ []) 1)
    ≡ done (seen 77 aura) (placed w (9 ∷ []) (len w))
unfolding write_aura_update_record aura_flags flag_word write_u32 write_packed_guid write write_u8
    guid_mask guid_parts
read_aura-write_aura_example =
    read_aura-write_aura 77 aura one_byte (9 ∷ []) aura_sizes (omega arith)
