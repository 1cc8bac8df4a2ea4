-- ===== src/Protocol/Packets.antt =====
-- pkg/protocol/threat.go, item.go and chat.go: the packets that the server builds from a buffer.
pub mod Threat
use moreno_go_moreno_core.Common.{
  ℕ, ◌+◌, ◌%◌, ◌^◌, Bool, true, false, List, [], ◌∷◌, ◌==◌, if◌then◌else◌, length,
}
use moreno_go_moreno_core.Protocol.Buffer.{
  Buffer, new_buffer, write_u8, write_u32, write_u64, write_cstring, write_packed_guid,
}

pub record ThreatEntry : Type 0 where
  pub victim_guid : ℕ
  pub threat : ℕ

-- `uint32(len(list))`.
abbrev pub u32_length {ℓ} : {A : Type ℓ} → List A → ℕ
u32_length xs = length xs % 2 ^ 32

unfoldable pub build_threat_clear : ℕ → List ℕ
build_threat_clear creature = (write_packed_guid creature new_buffer).bytes

unfoldable pub build_threat_remove : ℕ → ℕ → List ℕ
build_threat_remove creature victim =
    (write_packed_guid victim (write_packed_guid creature new_buffer)).bytes

-- The loop over the entries of both update packets.
unfoldable pub write_entries : List ThreatEntry → Buffer → Buffer
write_entries [] buf = buf
write_entries (entry ∷ list) buf =
    write_entries list (write_u32 entry.threat (write_packed_guid entry.victim_guid buf))

unfoldable pub build_threat_update : ℕ → List ThreatEntry → List ℕ
build_threat_update creature list =
    (write_entries list (write_u32 (u32_length list) (write_packed_guid creature new_buffer))).bytes

unfoldable pub build_highest_threat_update : ℕ → ℕ → List ThreatEntry → List ℕ
build_highest_threat_update creature highest list =
    let named = write_packed_guid highest (write_packed_guid creature new_buffer) in
    (write_entries list (write_u32 (u32_length list) named)).bytes

unfoldable pub build_item_enchant_time_update : ℕ → ℕ → ℕ → ℕ → List ℕ
build_item_enchant_time_update player item slot duration =
    (write_u64 player (write_u32 duration (write_u32 slot (write_u64 item new_buffer)))).bytes

unfoldable pub build_item_time_update : ℕ → ℕ → List ℕ
build_item_time_update item duration = (write_u32 duration (write_u64 item new_buffer)).bytes

-- `WriteU32(uint32(len(s) + 1))` and `WriteCString(s)`.
unfoldable pub write_sized : List ℕ → Buffer → Buffer
write_sized s buf = write_cstring s (write_u32 ((length s + 1) % 2 ^ 32) buf)

unfoldable pub build_chat_message_with_options :
    ℕ → ℕ → ℕ → ℕ → List ℕ → List ℕ → Bool → List ℕ → ℕ → List ℕ
unfolding write_sized
build_chat_message_with_options chat_type language sender receiver message channel gm_message
      sender_name chat_tag =
    let head =
      write_u32 0 (write_u64 sender (write_u32 language (write_u8 chat_type new_buffer))) in
    let named = if gm_message then write_sized sender_name head else head in
    let addressed = if chat_type == 0x11 then write_cstring channel named else named in
    (write_u8 chat_tag (write_sized message (write_u64 receiver addressed))).bytes

unfoldable pub build_chat_message : ℕ → ℕ → ℕ → ℕ → List ℕ → List ℕ → List ℕ
unfolding build_chat_message_with_options
build_chat_message chat_type language sender receiver message channel =
    build_chat_message_with_options chat_type language sender receiver message channel false [] 0

unfoldable pub build_system_chat_message : List ℕ → List ℕ
unfolding build_chat_message
build_system_chat_message message = build_chat_message 0 0 0 0 message []

unfoldable pub build_monster_chat_message : ℕ → ℕ → ℕ → List ℕ → List ℕ → List ℕ
unfolding write_sized
build_monster_chat_message chat_type language sender sender_name message =
    let head =
      write_u32 0 (write_u64 sender (write_u32 language (write_u8 chat_type new_buffer))) in
    (write_u8 0 (write_sized message (write_u64 0 (write_sized sender_name head)))).bytes
