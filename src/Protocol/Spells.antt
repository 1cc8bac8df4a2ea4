-- ===== src/Protocol/Spells.antt =====
-- pkg/protocol/spells.go: the target of a spell, which both sides send, and the packets about
-- casts and auras. A float of 32 bits is the word of its bits.
pub mod Optional
pub mod Targets
use moreno_go_moreno_core.Common.{
  ℕ, ◌+◌, ◌%◌, ◌^◌, Bool, true, false, not, ◌||◌, List, [], ◌∷◌, ◌==◌, ltb, if◌then◌else◌, length,
  take, bit_and, bit_or,
}
use moreno_go_moreno_core.Protocol.Buffer.{
  Buffer, M, ◌>>=◌, pure, new_buffer, write_u8, write_u32, write_u64, write_cstring,
  write_packed_guid, read_u32, read_packed_guid, read_cstring,
}

-- The masks of the flags of a unit, with a minipet, an object or a corpse, and of an item.
abbrev pub flag_unit_wire_mask : ℕ
flag_unit_wire_mask = 0x18A02

abbrev pub flag_item_wire_mask : ℕ
flag_item_wire_mask = 0x1010

abbrev pub flag_source_location : ℕ
flag_source_location = 0x20

abbrev pub flag_dest_location : ℕ
flag_dest_location = 0x40

abbrev pub flag_string : ℕ
flag_string = 0x2000

abbrev pub cast_flag_visual_chain : ℕ
cast_flag_visual_chain = 0x80000

abbrev pub miss_reflect : ℕ
miss_reflect = 11

pub record SpellTargetLocation : Type 0 where
  pub transport : ℕ
  pub x : ℕ
  pub y : ℕ
  pub z : ℕ

pub record SpellTargetData : Type 0 where
  pub flags : ℕ
  pub unit_guid : ℕ
  pub item_guid : ℕ
  pub source : SpellTargetLocation
  pub destination : SpellTargetLocation
  pub string_target : List ℕ

pub record SpellMissStatus : Type 0 where
  pub target_guid : ℕ
  pub reason : ℕ
  pub reflect_status : ℕ

abbrev pub no_location : SpellTargetLocation
no_location = record { transport = 0; x = 0; y = 0; z = 0 }

-- `flags&mask != 0`
abbrev pub has : ℕ → ℕ → Bool
has flags mask = not (bit_and flags mask == 0)

-- A field that is read, or written, under a test.
abbrev pub read_if {ℓ} : {A : Type ℓ} → Bool → M A → A → M A
read_if c m other = if c then m else pure other

abbrev pub write_if : Bool → (Buffer → Buffer) → Buffer → Buffer
write_if c w packet = if c then w packet else packet

unfoldable pub read_spell_target_location : M SpellTargetLocation
read_spell_target_location = do
  transport ← read_packed_guid
  x ← read_u32
  y ← read_u32
  z ← read_u32
  pure (record { transport = transport; x = x; y = y; z = z })

unfoldable pub read_spell_target_data : M SpellTargetData
unfolding read_spell_target_location
read_spell_target_data = do
  flags ← read_u32
  unit ← read_if (has flags flag_unit_wire_mask) read_packed_guid 0
  item ← read_if (has flags flag_item_wire_mask) read_packed_guid 0
  source ← read_if (has flags flag_source_location) read_spell_target_location no_location
  destination ← read_if (has flags flag_dest_location) read_spell_target_location no_location
  text ← read_if (has flags flag_string) read_cstring []
  pure (record {
    flags = flags;
    unit_guid = unit;
    item_guid = item;
    source = source;
    destination = destination;
    string_target = text;
  })

unfoldable pub write_spell_target_location : SpellTargetLocation → Buffer → Buffer
write_spell_target_location l packet =
    write_u32 l.z (write_u32 l.y (write_u32 l.x (write_packed_guid l.transport packet)))

unfoldable pub write_spell_target_data : SpellTargetData → Buffer → Buffer
unfolding write_spell_target_location
write_spell_target_data t packet =
    let p0 = write_u32 t.flags packet in
    let p1 = write_if (has t.flags flag_unit_wire_mask) (write_packed_guid t.unit_guid) p0 in
    let p2 = write_if (has t.flags flag_item_wire_mask) (write_packed_guid t.item_guid) p1 in
    let p3 =
      write_if (has t.flags flag_source_location) (write_spell_target_location t.source) p2 in
    let p4 =
      write_if (has t.flags flag_dest_location) (write_spell_target_location t.destination) p3 in
    write_if (has t.flags flag_string) (write_cstring t.string_target) p4

unfoldable pub write_spell_cast_header : ℕ → ℕ → ℕ → ℕ → ℕ → ℕ → Buffer → Buffer
write_spell_cast_header caster unit cast_id spell cast_flags cast_time packet =
    let guids = write_packed_guid unit (write_packed_guid caster packet) in
    write_u32 cast_time (write_u32 cast_flags (write_u32 spell (write_u8 cast_id guids)))

unfoldable pub write_spell_cast_trailer : ℕ → ℕ → Buffer → Buffer
write_spell_cast_trailer cast_flags target_flags packet =
    let chain =
      write_if (has cast_flags cast_flag_visual_chain) (λ p. write_u32 0 (write_u32 0 p)) in
    write_if (has target_flags flag_dest_location) (write_u8 0) (chain packet)

unfoldable pub build_spell_start : ℕ → ℕ → ℕ → ℕ → ℕ → ℕ → SpellTargetData → List ℕ
build_spell_start caster unit cast_id spell cast_flags cast_time target =
    let head = write_spell_cast_header caster unit cast_id spell cast_flags cast_time new_buffer in
    (write_spell_cast_trailer cast_flags target.flags (write_spell_target_data target head)).bytes

unfoldable pub write_hits : List ℕ → Buffer → Buffer
write_hits [] packet = packet
write_hits (guid ∷ hits) packet = write_hits hits (write_u64 guid packet)

unfoldable pub write_misses : List SpellMissStatus → Buffer → Buffer
write_misses [] packet = packet
write_misses (m ∷ misses) packet =
    let missed = write_u8 m.reason (write_u64 m.target_guid packet) in
    write_misses misses (write_if (m.reason == miss_reflect) (write_u8 m.reflect_status) missed)

-- At most 255 of each list are sent.
unfoldable pub build_spell_go :
    ℕ → ℕ → ℕ → ℕ → ℕ → ℕ → List ℕ → List SpellMissStatus → SpellTargetData → List ℕ
build_spell_go caster unit cast_id spell cast_flags cast_time hit_targets miss_status target =
    let hits = if ltb 255 (length hit_targets) then take 255 hit_targets else hit_targets in
    let misses = if ltb 255 (length miss_status) then take 255 miss_status else miss_status in
    let head = write_spell_cast_header caster unit cast_id spell cast_flags cast_time new_buffer in
    let hit = write_hits hits (write_u8 (length hits) head) in
    let missed = write_misses misses (write_u8 (length misses) hit) in
    (write_spell_cast_trailer cast_flags target.flags (write_spell_target_data target missed)).bytes

unfoldable pub build_spell_failure : ℕ → ℕ → ℕ → List ℕ
build_spell_failure cast_id spell result =
    (write_u8 result (write_u32 spell (write_u8 cast_id new_buffer))).bytes
