-- ===== src/Protocol/Spells/Targets.antt =====
-- pkg/protocol/spells.go: a spell's target that is written is read back.
use moreno_go_moreno_core.Common.{
  ℕ, ◌+◌, ◌^◌, ◌<◌, ◌≡◌, refl, List, [], ◌∷◌, ◌++◌, if◌then◌else◌, length, length-append, arith,
}
use moreno_go_moreno_core.Protocol.Buffer.{
  Buffer, done, le_bytes, len, int_limit, read_u32, read_packed_guid, read_cstring, write_u32,
  write_packed_guid, write_cstring,
}
use moreno_go_moreno_core.Protocol.Buffer.Reads.{
  Reads, >>=-Reads, last-Reads, Reads-after, placed, NoZero, read_cstring-Reads,
}
use moreno_go_moreno_core.Protocol.Buffer.Words.{u32-Reads, write_u32-bytes, write_cstring-bytes}
use moreno_go_moreno_core.Protocol.Buffer.PackedGuid.{
  packed, read_packed_guid-Reads, write_packed_guid-bytes,
}
use moreno_go_moreno_core.Protocol.Spells.Optional.{
  Appends, then-Appends, if_bytes, write_if-Appends, read_if-Reads,
}
use moreno_go_moreno_core.Protocol.Spells.{
  SpellTargetLocation, SpellTargetData, no_location, has, read_if, write_if, flag_unit_wire_mask,
  flag_item_wire_mask, flag_source_location, flag_dest_location, flag_string,
  read_spell_target_location, read_spell_target_data, write_spell_target_location,
  write_spell_target_data,
}

abbrev pub IsLocation : SpellTargetLocation → Type 0
IsLocation l = (l.transport < 2 ^ 64) × (l.x < 2 ^ 32) × (l.y < 2 ^ 32) × (l.z < 2 ^ 32)

location_bytes : SpellTargetLocation → List ℕ
location_bytes l = packed l.transport ++ (le_bytes 4 l.x ++ (le_bytes 4 l.y ++ le_bytes 4 l.z))

location-Appends :
    (l : SpellTargetLocation) → Appends (write_spell_target_location l) (location_bytes l)
unfolding write_spell_target_location location_bytes
location-Appends l =
    then-Appends (write_packed_guid l.transport)
      (λ b. write_u32 l.z (write_u32 l.y (write_u32 l.x b))) (packed l.transport)
      (le_bytes 4 l.x ++ (le_bytes 4 l.y ++ le_bytes 4 l.z)) (write_packed_guid-bytes l.transport)
      (then-Appends (write_u32 l.x) (λ b. write_u32 l.z (write_u32 l.y b)) (le_bytes 4 l.x)
        (le_bytes 4 l.y ++ le_bytes 4 l.z) (write_u32-bytes l.x)
        (then-Appends (write_u32 l.y) (write_u32 l.z) (le_bytes 4 l.y) (le_bytes 4 l.z)
          (write_u32-bytes l.y) (write_u32-bytes l.z)))

location-Reads :
    (l : SpellTargetLocation) → IsLocation l → Reads read_spell_target_location (location_bytes l) l
unfolding read_spell_target_location location_bytes
location-Reads l (ht, hx, hy, hz) =
    >>=-Reads read_packed_guid _ (packed l.transport) _ l.transport l
      (read_packed_guid-Reads l.transport ht)
      (>>=-Reads read_u32 _ (le_bytes 4 l.x) _ l.x l (u32-Reads l.x hx) (
        >>=-Reads read_u32 _ (le_bytes 4 l.y) _ l.y l (u32-Reads l.y hy)
          (last-Reads read_u32 (λ z. record l { z = z }) (le_bytes 4 l.z) l.z (u32-Reads l.z hz))))

-- What the flags of a target say that it holds.
pub named : SpellTargetData → SpellTargetData
named t = record {
  flags = t.flags;
  unit_guid = if has t.flags flag_unit_wire_mask then t.unit_guid else 0;
  item_guid = if has t.flags flag_item_wire_mask then t.item_guid else 0;
  source = if has t.flags flag_source_location then t.source else no_location;
  destination = if has t.flags flag_dest_location then t.destination else no_location;
  string_target = if has t.flags flag_string then t.string_target else [];
}

pub record IsTarget (t : SpellTargetData) : Type 0 where
  pub flags : t.flags < 2 ^ 32
  pub unit_guid : t.unit_guid < 2 ^ 64
  pub item_guid : t.item_guid < 2 ^ 64
  pub source : IsLocation t.source
  pub destination : IsLocation t.destination
  pub string_target : NoZero t.string_target

-- The bytes of each field, of the fields behind it, and of all.
module _ (t : SpellTargetData) where
  unit_bytes : List ℕ
  unit_bytes = if_bytes (has t.flags flag_unit_wire_mask) (packed t.unit_guid)

  item_bytes : List ℕ
  item_bytes = if_bytes (has t.flags flag_item_wire_mask) (packed t.item_guid)

  source_bytes : List ℕ
  source_bytes = if_bytes (has t.flags flag_source_location) (location_bytes t.source)

  dest_bytes : List ℕ
  dest_bytes = if_bytes (has t.flags flag_dest_location) (location_bytes t.destination)

  string_bytes : List ℕ
  string_bytes = if_bytes (has t.flags flag_string) (t.string_target ++ 0 ∷ [])

  target_bytes : List ℕ
  target_bytes =
      le_bytes 4 t.flags
      ++ (unit_bytes ++ (item_bytes ++ (source_bytes ++ (dest_bytes ++ string_bytes))))

  target-Appends : Appends (write_spell_target_data t) target_bytes
  unfolding write_spell_target_data target_bytes unit_bytes item_bytes source_bytes dest_bytes
      string_bytes
  target-Appends =
      let unit = write_if (has t.flags flag_unit_wire_mask) (write_packed_guid t.unit_guid) in
      let item = write_if (has t.flags flag_item_wire_mask) (write_packed_guid t.item_guid) in
      let source =
        write_if (has t.flags flag_source_location) (write_spell_target_location t.source) in
      let dest =
        write_if (has t.flags flag_dest_location) (write_spell_target_location t.destination) in
      let text = write_if (has t.flags flag_string) (write_cstring t.string_target) in
      then-Appends (write_u32 t.flags) (λ b. text (dest (source (item (unit b))))) _ _
        (write_u32-bytes t.flags)
        (then-Appends unit (λ b. text (dest (source (item b)))) _ _
          (write_if-Appends _ (write_packed_guid t.unit_guid) (packed t.unit_guid)
            (write_packed_guid-bytes t.unit_guid))
          (then-Appends item (λ b. text (dest (source b))) _ _
            (write_if-Appends _ (write_packed_guid t.item_guid) (packed t.item_guid)
              (write_packed_guid-bytes t.item_guid))
            (then-Appends source (λ b. text (dest b)) _ _
              (write_if-Appends _ (write_spell_target_location t.source) _
                (location-Appends t.source))
              (then-Appends dest text _ _
                (write_if-Appends _ (write_spell_target_location t.destination) _
                  (location-Appends t.destination))
                (write_if-Appends _ (write_cstring t.string_target) _
                  (write_cstring-bytes t.string_target))))))

  target-Reads : IsTarget t → Reads read_spell_target_data target_bytes (named t)
  unfolding read_spell_target_data target_bytes unit_bytes item_bytes source_bytes dest_bytes
      string_bytes named
  target-Reads h =
      >>=-Reads read_u32 _ (le_bytes 4 t.flags) _ t.flags (named t) (u32-Reads t.flags h.flags) (
        >>=-Reads (read_if (has t.flags flag_unit_wire_mask) read_packed_guid 0) _ unit_bytes _
          (named t).unit_guid (named t)
          (read_if-Reads _ read_packed_guid (packed t.unit_guid) t.unit_guid 0
            (read_packed_guid-Reads t.unit_guid h.unit_guid))
          (>>=-Reads (read_if (has t.flags flag_item_wire_mask) read_packed_guid 0) _ item_bytes _
            (named t).item_guid (named t)
            (read_if-Reads _ read_packed_guid (packed t.item_guid) t.item_guid 0
              (read_packed_guid-Reads t.item_guid h.item_guid))
            (>>=-Reads
              (read_if (has t.flags flag_source_location) read_spell_target_location no_location) _
              source_bytes _ (named t).source (named t)
              (read_if-Reads _ read_spell_target_location (location_bytes t.source) t.source
                no_location (location-Reads t.source h.source))
              (>>=-Reads
                (read_if (has t.flags flag_dest_location) read_spell_target_location no_location) _
                dest_bytes _ (named t).destination (named t)
                (read_if-Reads _ read_spell_target_location (location_bytes t.destination)
                  t.destination no_location (location-Reads t.destination h.destination))
                (last-Reads (read_if (has t.flags flag_string) read_cstring [])
                  (λ text. record (named t) { string_target = text }) string_bytes
                  (named t).string_target
                  (read_if-Reads _ read_cstring (t.string_target ++ 0 ∷ []) t.string_target []
                    (read_cstring-Reads t.string_target h.string_target)))))))

-- A spell's target that is written after any bytes, and followed by any, is read back from where
-- it was written as far as its flags say that a field is there; the other fields are read as
-- nothing, and the read ends where the write did, where the numbers have their sizes, the text has
-- no zero byte and the buffer's length is a Go `int`.
pub read_target-write_target :
    (t : SpellTargetData) (b : Buffer) (post : List ℕ)
    → IsTarget t
    → len (write_spell_target_data t b) + length post < int_limit
    → let w = write_spell_target_data t b in
      read_spell_target_data (placed w post (len b)) ≡ done (named t) (placed w post (len w))
read_target-write_target t b post h n =
    let enc = target_bytes t in
    let size : len (record b { bytes = b.bytes ++ enc }) ≡ len b + length enc =
      length-append b.bytes enc in
    let m : len (record b { bytes = b.bytes ++ enc }) + length post < int_limit =
      rw (target-Appends t b) at n in
    rw (target-Appends t b) (
      rw size (
        Reads-after read_spell_target_data enc (named t) b post (length enc) (target-Reads t h) refl
          (omega (arith, size, m))))
