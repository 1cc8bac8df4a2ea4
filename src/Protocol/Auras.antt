-- ===== src/Protocol/Auras.antt =====
-- pkg/protocol/spells.go: the packets about auras.
pub mod Updates
use moreno_go_moreno_core.Common.{
  ℕ, Bool, true, false, not, ◌||◌, List, [], ◌∷◌, ◌==◌, ltb, if◌then◌else◌, bit_and, bit_or,
}
use moreno_go_moreno_core.Protocol.Buffer.{
  Buffer, new_buffer, write_u8, write_u32, write_packed_guid, write_bool,
}
use moreno_go_moreno_core.Protocol.Spells.{write_if}

abbrev pub aura_flag_eff_index0 : ℕ
aura_flag_eff_index0 = 0x01

abbrev pub aura_flag_caster : ℕ
aura_flag_caster = 0x08

abbrev pub aura_flag_positive : ℕ
aura_flag_positive = 0x10

abbrev pub aura_flag_duration : ℕ
aura_flag_duration = 0x20

abbrev pub aura_flag_negative : ℕ
aura_flag_negative = 0x80

-- The start of the periodic logs: the two guids, the spell, one entry and its kind.
unfoldable pub write_periodic : ℕ → ℕ → ℕ → ℕ → Buffer → Buffer
write_periodic target caster spell aura_type buf =
    let guids = write_packed_guid caster (write_packed_guid target buf) in
    write_u32 aura_type (write_u32 1 (write_u32 spell guids))

unfoldable pub build_periodic_aura_log_damage : ℕ → ℕ → ℕ → ℕ → ℕ → ℕ → ℕ → ℕ → ℕ → Bool → List ℕ
build_periodic_aura_log_damage target caster spell aura damage overkill school absorb resist
      critical =
    let dealt =
      write_u32 overkill (write_u32 damage (write_periodic target caster spell aura new_buffer)) in
    let taken = write_u32 resist (write_u32 absorb (write_u32 school dealt)) in
    (write_u8 (if critical then 1 else 0) taken).bytes

unfoldable pub build_periodic_aura_log_heal : ℕ → ℕ → ℕ → ℕ → ℕ → ℕ → ℕ → Bool → List ℕ
build_periodic_aura_log_heal target caster spell aura heal overheal absorb critical =
    let healed =
      write_u32 overheal (write_u32 heal (write_periodic target caster spell aura new_buffer)) in
    (write_u8 (if critical then 1 else 0) (write_u32 absorb healed)).bytes

unfoldable pub build_periodic_aura_log_energize : ℕ → ℕ → ℕ → ℕ → ℕ → ℕ → List ℕ
build_periodic_aura_log_energize target caster spell aura power_type amount =
    (write_u32 amount
      (write_u32 power_type (write_periodic target caster spell aura new_buffer))).bytes

pub record AuraUpdateRecord : Type 0 where
  pub caster_guid : ℕ
  pub slot : ℕ
  pub spell_id : ℕ
  pub positive : Bool
  pub max_duration_ms : ℕ
  pub duration_ms : ℕ
  pub caster_level : ℕ
  pub stack_count : ℕ

-- The flags of an aura, from whether it is the target's own, helps it and ends.
unfoldable pub flag_word : Bool → Bool → Bool → ℕ
flag_word own positive lasting =
    let f1 = if own then bit_or aura_flag_eff_index0 aura_flag_caster else aura_flag_eff_index0 in
    let f2 = bit_or f1 (if positive then aura_flag_positive else aura_flag_negative) in
    if lasting then bit_or f2 aura_flag_duration else f2

unfoldable pub aura_flags : ℕ → AuraUpdateRecord → ℕ
unfolding flag_word
aura_flags target r =
    flag_word (r.caster_guid == 0 || r.caster_guid == target) r.positive (ltb 0 r.max_duration_ms)

abbrev pub at_least1 : ℕ → ℕ
at_least1 n = if n == 0 then 1 else n

unfoldable pub write_aura_update_record : ℕ → AuraUpdateRecord → Buffer → Buffer
unfolding aura_flags
write_aura_update_record target r buf =
    let flags = aura_flags target r in
    let named = write_u8 flags (write_u32 r.spell_id (write_u8 r.slot buf)) in
    let counted = write_u8 (at_least1 r.stack_count) (write_u8 (at_least1 r.caster_level) named) in
    let cast =
      write_if (bit_and flags aura_flag_caster == 0) (write_packed_guid r.caster_guid) counted in
    write_if (ltb 0 r.max_duration_ms)
      (λ b. write_u32 r.duration_ms (write_u32 r.max_duration_ms b)) cast

unfoldable pub build_aura_update_with_stack : ℕ → Bool → AuraUpdateRecord → List ℕ
unfolding write_aura_update_record
build_aura_update_with_stack target remove r =
    let buf = write_packed_guid target new_buffer in
    (if remove
      then write_u32 0 (write_u8 r.slot buf)
      else write_aura_update_record target r buf).bytes

unfoldable pub build_aura_update : ℕ → Bool → AuraUpdateRecord → List ℕ
unfolding build_aura_update_with_stack
build_aura_update target remove r =
    build_aura_update_with_stack target remove (record r { stack_count = 1 })

unfoldable pub write_aura_records : ℕ → List AuraUpdateRecord → Buffer → Buffer
unfolding write_aura_update_record
write_aura_records target [] buf = buf
write_aura_records target (r ∷ records) buf =
    write_aura_records target records (write_aura_update_record target r buf)

unfoldable pub build_aura_update_all : ℕ → List AuraUpdateRecord → List ℕ
unfolding write_aura_records
build_aura_update_all target records =
    (write_aura_records target records (write_packed_guid target new_buffer)).bytes
