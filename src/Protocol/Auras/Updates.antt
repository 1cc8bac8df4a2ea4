-- ===== src/Protocol/Auras/Updates.antt =====
-- pkg/protocol/spells.go: what a client reads of an aura update.
use moreno_go_moreno_core.Common.{
  ℕ, ◌+◌, ◌^◌, ◌<◌, ◌≡◌, refl, Bool, true, false, not, ◌||◌, List, [], ◌∷◌, ◌++◌, ◌==◌, ltb,
  if◌then◌else◌, length, length-append, bit_and, arith,
}
use moreno_go_moreno_core.Protocol.Buffer.{
  Buffer, done, M, ◌>>=◌, pure, le_bytes, len, int_limit, read_u8, read_u32, read_packed_guid,
  write_u8, write_u32, write_packed_guid,
}
use moreno_go_moreno_core.Protocol.Buffer.Reads.{Reads, >>=-Reads, last-Reads, Reads-after, placed}
use moreno_go_moreno_core.Protocol.Buffer.Words.{
  u8-Reads, u32-Reads, write_u8-bytes, write_u32-bytes,
}
use moreno_go_moreno_core.Protocol.Buffer.PackedGuid.{
  packed, read_packed_guid-Reads, write_packed_guid-bytes,
}
use moreno_go_moreno_core.Protocol.Spells.{read_if, write_if}
use moreno_go_moreno_core.Protocol.Spells.Optional.{
  Appends, then-Appends, if_bytes, write_if-Appends, read_if-Reads,
}
use moreno_go_moreno_core.Protocol.Auras.{
  AuraUpdateRecord, aura_flags, flag_word, at_least1, write_aura_update_record, aura_flag_caster,
  aura_flag_positive, aura_flag_duration,
}

-- The pair of times of an aura that ends.
read_times : M (ℕ × ℕ)
read_times = do whole ← read_u32; left ← read_u32; pure (whole, left)

-- The client's side: who the caster is and whether there are times is in the flags.
pub read_aura_update_record : ℕ → M AuraUpdateRecord
read_aura_update_record target = do
  slot ← read_u8
  spell ← read_u32
  flags ← read_u8
  level ← read_u8
  stack ← read_u8
  caster ← read_if (bit_and flags aura_flag_caster == 0) read_packed_guid target
  times ← read_if (not (bit_and flags aura_flag_duration == 0)) read_times (0, 0)
  pure (record {
    caster_guid = caster;
    slot = slot;
    spell_id = spell;
    positive = not (bit_and flags aura_flag_positive == 0);
    max_duration_ms = times.0;
    duration_ms = times.1;
    caster_level = level;
    stack_count = stack;
  })

flag_tests :
    (own positive lasting : Bool)
    → ((bit_and (flag_word own positive lasting) aura_flag_caster == 0) ≡ not own)
      × (not (bit_and (flag_word own positive lasting) aura_flag_positive == 0) ≡ positive)
      × (not (bit_and (flag_word own positive lasting) aura_flag_duration == 0) ≡ lasting)
unfolding flag_word
flag_tests true true true = (refl, refl, refl)
flag_tests true true false = (refl, refl, refl)
flag_tests true false true = (refl, refl, refl)
flag_tests true false false = (refl, refl, refl)
flag_tests false true true = (refl, refl, refl)
flag_tests false true false = (refl, refl, refl)
flag_tests false false true = (refl, refl, refl)
flag_tests false false false = (refl, refl, refl)

module _ (target : ℕ) (r : AuraUpdateRecord) where
  is_own : Bool
  is_own = r.caster_guid == 0 || r.caster_guid == target

  lasts : Bool
  lasts = ltb 0 r.max_duration_ms

  caster_bytes : List ℕ
  caster_bytes = if_bytes (not is_own) (packed r.caster_guid)

  time_bytes : List ℕ
  time_bytes = if_bytes lasts (le_bytes 4 r.max_duration_ms ++ le_bytes 4 r.duration_ms)

  record_bytes : List ℕ
  record_bytes =
      (r.slot ∷ [])
      ++ (le_bytes 4 r.spell_id
          ++ ((aura_flags target r ∷ [])
              ++ ((at_least1 r.caster_level ∷ [])
                  ++ ((at_least1 r.stack_count ∷ []) ++ (caster_bytes ++ time_bytes)))))

  sent_times : ℕ × ℕ
  sent_times = if lasts then (r.max_duration_ms, r.duration_ms) else (0, 0)

  -- What the client knows of the aura: the own caster is the target, an aura with no end has no
  -- times, and a level or a stack of 0 is sent as 1.
  pub seen : AuraUpdateRecord
  seen = record r {
    caster_guid = if not is_own then r.caster_guid else target;
    max_duration_ms = sent_times.0;
    duration_ms = sent_times.1;
    caster_level = at_least1 r.caster_level;
    stack_count = at_least1 r.stack_count;
  }

  record-Appends : Appends (write_aura_update_record target r) record_bytes
  unfolding write_aura_update_record record_bytes caster_bytes time_bytes lasts is_own aura_flags
  record-Appends =
      let own = r.caster_guid == 0 || r.caster_guid == target in
      let lasting = ltb 0 r.max_duration_ms in
      let flags = flag_word own r.positive lasting in
      let (c, _, _) = flag_tests own r.positive lasting in
      let caster =
        write_if (bit_and flags aura_flag_caster == 0) (write_packed_guid r.caster_guid) in
      let times = write_if lasting (λ b. write_u32 r.duration_ms (write_u32 r.max_duration_ms b)) in
      let stack = write_u8 (at_least1 r.stack_count) in
      let level = write_u8 (at_least1 r.caster_level) in
      then-Appends (write_u8 r.slot)
        (λ b. times (caster (stack (level (write_u8 flags (write_u32 r.spell_id b)))))) _ _
        (write_u8-bytes r.slot)
        (then-Appends (write_u32 r.spell_id)
          (λ b. times (caster (stack (level (write_u8 flags b))))) _ _ (write_u32-bytes r.spell_id)
          (then-Appends (write_u8 flags) (λ b. times (caster (stack (level b)))) _ _
            (write_u8-bytes flags)
            (then-Appends level (λ b. times (caster (stack b))) _ _
              (write_u8-bytes (at_least1 r.caster_level))
              (then-Appends stack (λ b. times (caster b)) _ _
                (write_u8-bytes (at_least1 r.stack_count))
                (then-Appends caster times _ _
                  (rw (← c) (
                    write_if-Appends (bit_and flags aura_flag_caster == 0)
                      (write_packed_guid r.caster_guid) (packed r.caster_guid)
                      (write_packed_guid-bytes r.caster_guid)))
                  (write_if-Appends lasting _ _ (
                    then-Appends (write_u32 r.max_duration_ms) (write_u32 r.duration_ms) _ _
                      (write_u32-bytes r.max_duration_ms) (write_u32-bytes r.duration_ms))))))))

  -- The sizes of the numbers.
  pub record IsAura : Type 0 where
    pub caster_guid : r.caster_guid < 2 ^ 64
    pub spell_id : r.spell_id < 2 ^ 32
    pub max_duration_ms : r.max_duration_ms < 2 ^ 32
    pub duration_ms : r.duration_ms < 2 ^ 32

  times-Reads :
      IsAura
      → Reads read_times
          (le_bytes 4 r.max_duration_ms ++ le_bytes 4 r.duration_ms)
          (r.max_duration_ms, r.duration_ms)
  unfolding read_times
  times-Reads h =
      >>=-Reads read_u32 _ (le_bytes 4 r.max_duration_ms) _ r.max_duration_ms _
        (u32-Reads r.max_duration_ms h.max_duration_ms)
        (last-Reads read_u32 (λ left. (r.max_duration_ms, left)) (le_bytes 4 r.duration_ms)
          r.duration_ms (u32-Reads r.duration_ms h.duration_ms))

  record-Reads : IsAura → Reads (read_aura_update_record target) record_bytes seen
  unfolding read_aura_update_record record_bytes caster_bytes time_bytes lasts is_own aura_flags
      seen sent_times
  record-Reads h =
      let own = r.caster_guid == 0 || r.caster_guid == target in
      let lasting = ltb 0 r.max_duration_ms in
      let flags = flag_word own r.positive lasting in
      let (c, p, d) = flag_tests own r.positive lasting in
      >>=-Reads read_u8 _ (r.slot ∷ []) _ r.slot seen (u8-Reads r.slot) (
        >>=-Reads read_u32 _ (le_bytes 4 r.spell_id) _ r.spell_id seen
          (u32-Reads r.spell_id h.spell_id)
          (>>=-Reads read_u8 _ (flags ∷ []) _ flags seen (u8-Reads flags) (
            >>=-Reads read_u8 _ (at_least1 r.caster_level ∷ []) _ (at_least1 r.caster_level) seen
              (u8-Reads (at_least1 r.caster_level))
              (>>=-Reads read_u8 _ (at_least1 r.stack_count ∷ []) _ (at_least1 r.stack_count) seen
                (u8-Reads (at_least1 r.stack_count))
                (rw (c, p, d)
                  (>>=-Reads (read_if (not own) read_packed_guid target) _ caster_bytes time_bytes
                    (if not own then r.caster_guid else target) seen
                    (read_if-Reads (not own) read_packed_guid (packed r.caster_guid) r.caster_guid
                      target (read_packed_guid-Reads r.caster_guid h.caster_guid))
                    (last-Reads (read_if lasting read_times (0, 0))
                      (λ times. record seen { max_duration_ms = times.0; duration_ms = times.1 })
                      time_bytes sent_times
                      (read_if-Reads lasting read_times
                        (le_bytes 4 r.max_duration_ms ++ le_bytes 4 r.duration_ms)
                        (r.max_duration_ms, r.duration_ms) (0, 0) (times-Reads h)))))))))

-- A record of an aura that is written after any bytes, and followed by any, is read by a client
-- that knows the target as `seen`, and the read ends where the write did, where the guid and the
-- words have their sizes and the buffer's length is a Go `int`.
pub read_aura-write_aura :
    (target : ℕ) (r : AuraUpdateRecord) (b : Buffer) (post : List ℕ)
    → IsAura target r
    → len (write_aura_update_record target r b) + length post < int_limit
    → let w = write_aura_update_record target r b in
      read_aura_update_record target (placed w post (len b))
      ≡ done (seen target r) (placed w post (len w))
read_aura-write_aura target r b post h n =
    let enc = record_bytes target r in
    let size : len (record b { bytes = b.bytes ++ enc }) ≡ len b + length enc =
      length-append b.bytes enc in
    let m : len (record b { bytes = b.bytes ++ enc }) + length post < int_limit =
      rw (record-Appends target r b) at n in
    rw (record-Appends target r b) (
      rw size (
        Reads-after (read_aura_update_record target) enc (seen target r) b post (length enc)
          (record-Reads target r h) refl (omega (arith, size, m))))
