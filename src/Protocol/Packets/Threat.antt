-- ===== src/Protocol/Packets/Threat.antt =====
-- pkg/protocol/threat.go: a threat packet says the list that it was built from.
use moreno_go_moreno_core.Common.{
  ℕ, zero, suc, ◌^◌, ◌<◌, ◌≡◌, subst, List, [], ◌∷◌, ◌++◌, arith, length, append_assoc, append-nil,
  All,
}
use moreno_go_moreno_core.Protocol.Buffer.{
  Buffer, done, M, ◌>>=◌, pure, int_limit, le_bytes, new_buffer, new_reader, read_u32,
  read_packed_guid, write_packed_guid, write_u32,
}
use moreno_go_moreno_core.Protocol.Buffer.Reads.{
  Reads, >>=-Reads, pure-Reads, last-Reads, Reads-packet,
}
use moreno_go_moreno_core.Protocol.Buffer.Words.{u32-Reads, write_u32-bytes}
use moreno_go_moreno_core.Protocol.Buffer.PackedGuid.{
  packed, read_packed_guid-Reads, write_packed_guid-bytes,
}
use moreno_go_moreno_core.Protocol.Packets.{
  ThreatEntry, write_entries, build_threat_update, u32_length,
}

-- The way a client reads the packets.
read_entry : M ThreatEntry
read_entry = do
  guid ← read_packed_guid
  threat ← read_u32
  pure (record { victim_guid = guid; threat = threat })

read_entries : ℕ → M (List ThreatEntry)
read_entries zero = pure []
read_entries (suc n) = do entry ← read_entry; rest ← read_entries n; pure (entry ∷ rest)

pub read_threat_update : M (ℕ × List ThreatEntry)
read_threat_update = do
  creature ← read_packed_guid
  n ← read_u32
  list ← read_entries n
  pure (creature, list)

abbrev pub IsEntry : ThreatEntry → Type 0
IsEntry e = (e.victim_guid < 2 ^ 64) × (e.threat < 2 ^ 32)

entry_bytes : ThreatEntry → List ℕ
entry_bytes e = packed e.victim_guid ++ le_bytes 4 e.threat

entries_bytes : List ThreatEntry → List ℕ
entries_bytes [] = []
entries_bytes (e ∷ es) = entry_bytes e ++ entries_bytes es

read_entry-Reads : (e : ThreatEntry) → IsEntry e → Reads read_entry (entry_bytes e) e
unfolding read_entry entry_bytes
read_entry-Reads e h =
    >>=-Reads read_packed_guid
      (λ guid. read_u32 >>= λ threat. pure (record { victim_guid = guid; threat = threat }))
      (packed e.victim_guid) (le_bytes 4 e.threat) e.victim_guid e
      (read_packed_guid-Reads e.victim_guid h.0)
      (last-Reads read_u32 (λ threat. record { victim_guid = e.victim_guid; threat = threat })
        (le_bytes 4 e.threat) e.threat (u32-Reads e.threat h.1))

read_entries-Reads :
    (es : List ThreatEntry)
    → All IsEntry es
    → Reads (read_entries (length es)) (entries_bytes es) es
unfolding read_entries entries_bytes
read_entries-Reads [] h = pure-Reads []
read_entries-Reads (e ∷ es) h =
    >>=-Reads read_entry (λ entry. read_entries (length es) >>= λ rest. pure (entry ∷ rest))
      (entry_bytes e) (entries_bytes es) e (e ∷ es) (read_entry-Reads e h.0)
      (last-Reads (read_entries (length es)) (λ rest. e ∷ rest) (entries_bytes es) es
        (read_entries-Reads es h.1))

write_entries-bytes :
    (es : List ThreatEntry) (b : Buffer) → (write_entries es b).bytes ≡ b.bytes ++ entries_bytes es
unfolding write_entries entries_bytes entry_bytes
write_entries-bytes [] b = rw append-nil
write_entries-bytes (e ∷ es) b =
    rw
      (
        write_entries-bytes es (write_u32 e.threat (write_packed_guid e.victim_guid b)),
        write_u32-bytes e.threat (write_packed_guid e.victim_guid b),
        write_packed_guid-bytes e.victim_guid b,
      )
      (simp append_assoc)

-- The bytes of a whole update packet.
update_bytes : ℕ → List ThreatEntry → List ℕ
update_bytes creature list = packed creature ++ (le_bytes 4 (u32_length list) ++ entries_bytes list)

build-bytes :
    (creature : ℕ) (list : List ThreatEntry)
    → build_threat_update creature list ≡ update_bytes creature list
unfolding build_threat_update update_bytes new_buffer
build-bytes creature list =
    rw
      (
        write_entries-bytes list
            (write_u32 (u32_length list) (write_packed_guid creature new_buffer)),
        write_u32-bytes (u32_length list) (write_packed_guid creature new_buffer),
        write_packed_guid-bytes creature new_buffer,
      )
      (simp append_assoc)

count-Reads :
    (list : List ThreatEntry)
    → length list < 2 ^ 32
    → Reads read_u32 (le_bytes 4 (u32_length list)) (length list)
count-Reads list h =
    subst (λ (n : ℕ). Reads read_u32 (le_bytes 4 (u32_length list)) n)
      (let q : u32_length list ≡ length list = omega arith in q)
      (u32-Reads (u32_length list) (omega arith))

read_threat_update-Reads :
    (creature : ℕ) (list : List ThreatEntry)
    → creature < 2 ^ 64
    → length list < 2 ^ 32
    → All IsEntry list
    → Reads read_threat_update (update_bytes creature list) (creature, list)
unfolding read_threat_update update_bytes
read_threat_update-Reads creature list hc hl he =
    >>=-Reads read_packed_guid (λ c. read_u32 >>= λ n. (read_entries n >>= λ l. pure (c, l)))
      (packed creature) (le_bytes 4 (u32_length list) ++ entries_bytes list) creature
      (creature, list) (read_packed_guid-Reads creature hc)
      (>>=-Reads read_u32 (λ n. read_entries n >>= λ l. pure (creature, l))
        (le_bytes 4 (u32_length list)) (entries_bytes list) (length list) (creature, list)
        (count-Reads list hl)
        (last-Reads (read_entries (length list)) (λ l. (creature, l)) (entries_bytes list) list
          (read_entries-Reads list he)))

-- A client that reads the packet for a creature's threat list finds the creature, the number of
-- entries and each entry's guid and threat, in the order of the list, and reads the packet to its
-- end, where guids fit 64 bits, threats and the number of entries 32 bits, and the packet's length
-- an `int`.
pub read-build_threat_update :
    (creature : ℕ) (list : List ThreatEntry)
    → creature < 2 ^ 64
    → length list < 2 ^ 32
    → All IsEntry list
    → length (build_threat_update creature list) < int_limit
    → let packet = build_threat_update creature list in
      read_threat_update (new_reader packet)
      ≡ done (creature, list) (record { bytes = packet; pos = length packet })
unfolding new_reader
read-build_threat_update creature list hc hl he h = rw (build-bytes creature list) (
    Reads-packet read_threat_update (update_bytes creature list) (creature, list)
      (read_threat_update-Reads creature list hc hl he) (rw (build-bytes creature list) at h))
