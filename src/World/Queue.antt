-- ===== src/World/Queue.antt =====
-- engine/world/battleground.go: the two places of a session in the queues of battlegrounds and arenas,
-- and the packets about them. A handler's result is false where it refuses; each packet is taken as
-- sent.
pub mod Slots
use moreno_go_moreno_core.Common.{
  ℕ, suc, ◌+◌, ◌-◌, ◌%◌, ◌^◌, Bool, true, false, not, List, [], ◌∷◌, ◌++◌, ◌==◌, ltb, leb, ◌||◌,
  ◌&&◌, if◌then◌else◌, Option, none, some, length, set, get_elem?,
}
use moreno_go_moreno_core.Protocol.Buffer.{
  Buffer, Outcome, done, fail, panic, new_buffer, new_reader, write_u8, write_u16, write_u32,
  write_u64, read_u8, read_u16, read_u32, read_u64,
}

-- Times are in milliseconds; `start_time` is none where the Go time is zero.
pub record Entry : Type 0 where
  pub active : Bool
  pub bg_type_id : ℕ
  pub instance_id : ℕ
  pub join_time : ℕ
  pub status : ℕ
  pub arena_type : ℕ
  pub is_arena : Bool
  pub is_rated : Bool
  pub arena_faction : ℕ
  pub map_id : ℕ
  pub start_time : Option ℕ

abbrev pub empty_entry : Entry
empty_entry = record {
  active = false;
  bg_type_id = 0;
  instance_id = 0;
  join_time = 0;
  status = 0;
  arena_type = 0;
  is_arena = false;
  is_rated = false;
  arena_faction = 0;
  map_id = 0;
  start_time = none;
}

-- `loaded` says that the session has a player and that the player is in the world.
pub record Session : Type 0 where
  pub loaded : Bool
  pub queues : List Entry

pub data Effect : Type 0 where
  battlefield_list battlefield_status : List ℕ → Effect
  battlefield_entered battlefield_ejected : List ℕ → Effect
  -- The handlers of the battlegrounds for a player who leaves, and the criteria that start anew.
  leaves_battlegrounds resets_criteria : Effect

abbrev pub Result : Type 0
Result = Bool × Session × List Effect

-- A read whose error is not looked at.
abbrev pub or_zero : Buffer → Outcome ℕ → ℕ × Buffer
or_zero b (done v b') = (v, b')
or_zero b (fail e b') = (0, b')
or_zero b panic = (0, b)

abbrev pub bit : Bool → ℕ
bit true = 1
bit false = 0

unfoldable pub build_battlefield_list : ℕ → ℕ → ℕ → List ℕ
build_battlefield_list bm_guid from_where bg_type_id =
    let b1 = write_u32 bg_type_id (write_u8 from_where (write_u64 bm_guid new_buffer)) in
    let b2 = write_u8 0 (write_u8 0 (write_u8 0 b1)) in
    let b3 = write_u32 0 (write_u32 0 (write_u32 0 b2)) in (write_u32 0 (write_u8 0 b3)).bytes

-- What follows the status.
unfoldable pub write_status : ℕ → Entry → Buffer → Buffer
write_status now entry b =
    let elapsed = elim entry.start_time as (λ _. ℕ) [ none ↦ 0 | some t ↦ (now - t) % 2 ^ 32 ] in
    let placed = write_u64 0 (write_u32 entry.map_id b) in
    if entry.status == 1
    then write_u32 ((now - entry.join_time) % 2 ^ 32) (write_u32 120000 b)
    else if entry.status == 2
    then write_u32 120000 placed
    else if entry.status == 3
    then write_u8 entry.arena_faction (write_u32 elapsed (write_u32 0 placed))
    else b

unfoldable pub build_battlefield_status : ℕ → ℕ → Entry → List ℕ
unfolding write_status
build_battlefield_status now slot entry =
    let head = write_u32 slot new_buffer in
    let kind = write_u8 (if entry.is_arena then 14 else 0) (write_u8 entry.arena_type head) in
    let levels = write_u8 80 (write_u8 10 (write_u16 8080 (write_u32 entry.bg_type_id kind))) in
    let rated = write_u8 (bit entry.is_rated) (write_u32 entry.instance_id levels) in
    if not entry.active || entry.status == 0
    then (write_u64 0 head).bytes
    else (write_status now entry (write_u32 entry.status rated)).bytes

unfoldable pub send_battlefield_status : ℕ → ℕ → List Entry → List Effect
send_battlefield_status now slot queues = elim (get_elem? queues slot) [
  | none ↦ []
  | some entry ↦ battlefield_status (build_battlefield_status now slot entry) ∷ []
]

-- The first place that is not active.
unfoldable pub free_slot : List Entry → Option ℕ
free_slot [] = none
free_slot (e ∷ es) =
    let rest = elim (free_slot es) as (λ _. Option ℕ) [ none ↦ none | some i ↦ some (suc i) ] in
    if e.active then rest else some 0

-- An entry is put into the first free place; nothing happens where there is none.
unfoldable pub join_queue : ℕ → Entry → Session → Result
join_queue now entry s = elim (free_slot s.queues) [
  | none ↦ (true, s, [])
  | some slot ↦
      let queues = set s.queues slot entry in
      (true, record s { queues = queues }, send_battlefield_status now slot queues)
]

unfoldable pub handle_battlemaster_hello : Session → List ℕ → Result
handle_battlemaster_hello s payload =
    if not s.loaded || ltb (length payload) 8
    then (true, s, [])
    else elim (read_u64 (new_reader payload)) [
      | fail e b ↦ (false, s, [])
      | panic ↦ (false, s, [])
      | done guid b ↦ (true, s, battlefield_list (build_battlefield_list guid 0 1) ∷ [])
    ]

unfoldable pub handle_battlefield_list : Session → List ℕ → Result
handle_battlefield_list s payload =
    if not s.loaded || ltb (length payload) 4
    then (true, s, [])
    else elim (read_u32 (new_reader payload)) [
      | fail e b ↦ (false, s, [])
      | panic ↦ (false, s, [])
      | done bg_type_id b ↦
          let (from_where, b1) = or_zero b (read_u8 b) in
          (true, s, battlefield_list (build_battlefield_list 0 from_where bg_type_id) ∷ [])
    ]

unfoldable pub handle_battlemaster_join : ℕ → Session → List ℕ → Result
handle_battlemaster_join now s payload =
    let (guid, b0) = or_zero (new_reader payload) (read_u64 (new_reader payload)) in
    if not s.loaded || ltb (length payload) 17 then (true, s, []) else elim (read_u32 b0) [
      | fail e b ↦ (false, s, [])
      | panic ↦ (false, s, [])
      | done bg_type_id b ↦
          let (instance_id, b1) = or_zero b (read_u32 b) in
          join_queue now
            (record empty_entry {
              active = true;
              bg_type_id = bg_type_id;
              instance_id = instance_id;
              join_time = now;
              status = 1;
            })
            s
    ]

abbrev pub arena_type_of : ℕ → ℕ
arena_type_of arena_slot =
    if arena_slot == 0
    then 2
    else if arena_slot == 1
    then 3
    else if arena_slot == 2
    then 5
    else if (arena_slot == 3) || (arena_slot == 5)
    then arena_slot
    else 2

unfoldable pub handle_battlemaster_join_arena : ℕ → Session → List ℕ → Result
handle_battlemaster_join_arena now s payload =
    let (guid, b0) = or_zero (new_reader payload) (read_u64 (new_reader payload)) in
    let (arena_slot, b1) = or_zero b0 (read_u8 b0) in
    let (as_group, b2) = or_zero b1 (read_u8 b1) in
    let (is_rated, b3) = or_zero b2 (read_u8 b2) in
    if not s.loaded || ltb (length payload) 11
    then (true, s, [])
    else join_queue now
        (record empty_entry {
          active = true;
          bg_type_id = 4;
          join_time = now;
          status = 1;
          arena_type = arena_type_of arena_slot;
          is_arena = true;
          is_rated = not (is_rated == 0);
        })
        s

-- The first active entry of a battleground is emptied, and its place told.
unfoldable pub leave_queue : ℕ → List Entry → List Entry × Option ℕ
leave_queue bg_type_id [] = ([], none)
leave_queue bg_type_id (e ∷ es) =
    let (rest, slot) = leave_queue bg_type_id es in
    let told = elim slot as (λ _. Option ℕ) [ none ↦ none | some i ↦ some (suc i) ] in
    if e.active && e.bg_type_id == bg_type_id then (empty_entry ∷ es, some 0) else (e ∷ rest, told)

unfoldable pub handle_battlefield_port : ℕ → Session → List ℕ → Result
handle_battlefield_port now s payload =
    let r = new_reader payload in
    let (kind, b0) = or_zero r (read_u8 r) in
    let (unk2, b1) = or_zero b0 (read_u8 b0) in
    if not s.loaded || ltb (length payload) 9 then (true, s, []) else elim (read_u32 b1) [
      | fail e b ↦ (false, s, [])
      | panic ↦ (false, s, [])
      | done bg_type_id b ↦
          let (unk, b3) = or_zero b (read_u16 b) in
          let (action, b4) = or_zero b3 (read_u8 b3) in
          let (queues, slot) = leave_queue bg_type_id s.queues in
          let told = elim slot as (λ _. List Effect) [
            | none ↦ []
            | some i ↦ send_battlefield_status now i queues
          ] in
          if action == 0 then (true, record s { queues = queues }, told) else (true, s, [])
    ]

-- The status of each place from a slot on.
unfoldable pub all_statuses : ℕ → ℕ → List Entry → List Effect
all_statuses now slot [] = []
all_statuses now slot (e ∷ es) =
    battlefield_status (build_battlefield_status now slot e) ∷ all_statuses now (suc slot) es

unfoldable pub handle_battlefield_status : ℕ → Session → Result
handle_battlefield_status now s =
    if not s.loaded then (false, s, []) else (true, s, all_statuses now 0 s.queues)

unfoldable pub handle_bf_entry_invite_response : Session → List ℕ → Result
handle_bf_entry_invite_response s payload =
    if not s.loaded || ltb (length payload) 5
    then (true, s, [])
    else elim (read_u32 (new_reader payload)) [
      | fail e b ↦ (false, s, [])
      | panic ↦ (false, s, [])
      | done battle_id b ↦ elim (read_u8 b) [
        | fail e b1 ↦ (false, s, [])
        | panic ↦ (false, s, [])
        | done accepted b1 ↦
            let sent = write_u32 1 (write_u8 0 (write_u32 battle_id new_buffer)) in
            (true, s, if accepted == 0 then [] else battlefield_entered sent.bytes ∷ [])
      ]
    ]

unfoldable pub handle_bf_queue_exit_request : Session → List ℕ → Result
handle_bf_queue_exit_request s payload =
    let r = new_reader payload in
    let (battle_id, b) = or_zero r (read_u32 r) in
    let sent = write_u32 0 (write_u8 0 (write_u32 battle_id new_buffer)) in
    if not s.loaded || ltb (length payload) 4
    then (true, s, [])
    else (true, s, battlefield_ejected sent.bytes ∷ [])

-- The loop that ends all entries, from a slot on.
unfoldable pub end_entries : ℕ → ℕ → List Entry → List Entry × List Effect
end_entries now slot [] = ([], [])
end_entries now slot (e ∷ es) =
    let (rest, sent) = end_entries now (suc slot) es in
    let ended = record e { active = false; status = 0 } in
    if e.active
    then (ended ∷ rest, battlefield_status (build_battlefield_status now slot ended) ∷ sent)
    else (e ∷ rest, sent)

unfoldable pub handle_leave_battlefield : ℕ → Session → Result
handle_leave_battlefield now s =
    let (queues, sent) = end_entries now 0 s.queues in
    if not s.loaded
    then (true, s, [])
    else (true, record s { queues = queues }, leaves_battlegrounds ∷ resets_criteria ∷ sent)
