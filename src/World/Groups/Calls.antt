-- ===== src/World/Groups/Calls.antt =====
-- engine/world/group.go: the marks, pings, ready checks and rolls of a group.
use moreno_go_moreno_core.Common.{
  ℕ, ◌+◌, ◌-◌, ◌%◌, Bool, true, false, not, List, [], ◌∷◌, ◌==◌, ltb, leb, ◌||◌, ◌&&◌,
  if◌then◌else◌, none, some, length, bit_and, bit_or, set,
}
use moreno_go_moreno_core.Protocol.Buffer.{
  done, fail, panic, new_reader, read_u8, read_u32, read_u64,
}
use moreno_go_moreno_core.World.Groups.{
  Session, Group, Member, World, Effect, Result, raid_targets, raid_target, minimap_ping,
  ready_check, ready_finished, ready_answer, random_roll, group_roll, is_leader_or_assistant,
  put_group, find_session_by_guid,
}
use moreno_go_moreno_core.World.Groups.Ranks.{announced}

abbrev pub member_flag_main_tank : ℕ
member_flag_main_tank = 2

abbrev pub member_flag_main_assist : ℕ
member_flag_main_assist = 4

abbrev pub random_roll_max : ℕ
random_roll_max = 10000

-- ReadF32 reads the word of a float.
unfoldable pub handle_minimap_ping : Session → List ℕ → World → Result
handle_minimap_ping s payload w =
    let refused : Result = (false, w, []) in
    if not s.loaded || s.group_id == 0 then refused else elim (read_u32 (new_reader payload)) [
      | fail e b ↦ refused
      | panic ↦ refused
      | done x b ↦ elim (read_u32 b) [
        | fail e b1 ↦ refused
        | panic ↦ refused
        | done y b1 ↦ (true, w, minimap_ping s.group_id s.guid x y ∷ [])
      ]
    ]

unfoldable pub mark_target : Session → Group → ℕ → ℕ → World → Result
mark_target s g x guid w = if leb 8 x then (false, w, []) else (
  true,
  put_group (record g { target_icons = set g.target_icons x guid }) w,
  raid_target s.group_id x guid ∷ [],
)

unfoldable pub handle_raid_target_update : Session → List ℕ → World → Result
handle_raid_target_update s payload w =
    let refused : Result = (false, w, []) in
    if not s.loaded || s.group_id == 0 then refused else elim (read_u8 (new_reader payload)) [
      | fail e b ↦ refused
      | panic ↦ refused
      | done x b ↦ elim (w.groups s.group_id) [
        | none ↦ refused
        | some g ↦
            if x == 255
            then (true, w, raid_targets s.guid g.target_icons ∷ [])
            else if g.is_raid && not (g.leader_guid == s.guid)
            then refused
            else elim (read_u64 b) [
              | fail e b1 ↦ refused
              | panic ↦ refused
              | done guid b1 ↦ mark_target s g x guid w
            ]
      ]
    ]

-- A flag is taken from every member.
unfoldable pub clear_flag : ℕ → List Member → List Member
clear_flag flag [] = []
clear_flag flag (m ∷ ms) = record m { flags = m.flags - bit_and m.flags flag } ∷ clear_flag flag ms

-- A flag is given to the first member of a guid.
unfoldable pub give_flag : ℕ → ℕ → List Member → List Member
give_flag guid flag [] = []
give_flag guid flag (m ∷ ms) =
    if m.guid == guid
    then record m { flags = bit_or m.flags flag } ∷ ms
    else m ∷ give_flag guid flag ms

unfoldable pub assign : ℕ → ℕ → Bool → Group → World → Result
assign guid flag apply g w =
    let cleared = clear_flag flag g.members in
    announced [] (record g { members = if apply then give_flag guid flag cleared else cleared }) w

unfoldable pub assign_party : Session → ℕ → Bool → ℕ → World → Result
assign_party s assignment apply guid w =
    let refused : Result = (false, w, []) in
    elim (w.groups s.group_id) [
      | none ↦ refused
      | some g ↦
          if not (is_leader_or_assistant s.guid g)
          then refused
          else if assignment == 0
          then assign guid member_flag_main_assist apply g w
          else if assignment == 1
          then assign guid member_flag_main_tank apply g w
          else refused
    ]

unfoldable pub handle_party_assignment : Session → List ℕ → World → Result
handle_party_assignment s payload w =
    let refused : Result = (false, w, []) in
    if not s.loaded || s.group_id == 0 then refused else elim (read_u8 (new_reader payload)) [
      | fail e b ↦ refused
      | panic ↦ refused
      | done assignment b ↦ elim (read_u8 b) [
        | fail e b1 ↦ refused
        | panic ↦ refused
        | done apply b1 ↦ elim (read_u64 b1) [
          | fail e b2 ↦ refused
          | panic ↦ refused
          | done guid b2 ↦ assign_party s assignment (not (apply == 0)) guid w
        ]
      ]
    ]

-- Members without a session are not ready.
unfoldable pub offline_answers : ℕ → List Member → World → List Effect
offline_answers id [] w = []
offline_answers id (m ∷ ms) w =
    let rest = offline_answers id ms w in
    elim (find_session_by_guid m.guid w) [ none ↦ ready_answer id m.guid 0 ∷ rest | some s ↦ rest ]

unfoldable pub handle_ready_check : Session → List ℕ → World → Result
handle_ready_check s payload w =
    let refused : Result = (false, w, []) in
    if not s.loaded || s.group_id == 0 then refused else elim (w.groups s.group_id) [
      | none ↦ refused
      | some g ↦
          if length payload == 0
          then (if is_leader_or_assistant s.guid g
              then (true, w, ready_check s.group_id s.guid ∷ offline_answers s.group_id g.members w)
              else refused)
          else elim (read_u8 (new_reader payload)) [
            | fail e b ↦ refused
            | panic ↦ refused
            | done state b ↦ (true, w, ready_answer s.group_id s.guid state ∷ [])
          ]
    ]

unfoldable pub handle_raid_ready_check_finished : Session → World → Result
handle_raid_ready_check_finished s w =
    let same : Result = (true, w, []) in
    if not s.loaded || s.group_id == 0 then same else elim (w.groups s.group_id) [
      | none ↦ same
      | some g ↦
          if is_leader_or_assistant s.guid g
          then (true, w, ready_finished s.group_id ∷ [])
          else same
    ]

-- `draw` is the number that rand.Intn gives, of which the remainder is taken so that it is below
-- the argument of the call.
unfoldable pub roll_between : Session → ℕ → ℕ → ℕ → World → Result
roll_between s minimum maximum draw w =
    let rolled = minimum + draw % (maximum - minimum + 1) in
    let others =
      if s.group_id == 0 then [] else group_roll s.group_id minimum maximum rolled ∷ [] in
    if ltb maximum minimum || ltb random_roll_max maximum
    then (false, w, [])
    else (true, w, random_roll s.guid minimum maximum rolled ∷ others)

unfoldable pub handle_random_roll : ℕ → Session → List ℕ → World → Result
handle_random_roll draw s payload w =
    let refused : Result = (false, w, []) in
    if not s.loaded then refused else elim (read_u32 (new_reader payload)) [
      | fail e b ↦ refused
      | panic ↦ refused
      | done minimum b ↦ elim (read_u32 b) [
        | fail e b1 ↦ refused
        | panic ↦ refused
        | done maximum b1 ↦ roll_between s minimum maximum draw w
      ]
    ]
