-- ===== src/World/Groups.antt =====
-- engine/world/group.go: the groups of players, the sessions that are in them, and the packets about
-- them. Sessions stand under the guids of their players, groups under their ids; 0 is no group and no
-- inviter.
pub mod Joining
pub mod Leaving
pub mod Ranks
pub mod Calls
pub mod Marks
pub mod Looter
pub mod Stores
pub mod Ends
pub mod Joins
pub mod Membership
pub mod Orders
pub mod Sessions
pub mod Gaps
use moreno_go_moreno_core.Common.{
  ℕ, ◌+◌, ◌-◌, ◌%◌, ◌^◌, Bool, true, false, not, ◌&&◌, ◌||◌, List, [], ◌∷◌, ◌++◌, ◌==◌, ltb, leb,
  if◌then◌else◌, Option, none, some, length, bit_and, replicate,
}
use moreno_go_moreno_core.Protocol.Buffer.{
  Buffer, Outcome, done, fail, panic, new_buffer, write_u8, write_u32, write_u64, write_cstring,
}

abbrev pub member_flag_assistant : ℕ
member_flag_assistant = 0x01

abbrev pub max_group_size : ℕ
max_group_size = 5

abbrev pub party_op_invite : ℕ
party_op_invite = 0

abbrev pub party_op_uninvite : ℕ
party_op_uninvite = 1

abbrev pub party_op_leave : ℕ
party_op_leave = 2

abbrev pub err_party_result_ok : ℕ
err_party_result_ok = 0

abbrev pub err_bad_player_name : ℕ
err_bad_player_name = 1

abbrev pub err_target_not_in_group : ℕ
err_target_not_in_group = 2

abbrev pub err_group_full : ℕ
err_group_full = 3

abbrev pub err_already_in_group : ℕ
err_already_in_group = 4

abbrev pub err_not_leader : ℕ
err_not_leader = 5

-- The icons of a new group.
abbrev pub no_icons : List ℕ
no_icons = replicate 8 0

pub record Member : Type 0 where
  pub guid : ℕ
  pub name : List ℕ
  pub sub_group : ℕ
  pub flags : ℕ
  pub roles : ℕ

pub record Group : Type 0 where
  pub id : ℕ
  pub leader_guid : ℕ
  pub members : List Member
  pub loot_method : ℕ
  pub master_looter : ℕ
  pub loot_threshold : ℕ
  pub looter_guid : ℕ
  pub dungeon_diff : ℕ
  pub raid_diff : ℕ
  pub is_raid : Bool
  pub is_lfg : Bool
  pub target_icons : List ℕ
  pub counter : ℕ

-- What the handlers take from a session. `loaded` says that it has a player and that the player is
-- in the world.
pub record Session : Type 0 where
  pub guid : ℕ
  pub name : List ℕ
  pub loaded : Bool
  pub group_id : ℕ
  pub pending_group_leader : ℕ

-- `next_id` is the counter groupNextID.
pub record World : Type 0 where
  pub sessions : ℕ → Option Session
  pub groups : ℕ → Option Group
  pub next_id : ℕ

pub data Effect : Type 0 where
  -- To a session: an operation, a name, a result.
  party_result : ℕ → ℕ → List ℕ → ℕ → Effect
  -- To a session: whether it is an invitation, and the inviter's name.
  group_invite : ℕ → ℕ → List ℕ → Effect
  group_decline : ℕ → List ℕ → Effect
  group_uninvite group_destroyed : ℕ → Effect
  -- To a session: an empty list of a group.
  empty_list : ℕ → ℕ → Effect
  -- To each session of a group.
  group_set_leader : ℕ → List ℕ → Effect
  group_list : ℕ → Effect
  -- A player's pass in the rolls of a group, and a criterion of achievements.
  leave_rolls : ℕ → ℕ → Effect
  lfg_abandoned : ℕ → Effect
  -- To a session: all icons. To each session of a group: an icon and its target.
  raid_targets : ℕ → List ℕ → Effect
  raid_target : ℕ → ℕ → ℕ → Effect
  -- To the other sessions of a group: a player's ping, its place the words of two floats.
  minimap_ping : ℕ → ℕ → ℕ → ℕ → Effect
  -- To each session of a group: a player asks, and the check ends.
  ready_check : ℕ → ℕ → Effect
  ready_finished : ℕ → Effect
  -- To the leader and the assistants of a group: a player and the answer.
  ready_answer : ℕ → ℕ → ℕ → Effect
  -- To a session, and to the other sessions of its group: a roll between two numbers.
  random_roll group_roll : ℕ → ℕ → ℕ → ℕ → Effect

-- A handler's result, false where it refuses, with the new state and what is sent. Each packet is
-- taken as sent.
abbrev pub Result : Type 0
Result = Bool × World × List Effect

-- How names are compared: strings.EqualFold of the language, and the session that it finds.
pub record Names : Type 0 where
  pub equal_fold : List ℕ → List ℕ → Bool
  pub find_by_name : List ℕ → (ℕ → Option Session) → Option ℕ

abbrev pub same_text : List ℕ → List ℕ → Bool
same_text [] [] = true
same_text [] (y ∷ ys) = false
same_text (x ∷ xs) [] = false
same_text (x ∷ xs) (y ∷ ys) = x == y && same_text xs ys

unfoldable pub to_lower : List ℕ → List ℕ
to_lower [] = []
to_lower (c ∷ cs) = (if leb 65 c && leb c 90 then c + 32 else c) ∷ to_lower cs

unfoldable pub is_leader : ℕ → Group → Bool
is_leader guid g = g.leader_guid == guid

unfoldable pub has_assistant : ℕ → List Member → Bool
has_assistant guid [] = false
has_assistant guid (m ∷ ms) =
    (m.guid == guid && not (bit_and m.flags member_flag_assistant == 0)) || has_assistant guid ms

unfoldable pub is_leader_or_assistant : ℕ → Group → Bool
unfolding is_leader has_assistant
is_leader_or_assistant guid g = is_leader guid g || has_assistant guid g.members

unfoldable pub count_in_sub_group : ℕ → List Member → ℕ
count_in_sub_group sub [] = 0
count_in_sub_group sub (m ∷ ms) = (if m.sub_group == sub then 1 else 0) + count_in_sub_group sub ms

-- The writes of the handlers: a field of a session, a group, its end.
abbrev pub on_session : ℕ → (Session → Session) → (ℕ → Option Session) → ℕ → Option Session
on_session guid f sessions g =
    if g == guid then elim (sessions g) [ none ↦ none | some s ↦ some (f s) ] else sessions g

unfoldable pub set_group_id : ℕ → ℕ → World → World
set_group_id guid id w = record w {
  sessions = on_session guid (λ s. record s { group_id = id }) w.sessions;
}

unfoldable pub set_pending : ℕ → ℕ → World → World
set_pending guid leader w = record w {
  sessions = on_session guid (λ s. record s { pending_group_leader = leader }) w.sessions;
}

unfoldable pub put_group : Group → World → World
put_group g w = record w { groups = λ i. if i == g.id then some g else w.groups i }

unfoldable pub delete_group : ℕ → World → World
delete_group id w = record w { groups = λ i. if i == id then none else w.groups i }

-- broadcastGroupList, of a group that stands in the map.
unfoldable pub broadcast_group_list : Group → World → World × List Effect
unfolding put_group
broadcast_group_list g w =
    (put_group (record g { counter = (g.counter + 1) % 2 ^ 32 }) w, group_list g.id ∷ [])

-- engine/world/chat.go.
unfoldable pub find_session_by_guid : ℕ → World → Option Session
find_session_by_guid guid w = elim (w.sessions guid) [
  | none ↦ none
  | some s ↦ if s.loaded then some s else none
]

-- The removal of the first member of a guid.
unfoldable pub remove_member : ℕ → List Member → List Member
remove_member guid [] = []
remove_member guid (m ∷ ms) = if m.guid == guid then ms else m ∷ remove_member guid ms

unfoldable pub build_party_command_result : ℕ → List ℕ → ℕ → Buffer
unfolding new_buffer write_u32 write_cstring
build_party_command_result operation member result =
    write_u32 0 (write_u32 result (write_cstring member (write_u32 operation new_buffer)))

unfoldable pub build_group_invite : ℕ → List ℕ → Buffer
unfolding new_buffer write_u8 write_u32 write_cstring
build_group_invite flag inviter_name =
    write_u32 0 (write_u8 0 (write_u32 0 (write_cstring inviter_name (write_u8 flag new_buffer))))

unfoldable pub find_member : ℕ → List Member → Option Member
find_member guid [] = none
find_member guid (m ∷ ms) = if m.guid == guid then some m else find_member guid ms

-- The loop over the other members.
unfoldable pub write_members : ℕ → List Member → Buffer → Buffer
unfolding write_u8 write_u64 write_cstring
write_members for_guid [] b = b
write_members for_guid (m ∷ ms) b =
    let written = write_u8 m.roles (
      write_u8 m.flags
        (write_u8 m.sub_group (write_u8 1 (write_u64 m.guid (write_cstring m.name b))))) in
    write_members for_guid ms (if m.guid == for_guid then b else written)

unfoldable pub build_group_list : Group → ℕ → Buffer
unfolding find_member write_members new_buffer write_u8 write_u32 write_u64
build_group_list g for_guid =
    let nobody : Member = record { guid = 0; name = []; sub_group = 0; flags = 0; roles = 0 } in
    let slot = elim (find_member for_guid g.members) as (λ _. Member) [
      | none ↦ nobody
      | some m ↦ m
    ] in
    let count = length g.members - 1 in
    let head = write_u32 count (
      write_u32 g.counter (
        write_u64 g.id (
          write_u8 slot.roles (
            write_u8 slot.flags
              (write_u8 slot.sub_group (write_u8 (if g.is_raid then 1 else 0) new_buffer)))))) in
    let led = write_u64 g.leader_guid (write_members for_guid g.members head) in
    if ltb 0 count
    then write_u8 0 (
        write_u8 g.raid_diff (
          write_u8 g.dungeon_diff
            (write_u8 g.loot_threshold (write_u64 g.master_looter (write_u8 g.loot_method led)))))
    else led
