-- ===== src/World/Groups/Ranks.antt =====
-- engine/world/group.go: the leader, the loot, the raid, the assistants and the subgroups of a group.
use moreno_go_moreno_core.Common.{
  ℕ, ◌-◌, Bool, true, false, not, List, [], ◌∷◌, ◌++◌, ◌==◌, ltb, leb, ◌||◌, if◌then◌else◌, Option,
  none, some, length, bit_and, bit_or,
}
use moreno_go_moreno_core.Protocol.Buffer.{
  done, fail, panic, new_reader, read_cstring, read_u8, read_u32, read_u64,
}
use moreno_go_moreno_core.World.Groups.{
  Session, Group, Member, World, Effect, party_result, group_set_leader, Result, Names,
  party_op_invite, err_party_result_ok, member_flag_assistant, is_leader_or_assistant,
  count_in_sub_group, broadcast_group_list, find_session_by_guid, find_member,
}

-- The member of a guid is replaced by another.
unfoldable pub replace_member : ℕ → Member → List Member → List Member
replace_member guid x [] = []
replace_member guid x (m ∷ ms) = if m.guid == guid then x ∷ ms else m ∷ replace_member guid x ms

-- The new leader and the first member change places.
unfoldable pub to_front : ℕ → List Member → List Member
to_front guid [] = []
to_front guid (m ∷ ms) =
    let swapped = elim (find_member guid ms) as (λ _. List Member) [
      | none ↦ m ∷ ms
      | some x ↦ x ∷ replace_member guid m ms
    ] in
    if m.guid == guid then m ∷ ms else swapped

-- A list is broadcast with a result.
abbrev pub announced : List Effect → Group → World → Result
announced first g w = let (w', e) = broadcast_group_list g w in (true, w', first ++ e)

unfoldable pub set_leader : ℕ → Group → World → Result
set_leader guid g w =
    let named = elim (find_session_by_guid guid w) as (λ _. List ℕ) [
      | none ↦ []
      | some t ↦ t.name
    ] in
    let led = record g { leader_guid = guid; members = to_front guid g.members } in
    elim (find_member guid g.members) [
      | none ↦ (false, w, [])
      | some m ↦ announced (group_set_leader g.id named ∷ []) led w
    ]

-- The group of a session that it leads.
abbrev pub led_by : Session → World → Option Group
led_by s w = elim (w.groups s.group_id) [
  | none ↦ none
  | some g ↦ if g.leader_guid == s.guid then some g else none
]

unfoldable pub handle_group_set_leader : Session → List ℕ → World → Result
handle_group_set_leader s payload w =
    if not s.loaded || s.group_id == 0
    then (false, w, [])
    else elim (read_u64 (new_reader payload)) [
      | done guid b ↦ elim (led_by s w) [ none ↦ (false, w, []) | some g ↦ set_leader guid g w ]
      | fail e b ↦ (false, w, [])
      | panic ↦ (false, w, [])
    ]

unfoldable pub set_loot : Session → ℕ → ℕ → ℕ → World → Result
set_loot s loot_method master_looter loot_threshold w =
    if ltb 4 loot_method
    then (false, w, [])
    else if ltb loot_threshold 2 || ltb 6 loot_threshold
    then (false, w, [])
    else elim (led_by s w) [
      | none ↦ (false, w, [])
      | some g ↦
          announced []
            (record g {
              loot_method = loot_method;
              master_looter = master_looter;
              loot_threshold = loot_threshold;
            })
            w
    ]

unfoldable pub handle_loot_method : Session → List ℕ → World → Result
handle_loot_method s payload w =
    let refused : Result = (false, w, []) in
    if not s.loaded || s.group_id == 0 then refused else elim (read_u32 (new_reader payload)) [
      | fail e b ↦ refused
      | panic ↦ refused
      | done loot_method b ↦ elim (read_u64 b) [
        | fail e b1 ↦ refused
        | panic ↦ refused
        | done master_looter b1 ↦ elim (read_u32 b1) [
          | fail e b2 ↦ refused
          | panic ↦ refused
          | done loot_threshold b2 ↦ set_loot s loot_method master_looter loot_threshold w
        ]
      ]
    ]

unfoldable pub handle_group_raid_convert : Session → World → Result
handle_group_raid_convert s w =
    let told = party_result s.guid party_op_invite [] err_party_result_ok ∷ [] in
    if not s.loaded || s.group_id == 0 then (false, w, []) else elim (led_by s w) [
      | none ↦ (false, w, [])
      | some g ↦
          if ltb (length g.members) 2
          then (false, w, [])
          else announced told (record g { is_raid = not g.is_raid }) w
    ]

-- The assistant's flag of the first member of a guid.
unfoldable pub set_assistant : ℕ → Bool → List Member → List Member
set_assistant guid apply [] = []
set_assistant guid apply (m ∷ ms) =
    let on = bit_or m.flags member_flag_assistant in
    let off = m.flags - bit_and m.flags member_flag_assistant in
    if m.guid == guid
    then record m { flags = if apply then on else off } ∷ ms
    else m ∷ set_assistant guid apply ms

-- A payload of fewer than 9 bytes, and an error of a read, leave everything as it is.
unfoldable pub handle_group_assistant_leader : Session → List ℕ → World → Result
handle_group_assistant_leader s payload w =
    let same : Result = (true, w, []) in
    if not s.loaded || ltb (length payload) 9 || s.group_id == 0
    then same
    else elim (read_u64 (new_reader payload)) [
      | fail e b ↦ same
      | panic ↦ same
      | done guid b ↦ elim (read_u8 b) [
        | fail e b1 ↦ same
        | panic ↦ same
        | done apply b1 ↦ elim (led_by s w) [
          | none ↦ same
          | some g ↦
              announced [] (record g { members = set_assistant guid (not (apply == 0)) g.members })
                w
        ]
      ]
    ]

-- The first member of a name goes to a subgroup; `none` where there is no such member.
unfoldable pub set_sub_group : Names → List ℕ → ℕ → List Member → Option (List Member)
set_sub_group names name sub [] = none
set_sub_group names name sub (m ∷ ms) =
    let rest = set_sub_group names name sub ms in
    if names.equal_fold m.name name
    then some (record m { sub_group = sub } ∷ ms)
    else elim rest [ none ↦ none | some changed ↦ some (m ∷ changed) ]

unfoldable pub change_sub_group : Names → Session → List ℕ → ℕ → World → Result
change_sub_group names s name sub w =
    let same : Result = (true, w, []) in
    if leb 8 sub then same else elim (w.groups s.group_id) [
      | none ↦ same
      | some g ↦
          if not (is_leader_or_assistant s.guid g)
          then same
          else if leb 5 (count_in_sub_group sub g.members)
          then same
          else elim (set_sub_group names name sub g.members) [
            | none ↦ same
            | some changed ↦ announced [] (record g { members = changed }) w
          ]
    ]

unfoldable pub handle_group_change_sub_group : Names → Session → List ℕ → World → Result
handle_group_change_sub_group names s payload w =
    let same : Result = (true, w, []) in
    if not s.loaded || ltb (length payload) 2 || s.group_id == 0
    then same
    else elim (read_cstring (new_reader payload)) [
      | fail e b ↦ same
      | panic ↦ same
      | done name b ↦ elim (read_u8 b) [
        | fail e b1 ↦ same
        | panic ↦ same
        | done sub b1 ↦ change_sub_group names s name sub w
      ]
    ]
