-- ===== src/World/Groups/Leaving.antt =====
-- engine/world/group.go: how a player leaves a group, and the end of a group.
use moreno_go_moreno_core.Common.{
  ℕ, true, false, not, List, [], ◌∷◌, ◌++◌, ◌==◌, if◌then◌else◌, Option, none, some,
}
use moreno_go_moreno_core.Protocol.Buffer.{done, fail, panic, new_reader, read_cstring, read_u64}
use moreno_go_moreno_core.World.Groups.{
  Session, Group, Member, World, Effect, party_result, group_uninvite, group_destroyed, empty_list,
  leave_rolls, lfg_abandoned, Result, Names, party_op_uninvite, party_op_leave, err_party_result_ok,
  err_target_not_in_group, err_not_leader, same_text, to_lower, set_group_id, set_pending,
  delete_group, broadcast_group_list, find_session_by_guid, remove_member,
}

-- What the last session of a group that ends is told.
unfoldable pub end_last : ℕ → ℕ → World → World × List Effect
end_last id guid w = elim (find_session_by_guid guid w) [
  | none ↦ (w, [])
  | some last ↦ (set_group_id guid 0 w, group_destroyed guid ∷ empty_list guid id ∷ [])
]

-- The group without a member: it ends when one member or none is left.
unfoldable pub shrink_group : Group → List Member → World → World × List Effect
shrink_group g [] w = (delete_group g.id w, [])
shrink_group g (m ∷ []) w = end_last g.id m.guid (delete_group g.id w)
shrink_group g (m ∷ n ∷ ms) w = broadcast_group_list (record g { members = m ∷ n ∷ ms }) w

unfoldable pub remove_from_group : Group → Session → World → Result
remove_from_group g target w =
    let out = set_pending target.guid 0 (set_group_id target.guid 0 w) in
    let (w', e) = shrink_group g (remove_member target.guid g.members) out in
    (true, w', leave_rolls target.guid g.id ∷ group_uninvite target.guid ∷ e)

abbrev pub uninvite_refused : Session → List ℕ → ℕ → World → Result
uninvite_refused s name result w = (true, w, party_result s.guid party_op_uninvite name result ∷ [])

-- A found session is removed, whatever group it is in.
unfoldable pub uninvite_target : Session → List ℕ → Option Session → World → Result
uninvite_target s name target w =
    let refused = uninvite_refused s [] err_not_leader w in
    elim (w.groups s.group_id) [
      | none ↦ refused
      | some g ↦ if not (g.leader_guid == s.guid) then refused else elim target [
        | none ↦ uninvite_refused s name err_target_not_in_group w
        | some t ↦ remove_from_group g t w
      ]
    ]

abbrev pub session_named : Names → List ℕ → World → Option Session
session_named names name w = elim (names.find_by_name name w.sessions) [
  | none ↦ none
  | some guid ↦ w.sessions guid
]

unfoldable pub handle_group_uninvite : Names → Session → List ℕ → World → Result
handle_group_uninvite names s payload w =
    if not s.loaded
    then (false, w, [])
    else if s.group_id == 0
    then (false, w, [])
    else elim (read_cstring (new_reader payload)) [
      | done name b ↦
          if same_text (to_lower name) (to_lower s.name)
          then (false, w, [])
          else uninvite_target s name (session_named names name w) w
      | fail e b ↦ (false, w, [])
      | panic ↦ (false, w, [])
    ]

unfoldable pub handle_group_uninvite_guid : Session → List ℕ → World → Result
handle_group_uninvite_guid s payload w =
    if not s.loaded
    then (false, w, [])
    else if s.group_id == 0
    then (false, w, [])
    else elim (read_u64 (new_reader payload)) [
      | done guid b ↦
          if guid == s.guid
          then (false, w, [])
          else uninvite_target s [] (find_session_by_guid guid w) w
      | fail e b ↦ (false, w, [])
      | panic ↦ (false, w, [])
    ]

-- The loop over the members of a group that its leader disbands.
unfoldable pub disband_all : ℕ → List Member → World → World × List Effect
disband_all id [] w = (w, [])
disband_all id (m ∷ ms) w =
    let (w1, e1) = end_last id m.guid w in let (w2, e2) = disband_all id ms w1 in (w2, e1 ++ e2)

-- From the group on.
unfoldable pub leave_or_disband : Session → Group → World → Result
leave_or_disband s g w =
    let abandoned = if g.is_lfg then lfg_abandoned s.guid ∷ [] else [] in
    let done_leave = party_result s.guid party_op_leave s.name err_party_result_ok ∷ [] in
    let (w1, e1) = disband_all g.id g.members (delete_group g.id w) in
    let (w2, e2) = shrink_group g (remove_member s.guid g.members) (set_group_id s.guid 0 w) in
    if g.leader_guid == s.guid
    then (true, w1, abandoned ++ (e1 ++ done_leave))
    else (true, w2, abandoned ++ (leave_rolls s.guid g.id ∷ (e2 ++ done_leave)))

unfoldable pub handle_group_disband : Session → World → Result
handle_group_disband s w =
    if not s.loaded
    then (false, w, [])
    else if not (s.pending_group_leader == 0)
    then (true, set_pending s.guid 0 w, [])
    else if s.group_id == 0
    then (false, w, [])
    else elim (w.groups s.group_id) [
      | none ↦ (false, set_group_id s.guid 0 w, [])
      | some g ↦ leave_or_disband s g w
    ]

-- The group that a session leaves when it ends: it may keep one member.
unfoldable pub keep_group : Session → Group → List Member → World → World × List Effect
keep_group s g [] w = (delete_group g.id w, [])
keep_group s g (m ∷ ms) w =
    broadcast_group_list
      (record g {
        members = m ∷ ms;
        leader_guid = if g.leader_guid == s.guid then m.guid else g.leader_guid;
      })
      w

-- Its result is true: the function gives none.
unfoldable pub remove_session_from_group : Session → World → Result
remove_session_from_group s w =
    let out = set_pending s.guid 0 (set_group_id s.guid 0 w) in
    if s.group_id == 0 then (true, w, []) else elim (w.groups s.group_id) [
      | none ↦ (true, out, [])
      | some g ↦
          let (w', e) = keep_group s g (remove_member s.guid g.members) out in
          (true, w', leave_rolls s.guid g.id ∷ e)
    ]
