-- ===== src/World/Groups/Joining.antt =====
-- engine/world/group.go: invitations, and how a player joins a group.
use moreno_go_moreno_core.Common.{
  ℕ, ◌+◌, ◌%◌, ◌^◌, true, false, not, List, [], ◌∷◌, ◌++◌, ◌==◌, leb, if◌then◌else◌, none, some,
  length,
}
use moreno_go_moreno_core.Protocol.Buffer.{done, fail, panic, new_reader, read_cstring}
use moreno_go_moreno_core.World.Groups.{
  Session, Group, Member, World, party_result, group_invite, group_decline, Result, Names,
  party_op_invite, err_party_result_ok, err_bad_player_name, err_group_full, err_already_in_group,
  err_not_leader, max_group_size, same_text, to_lower, set_group_id, set_pending, put_group,
  broadcast_group_list, find_session_by_guid, no_icons,
}

abbrev pub refuse_invite : Session → List ℕ → ℕ → World → Result
refuse_invite s name result w = (true, w, party_result s.guid party_op_invite name result ∷ [])

-- The end of handleGroupInvite.
unfoldable pub send_invite : Session → Session → List ℕ → World → Result
send_invite s invited member_name w = (
  true,
  set_pending invited.guid s.guid w,
  group_invite invited.guid 1 s.name
      ∷ party_result s.guid party_op_invite member_name err_party_result_ok
      ∷ [],
)

-- From the test whether the inviting player is a leader on.
unfoldable pub invite_as_leader : Session → Session → List ℕ → World → Result
invite_as_leader s invited member_name w =
    if s.group_id == 0 then send_invite s invited member_name w else elim (w.groups s.group_id) [
      | none ↦ send_invite s invited member_name (set_group_id s.guid 0 w)
      | some g ↦
          if not (g.leader_guid == s.guid)
          then refuse_invite s [] err_not_leader w
          else if leb max_group_size (length g.members)
          then refuse_invite s [] err_group_full w
          else send_invite s invited member_name w
    ]

unfoldable pub invite_found : Session → Session → List ℕ → World → Result
invite_found s invited member_name w =
    let refused = party_result s.guid party_op_invite member_name err_already_in_group ∷ [] in
    let told = if invited.group_id == 0 then [] else group_invite invited.guid 0 s.name ∷ [] in
    if not (invited.group_id == 0)
    then (true, w, refused ++ told)
    else if not (invited.pending_group_leader == 0)
    then (true, w, refused ++ told)
    else invite_as_leader s invited member_name w

unfoldable pub invite_named : Names → Session → List ℕ → World → Result
invite_named names s member_name w =
    let bad = refuse_invite s member_name err_bad_player_name w in
    if same_text member_name []
    then bad
    else if same_text (to_lower member_name) (to_lower s.name)
    then bad
    else elim (names.find_by_name member_name w.sessions) [
      | none ↦ bad
      | some guid ↦ elim (w.sessions guid) [ none ↦ bad | some t ↦ invite_found s t member_name w ]
    ]

unfoldable pub handle_group_invite : Names → Session → List ℕ → World → Result
handle_group_invite names s payload w =
    let bad = refuse_invite s [] err_bad_player_name w in
    if not s.loaded then (false, w, []) else elim (read_cstring (new_reader payload)) [
      | done member_name b ↦ invite_named names s member_name w
      | fail e b ↦ bad
      | panic ↦ bad
    ]

abbrev pub new_member : Session → Member
new_member s = record { guid = s.guid; name = s.name; sub_group = 0; flags = 0; roles = 0 }

-- The group that handleGroupAccept makes for a leader who has none.
unfoldable pub new_group : ℕ → Session → Group
new_group id leader = record {
  id = id;
  leader_guid = leader.guid;
  members = new_member leader ∷ [];
  loot_method = 3;
  master_looter = 0;
  loot_threshold = 2;
  looter_guid = leader.guid;
  dungeon_diff = 1;
  raid_diff = 1;
  is_raid = false;
  is_lfg = false;
  target_icons = no_icons;
  counter = 0;
}

-- The end of handleGroupAccept, with the group that the player joins.
unfoldable pub join_group : Session → Group → World → Result
join_group s g w =
    let joined = record g { members = g.members ++ new_member s ∷ [] } in
    let (w', e) = broadcast_group_list joined (set_group_id s.guid g.id w) in
    if leb max_group_size (length g.members)
    then (false, w, party_result s.guid party_op_invite [] err_group_full ∷ [])
    else (true, w', e)

unfoldable pub found_group : Session → Session → World → Result
found_group s leader w =
    let id = (w.next_id + 1) % 2 ^ 64 in
    let g = new_group id leader in
    join_group s g (set_group_id leader.guid id (put_group g (record w { next_id = id })))

-- From the leader's session on.
unfoldable pub accept_from : Session → Session → World → Result
accept_from s leader w =
    if leader.group_id == 0 then found_group s leader w else elim (w.groups leader.group_id) [
      | none ↦ found_group s leader w
      | some g ↦ join_group s g w
    ]

unfoldable pub handle_group_accept : Session → World → Result
handle_group_accept s w =
    let w1 = set_pending s.guid 0 w in
    if not s.loaded
    then (false, w, [])
    else if s.pending_group_leader == 0
    then (false, w, [])
    else if s.pending_group_leader == s.guid
    then (false, w1, [])
    else elim (find_session_by_guid s.pending_group_leader w1) [
      | none ↦ (false, w1, [])
      | some leader ↦ accept_from s leader w1
    ]

unfoldable pub handle_group_decline : Session → World → Result
handle_group_decline s w =
    let w1 = set_pending s.guid 0 w in
    if not s.loaded
    then (false, w, [])
    else if s.pending_group_leader == 0
    then (false, w, [])
    else elim (find_session_by_guid s.pending_group_leader w1) [
      | none ↦ (false, w1, [])
      | some leader ↦ (true, w1, group_decline leader.guid s.name ∷ [])
    ]
