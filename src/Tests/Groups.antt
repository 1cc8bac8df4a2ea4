-- ===== src/Tests/Groups.antt =====
-- engine/world/group.go: a group of two players.
use moreno_go_moreno_core.Common.{
  ℕ, refl, arith, true, false, List, [], ◌∷◌, ◌==◌, if◌then◌else◌, none, some, Bool, take, drop,
  ◌++◌, ◌≡◌,
}
use moreno_go_moreno_core.Protocol.Buffer.{le_bytes, new_reader, read_u64, read_word, read, done}
use moreno_go_moreno_core.World.Groups.{
  Session, Group, Member, World, Names, no_icons, find_session_by_guid,
}
use moreno_go_moreno_core.World.Groups.Looter.{
  update_looter, next_looter, looter_index, after_looter, first_near, is_near, or_default,
  update_looter-first_near,
}
use moreno_go_moreno_core.World.Groups.Joining.{handle_group_accept}
use moreno_go_moreno_core.World.Groups.Leaving.{handle_group_uninvite_guid}
use moreno_go_moreno_core.World.Groups.Stores.{Agrees, group_named, members_of, count}
use moreno_go_moreno_core.World.Groups.Ends.{Valid}
use moreno_go_moreno_core.World.Groups.Sessions.{
  start, enters, acts, accepts, step, enter, Reach-Valid,
}
use moreno_go_moreno_core.World.Groups.Gaps.{joins_twice, removes_stranger}

-- No name is found.
abbrev nobody : Names
nobody = record { equal_fold = λ a b. false; find_by_name = λ name sessions. none }

abbrev alice : Session
alice = record { guid = 1; name = 97 ∷ []; loaded = true; group_id = 0; pending_group_leader = 0 }

-- Bob has been invited by Alice.
abbrev bob : Session
bob = record { guid = 2; name = 98 ∷ []; loaded = true; group_id = 0; pending_group_leader = 1 }

abbrev nothing : World
nothing = record { sessions = λ g. none; groups = λ i. none; next_id = 1 }

abbrev both : World
both = enter bob (enter alice nothing)

Reach-Valid_example : Valid (step nobody 2 accepts both).1
Reach-Valid_example = Reach-Valid nobody (
    acts 2 accepts (enters bob (enters alice (start 1) refl refl refl) refl refl refl)
      (λ s e. (ground (arith, e), (omega arith, refl))))

abbrev member : ℕ → Member
member guid = record { guid = guid; name = []; sub_group = 0; flags = 0; roles = 0 }

abbrev group : ℕ → List Member → Group
group id members = record {
  id = id;
  leader_guid = 0;
  members = members;
  loot_method = 3;
  master_looter = 0;
  loot_threshold = 2;
  looter_guid = 0;
  dungeon_diff = 1;
  raid_diff = 1;
  is_raid = false;
  is_lfg = false;
  target_icons = no_icons;
  counter = 0;
}

abbrev session : ℕ → ℕ → Session
session guid id = record {
  guid = guid;
  name = [];
  loaded = true;
  group_id = id;
  pending_group_leader = 0;
}

-- Two groups of two: 1 and 2, and 3 and 4.
abbrev first : Group
first = group 7 (member 1 ∷ member 2 ∷ [])

abbrev second : Group
second = group 8 (member 3 ∷ member 4 ∷ [])

abbrev two_groups : World
two_groups = record {
  sessions = λ g.
      if g == 1
      then some (session 1 7)
      else if g == 2
      then some (session 2 7)
      else if g == 3
      then some (session 3 8)
      else if g == 4
      then some (session 4 8)
      else none;
  groups = λ i. if i == 7 then some first else if i == 8 then some second else none;
  next_id = 8;
}

two_groups-Agrees : Agrees two_groups
two_groups-Agrees = λ i j n. ground arith

-- The second player of the first group is invited to the second group.
abbrev invited : Session
invited = record (session 2 7) { pending_group_leader = 3 }

abbrev inviting : World
inviting = record two_groups {
  sessions = λ g. if g == 2 then some invited else two_groups.sessions g;
}

inviting-Agrees : Agrees inviting
inviting-Agrees = λ i j n. ground arith

inviter_found : find_session_by_guid 3 inviting ≡ some (session 3 8)
unfolding find_session_by_guid
inviter_found = refl

joins_twice_example :
    let w' = (handle_group_accept invited inviting).1 in
    (group_named w' 2 ≡ 8) × (count 2 (members_of w' 8) ≡ 1) × (count 2 (members_of w' 7) ≡ 1)
joins_twice_example =
    joins_twice invited (session 3 8) second inviting inviting-Agrees refl refl (omega arith)
      (omega arith) (omega arith) inviter_found refl refl (omega arith) (omega arith)

-- The first player leads the first group and removes the fourth one.
abbrev led : Group
led = record first { leader_guid = 1 }

abbrev led_groups : World
led_groups = record two_groups { groups = λ i. if i == 7 then some led else two_groups.groups i }

led_groups-Agrees : Agrees led_groups
led_groups-Agrees = λ i j n. ground arith

fourth_read :
    read_u64 (new_reader (le_bytes 8 4)) ≡ done 4 (record { bytes = le_bytes 8 4; pos = 8 })
unfolding read_u64 read_word read new_reader
fourth_read = refl

removes_stranger_example :
    let w' = (handle_group_uninvite_guid (session 1 7) (le_bytes 8 4) led_groups).1 in
    (group_named w' 4 ≡ 0)
    × (count 4 (members_of w' 8) ≡ 1)
    × (members_of w' 8 ≡ members_of led_groups 8)
removes_stranger_example =
    removes_stranger (session 1 7) (session 4 8) led (le_bytes 8 4)
      (record { bytes = le_bytes 8 4; pos = 8 }) led_groups led_groups-Agrees refl (omega arith)
      refl refl fourth_read (omega arith) refl refl (omega arith) (omega arith)

-- The loot goes from the first player to the second.
abbrev everybody : Session → Bool
everybody s = true

update_looter-first_near_example :
    let g = record first { looter_guid = 1 } in
    let place = after_looter 1 g.members in
    let turn = drop place g.members ++ take place g.members in
    (update_looter everybody g two_groups).looter_guid
    ≡ or_default (first_near (is_near everybody two_groups) turn) 1
update_looter-first_near_example =
    update_looter-first_near everybody (record first { looter_guid = 1 }) two_groups refl refl

second_looter :
    (update_looter everybody (record first { looter_guid = 1 }) two_groups).looter_guid ≡ 2
unfolding update_looter next_looter looter_index find_session_by_guid
second_looter = refl
