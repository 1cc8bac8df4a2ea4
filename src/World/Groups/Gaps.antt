-- ===== src/World/Groups/Gaps.antt =====
-- engine/world/group.go: two tests that handlers lack.
use moreno_go_moreno_core.Common.{
  ℕ, true, refl, ap, ◌+◌, ◌%◌, ◌^◌, ◌≡◌, ◌≢◌, ◌<◌, ◌∙◌, arith, List, [], ◌∷◌, ◌++◌, ◌==◌,
  if◌then◌else◌, some, Bool-cases, ==→eq, ne→==, ==_self, inl, inr, length, lt→leb,
}
use moreno_go_moreno_core.Protocol.Buffer.{Buffer, done, new_reader, read_u64}
use moreno_go_moreno_core.World.Groups.{
  Session, Group, Member, World, set_group_id, set_pending, put_group, delete_group,
  broadcast_group_list, remove_member, find_session_by_guid,
}
use moreno_go_moreno_core.World.Groups.Joining.{
  join_group, new_member, accept_from, handle_group_accept,
}
use moreno_go_moreno_core.World.Groups.Leaving.{
  end_last, shrink_group, remove_from_group, uninvite_target, handle_group_uninvite_guid,
}
use moreno_go_moreno_core.World.Groups.Stores.{
  group_named, members_of, count, count-append, Agrees, group_named-set_group_id,
  group_named-set_pending, members_of-put_group, members_of-delete_group, members_of-set_group_id,
  members_of-set_pending, group_named-put_group, group_named-delete_group,
}
use moreno_go_moreno_core.World.Groups.Ends.{members_at, end_last-members}

abbrev joined : Session → Group → World → World
joined s g w =
    put_group
      (record g { members = g.members ++ new_member s ∷ []; counter = (g.counter + 1) % 2 ^ 32 })
      (set_group_id s.guid g.id w)

join_group-eq :
    (s : Session) (g : Group) (w : World)
    → length g.members < 5
    → (join_group s g w).1 ≡ joined s g w
unfolding join_group broadcast_group_list
join_group-eq s g w room = rw (lt→leb 5 (length g.members) room)

-- What joining a group leaves of the memberships of a player.
joined-Twice :
    (s : Session) (g : Group) (w : World)
    → w.sessions s.guid ≡ some s
    → s.group_id ≢ 0
    → w.groups g.id ≡ some g
    → count s.guid (members_of w s.group_id) ≡ 1
    → count s.guid (members_of w g.id) ≡ (if s.group_id == g.id then 1 else 0)
    → let w' = joined s g w in
      let memberships : ℕ = if s.group_id == g.id then 2 else 1 in
      (group_named w' s.guid ≡ g.id)
      × (count s.guid (members_of w' g.id) ≡ memberships)
      × (count s.guid (members_of w' s.group_id) ≡ memberships)
joined-Twice s g w e n k one new =
    let w1 = set_group_id s.guid g.id w in
    let g' = record g {
      members = g.members ++ new_member s ∷ [];
      counter = (g.counter + 1) % 2 ^ 32;
    } in
    let grp =
      group_named-put_group g' w1 s.guid ∙ group_named-set_group_id s.guid g.id w s s.guid e in
    let named : group_named (joined s g w) s.guid ≡ g.id = grp ∙ rw (==_self s.guid) refl in
    let mem : members_of (joined s g w) g.id ≡ g'.members =
      members_of-put_group g' w1 g.id ∙ rw (==_self g.id) refl in
    let more : count s.guid (members_of (joined s g w) g.id)
        ≡ (if s.group_id == g.id then 1 else 0) + 1 =
      rw mem (
        ground (arith, new, members_at g w k, count-append s.guid g.members (new_member s ∷ []))) in
    elim (Bool-cases (s.group_id == g.id)) [
      | inl b ↦
          let same : s.group_id ≡ g.id = ==→eq s.group_id g.id b in
          let two : count s.guid (members_of (joined s g w) g.id) ≡ 2 = rw b at more in
          rw b (named, two, rw same two)
      | inr b ↦
          let m : count s.guid (members_of (joined s g w) g.id) ≡ 1 = rw b at more in
          let old : members_of (joined s g w) s.group_id ≡ members_of w s.group_id =
            members_of-put_group g' w1 s.group_id
            ∙ rw b (members_of-set_group_id s.guid g.id w s.group_id) in
          rw b (named, m, ap (count s.guid) old ∙ one)
    ]

other_session :
    (guid leader : ℕ) (l : Session) (w : World)
    → leader ≢ guid
    → find_session_by_guid leader w ≡ some l
    → find_session_by_guid leader (set_pending guid 0 w) ≡ some l
unfolding find_session_by_guid set_pending
other_session guid leader l w n f = rw (find_session_by_guid, ne→== leader guid n) f

accepts_into :
    (s leader : Session) (g : Group) (w : World)
    → s.loaded ≡ true
    → s.pending_group_leader ≢ 0
    → s.pending_group_leader ≢ s.guid
    → find_session_by_guid s.pending_group_leader w ≡ some leader
    → leader.group_id ≡ g.id
    → w.groups g.id ≡ some g
    → g.id ≢ 0
    → length g.members < 5
    → (handle_group_accept s w).1 ≡ joined s g (set_pending s.guid 0 w)
unfolding handle_group_accept accept_from set_pending
accepts_into s leader g w l p q f b k z room =
    let w1 = set_pending s.guid 0 w in
    let found : find_session_by_guid s.pending_group_leader w1 ≡ some leader =
      other_session s.guid s.pending_group_leader leader w q f in
    rw
      (
        handle_group_accept,
        l,
        ne→== s.pending_group_leader 0 p,
        ne→== s.pending_group_leader s.guid q,
        found,
        accept_from,
        b,
        ne→== g.id 0 z,
        k,
      )
      (join_group-eq s g w1 room)

-- A player in the world who is in a group and accepts the invitation of another player, who is found
-- and is in a group with room, is then once a member of both groups, or twice of the one if both are
-- in the same group, and the session names the group of the invitation. The sessions and the groups
-- agreed before.
pub joins_twice :
    (s leader : Session) (g : Group) (w : World)
    → Agrees w
    → w.sessions s.guid ≡ some s
    → s.loaded ≡ true
    → s.group_id ≢ 0
    → s.pending_group_leader ≢ 0
    → s.pending_group_leader ≢ s.guid
    → find_session_by_guid s.pending_group_leader w ≡ some leader
    → leader.group_id ≡ g.id
    → w.groups g.id ≡ some g
    → g.id ≢ 0
    → length g.members < 5
    → let w' = (handle_group_accept s w).1 in
      let memberships : ℕ = if s.group_id == g.id then 2 else 1 in
      (group_named w' s.guid ≡ g.id)
      × (count s.guid (members_of w' g.id) ≡ memberships)
      × (count s.guid (members_of w' s.group_id) ≡ memberships)
unfolding set_pending
joins_twice s leader g w a e l n p q f b k z room =
    let own : group_named w s.guid ≡ s.group_id = ground (arith, e) in
    let one : count s.guid (members_of w s.group_id) ≡ 1 =
      a s.group_id s.guid n ∙ rw (own, ==_self s.group_id) refl in
    let new : count s.guid (members_of w g.id) ≡ (if s.group_id == g.id then 1 else 0) =
      a g.id s.guid z ∙ rw own refl in
    let w1 = set_pending s.guid 0 w in
    let e1 : w1.sessions s.guid ≡ some (record s { pending_group_leader = 0 }) =
      rw (==_self s.guid, e) refl in
    rw (accepts_into s leader g w l p q f b k z room)
      (joined-Twice (record s { pending_group_leader = 0 }) g w1 e1 n k one new)

end_last_alone :
    (id guid : ℕ) (w : World) (j : ℕ)
    → group_named w j ≡ 0
    → group_named (end_last id guid w).0 j ≡ 0
unfolding end_last set_group_id
end_last_alone id guid w j z = ground (arith, z)

shrink_alone :
    (g : Group) (ms : List Member) (w : World) (j : ℕ)
    → group_named w j ≡ 0
    → group_named (shrink_group g ms w).0 j ≡ 0
unfolding shrink_group broadcast_group_list
shrink_alone g [] w j z = group_named-delete_group g.id w j ∙ z
shrink_alone g (m ∷ []) w j z =
    end_last_alone g.id m.guid (delete_group g.id w) j (group_named-delete_group g.id w j ∙ z)
shrink_alone g (m ∷ n ∷ ms) w j z =
    group_named-put_group (record g { members = m ∷ n ∷ ms; counter = (g.counter + 1) % 2 ^ 32 }) w
      j
    ∙ z

shrink_others :
    (g : Group) (ms : List Member) (w : World) (i : ℕ)
    → i ≢ g.id
    → members_of (shrink_group g ms w).0 i ≡ members_of w i
unfolding shrink_group broadcast_group_list
shrink_others g [] w i n = members_of-delete_group g.id w i ∙ rw (ne→== i g.id n)
shrink_others g (m ∷ []) w i n =
    end_last-members g.id m.guid (delete_group g.id w) i
    ∙ (members_of-delete_group g.id w i ∙ rw (ne→== i g.id n))
shrink_others g (m ∷ o ∷ ms) w i n = members_of-put_group _ w i ∙ rw (ne→== i g.id n)

removed_stranger :
    (t : Session) (g : Group) (w : World)
    → w.sessions t.guid ≡ some t
    → t.group_id ≢ g.id
    → let w' = (remove_from_group g t w).1 in
      (group_named w' t.guid ≡ 0) × (members_of w' t.group_id ≡ members_of w t.group_id)
unfolding remove_from_group
removed_stranger t g w e other =
    let out = set_pending t.guid 0 (set_group_id t.guid 0 w) in
    let ms = remove_member t.guid g.members in
    let gone : group_named out t.guid ≡ 0 =
      group_named-set_pending t.guid 0 (set_group_id t.guid 0 w) t.guid
      ∙ (group_named-set_group_id t.guid 0 w t t.guid e ∙ ground arith) in
    (
      shrink_alone g ms out t.guid gone,
      shrink_others g ms out t.group_id other
          ∙ members_of-set_pending t.guid 0 (set_group_id t.guid 0 w) t.group_id
          ∙ members_of-set_group_id t.guid 0 w t.group_id,
    )

online_found :
    (t : Session) (w : World)
    → w.sessions t.guid ≡ some t
    → t.loaded ≡ true
    → find_session_by_guid t.guid w ≡ some t
unfolding find_session_by_guid
online_found t w e on = ground (arith, e, on)

uninvites :
    (s t : Session) (g : Group) (payload : List ℕ) (b : Buffer) (w : World)
    → s.loaded ≡ true
    → s.group_id ≢ 0
    → w.groups s.group_id ≡ some g
    → g.leader_guid ≡ s.guid
    → read_u64 (new_reader payload) ≡ done t.guid b
    → t.guid ≢ s.guid
    → w.sessions t.guid ≡ some t
    → t.loaded ≡ true
    → handle_group_uninvite_guid s payload w ≡ remove_from_group g t w
unfolding handle_group_uninvite_guid uninvite_target
uninvites s t g payload b w l n k lead r other e on =
    let led : (g.leader_guid == s.guid) ≡ true = rw lead (==_self s.guid) in
    let found = online_found t w e on in
    rw
      (
        handle_group_uninvite_guid,
        l,
        ne→== s.group_id 0 n,
        r,
        ne→== t.guid s.guid other,
        uninvite_target,
        k,
        led,
        found,
      )
      refl

-- The leader of a group removes a player of another group by the player's guid, both in the world:
-- the player stays a member of that group, the members of which stay the same, while the session
-- names no group. The sessions and the groups agreed before.
pub removes_stranger :
    (s t : Session) (g : Group) (payload : List ℕ) (b : Buffer) (w : World)
    → Agrees w
    → s.loaded ≡ true
    → s.group_id ≢ 0
    → w.groups s.group_id ≡ some g
    → g.leader_guid ≡ s.guid
    → read_u64 (new_reader payload) ≡ done t.guid b
    → t.guid ≢ s.guid
    → w.sessions t.guid ≡ some t
    → t.loaded ≡ true
    → t.group_id ≢ 0
    → t.group_id ≢ g.id
    → let w' = (handle_group_uninvite_guid s payload w).1 in
      (group_named w' t.guid ≡ 0)
      × (count t.guid (members_of w' t.group_id) ≡ 1)
      × (members_of w' t.group_id ≡ members_of w t.group_id)
removes_stranger s t g payload b w a l n k lead r other e on own apart =
    let named : group_named w t.guid ≡ t.group_id = ground (arith, e) in
    let one : count t.guid (members_of w t.group_id) ≡ 1 =
      a t.group_id t.guid own ∙ rw (named, ==_self t.group_id) refl in
    let (gone, same) = removed_stranger t g w e apart in
    rw (uninvites s t g payload b w l n k lead r other e on)
      (gone, ap (count t.guid) same ∙ one, same)
