-- ===== src/World/Groups/Ends.antt =====
-- engine/world/group.go: how sessions and groups agree while players leave.
use moreno_go_moreno_core.Common.{
  ℕ, ◌+◌, ◌%◌, ◌^◌, ◌≡◌, ◌≢◌, inl, inr, ap, sym, ◌∙◌, arith, List, [], ◌∷◌, ◌==◌, if◌then◌else◌,
  some, Bool-cases, Option-cases, ==→eq, ==→ne, ==_self,
}
use moreno_go_moreno_core.World.Groups.{
  Session, Group, Member, World, set_group_id, set_pending, put_group, delete_group,
  broadcast_group_list, remove_member,
}
use moreno_go_moreno_core.World.Groups.Leaving.{end_last, shrink_group, disband_all, keep_group}
use moreno_go_moreno_core.World.Groups.Stores.{
  group_named, members_of, count, Stored, AgreesWith, Agrees, count-remove_member,
  group_named-set_group_id, group_named-set_pending, members_of-put_group, members_of-delete_group,
  set_group_id-Stored, put_group-Stored, delete_group-Stored, find-online, members_of-set_group_id,
  members_of-set_pending, group_named-put_group, group_named-delete_group,
}

-- A session that names a group exists.
named_session :
    (w : World) (guid : ℕ) → group_named w guid ≢ 0 → (s : Session) × (w.sessions guid ≡ some s)
named_session w guid n = elim (Option-cases (w.sessions guid)) [
  | inl e ↦ absurd (n (ground (arith, e)))
  | inr x ↦ x
]

end_last-eq :
    (id guid : ℕ) (w : World) (s : Session)
    → Stored w
    → w.sessions guid ≡ some s
    → (end_last id guid w).0 ≡ set_group_id guid 0 w
unfolding end_last
end_last-eq id guid w s v e = ground (arith, find-online w guid s v e)

-- The last member's session is told, and the members are the others.
pub end_last-AgreesWith :
    (id : ℕ) (m : Member) (ms : List Member) (w : World)
    → id ≢ 0
    → Stored w
    → AgreesWith id (m ∷ ms) w
    → Stored (end_last id m.guid w).0 × AgreesWith id ms (end_last id m.guid w).0
end_last-AgreesWith id m ms w z v a =
    let named : group_named w m.guid ≡ id = ground (arith, a id m.guid z) in
    let (s, e) = named_session w m.guid (λ k. z (sym named ∙ k)) in
    let out = set_group_id m.guid 0 w in
    let agrees : AgreesWith id ms out = λ i guid n. ground (
      arith,
      a i guid n,
      group_named-set_group_id m.guid 0 w s guid e,
      named,
      members_of-set_group_id m.guid 0 w i,
    ) in
    rw (end_last-eq id m.guid w s v e) (set_group_id-Stored m.guid 0 w v, agrees)

delete_group-Agrees : (id : ℕ) (w : World) → AgreesWith id [] w → Agrees (delete_group id w)
delete_group-Agrees id w a =
    λ i guid n. rw (members_of-delete_group id w i, group_named-delete_group id w guid) (a i guid n)

pub put_group-Agrees :
    (g : Group) (w : World) → AgreesWith g.id g.members w → Agrees (put_group g w)
put_group-Agrees g w a =
    λ i guid n. rw (members_of-put_group g w i, group_named-put_group g w guid) (a i guid n)

-- A store whose sessions and groups agree.
pub record Valid (w : World) : Type 0 where
  pub stored : Stored w
  pub agrees : Agrees w

pub broadcast-Valid :
    (g : Group) (w : World)
    → Stored w
    → AgreesWith g.id g.members w
    → Valid (broadcast_group_list g w).0
unfolding broadcast_group_list
broadcast-Valid g w v a =
    let g' = record g { counter = (g.counter + 1) % 2 ^ 32 } in
    record { stored = put_group-Stored g' w v; agrees = put_group-Agrees g' w a }

-- With the group deleted, the members that are left are taken for its members.
pub deleted :
    (id : ℕ) (ms : List Member) (w : World)
    → AgreesWith id ms w
    → AgreesWith id ms (delete_group id w)
deleted id ms w a = λ i guid n.
    ground (arith, a i guid n, members_of-delete_group id w i, group_named-delete_group id w guid)

none_left : (id : ℕ) (w : World) → members_of w id ≡ [] → AgreesWith id [] w → Agrees w
none_left id w e a = λ i guid n. elim (Bool-cases (i == id)) [
  | inl k ↦
      let h : members_of w i ≡ [] = ap (members_of w) (==→eq i id k) ∙ e in
      rw h (rw k at (a i guid n))
  | inr k ↦ rw k at (a i guid n)
]

pub end_last-members :
    (id guid : ℕ) (w : World) (i : ℕ) → members_of (end_last id guid w).0 i ≡ members_of w i
unfolding end_last set_group_id
end_last-members id guid w i = ground arith

pub no_members : (id : ℕ) (w : World) → members_of (delete_group id w) id ≡ []
no_members id w = members_of-delete_group id w id ∙ rw (==_self id)

pub shrink_group-Valid :
    (g : Group) (ms : List Member) (w : World)
    → g.id ≢ 0
    → Stored w
    → AgreesWith g.id ms w
    → Valid (shrink_group g ms w).0
unfolding shrink_group
shrink_group-Valid g [] w z v a = record {
  stored = delete_group-Stored g.id w v;
  agrees = delete_group-Agrees g.id w a;
}
shrink_group-Valid g (m ∷ []) w z v a =
    let e =
      end_last-AgreesWith g.id m [] (delete_group g.id w) z (delete_group-Stored g.id w v)
        (deleted g.id (m ∷ []) w a) in
    record {
      stored = e.0;
      agrees =
          none_left g.id (end_last g.id m.guid (delete_group g.id w)).0
            (end_last-members g.id m.guid (delete_group g.id w) g.id ∙ no_members g.id w) e.1;
    }
shrink_group-Valid g (m ∷ n ∷ ms) w z v a =
    broadcast-Valid (record g { members = m ∷ n ∷ ms }) w v a

pub keep_group-Valid :
    (s : Session) (g : Group) (ms : List Member) (w : World)
    → Stored w
    → AgreesWith g.id ms w
    → Valid (keep_group s g ms w).0
unfolding keep_group
keep_group-Valid s g [] w v a = record {
  stored = delete_group-Stored g.id w v;
  agrees = delete_group-Agrees g.id w a;
}
keep_group-Valid s g (m ∷ ms) w v a =
    let leader = if g.leader_guid == s.guid then m.guid else g.leader_guid in
    broadcast-Valid (record g { members = m ∷ ms; leader_guid = leader }) w v a

pub disband_all-Valid :
    (id : ℕ) (ms : List Member) (w : World)
    → id ≢ 0
    → members_of w id ≡ []
    → Stored w
    → AgreesWith id ms w
    → Valid (disband_all id ms w).0
unfolding disband_all
disband_all-Valid id [] w z e v a = record { stored = v; agrees = none_left id w e a }
disband_all-Valid id (m ∷ ms) w z e v a =
    let l = end_last-AgreesWith id m ms w z v a in
    disband_all-Valid id ms (end_last id m.guid w).0 z (end_last-members id m.guid w id ∙ e) l.0 l.1

pub members_at : (g : Group) (w : World) → w.groups g.id ≡ some g → members_of w g.id ≡ g.members
members_at g w k = ground (arith, k)

-- A player's session leaves, and the player is no member any more.
pub leaves :
    (g : Group) (guid : ℕ) (w : World) (s : Session)
    → w.sessions guid ≡ some s
    → w.groups g.id ≡ some g
    → group_named w guid ≡ g.id
    → Agrees w
    → AgreesWith g.id (remove_member guid g.members) (set_group_id guid 0 w)
leaves g guid w s e k named a = λ i j n.
    let out = group_named-set_group_id guid 0 w s j e in
    elim (Bool-cases (i == g.id)) [
      | inl b ↦
          let i' : i ≡ g.id = ==→eq i g.id b in
          let h : members_of w i ≡ g.members = ap (members_of w) i' ∙ members_at g w k in
          let c : count j g.members ≡ (if group_named w j == i then 1 else 0) = rw h at (a i j n) in
          rw b (ground (arith, c, count-remove_member j guid g.members, out, named, i'))
      | inr b ↦
          rw (b, members_of-set_group_id guid 0 w i)
            (ground (arith, a i j n, out, named, ==→ne i g.id b))
    ]

pub set_pending-AgreesWith :
    (id : ℕ) (ms : List Member) (guid l : ℕ) (w : World)
    → AgreesWith id ms w
    → AgreesWith id ms (set_pending guid l w)
set_pending-AgreesWith id ms guid l w a =
    λ i j n. rw (members_of-set_pending guid l w i, group_named-set_pending guid l w j) (a i j n)
