-- ===== src/World/Groups/Membership.antt =====
-- engine/world/group.go: every handler keeps sessions and groups in agreement.
use moreno_go_moreno_core.Common.{
  ℕ, ◌≡◌, ◌≢◌, inl, inr, refl, ap, sym, ◌∙◌, arith, not, List, [], ◌==◌, leb, Option, none, some,
  Bool-cases, ==→eq, ==→ne, length,
}
use moreno_go_moreno_core.Protocol.Buffer.{
  Buffer, Error, Outcome, done, fail, panic, new_reader, read_cstring, read_u64,
}
use moreno_go_moreno_core.World.Groups.{
  Session, Group, World, Result, Names, set_group_id, set_pending, delete_group, remove_member,
  same_text, to_lower, find_session_by_guid,
}
use moreno_go_moreno_core.World.Groups.Joining.{
  send_invite, invite_as_leader, invite_found, invite_named, handle_group_invite,
  handle_group_decline,
}
use moreno_go_moreno_core.World.Groups.Leaving.{
  remove_from_group, uninvite_target, session_named, handle_group_uninvite,
  handle_group_uninvite_guid, leave_or_disband, handle_group_disband, remove_session_from_group,
  keep_group,
}
use moreno_go_moreno_core.World.Groups.Stores.{
  group_named, members_of, AgreesWith, Agrees, online_at, keyed_at, set_group_id-Stored,
  set_pending-Stored, delete_group-Stored,
}
use moreno_go_moreno_core.World.Groups.Ends.{
  Valid, members_at, leaves, set_pending-AgreesWith, shrink_group-Valid, keep_group-Valid,
  disband_all-Valid, deleted, no_members,
}
use moreno_go_moreno_core.World.Groups.Joins.{on_test, on_found, set_pending-Valid, found_at}

pub on_outcome :
    {A : Type 0} (o : Outcome A) (f : A → Buffer → Result) (p : Error → Buffer → Result)
    (q : Result)
    → ((a : A) (b : Buffer) → o ≡ done a b → Valid (f a b).1)
    → ((e : Error) (b : Buffer) → Valid (p e b).1)
    → Valid q.1
    → Valid (elim o as (λ _. Result) [ done a b ↦ f a b | fail e b ↦ p e b | panic ↦ q ]).1
on_outcome (done a b) f p q v u r = v a b refl
on_outcome (fail e b) f p q v u r = u e b
on_outcome panic f p q v u r = r

-- The members of a group that stands in the map are taken for themselves.
pub own_members :
    (g : Group) (w : World) → w.groups g.id ≡ some g → Agrees w → AgreesWith g.id g.members w
own_members g w k a = λ i j n. elim (Bool-cases (i == g.id)) [
  | inl b ↦
      let h : members_of w i ≡ g.members = ap (members_of w) (==→eq i g.id b) ∙ members_at g w k in
      rw b (rw h at (a i j n))
  | inr b ↦ rw b (a i j n)
]

-- A session with no group to name.
clears-Valid :
    (s : Session) (w : World)
    → Valid w
    → w.sessions s.guid ≡ some s
    → s.group_id ≢ 0
    → w.groups s.group_id ≡ none
    → Valid (set_group_id s.guid 0 w)
clears-Valid s w v e z k =
    let named : group_named w s.guid ≡ s.group_id = ground (arith, e) in
    absurd (ground (arith, v.agrees s.group_id s.guid z, named, k))

module _ (s : Session) (g : Group) (w : World) (v : Valid w) (e : w.sessions s.guid ≡ some s)
    (k : w.groups g.id ≡ some g) (named : s.group_id ≡ g.id) (z : g.id ≢ 0) where
  own_group : group_named w s.guid ≡ g.id
  own_group = ground (arith, e, named)

  left-AgreesWith : AgreesWith g.id (remove_member s.guid g.members) (set_group_id s.guid 0 w)
  left-AgreesWith = leaves g s.guid w s e k own_group v.agrees

  remove_from_group-Valid : Valid (remove_from_group g s w).1
  unfolding remove_from_group
  remove_from_group-Valid =
      shrink_group-Valid g (remove_member s.guid g.members)
        (set_pending s.guid 0 (set_group_id s.guid 0 w)) z
        (set_pending-Stored s.guid 0 _ (set_group_id-Stored s.guid 0 w v.stored))
        (set_pending-AgreesWith g.id (remove_member s.guid g.members) s.guid 0 _ left-AgreesWith)

  leave_or_disband-Valid : Valid (leave_or_disband s g w).1
  unfolding leave_or_disband
  leave_or_disband-Valid =
      on_test (g.leader_guid == s.guid) _ _
        (λ b.
          disband_all-Valid g.id g.members (delete_group g.id w) z (no_members g.id w)
            (delete_group-Stored g.id w v.stored)
            (deleted g.id g.members w (own_members g w k v.agrees)))
        (λ b.
          shrink_group-Valid g (remove_member s.guid g.members) (set_group_id s.guid 0 w) z
            (set_group_id-Stored s.guid 0 w v.stored) left-AgreesWith)

  kept-Valid :
      Valid
        (keep_group s g
          (remove_member s.guid g.members)
          (set_pending s.guid 0 (set_group_id s.guid 0 w))).0
  kept-Valid =
      keep_group-Valid s g (remove_member s.guid g.members)
        (set_pending s.guid 0 (set_group_id s.guid 0 w))
        (set_pending-Stored s.guid 0 _ (set_group_id-Stored s.guid 0 w v.stored))
        (set_pending-AgreesWith g.id (remove_member s.guid g.members) s.guid 0 _ left-AgreesWith)

module _ (s : Session) (w : World) (v : Valid w) (e : w.sessions s.guid ≡ some s) where
  pub handle_group_disband-Valid : Valid (handle_group_disband s w).1
  unfolding handle_group_disband
  handle_group_disband-Valid =
      on_test (not s.loaded) _ _ (λ b. v)
        (λ b.
          on_test (not (s.pending_group_leader == 0)) _ _ (λ c. set_pending-Valid s.guid 0 w v)
            (λ c.
              on_test (s.group_id == 0) _ _ (λ d. v)
                (λ d.
                  let z = ==→ne s.group_id 0 d in
                  on_found (w.groups s.group_id) _ _ (λ k. clears-Valid s w v e z k)
                    (λ g k.
                      let id = keyed_at w s.group_id g v.stored k in
                      leave_or_disband-Valid s g w v e (ap w.groups id ∙ k) (sym id)
                        (λ q. z (sym id ∙ q))))))

  uninvite_target-Valid :
      (name : List ℕ) (target : Option Session)
      → s.group_id ≢ 0
      → ((t : Session) → target ≡ some t → (w.sessions t.guid ≡ some t) × (t.group_id ≡ s.group_id))
      → Valid (uninvite_target s name target w).1
  unfolding uninvite_target
  uninvite_target-Valid name target z h =
      on_found (w.groups s.group_id) _ _ (λ k. v)
        (λ g k.
          on_test (not (g.leader_guid == s.guid)) _ _ (λ b. v)
            (λ b.
              on_found target _ _ (λ q. v)
                (λ t q.
                  let id = keyed_at w s.group_id g v.stored k in
                  let (et, same) = h t q in
                  remove_from_group-Valid t g w v et (ap w.groups id ∙ k) (same ∙ sym id)
                    (λ q. z (sym id ∙ q)))))

  pub handle_group_uninvite-Valid :
      (names : Names) (payload : List ℕ)
      → ((name : List ℕ) (b : Buffer) (t : Session)
          → read_cstring (new_reader payload) ≡ done name b
          → session_named names name w ≡ some t
          → (w.sessions t.guid ≡ some t) × (t.group_id ≡ s.group_id))
      → Valid (handle_group_uninvite names s payload w).1
  unfolding handle_group_uninvite
  handle_group_uninvite-Valid names payload h =
      on_test (not s.loaded) _ _ (λ b. v)
        (λ b.
          on_test (s.group_id == 0) _ _ (λ c. v)
            (λ c.
              on_outcome (read_cstring (new_reader payload)) _ _ _
                (λ name r q.
                  on_test (same_text (to_lower name) (to_lower s.name)) _ _ (λ d. v)
                    (λ d.
                      uninvite_target-Valid name (session_named names name w) (==→ne s.group_id 0 c)
                        (λ t k. h name r t q k)))
                (λ _ _. v) v))

  pub handle_group_uninvite_guid-Valid :
      (payload : List ℕ)
      → ((guid : ℕ) (b : Buffer) (t : Session)
          → read_u64 (new_reader payload) ≡ done guid b
          → w.sessions guid ≡ some t
          → t.group_id ≡ s.group_id)
      → Valid (handle_group_uninvite_guid s payload w).1
  unfolding handle_group_uninvite_guid
  handle_group_uninvite_guid-Valid payload h =
      on_test (not s.loaded) _ _ (λ b. v)
        (λ b.
          on_test (s.group_id == 0) _ _ (λ c. v)
            (λ c.
              on_outcome (read_u64 (new_reader payload)) _ _ _
                (λ guid r q.
                  on_test (guid == s.guid) _ _ (λ d. v)
                    (λ d.
                      uninvite_target-Valid [] (find_session_by_guid guid w) (==→ne s.group_id 0 c)
                        (λ t k.
                          let f = found_at guid w t k in
                          (ap w.sessions (online_at w guid t v.stored f).0 ∙ f, h guid r t q f))))
                (λ _ _. v) v))

  pub handle_group_decline-Valid : Valid (handle_group_decline s w).1
  unfolding handle_group_decline
  handle_group_decline-Valid =
      let w1 = set_pending s.guid 0 w in
      let v1 = set_pending-Valid s.guid 0 w v in
      on_test (not s.loaded) _ _ (λ b. v)
        (λ b.
          on_test (s.pending_group_leader == 0) _ _ (λ c. v)
            (λ c.
              on_found (find_session_by_guid s.pending_group_leader w1) _ _ (λ k. v1)
                (λ leader k. v1)))

  invite_as_leader-Valid : (t : Session) (name : List ℕ) → Valid (invite_as_leader s t name w).1
  unfolding invite_as_leader send_invite
  invite_as_leader-Valid t name =
      let invited = set_pending-Valid t.guid s.guid w v in
      on_test (s.group_id == 0) _ _ (λ b. invited)
        (λ b.
          on_found (w.groups s.group_id) _ _
            (λ k. set_pending-Valid t.guid s.guid _ (clears-Valid s w v e (==→ne s.group_id 0 b) k))
            (λ g k.
              on_test (not (g.leader_guid == s.guid)) _ _ (λ c. v)
                (λ c. on_test (leb 5 (length g.members)) _ _ (λ d. v) (λ d. invited))))

  pub handle_group_invite-Valid :
      (names : Names) (payload : List ℕ) → Valid (handle_group_invite names s payload w).1
  unfolding handle_group_invite invite_named invite_found
  handle_group_invite-Valid names payload =
      on_test (not s.loaded) _ _ (λ b. v)
        (λ b.
          on_outcome (read_cstring (new_reader payload)) _ _ _
            (λ name r q.
              on_test (same_text name []) _ _ (λ c. v)
                (λ c.
                  on_test (same_text (to_lower name) (to_lower s.name)) _ _ (λ d. v)
                    (λ d.
                      on_found (names.find_by_name name w.sessions) _ _ (λ k. v)
                        (λ guid k.
                          on_found (w.sessions guid) _ _ (λ l. v)
                            (λ t l.
                              on_test (not (t.group_id == 0)) _ _ (λ f. v)
                                (λ f.
                                  on_test (not (t.pending_group_leader == 0)) _ _ (λ g. v)
                                    (λ g. invite_as_leader-Valid t name)))))))
            (λ _ _. v) v)

  pub remove_session_from_group-Valid : Valid (remove_session_from_group s w).1
  unfolding remove_session_from_group
  remove_session_from_group-Valid =
      on_test (s.group_id == 0) _ _ (λ b. v)
        (λ b.
          let z = ==→ne s.group_id 0 b in
          on_found (w.groups s.group_id) _ _
            (λ k. set_pending-Valid s.guid 0 _ (clears-Valid s w v e z k))
            (λ g k.
              let id = keyed_at w s.group_id g v.stored k in
              kept-Valid s g w v e (ap w.groups id ∙ k) (sym id) (λ q. z (sym id ∙ q))))
