-- ===== src/World/Groups/Joins.antt =====
-- engine/world/group.go: how sessions and groups agree while players join.
use moreno_go_moreno_core.Common.{
  ℕ, ◌+◌, ◌%◌, ◌^◌, ◌≡◌, ◌≢◌, inl, inr, refl, ap, sym, ◌∙◌, arith, Bool, true, false, not, [], ◌∷◌,
  ◌++◌, ◌==◌, leb, if◌then◌else◌, Option, none, some, Bool-cases, ==→eq, ==→ne, ==_self, length,
  ne→==,
}
use moreno_go_moreno_core.World.Groups.{
  Session, Group, World, Result, set_group_id, set_pending, put_group, max_group_size,
  find_session_by_guid,
}
use moreno_go_moreno_core.World.Groups.Joining.{
  join_group, found_group, accept_from, handle_group_accept, new_group, new_member,
}
use moreno_go_moreno_core.World.Groups.Stores.{
  group_named, members_of, count, count-append, Stored, AgreesWith, group_named-set_group_id,
  group_named-set_pending, members_of-put_group, members_of-set_group_id, members_of-set_pending,
  online_at, keyed_at, set_group_id-Stored, set_pending-Stored, put_group-Stored,
}
use moreno_go_moreno_core.World.Groups.Ends.{Valid, broadcast-Valid, members_at}

pub on_test :
    (b : Bool) (o p : Result)
    → (b ≡ true → Valid o.1)
    → (b ≡ false → Valid p.1)
    → Valid (if b then o else p).1
on_test true o p v w = v refl
on_test false o p v w = w refl

pub on_found :
    {A : Type 0} (x : Option A) (o : Result) (f : A → Result)
    → (x ≡ none → Valid o.1)
    → ((a : A) → x ≡ some a → Valid (f a).1)
    → Valid (elim x as (λ _. Result) [ none ↦ o | some a ↦ f a ]).1
on_found none o f v w = v refl
on_found (some a) o f v w = w a refl

pub set_pending-Valid : (guid l : ℕ) (w : World) → Valid w → Valid (set_pending guid l w)
set_pending-Valid guid l w v = record {
  stored = set_pending-Stored guid l w v.stored;
  agrees = λ i j n.
      rw (members_of-set_pending guid l w i, group_named-set_pending guid l w j) (v.agrees i j n);
}

join_group-Valid :
    (s s' : Session) (g : Group) (w : World)
    → Valid w
    → w.sessions s.guid ≡ some s'
    → group_named w s.guid ≡ 0
    → w.groups g.id ≡ some g
    → g.id ≢ 0
    → Valid (join_group s g w).1
unfolding join_group
join_group-Valid s s' g w v e free k z =
    let joined = record g { members = g.members ++ new_member s ∷ [] } in
    let w1 = set_group_id s.guid g.id w in
    let agrees : AgreesWith g.id joined.members w1 = λ i j n.
      let out = group_named-set_group_id s.guid g.id w s' j e in
      elim (Bool-cases (i == g.id)) [
        | inl b ↦
            let i' : i ≡ g.id = ==→eq i g.id b in
            let h : members_of w i ≡ g.members = ap (members_of w) i' ∙ members_at g w k in
            let c : count j g.members ≡ (if group_named w j == i then 1 else 0) =
              rw h at (v.agrees i j n) in
            rw b (ground (arith, c, count-append j g.members (new_member s ∷ []), out, free, i'))
        | inr b ↦
            rw (b, members_of-set_group_id s.guid g.id w i)
              (ground (arith, v.agrees i j n, out, free, ==→ne i g.id b))
      ] in
    on_test (leb max_group_size (length g.members)) _ _ (λ b. v)
      (λ b. broadcast-Valid joined w1 (set_group_id-Stored s.guid g.id w v.stored) agrees)

put_at : (g : Group) (w : World) → (put_group g w).groups g.id ≡ some g
unfolding put_group
put_at g w = rw (==_self g.id)

-- The counter gives a number that is no group's.
abbrev pub next_group : World → ℕ
next_group w = (w.next_id + 1) % 2 ^ 64

abbrev pub Fresh : World → Type 0
Fresh w = (next_group w ≢ 0) × (members_of w (next_group w) ≡ [])

-- The group of a leader alone.
abbrev founded : Session → World → World
founded leader w =
    let id = next_group w in
    set_group_id leader.guid id (put_group (new_group id leader) (record w { next_id = id }))

members_of-founded :
    (leader : Session) (w : World) (i : ℕ)
    → members_of (founded leader w) i
      ≡ (if i == next_group w then new_member leader ∷ [] else members_of w i)
unfolding new_group
members_of-founded leader w i =
    let id = next_group w in
    let w1 = record w { next_id = id } in
    members_of-set_group_id leader.guid id (put_group (new_group id leader) w1) i
    ∙ members_of-put_group (new_group id leader) w1 i

group_named-founded :
    (leader : Session) (w : World) (j : ℕ)
    → w.sessions leader.guid ≡ some leader
    → group_named (founded leader w) j
      ≡ (if j == leader.guid then next_group w else group_named w j)
unfolding put_group
group_named-founded leader w j e =
    let id = next_group w in
    group_named-set_group_id leader.guid id
      (put_group (new_group id leader) (record w { next_id = id })) leader j e

founded-Valid :
    (leader : Session) (w : World)
    → Valid w
    → Fresh w
    → w.sessions leader.guid ≡ some leader
    → group_named w leader.guid ≡ 0
    → Valid (founded leader w)
founded-Valid leader w v (z, none_yet) e free =
    let id = next_group w in
    let w1 = record w { next_id = id } in
    let stored1 : Stored w1 = record { online = v.stored.online; keyed = v.stored.keyed } in
    let stored2 = put_group-Stored (new_group id leader) w1 stored1 in
    record {
      stored = set_group_id-Stored leader.guid id (put_group (new_group id leader) w1) stored2;
      agrees = λ i j n.
          rw (members_of-founded leader w i, group_named-founded leader w j e)
            (elim (Bool-cases (i == id)) [
              | inl b ↦
                  let i' : i ≡ id = ==→eq i id b in
                  let h : members_of w i ≡ [] = ap (members_of w) i' ∙ none_yet in
                  let c : 0 ≡ (if group_named w j == i then 1 else 0) = rw h at (v.agrees i j n) in
                  rw b (ground (arith, c, free, i'))
              | inr b ↦ rw b (ground (arith, v.agrees i j n, free, ==→ne i id b))
            ]);
    }

other_session :
    (leader : Session) (w : World) (guid : ℕ)
    → guid ≢ leader.guid
    → (founded leader w).sessions guid ≡ w.sessions guid
unfolding set_group_id put_group
other_session leader w guid n = rw (ne→== guid leader.guid n)

found_group-Valid :
    (s leader : Session) (w : World)
    → Valid w
    → Fresh w
    → w.sessions leader.guid ≡ some leader
    → group_named w leader.guid ≡ 0
    → (s' : Session) × (w.sessions s.guid ≡ some s')
    → group_named w s.guid ≡ 0
    → s.guid ≢ leader.guid
    → Valid (found_group s leader w).1
unfolding found_group new_group set_group_id put_group
found_group-Valid s leader w v f e lone (s', es) free ne =
    let g = new_group (next_group w) leader in
    join_group-Valid s s' g (founded leader w) (founded-Valid leader w v f e lone)
      (other_session leader w s.guid ne ∙ es)
      (group_named-founded leader w s.guid e ∙ rw (ne→== s.guid leader.guid ne) free)
      (put_at g (record w { next_id = next_group w })) (f.0)

-- A leader whose session names a group has that group.
accept_from-Valid :
    (s leader : Session) (w : World)
    → Valid w
    → Fresh w
    → w.sessions leader.guid ≡ some leader
    → (s' : Session) × (w.sessions s.guid ≡ some s')
    → group_named w s.guid ≡ 0
    → s.guid ≢ leader.guid
    → Valid (accept_from s leader w).1
unfolding accept_from
accept_from-Valid s leader w v f e (s', es) free ne =
    let named : group_named w leader.guid ≡ leader.group_id = ground (arith, e) in
    on_test (leader.group_id == 0) _ _
      (λ b. found_group-Valid s leader w v f e (named ∙ ==→eq leader.group_id 0 b) (s', es) free ne)
      (λ b.
        on_found (w.groups leader.group_id) _ _
          (λ k.
            let z : leader.group_id ≢ 0 = ==→ne leader.group_id 0 b in
            absurd (ground (arith, v.agrees leader.group_id leader.guid z, named, k)))
          (λ g k.
            let id : g.id ≡ leader.group_id = keyed_at w leader.group_id g v.stored k in
            join_group-Valid s s' g w v es free (ap w.groups id ∙ k)
              (λ z. ==→ne leader.group_id 0 b (sym id ∙ z))))

pub found_at :
    (guid : ℕ) (w : World) (s : Session)
    → find_session_by_guid guid w ≡ some s
    → w.sessions guid ≡ some s
unfolding find_session_by_guid
found_at guid w s e = ground (arith, e)

pending-Fresh : (guid l : ℕ) (w : World) → Fresh w → Fresh (set_pending guid l w)
unfolding set_pending
pending-Fresh guid l w f = f

pending_at :
    (guid l : ℕ) (w : World) (s : Session)
    → w.sessions guid ≡ some s
    → (s' : Session) × ((set_pending guid l w).sessions guid ≡ some s')
unfolding set_pending
pending_at guid l w s e = (record s { pending_group_leader = l }, rw (==_self guid, e))

-- A player who is in no group accepts.
pub handle_group_accept-Valid :
    (s : Session) (w : World)
    → Valid w
    → Fresh w
    → w.sessions s.guid ≡ some s
    → s.group_id ≡ 0
    → Valid (handle_group_accept s w).1
unfolding handle_group_accept
handle_group_accept-Valid s w v f e free =
    let w1 = set_pending s.guid 0 w in
    let v1 = set_pending-Valid s.guid 0 w v in
    on_test (not s.loaded) _ _ (λ b. v)
      (λ b.
        on_test (s.pending_group_leader == 0) _ _ (λ c. v)
          (λ c.
            on_test (s.pending_group_leader == s.guid) _ _ (λ d. v1)
              (λ d.
                on_found (find_session_by_guid s.pending_group_leader w1) _ _ (λ k. v1)
                  (λ leader k.
                    let found : w1.sessions s.pending_group_leader ≡ some leader =
                      found_at s.pending_group_leader w1 leader k in
                    let same : leader.guid ≡ s.pending_group_leader =
                      (online_at w1 s.pending_group_leader leader v1.stored found).0 in
                    accept_from-Valid s leader w1 v1 (pending-Fresh s.guid 0 w f)
                      (ap w1.sessions same ∙ found) (pending_at s.guid 0 w s e)
                      (group_named-set_pending s.guid 0 w s.guid ∙ ground (arith, e))
                      (λ q. ==→ne s.pending_group_leader s.guid d (sym same ∙ sym q))))))
