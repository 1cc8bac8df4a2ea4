-- ===== src/World/Groups/Stores.antt =====
-- engine/world/group.go: which group a player's session names, who the members of a group are, and
-- what the writes of the handlers do to these.
use moreno_go_moreno_core.Common.{
  subst, ℕ, ◌+◌, ◌-◌, ◌≡◌, ◌≢◌, refl, sym, ◌∙◌, arith, Bool, true, false, List, [], ◌∷◌, ◌++◌, ◌==◌,
  if◌then◌else◌, Option, none, some, ==→eq,
}
use moreno_go_moreno_core.World.Groups.{
  Session, Group, Member, World, set_group_id, set_pending, put_group, delete_group,
  find_session_by_guid, remove_member,
}

abbrev pub group_named : World → ℕ → ℕ
group_named w guid = elim (w.sessions guid) [ none ↦ 0 | some s ↦ s.group_id ]

abbrev pub members_of : World → ℕ → List Member
members_of w id = elim (w.groups id) [ none ↦ [] | some g ↦ g.members ]

abbrev pub count : ℕ → List Member → ℕ
count guid [] = 0
count guid (m ∷ ms) = (if m.guid == guid then 1 else 0) + count guid ms

-- A session stands under its player's guid, and its player is in the world; a group stands under
-- its id.
abbrev pub OnlineAt : ℕ → Option Session → Type 0
OnlineAt guid none = Unit
OnlineAt guid (some s) = (s.guid ≡ guid) × (s.loaded ≡ true)

abbrev pub KeyedAt : ℕ → Option Group → Type 0
KeyedAt id none = Unit
KeyedAt id (some g) = g.id ≡ id

pub record Stored (w : World) : Type 0 where
  pub online : (guid : ℕ) → OnlineAt guid (w.sessions guid)
  pub keyed : (id : ℕ) → KeyedAt id (w.groups id)

-- A session names a group exactly where the group has its player as a member, once; `ms` are taken
-- for the members of the group `id`.
abbrev pub AgreesWith : ℕ → List Member → World → Type 0
AgreesWith id ms w =
    (i guid : ℕ)
    → i ≢ 0
    → count guid (if i == id then ms else members_of w i)
      ≡ (if group_named w guid == i then 1 else 0)

abbrev pub Agrees : World → Type 0
Agrees w =
    (i guid : ℕ) → i ≢ 0 → count guid (members_of w i) ≡ (if group_named w guid == i then 1 else 0)

pub count-append :
    (guid : ℕ) (ms ns : List Member) → count guid (ms ++ ns) ≡ count guid ms + count guid ns
count-append guid [] ns = omega arith
count-append guid (m ∷ ms) ns = omega (arith, count-append guid ms ns)

pub count-remove_member :
    (j guid : ℕ) (ms : List Member)
    → count j (remove_member guid ms) ≡ count j ms - (if guid == j then 1 else 0)
unfolding remove_member
count-remove_member j guid [] = ground arith
count-remove_member j guid (m ∷ ms) = ground (arith, count-remove_member j guid ms)

pub group_named-set_group_id :
    (j id : ℕ) (w : World) (s : Session) (guid : ℕ)
    → w.sessions j ≡ some s
    → group_named (set_group_id j id w) guid ≡ (if guid == j then id else group_named w guid)
unfolding set_group_id
group_named-set_group_id j id w s guid e = ground (arith, e)

pub group_named-set_pending :
    (j l : ℕ) (w : World) (guid : ℕ) → group_named (set_pending j l w) guid ≡ group_named w guid
unfolding set_pending
group_named-set_pending j l w guid = ground arith

pub members_of-put_group :
    (g : Group) (w : World) (i : ℕ)
    → members_of (put_group g w) i ≡ (if i == g.id then g.members else members_of w i)
unfolding put_group
members_of-put_group g w i = ground arith

pub members_of-delete_group :
    (id : ℕ) (w : World) (i : ℕ)
    → members_of (delete_group id w) i ≡ (if i == id then [] else members_of w i)
unfolding delete_group
members_of-delete_group id w i = ground arith

pub online_at :
    (w : World) (guid : ℕ) (s : Session)
    → Stored w
    → w.sessions guid ≡ some s
    → (s.guid ≡ guid) × (s.loaded ≡ true)
online_at w guid s v e = subst (OnlineAt guid) e (v.online guid)

pub keyed_at : (w : World) (id : ℕ) (g : Group) → Stored w → w.groups id ≡ some g → g.id ≡ id
keyed_at w id g v e = subst (KeyedAt id) e (v.keyed id)

-- The handlers write fields of a session that say nothing of its player.
changed_online :
    (guid : ℕ) (f : Session → Session) (o : Option Session)
    → ((s : Session) → ((f s).guid ≡ s.guid) × ((f s).loaded ≡ s.loaded))
    → OnlineAt guid o
    → OnlineAt guid (elim o as (λ _. Option Session) [ none ↦ none | some s ↦ some (f s) ])
changed_online guid f none k v = tt
changed_online guid f (some s) k v = ((k s).0 ∙ v.0, (k s).1 ∙ v.1)

either_online :
    (b : Bool) (guid : ℕ) (o p : Option Session)
    → OnlineAt guid o
    → OnlineAt guid p
    → OnlineAt guid (if b then o else p)
either_online true guid o p v w = v
either_online false guid o p v w = w

either_keyed :
    (b : Bool) (id : ℕ) (o p : Option Group)
    → (b ≡ true → KeyedAt id o)
    → KeyedAt id p
    → KeyedAt id (if b then o else p)
either_keyed true id o p v w = v refl
either_keyed false id o p v w = w

pub set_group_id-Stored : (j id : ℕ) (w : World) → Stored w → Stored (set_group_id j id w)
unfolding set_group_id
set_group_id-Stored j id w v = record {
  online = λ guid.
      either_online (guid == j) guid _ (w.sessions guid)
        (changed_online guid (λ s. record s { group_id = id }) (w.sessions guid) (λ s. (refl, refl))
          (v.online guid))
        (v.online guid);
  keyed = v.keyed;
}

pub set_pending-Stored : (j l : ℕ) (w : World) → Stored w → Stored (set_pending j l w)
unfolding set_pending
set_pending-Stored j l w v = record {
  online = λ guid.
      either_online (guid == j) guid _ (w.sessions guid)
        (changed_online guid (λ s. record s { pending_group_leader = l }) (w.sessions guid)
          (λ s. (refl, refl)) (v.online guid))
        (v.online guid);
  keyed = v.keyed;
}

pub put_group-Stored : (g : Group) (w : World) → Stored w → Stored (put_group g w)
unfolding put_group
put_group-Stored g w v = record {
  online = v.online;
  keyed =
      λ i. either_keyed (i == g.id) i (some g) (w.groups i) (λ e. sym (==→eq i g.id e)) (v.keyed i);
}

pub delete_group-Stored : (id : ℕ) (w : World) → Stored w → Stored (delete_group id w)
unfolding delete_group
delete_group-Stored id w v = record {
  online = v.online;
  keyed = λ i. either_keyed (i == id) i none (w.groups i) (λ e. tt) (v.keyed i);
}

-- A session that is found by its guid, and one that is not.
pub find-online :
    (w : World) (guid : ℕ) (s : Session)
    → Stored w
    → w.sessions guid ≡ some s
    → find_session_by_guid guid w ≡ some s
unfolding find_session_by_guid
find-online w guid s v e = ground (arith, e, online_at w guid s v e)

-- What each write leaves alone.
pub members_of-set_group_id :
    (j id : ℕ) (w : World) (i : ℕ) → members_of (set_group_id j id w) i ≡ members_of w i
unfolding set_group_id
members_of-set_group_id j id w i = refl

pub members_of-set_pending :
    (j l : ℕ) (w : World) (i : ℕ) → members_of (set_pending j l w) i ≡ members_of w i
unfolding set_pending
members_of-set_pending j l w i = refl

pub group_named-put_group :
    (g : Group) (w : World) (j : ℕ) → group_named (put_group g w) j ≡ group_named w j
unfolding put_group
group_named-put_group g w j = refl

pub group_named-delete_group :
    (id : ℕ) (w : World) (j : ℕ) → group_named (delete_group id w) j ≡ group_named w j
unfolding delete_group
group_named-delete_group id w j = refl
