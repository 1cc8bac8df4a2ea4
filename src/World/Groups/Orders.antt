-- ===== src/World/Groups/Orders.antt =====
-- engine/world/group.go: the handlers that change ranks, loot and subgroups keep the members.
use moreno_go_moreno_core.Common.{
  ℕ, ◌≡◌, inl, inr, refl, ap, sym, ◌∙◌, arith, Bool, true, false, not, List, [], ◌∷◌, ◌==◌, ◌||◌,
  ltb, leb, some, Bool-cases, Option-cases, length,
}
use moreno_go_moreno_core.Protocol.Buffer.{new_reader, read_cstring, read_u8, read_u32, read_u64}
use moreno_go_moreno_core.World.Groups.{
  Session, Group, Member, World, Names, find_member, is_leader_or_assistant, count_in_sub_group,
  broadcast_group_list,
}
use moreno_go_moreno_core.World.Groups.Ranks.{
  replace_member, to_front, set_leader, handle_group_set_leader, led_by, set_loot,
  handle_loot_method, handle_group_raid_convert, set_assistant, handle_group_assistant_leader,
  set_sub_group, change_sub_group, handle_group_change_sub_group,
}
use moreno_go_moreno_core.World.Groups.Stores.{count, keyed_at}
use moreno_go_moreno_core.World.Groups.Ends.{Valid, broadcast-Valid}
use moreno_go_moreno_core.World.Groups.Joins.{on_test, on_found}
use moreno_go_moreno_core.World.Groups.Membership.{on_outcome, own_members}

-- The same players, each as often.
abbrev pub SameMembers : List Member → List Member → Type 0
SameMembers ms ns = (guid : ℕ) → count guid ms ≡ count guid ns

pub changed-Valid :
    (g g' : Group) (w : World)
    → Valid w
    → w.groups g.id ≡ some g
    → g'.id ≡ g.id
    → SameMembers g'.members g.members
    → Valid (broadcast_group_list g' w).0
changed-Valid g g' w v k i same =
    let own = own_members g w k v.agrees in
    broadcast-Valid g' w v.stored (λ j guid n. elim (Bool-cases (j == g'.id)) [
      | inl b ↦
          let b' : (j == g.id) ≡ true = ap (λ (x : ℕ). j == x) (sym i) ∙ b in
          rw b (same guid ∙ (rw b' at (own j guid n)))
      | inr b ↦
          let b' : (j == g.id) ≡ false = ap (λ (x : ℕ). j == x) (sym i) ∙ b in
          rw b (rw b' at (own j guid n))
    ])

count-replace_member :
    (guid j : ℕ) (x y : Member) (ms : List Member)
    → find_member guid ms ≡ some x
    → count j (x ∷ replace_member guid y ms) ≡ count j (y ∷ ms)
unfolding find_member replace_member
count-replace_member guid j x y [] e = cc
count-replace_member guid j x y (m ∷ ms) e = ground (arith, e, count-replace_member guid j x y ms)

count-to_front : (guid : ℕ) (ms : List Member) → SameMembers (to_front guid ms) ms
unfolding to_front
count-to_front guid [] = λ j. refl
count-to_front guid (m ∷ ms) = λ j. elim (Option-cases (find_member guid ms)) [
  | inl e ↦ ground (arith, e)
  | inr (x, e) ↦ ground (arith, e, count-replace_member guid j x m ms e)
]

count-set_assistant :
    (guid : ℕ) (apply : Bool) (ms : List Member) → SameMembers (set_assistant guid apply ms) ms
unfolding set_assistant
count-set_assistant guid apply [] = λ j. refl
count-set_assistant guid apply (m ∷ ms) = λ j. ground (arith, count-set_assistant guid apply ms j)

count-set_sub_group :
    (names : Names) (name : List ℕ) (sub : ℕ) (ms ns : List Member)
    → set_sub_group names name sub ms ≡ some ns
    → SameMembers ns ms
unfolding set_sub_group
count-set_sub_group names name sub [] ns e = λ j. cc
count-set_sub_group names name sub (m ∷ ms) ns e = λ j.
    elim (Option-cases (set_sub_group names name sub ms)) [
      | inl k ↦ ground (arith, e, k)
      | inr (xs, k) ↦ ground (arith, e, k, count-set_sub_group names name sub ms xs k j)
    ]

module _ (s : Session) (w : World) (v : Valid w) where
  led_at : (g : Group) → led_by s w ≡ some g → w.groups g.id ≡ some g
  led_at g e =
      let k : w.groups s.group_id ≡ some g = ground (arith, e) in
      ap w.groups (keyed_at w s.group_id g v.stored k) ∙ k

  pub handle_group_set_leader-Valid :
      (payload : List ℕ) → Valid (handle_group_set_leader s payload w).1
  unfolding handle_group_set_leader set_leader
  handle_group_set_leader-Valid payload =
      on_test (not s.loaded || s.group_id == 0) _ _ (λ b. v)
        (λ b.
          on_outcome (read_u64 (new_reader payload)) _ _ _
            (λ guid r q.
              on_found (led_by s w) _ _ (λ k. v)
                (λ g k.
                  on_found (find_member guid g.members) _ _ (λ l. v)
                    (λ m l.
                      changed-Valid g _ w v (led_at g k) refl (count-to_front guid g.members))))
            (λ _ _. v) v)

  set_loot-Valid :
      (loot_method master_looter loot_threshold : ℕ)
      → Valid (set_loot s loot_method master_looter loot_threshold w).1
  unfolding set_loot
  set_loot-Valid loot_method master_looter loot_threshold =
      on_test (ltb 4 loot_method) _ _ (λ b. v)
        (λ b.
          on_test (ltb loot_threshold 2 || ltb 6 loot_threshold) _ _ (λ c. v)
            (λ c.
              on_found (led_by s w) _ _ (λ k. v)
                (λ g k. changed-Valid g _ w v (led_at g k) refl (λ _. refl))))

  pub handle_loot_method-Valid : (payload : List ℕ) → Valid (handle_loot_method s payload w).1
  unfolding handle_loot_method
  handle_loot_method-Valid payload =
      on_test (not s.loaded || s.group_id == 0) _ _ (λ b. v)
        (λ b.
          on_outcome (read_u32 (new_reader payload)) _ _ _
            (λ how r q.
              on_outcome (read_u64 r) _ _ _
                (λ who r1 q1.
                  on_outcome (read_u32 r1) _ _ _ (λ least r2 q2. set_loot-Valid how who least)
                    (λ _ _. v) v)
                (λ _ _. v) v)
            (λ _ _. v) v)

  pub handle_group_raid_convert-Valid : Valid (handle_group_raid_convert s w).1
  unfolding handle_group_raid_convert
  handle_group_raid_convert-Valid =
      on_test (not s.loaded || s.group_id == 0) _ _ (λ b. v)
        (λ b.
          on_found (led_by s w) _ _ (λ k. v)
            (λ g k.
              on_test (ltb (length g.members) 2) _ _ (λ c. v)
                (λ c. changed-Valid g _ w v (led_at g k) refl (λ _. refl))))

  pub handle_group_assistant_leader-Valid :
      (payload : List ℕ) → Valid (handle_group_assistant_leader s payload w).1
  unfolding handle_group_assistant_leader
  handle_group_assistant_leader-Valid payload =
      on_test (not s.loaded || ltb (length payload) 9 || s.group_id == 0) _ _ (λ b. v)
        (λ b.
          on_outcome (read_u64 (new_reader payload)) _ _ _
            (λ guid r q.
              on_outcome (read_u8 r) _ _ _
                (λ apply r1 q1.
                  on_found (led_by s w) _ _ (λ k. v)
                    (λ g k.
                      changed-Valid g _ w v (led_at g k) refl
                        (count-set_assistant guid (not (apply == 0)) g.members)))
                (λ _ _. v) v)
            (λ _ _. v) v)

  change_sub_group-Valid :
      (names : Names) (name : List ℕ) (sub : ℕ) → Valid (change_sub_group names s name sub w).1
  unfolding change_sub_group
  change_sub_group-Valid names name sub =
      on_test (leb 8 sub) _ _ (λ b. v)
        (λ b.
          on_found (w.groups s.group_id) _ _ (λ k. v)
            (λ g k.
              on_test (not (is_leader_or_assistant s.guid g)) _ _ (λ c. v)
                (λ c.
                  on_test (leb 5 (count_in_sub_group sub g.members)) _ _ (λ d. v)
                    (λ d.
                      on_found (set_sub_group names name sub g.members) _ _ (λ l. v)
                        (λ ns l.
                          changed-Valid g _ w v
                            (ap w.groups (keyed_at w s.group_id g v.stored k) ∙ k) refl
                            (count-set_sub_group names name sub g.members ns l))))))

  pub handle_group_change_sub_group-Valid :
      (names : Names) (payload : List ℕ) → Valid (handle_group_change_sub_group names s payload w).1
  unfolding handle_group_change_sub_group
  handle_group_change_sub_group-Valid names payload =
      on_test (not s.loaded || ltb (length payload) 2 || s.group_id == 0) _ _ (λ b. v)
        (λ b.
          on_outcome (read_cstring (new_reader payload)) _ _ _
            (λ name r q.
              on_outcome (read_u8 r) _ _ _ (λ sub r1 q1. change_sub_group-Valid names name sub)
                (λ _ _. v) v)
            (λ _ _. v) v)
