-- ===== src/World/Groups/Marks.antt =====
-- engine/world/group.go: the marks and the assignments keep the members, and what a roll is.
use moreno_go_moreno_core.Common.{
  ℕ, ◌≡◌, refl, ap, ◌∙◌, arith, Bool, true, false, not, List, [], ◌∷◌, ◌==◌, ◌||◌, ◌&&◌, leb,
  length, if◌then◌else◌, some, set, ltb,
}
use moreno_go_moreno_core.Protocol.Buffer.{new_reader, read_u8, read_u32, read_u64}
use moreno_go_moreno_core.World.Groups.{Session, Group, Member, World, is_leader_or_assistant}
use moreno_go_moreno_core.World.Groups.Calls.{
  handle_raid_target_update, mark_target, clear_flag, give_flag, assign, assign_party,
  handle_party_assignment, member_flag_main_assist, member_flag_main_tank, handle_minimap_ping,
  handle_ready_check, handle_raid_ready_check_finished, handle_random_roll, roll_between,
  random_roll_max,
}
use moreno_go_moreno_core.World.Groups.Stores.{keyed_at, put_group-Stored}
use moreno_go_moreno_core.World.Groups.Ends.{Valid, put_group-Agrees}
use moreno_go_moreno_core.World.Groups.Joins.{on_test, on_found}
use moreno_go_moreno_core.World.Groups.Membership.{on_outcome, own_members}
use moreno_go_moreno_core.World.Groups.Orders.{SameMembers, changed-Valid}

count-clear_flag : (flag : ℕ) (ms : List Member) → SameMembers (clear_flag flag ms) ms
unfolding clear_flag
count-clear_flag flag [] = λ j. refl
count-clear_flag flag (m ∷ ms) = λ j. ground (arith, count-clear_flag flag ms j)

count-give_flag : (guid flag : ℕ) (ms : List Member) → SameMembers (give_flag guid flag ms) ms
unfolding give_flag
count-give_flag guid flag [] = λ j. refl
count-give_flag guid flag (m ∷ ms) = λ j. ground (arith, count-give_flag guid flag ms j)

module _ (s : Session) (w : World) (v : Valid w) where
  group_at : (g : Group) → w.groups s.group_id ≡ some g → w.groups g.id ≡ some g
  group_at g k = ap w.groups (keyed_at w s.group_id g v.stored k) ∙ k

  mark_target-Valid :
      (g : Group) (x guid : ℕ) → w.groups s.group_id ≡ some g → Valid (mark_target s g x guid w).1
  unfolding mark_target
  mark_target-Valid g x guid k =
      on_test (leb 8 x) _ _ (λ b. v)
        (λ b.
          let marked = record g { target_icons = set g.target_icons x guid } in
          record {
            stored = put_group-Stored marked w v.stored;
            agrees = put_group-Agrees marked w (own_members g w (group_at g k) v.agrees);
          })

  pub handle_raid_target_update-Valid :
      (payload : List ℕ) → Valid (handle_raid_target_update s payload w).1
  unfolding handle_raid_target_update
  handle_raid_target_update-Valid payload =
      on_test (not s.loaded || s.group_id == 0) _ _ (λ b. v)
        (λ b.
          on_outcome (read_u8 (new_reader payload)) _ _ _
            (λ x r q.
              on_found (w.groups s.group_id) _ _ (λ k. v)
                (λ g k.
                  on_test (x == 255) _ _ (λ c. v)
                    (λ c.
                      on_test (g.is_raid && not (g.leader_guid == s.guid)) _ _ (λ d. v)
                        (λ d.
                          on_outcome (read_u64 r) _ _ _ (λ guid r1 q1. mark_target-Valid g x guid k)
                            (λ _ _. v) v))))
            (λ _ _. v) v)

  assign-Valid :
      (guid flag : ℕ) (apply : Bool) (g : Group)
      → w.groups s.group_id ≡ some g
      → Valid (assign guid flag apply g w).1
  unfolding assign
  assign-Valid guid flag apply g k = changed-Valid g _ w v (group_at g k) refl (same apply)
    where
      same :
          (b : Bool)
          → SameMembers
              (if b
                then give_flag guid flag (clear_flag flag g.members)
                else clear_flag flag g.members)
              g.members
      same true = λ j.
          count-give_flag guid flag (clear_flag flag g.members) j
          ∙ count-clear_flag flag g.members j
      same false = count-clear_flag flag g.members

  assign_party-Valid :
      (assignment : ℕ) (apply : Bool) (guid : ℕ) → Valid (assign_party s assignment apply guid w).1
  unfolding assign_party
  assign_party-Valid assignment apply guid =
      on_found (w.groups s.group_id) _ _ (λ k. v)
        (λ g k.
          on_test (not (is_leader_or_assistant s.guid g)) _ _ (λ c. v)
            (λ c.
              on_test (assignment == 0) _ _
                (λ d. assign-Valid guid member_flag_main_assist apply g k)
                (λ d.
                  on_test (assignment == 1) _ _
                    (λ n. assign-Valid guid member_flag_main_tank apply g k) (λ n. v))))

  pub handle_party_assignment-Valid :
      (payload : List ℕ) → Valid (handle_party_assignment s payload w).1
  unfolding handle_party_assignment
  handle_party_assignment-Valid payload =
      on_test (not s.loaded || s.group_id == 0) _ _ (λ b. v)
        (λ b.
          on_outcome (read_u8 (new_reader payload)) _ _ _
            (λ assignment r q.
              on_outcome (read_u8 r) _ _ _
                (λ apply r1 q1.
                  on_outcome (read_u64 r1) _ _ _
                    (λ guid r2 q2. assign_party-Valid assignment (not (apply == 0)) guid) (λ _ _. v)
                    v)
                (λ _ _. v) v)
            (λ _ _. v) v)

  -- The handlers that only send.
  pub handle_minimap_ping-Valid : (payload : List ℕ) → Valid (handle_minimap_ping s payload w).1
  unfolding handle_minimap_ping
  handle_minimap_ping-Valid payload =
      on_test (not s.loaded || s.group_id == 0) _ _ (λ b. v)
        (λ b.
          on_outcome (read_u32 (new_reader payload)) _ _ _
            (λ x r q. on_outcome (read_u32 r) _ _ _ (λ y r1 q1. v) (λ _ _. v) v) (λ _ _. v) v)

  pub handle_ready_check-Valid : (payload : List ℕ) → Valid (handle_ready_check s payload w).1
  unfolding handle_ready_check
  handle_ready_check-Valid payload =
      on_test (not s.loaded || s.group_id == 0) _ _ (λ b. v)
        (λ b.
          on_found (w.groups s.group_id) _ _ (λ k. v)
            (λ g k.
              on_test (length payload == 0) _ _
                (λ c. on_test (is_leader_or_assistant s.guid g) _ _ (λ d. v) (λ d. v))
                (λ c. on_outcome (read_u8 (new_reader payload)) _ _ _ (λ x r q. v) (λ _ _. v) v)))

  pub handle_raid_ready_check_finished-Valid : Valid (handle_raid_ready_check_finished s w).1
  unfolding handle_raid_ready_check_finished
  handle_raid_ready_check_finished-Valid =
      on_test (not s.loaded || s.group_id == 0) _ _ (λ b. v)
        (λ b.
          on_found (w.groups s.group_id) _ _ (λ k. v)
            (λ g k. on_test (is_leader_or_assistant s.guid g) _ _ (λ c. v) (λ c. v)))

  pub handle_random_roll-Valid :
      (draw : ℕ) (payload : List ℕ) → Valid (handle_random_roll draw s payload w).1
  unfolding handle_random_roll roll_between
  handle_random_roll-Valid draw payload =
      on_test (not s.loaded) _ _ (λ b. v)
        (λ b.
          on_outcome (read_u32 (new_reader payload)) _ _ _
            (λ minimum r q.
              on_outcome (read_u32 r) _ _ _
                (λ maximum r1 q1.
                  on_test (ltb maximum minimum || ltb random_roll_max maximum) _ _ (λ c. v)
                    (λ c. v))
                (λ _ _. v) v)
            (λ _ _. v) v)
