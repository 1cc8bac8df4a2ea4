-- ===== src/World/Groups/Sessions.antt =====
-- engine/world/group.go: what sessions do one after another, and what holds of groups then.
use moreno_go_moreno_core.Common.{
  ℕ, ◌≡◌, refl, ap, sym, ◌∙◌, arith, Bool, true, false, List, [], ◌==◌, if◌then◌else◌, Option, none,
  some, ==→eq,
}
use moreno_go_moreno_core.Protocol.Buffer.{Buffer, done, new_reader, read_cstring, read_u64}
use moreno_go_moreno_core.World.Groups.{Session, World, Result, Names}
use moreno_go_moreno_core.World.Groups.Joining.{
  handle_group_invite, handle_group_accept, handle_group_decline,
}
use moreno_go_moreno_core.World.Groups.Leaving.{
  session_named, handle_group_uninvite, handle_group_uninvite_guid, handle_group_disband,
  remove_session_from_group,
}
use moreno_go_moreno_core.World.Groups.Ranks.{
  handle_group_set_leader, handle_loot_method, handle_group_raid_convert,
  handle_group_assistant_leader, handle_group_change_sub_group,
}
use moreno_go_moreno_core.World.Groups.Calls.{
  handle_minimap_ping, handle_raid_target_update, handle_party_assignment, handle_ready_check,
  handle_raid_ready_check_finished, handle_random_roll,
}
use moreno_go_moreno_core.World.Groups.Marks.{
  handle_minimap_ping-Valid, handle_raid_target_update-Valid, handle_party_assignment-Valid,
  handle_ready_check-Valid, handle_raid_ready_check_finished-Valid, handle_random_roll-Valid,
}
use moreno_go_moreno_core.World.Groups.Stores.{group_named, online_at, OnlineAt}
use moreno_go_moreno_core.World.Groups.Ends.{Valid}
use moreno_go_moreno_core.World.Groups.Joins.{on_found, Fresh, handle_group_accept-Valid}
use moreno_go_moreno_core.World.Groups.Membership.{
  handle_group_invite-Valid, handle_group_decline-Valid, handle_group_uninvite-Valid,
  handle_group_uninvite_guid-Valid, handle_group_disband-Valid, remove_session_from_group-Valid,
}
use moreno_go_moreno_core.World.Groups.Orders.{
  handle_group_set_leader-Valid, handle_loot_method-Valid, handle_group_raid_convert-Valid,
  handle_group_assistant_leader-Valid, handle_group_change_sub_group-Valid,
}

-- What a session sends, with its payload, or that it ends.
pub data Command : Type 0 where
  invites uninvites uninvites_guid sets_leader sets_loot sets_assistant : List ℕ → Command
  changes_sub_group pings marks assigns checks_ready : List ℕ → Command
  -- With the number that is drawn.
  rolls : ℕ → List ℕ → Command
  accepts declines disbands converts ends_ready_check leaves_game : Command

unfoldable pub run : Names → Session → Command → World → Result
run names s (invites payload) w = handle_group_invite names s payload w
run names s accepts w = handle_group_accept s w
run names s declines w = handle_group_decline s w
run names s (uninvites payload) w = handle_group_uninvite names s payload w
run names s (uninvites_guid payload) w = handle_group_uninvite_guid s payload w
run names s disbands w = handle_group_disband s w
run names s (sets_leader payload) w = handle_group_set_leader s payload w
run names s (sets_loot payload) w = handle_loot_method s payload w
run names s converts w = handle_group_raid_convert s w
run names s (sets_assistant payload) w = handle_group_assistant_leader s payload w
run names s (changes_sub_group payload) w = handle_group_change_sub_group names s payload w
run names s (pings payload) w = handle_minimap_ping s payload w
run names s (marks payload) w = handle_raid_target_update s payload w
run names s (assigns payload) w = handle_party_assignment s payload w
run names s (checks_ready payload) w = handle_ready_check s payload w
run names s ends_ready_check w = handle_raid_ready_check_finished s w
run names s (rolls draw payload) w = handle_random_roll draw s payload w
run names s leaves_game w = remove_session_from_group s w

unfoldable pub step : Names → ℕ → Command → World → Result
step names guid command w = elim (w.sessions guid) [
  | none ↦ (false, w, [])
  | some s ↦ run names s command w
]

-- What the handlers do not ask: who accepts is in no group, and who is removed is in the group of
-- the one who asks for it. The counter of groups gives a number that is no group's.
abbrev pub Proper : Names → Session → Command → World → Type 0
Proper names s accepts w = (s.group_id ≡ 0) × Fresh w
Proper names s (uninvites payload) w =
    (name : List ℕ) (b : Buffer) (t : Session)
    → read_cstring (new_reader payload) ≡ done name b
    → session_named names name w ≡ some t
    → (w.sessions t.guid ≡ some t) × (t.group_id ≡ s.group_id)
Proper names s (uninvites_guid payload) w =
    (guid : ℕ) (b : Buffer) (t : Session)
    → read_u64 (new_reader payload) ≡ done guid b
    → w.sessions guid ≡ some t
    → t.group_id ≡ s.group_id
Proper names s _ w = Unit

run-Valid :
    (names : Names) (s : Session) (command : Command) (w : World)
    → Valid w
    → w.sessions s.guid ≡ some s
    → Proper names s command w
    → Valid (run names s command w).1
unfolding run
run-Valid names s (invites payload) w v e h = handle_group_invite-Valid s w v e names payload
run-Valid names s accepts w v e h = handle_group_accept-Valid s w v h.1 e h.0
run-Valid names s declines w v e h = handle_group_decline-Valid s w v e
run-Valid names s (uninvites payload) w v e h = handle_group_uninvite-Valid s w v e names payload h
run-Valid names s (uninvites_guid payload) w v e h =
    handle_group_uninvite_guid-Valid s w v e payload h
run-Valid names s disbands w v e h = handle_group_disband-Valid s w v e
run-Valid names s (sets_leader payload) w v e h = handle_group_set_leader-Valid s w v payload
run-Valid names s (sets_loot payload) w v e h = handle_loot_method-Valid s w v payload
run-Valid names s converts w v e h = handle_group_raid_convert-Valid s w v
run-Valid names s (sets_assistant payload) w v e h =
    handle_group_assistant_leader-Valid s w v payload
run-Valid names s (changes_sub_group payload) w v e h =
    handle_group_change_sub_group-Valid s w v names payload
run-Valid names s (pings payload) w v e h = handle_minimap_ping-Valid s w v payload
run-Valid names s (marks payload) w v e h = handle_raid_target_update-Valid s w v payload
run-Valid names s (assigns payload) w v e h = handle_party_assignment-Valid s w v payload
run-Valid names s (checks_ready payload) w v e h = handle_ready_check-Valid s w v payload
run-Valid names s ends_ready_check w v e h = handle_raid_ready_check_finished-Valid s w v
run-Valid names s (rolls draw payload) w v e h = handle_random_roll-Valid s w v draw payload
run-Valid names s leaves_game w v e h = remove_session_from_group-Valid s w v e

-- Whatever the sessions send, each session names a group exactly where that group has its player as
-- a member, and has the player once, provided that who accepts an invitation is in no group, that
-- who is removed from a group is in it, and that the counter gives a number that is no group's.
pub step-Valid :
    (names : Names) (guid : ℕ) (command : Command) (w : World)
    → Valid w
    → ((s : Session) → w.sessions guid ≡ some s → Proper names s command w)
    → Valid (step names guid command w).1
unfolding step
step-Valid names guid command w v h =
    on_found (w.sessions guid) _ _ (λ e. v)
      (λ s e.
        run-Valid names s command w v (ap w.sessions (online_at w guid s v.stored e).0 ∙ e) (h s e))

-- A player enters the world in no group; a session goes when it is in none.
abbrev pub enter : Session → World → World
enter s w = record w { sessions = λ g. if g == s.guid then some s else w.sessions g }

abbrev pub go : ℕ → World → World
go guid w = record w { sessions = λ g. if g == guid then none else w.sessions g }

put_online :
    (b : Bool) (guid : ℕ) (o p : Option Session)
    → (b ≡ true → OnlineAt guid o)
    → OnlineAt guid p
    → OnlineAt guid (if b then o else p)
put_online true guid o p v w = v refl
put_online false guid o p v w = w

enter-Valid :
    (s : Session) (w : World)
    → Valid w
    → w.sessions s.guid ≡ none
    → s.loaded ≡ true
    → s.group_id ≡ 0
    → Valid (enter s w)
enter-Valid s w v n l z = record {
  stored = record {
    online = λ guid.
        put_online (guid == s.guid) guid (some s) (w.sessions guid)
          (λ b. (sym (==→eq guid s.guid b), l)) (v.stored.online guid);
    keyed = v.stored.keyed;
  };
  agrees = λ i j k. ground (arith, v.agrees i j k, n, z);
}

go-Valid : (guid : ℕ) (w : World) → Valid w → group_named w guid ≡ 0 → Valid (go guid w)
go-Valid guid w v z = record {
  stored = record {
    online = λ j. put_online (j == guid) j none (w.sessions j) (λ b. tt) (v.stored.online j);
    keyed = v.stored.keyed;
  };
  agrees = λ i j k. ground (arith, v.agrees i j k, z);
}

-- The worlds that are reached from one with no session and no group.
pub data Reach (names : Names) : World → Type 0 where
  start :
      (next_id : ℕ)
      → Reach names (record { sessions = λ g. none; groups = λ i. none; next_id = next_id })
  enters :
      {w : World} (s : Session)
      → Reach names w
      → w.sessions s.guid ≡ none
      → s.loaded ≡ true
      → s.group_id ≡ 0
      → Reach names (enter s w)
  acts :
      {w : World} (guid : ℕ) (command : Command)
      → Reach names w
      → ((s : Session) → w.sessions guid ≡ some s → Proper names s command w)
      → Reach names (step names guid command w).1
  goes : {w : World} (guid : ℕ) → Reach names w → group_named w guid ≡ 0 → Reach names (go guid w)

-- In every world that is reached from an empty one by sessions that come, act and go, each session
-- names a group exactly where that group has its player as a member, and has the player once. This
-- is provided that a player enters the world under a guid that no session has and in no group, so
-- that loadPlayerGroup finds no saved group of the player, that a session goes only when it names no group, that who accepts an
-- invitation is in no group, that who is removed from a group is in it, and that the counter gives a
-- number that is no group's.
pub Reach-Valid : (names : Names) {w : World} → Reach names w → Valid w
Reach-Valid names (start next_id) = record {
  stored = record { online = λ guid. tt; keyed = λ id. tt };
  agrees = λ i j n. ground arith;
}
Reach-Valid names (enters {w} s r n l z) = enter-Valid s w (Reach-Valid names r) n l z
Reach-Valid names (acts {w} guid command r h) =
    step-Valid names guid command w (Reach-Valid names r) h
Reach-Valid names (goes {w} guid r z) = go-Valid guid w (Reach-Valid names r) z
