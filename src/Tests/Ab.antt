-- ===== src/Tests/Ab.antt =====
-- engine/world/battleground_ab.go: a match of a few events.
use Prim.Native.Nat.{min}
use moreno_go_moreno_core.Common.{
  ℕ, ◌+◌, ◌≡◌, ◌≤◌, ◌⊎◌, refl, arith, true, false, List, [], ◌∷◌, leb, if◌then◌else◌, length, none,
  some,
}
use moreno_go_moreno_core.World.Wsg.{team_for_race}
use moreno_go_moreno_core.World.Ab.{
  State, Effect, credit_objective, get_ab_banner_entry, get_ab_node_id_from_banner_entry, new_state,
  node_at,
}
use moreno_go_moreno_core.World.Ab.Banners.{
  Session, use_banner_of, complete_ab_node_capture, update_ab_node_banner,
}
use moreno_go_moreno_core.World.Clock.{later_ms}
use moreno_go_moreno_core.World.Ab.Resources.{tick_resources, accumulate, award_loop, award}
use moreno_go_moreno_core.World.Ab.Yields.{due, left, tick_resources-due}
use moreno_go_moreno_core.World.Ab.Bases.{timer_of}
use moreno_go_moreno_core.World.Ab.Reached.{uses, step, Consistent}
use moreno_go_moreno_core.World.Ab.Matches.{
  Reach, start, next, Reach-Consistent, controlled_by, bases_of, Reach-captures,
  far_player_credited,
}

abbrev human : Session
human = record { guid = 10; race = 1; name = 65 ∷ []; too_far = λ node. false }

-- An orc who stands far from every node.
abbrev far_orc : Session
far_orc = record { guid = 20; race = 2; name = 66 ∷ []; too_far = λ node. true }

-- The human uses the banner of the Stables.
abbrev assaulted : State
assaulted = (step (uses human 180087) (new_state 529, 0)).0

abbrev assaulted_counter : ℕ
assaulted_counter = (step (uses human 180087) (new_state 529, 0)).1

assaulted-Reach : Reach (assaulted, assaulted_counter)
assaulted-Reach = next (uses human 180087) (start 529 0) tt

Reach-Consistent_example : Consistent assaulted
Reach-Consistent_example = Reach-Consistent assaulted-Reach

assaulted_goes_on : assaulted.winner ≡ none
unfolding step new_state
assaulted_goes_on = refl

assaulted_timer : timer_of (node_at assaulted.nodes 0).state ≡ some 0
unfolding step new_state update_ab_node_banner get_ab_banner_entry team_for_race
assaulted_timer = refl

Reach-captures_example :
    let ab = (complete_ab_node_capture 0 0 (assaulted, assaulted_counter)).0 in
    ((node_at assaulted.nodes 0).capture_timer ≡ some 0)
    × ((node_at ab.nodes 0).state ≡ controlled_by 0)
    × (bases_of 0 ab ≡ bases_of 0 assaulted + 1)
Reach-captures_example =
    Reach-captures assaulted-Reach assaulted_goes_on 0 0 (omega arith) assaulted_timer

assaulted_size : length assaulted.nodes ≡ 5
unfolding step new_state update_ab_node_banner get_ab_banner_entry team_for_race
assaulted_size = refl

minute_goes_on : (tick_resources 60000 (use_banner_of far_orc 0 assaulted 7).0).0.winner ≡ none
unfolding step new_state update_ab_node_banner get_ab_banner_entry team_for_race tick_resources
minute_goes_on = refl

far_player_credited_example :
    let ab = (tick_resources 60000 (use_banner_of far_orc 0 assaulted 7).0).0 in
    (rest : List Effect) × ((complete_ab_node_capture 0 0 (ab, 7)).2 ≡ credit_objective 20 0 ∷ rest)
far_player_credited_example =
    far_player_credited far_orc assaulted 7 7 0 0 60000 assaulted_goes_on assaulted_size
      (omega arith) assaulted_timer refl minute_goes_on

-- Two bases of the Alliance and one of the Horde, 9 seconds before the end.
abbrev late : State
late = record (new_state 529) {
  alliance_resources = 1590;
  horde_resources = 1000;
  alliance_bases_count = 2;
  horde_bases_count = 1;
}

tick_resources-due_example :
    let a = 1590 + due 2 (later_ms 0 9000) in
    let h = 1000 + due 1 (later_ms 0 9000) in
    let ab = (tick_resources 9000 late).0 in
    (ab.alliance_resources ≡ min 1600 a)
    × (ab.horde_resources ≡ (if leb 1600 a then 1000 else min 1600 h))
    × (ab.winner ≡ (if leb 1600 a then some 0 else if leb 1600 h then some 1 else none))
    × ((ab.alliance_accum_ms ≡ left 2 0 9000) ⊎ (1600 ≤ a))
    × ((ab.horde_accum_ms ≡ left 1 0 9000) ⊎ (1600 ≤ a) ⊎ (1600 ≤ h))
unfolding new_state
tick_resources-due_example =
    tick_resources-due 9000 late refl (omega arith) (omega arith) (omega arith)

-- The Alliance wins with the ten points of one interval.
late_won : (tick_resources 9000 late).0.winner ≡ some 0
unfolding tick_resources accumulate award_loop award new_state
late_won = refl

banners : get_ab_node_id_from_banner_entry 180112 ≡ some 2
unfolding get_ab_node_id_from_banner_entry
banners = refl
