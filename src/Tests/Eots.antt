-- ===== src/Tests/Eots.antt =====
-- engine/world/battleground_eots.go: a match of a few events.
use Prim.Native.Nat.{min}
use moreno_go_moreno_core.Common.{
  ℕ, ◌+◌, ◌≡◌, ◌≢◌, ◌≤◌, Bool, ◌⊎◌, refl, arith, true, false, [], ◌∷◌, leb, if◌then◌else◌, none,
  some, get_or,
}
use moreno_go_moreno_core.World.Wsg.{team_for_race}
use moreno_go_moreno_core.World.Eots.{
  State, Session, new_state, tower_at, at_center, eots_flag_capture_points, eots_max_resources,
  is_eots_game_object, get_eots_banner_entry,
}
use moreno_go_moreno_core.World.Eots.Flag.{return_timer}
use moreno_go_moreno_core.World.Eots.Towers.{use_tower, update_eots_tower_banner, take_for_alliance}
use moreno_go_moreno_core.World.Clock.{later_ms}
use moreno_go_moreno_core.World.Eots.Resources.{tick_eots_resources, tick_alliance, tick_horde}
use moreno_go_moreno_core.World.Eots.Events.{Event, uses, dies, returns, step, Sound, held}
use moreno_go_moreno_core.World.Eots.Matches.{Reach, start, next, Reach-Sound}
use moreno_go_moreno_core.World.Eots.Captures.{
  Reach-pays, Paid, controlled_by, Unscored, Carrier, uses-Stays,
}
use moreno_go_moreno_core.World.Eots.Timers.{Run, begins, goes_on, after_effects, before_event}
use moreno_go_moreno_core.World.Eots.Returns.{Run-returns}
use moreno_go_moreno_core.World.Eots.Yields.{eots_due, eots_left, tick_eots_resources-due}

abbrev human : Session
human = record {
  guid = 10;
  race = 1;
  name = 65 ∷ [];
  map_id = 566;
  far_from_center = false;
  too_far = λ tower_id. false;
}

abbrev fresh : State
fresh = new_state 566

-- The human takes the Mage Tower, and then the flag.
abbrev with_tower : State
with_tower = (step (uses human 184080) fresh 0).0

abbrev tower_counter : ℕ
tower_counter = (step (uses human 184080) fresh 0).1

abbrev with_flag : State
with_flag = (step (uses human 184141) with_tower tower_counter).0

abbrev flag_counter : ℕ
flag_counter = (step (uses human 184141) with_tower tower_counter).1

with_tower-Reach : Reach with_tower tower_counter
with_tower-Reach = next (uses human 184080) (start 566 0) (omega arith)

with_flag-Reach : Reach with_flag flag_counter
with_flag-Reach = next (uses human 184141) with_tower-Reach (omega arith)

Reach-Sound_example : Sound with_flag
Reach-Sound_example = Reach-Sound with_flag-Reach

-- What the examples below ask for.
carried_on :
    (with_flag.winner ≡ none)
    × (with_flag.flag_state ≡ 2)
    × (with_flag.flag_carrier_guid ≡ 10)
    × ((tower_at with_flag.towers 0).state ≡ 1)
    × (with_flag.alliance_towers_count ≡ 1)
unfolding step new_state update_eots_tower_banner get_eots_banner_entry team_for_race
    take_for_alliance
carried_on = (refl, refl, refl, refl, refl)

human_side : team_for_race 1 ≡ 0
unfolding team_for_race
human_side = refl

own_tower : (tower_at with_flag.towers 0).state ≡ controlled_by (team_for_race human.race)
own_tower = rw human_side carried_on.3

Reach-pays_example :
    let points =
      get_or eots_flag_capture_points
        (held (controlled_by (team_for_race human.race)) with_flag.towers)
        0 in
    Paid (team_for_race human.race) points with_flag (use_tower human 0 with_flag flag_counter).0
Reach-pays_example =
    Reach-pays with_flag-Reach carried_on.0 human 0 carried_on.1 carried_on.2 refl own_tower

uses-Stays_example :
    let s' = (step (uses human 184080) with_flag flag_counter).0 in
    Unscored with_flag s' ⊎ Carrier human with_flag
uses-Stays_example = uses-Stays with_flag-Reach human 184080

-- A state, the counter of objects, and whether a return timer runs.
abbrev Point : Type 0
Point = State × ℕ × Bool

abbrev after : Event → Point → Point
after e (s, counter, running) = (
  (step e s counter).0,
  (step e s counter).1,
  after_effects (step e s counter).2 (before_event e running),
)

-- The human takes the flag and dies, the flag comes back by its timer, and the human does so again.
abbrev second_drop : Point
second_drop = after (dies human) (
    after (uses human 184141)
      (after returns (after (dies human) (after (uses human 184141) (fresh, 0, false)))))

second_drop-Run : Run second_drop.0 second_drop.1 second_drop.2
second_drop-Run =
    let named : human.guid ≢ 0 = omega arith in
    let first = goes_on (dies human) (goes_on (uses human 184141) (begins 566 0) named) named in
    goes_on (dies human) (goes_on (uses human 184141) (goes_on returns first tt) named) named

second_dropped : second_drop.0.flag_state ≡ 3
unfolding step new_state team_for_race
second_dropped = refl

Run-returns_example :
    let s' = (return_timer second_drop.0).0 in
    (second_drop.2 ≡ true)
    × (s'.flag_state ≡ at_center)
    × (s'.flag_carrier_guid ≡ 0)
    × (s'.flag_dropped_guid ≡ 0)
Run-returns_example = Run-returns second_drop-Run second_dropped

tick_eots_resources-due_example :
    let s = with_flag in
    let a =
      s.alliance_resources + eots_due s.alliance_towers_count (later_ms s.alliance_accum_ms 2500) in
    let h = s.horde_resources + eots_due s.horde_towers_count (later_ms s.horde_accum_ms 2500) in
    let s' = (tick_eots_resources 2500 s).0 in
    (s'.alliance_resources ≡ min eots_max_resources a)
    × (s'.horde_resources
        ≡ (if leb eots_max_resources a then s.horde_resources else min eots_max_resources h))
    × (s'.winner ≡ (
        if leb eots_max_resources a
        then some 0
        else if leb eots_max_resources h
        then some 1
        else none))
    × ((s'.alliance_accum_ms ≡ eots_left s.alliance_towers_count s.alliance_accum_ms 2500)
        ⊎ (eots_max_resources ≤ a))
    × ((s'.horde_accum_ms ≡ eots_left s.horde_towers_count s.horde_accum_ms 2500)
        ⊎ (eots_max_resources ≤ a)
        ⊎ (eots_max_resources ≤ h))
tick_eots_resources-due_example = tick_eots_resources-due with_flag-Reach carried_on.0 2500

-- Two seconds with one tower give two points.
two_points : (tick_eots_resources 2500 with_flag).0.alliance_resources ≡ 2
unfolding step new_state update_eots_tower_banner get_eots_banner_entry team_for_race
    take_for_alliance tick_eots_resources tick_alliance tick_horde
two_points = refl

-- The capture with one tower gives 75 points.
captured : (step (uses human 184080) with_flag flag_counter).0.alliance_resources ≡ 75
unfolding step new_state update_eots_tower_banner get_eots_banner_entry team_for_race
    take_for_alliance
captured = refl

objects : is_eots_game_object 184142 ≡ true
unfolding is_eots_game_object
objects = refl
