-- ===== src/World/Eots/Towers.antt =====
-- engine/world/battleground_eots.go: a player uses an object, and the towers.
use moreno_go_moreno_core.Common.{
  ℕ, ◌+◌, ◌-◌, ◌%◌, ◌^◌, Bool, List, [], ◌∷◌, ◌++◌, ◌&&◌, ◌||◌, ◌==◌, ltb, leb, if◌then◌else◌,
  Option, none, some, get_or, set,
}
use moreno_go_moreno_core.World.Wsg.{team_for_race}
use moreno_go_moreno_core.World.Wsg.Events.{next_low_guid, game_object_guid}
use moreno_go_moreno_core.World.Eots.{
  Tower, State, Session, Effect, Outcome, world_state, despawn_dynamic, spawn_banner, message,
  has_captured, eots_tower_max, controlled_alliance, controlled_horde, carried, flag_center_entry,
  flag_dropped_entry, world_state_bases_alliance, world_state_bases_horde, get_eots_banner_entry,
  eots_tower_world_states, get_eots_tower_id_from_banner_entry, tower_at,
}
use moreno_go_moreno_core.World.Eots.Flag.{use_center_flag, use_dropped_flag, capture_eots_flag}

unfoldable pub update_eots_tower_banner : State → ℕ → Tower → ℕ → Tower × ℕ × List Effect
update_eots_tower_banner eots tower_id tower counter =
    let new_entry = get_eots_banner_entry tower_id tower.state in
    let low = next_low_guid counter in
    let new_guid = game_object_guid low new_entry in
    let old = if tower.banner_guid == 0 then [] else despawn_dynamic tower.banner_guid ∷ [] in
    if leb eots_tower_max tower_id
    then (tower, counter, [])
    else if new_entry == 0
    then (tower, counter, [])
    else (
      record tower { banner_guid = new_guid; banner_entry = new_entry },
      low,
      old ++ spawn_banner new_guid low new_entry eots.map_id tower_id ∷ [],
    )

-- The rounds of the loop from a state on.
unfoldable pub tower_icon_states : ℕ → ℕ → ℕ → List ℕ → List Effect
tower_icon_states map_id state st [] = []
tower_icon_states map_id state st (icon ∷ icons) =
    world_state map_id icon (if st == state then 1 else 0)
    ∷ tower_icon_states map_id state (st + 1) icons

unfoldable pub update_eots_tower_world_states : State → ℕ → Tower → List Effect
unfolding tower_icon_states
update_eots_tower_world_states eots tower_id tower =
    if leb eots_tower_max tower_id
    then []
    else tower_icon_states eots.map_id tower.state 0 (get_or eots_tower_world_states tower_id [])

-- What follows where a tower's state has been set for a side.
unfoldable pub show_tower : ℕ → ℕ → State → Tower → ℕ → List Effect → Outcome
unfolding update_eots_tower_banner update_eots_tower_world_states
show_tower team tower_id eots tower counter before =
    let (shown, c, e) = update_eots_tower_banner eots tower_id tower counter in
    (
      record eots { towers = set eots.towers tower_id shown },
      c,
      before
          ++ (e
              ++ (update_eots_tower_world_states eots tower_id shown
                  ++ message eots.map_id (has_captured team tower_id) ∷ [])),
    )

-- The counts when a side takes a tower that may have been the other's.
unfoldable pub take_for_alliance : State → Tower → State × List Effect
take_for_alliance eots tower =
    let fewer = eots.horde_towers_count - 1 in
    let more = (eots.alliance_towers_count + 1) % 2 ^ 32 in
    let told = world_state eots.map_id world_state_bases_alliance more ∷ [] in
    if (tower.state == controlled_horde) && ltb 0 eots.horde_towers_count
    then (
      record eots { horde_towers_count = fewer; alliance_towers_count = more },
      world_state eots.map_id world_state_bases_horde fewer ∷ told,
    )
    else (record eots { alliance_towers_count = more }, told)

unfoldable pub take_for_horde : State → Tower → State × List Effect
take_for_horde eots tower =
    let fewer = eots.alliance_towers_count - 1 in
    let more = (eots.horde_towers_count + 1) % 2 ^ 32 in
    let told = world_state eots.map_id world_state_bases_horde more ∷ [] in
    if (tower.state == controlled_alliance) && ltb 0 eots.alliance_towers_count
    then (
      record eots { alliance_towers_count = fewer; horde_towers_count = more },
      world_state eots.map_id world_state_bases_alliance fewer ∷ told,
    )
    else (record eots { horde_towers_count = more }, told)

unfoldable pub claim_for_alliance : ℕ → State → Tower → ℕ → Outcome
unfolding take_for_alliance show_tower
claim_for_alliance tower_id eots tower counter =
    let (s, e) = take_for_alliance eots tower in
    if tower.state == controlled_alliance
    then (eots, counter, [])
    else show_tower 0 tower_id s (record tower { state = controlled_alliance }) counter e

unfoldable pub claim_for_horde : ℕ → State → Tower → ℕ → Outcome
unfolding take_for_horde show_tower
claim_for_horde tower_id eots tower counter =
    let (s, e) = take_for_horde eots tower in
    if tower.state == controlled_horde
    then (eots, counter, [])
    else show_tower 1 tower_id s (record tower { state = controlled_horde }) counter e

abbrev pub is_controlled_by_team : ℕ → Tower → Bool
is_controlled_by_team team tower =
    ((team == 0) && (tower.state == controlled_alliance))
    || ((team == 1) && (tower.state == controlled_horde))

abbrev pub carries : Session → State → Bool
carries sess eots = (eots.flag_state == carried) && (eots.flag_carrier_guid == sess.guid)

-- The use of a banner, from the tower on.
unfoldable pub use_tower : Session → ℕ → State → ℕ → Outcome
unfolding claim_for_alliance claim_for_horde capture_eots_flag
use_tower sess tower_id eots counter =
    let tower = tower_at eots.towers tower_id in
    let team = team_for_race sess.race in
    let (captured, e) = capture_eots_flag sess team eots in
    if sess.too_far tower_id
    then (eots, counter, [])
    else if carries sess eots && is_controlled_by_team team tower
    then (captured, counter, e)
    else if team == 0
    then claim_for_alliance tower_id eots tower counter
    else claim_for_horde tower_id eots tower counter

-- `none` is the result false: nothing changes.
unfoldable pub handle_eots_game_object_use : Session → ℕ → State → ℕ → Option Outcome
unfolding use_center_flag use_dropped_flag get_eots_tower_id_from_banner_entry use_tower
handle_eots_game_object_use sess entry eots counter = elim eots.winner [
  | some w ↦ some (eots, counter, [])
  | none ↦
      if entry == flag_center_entry
      then some (use_center_flag sess eots counter)
      else if entry == flag_dropped_entry
      then some (use_dropped_flag sess eots counter)
      else elim (get_eots_tower_id_from_banner_entry entry) [
        | none ↦ none
        | some tower_id ↦
            if leb eots_tower_max tower_id
            then none
            else some (use_tower sess tower_id eots counter)
      ]
]
