-- ===== src/World/Eots/Flag.antt =====
-- engine/world/battleground_eots.go: the flag, which is at the center, carried or dropped.
use moreno_go_moreno_core.Common.{
  ℕ, Bool, true, false, List, [], ◌∷◌, ◌++◌, ◌==◌, leb, if◌then◌else◌, Option, none, some, get_or,
}
use moreno_go_moreno_core.World.Wsg.{team_for_race}
use moreno_go_moreno_core.World.Wsg.Events.{next_low_guid, game_object_guid}
use moreno_go_moreno_core.World.Eots.{
  State, Session, Effect, Outcome, world_state, set_hidden, apply_flag_aura, remove_flag_aura,
  stop_return, stop_respawn, start_return, start_respawn, despawn_dynamic, spawn_flag, message,
  credit_flag, takes_flag, picks_flag_up, captures_flag, drops_flag, flag_reset,
  flag_reset_to_center, at_center, carried, dropped, flag_dropped_entry, eots_map_id,
  world_state_flag_state, eots_flag_capture_points, score_alliance, score_horde,
}

-- `if eots.FlagCenterGUID != 0 { s.setGameObjectHidden(eots.FlagCenterGUID, …) }`
abbrev pub hide_center : State → Bool → List Effect
hide_center eots hidden =
    if eots.flag_center_guid == 0 then [] else set_hidden eots.flag_center_guid hidden ∷ []

-- The cases of handleEOTSGameObjectUse for the flag at the center and on the ground.
unfoldable pub use_center_flag : Session → State → ℕ → Outcome
use_center_flag sess eots counter =
    let sent =
      apply_flag_aura sess.guid
      ∷ world_state eots.map_id world_state_flag_state carried
      ∷ message eots.map_id (takes_flag sess.name (team_for_race sess.race))
      ∷ [] in
    if eots.flag_state == at_center
    then (if sess.far_from_center then (eots, counter, []) else (
      record eots { flag_state = carried; flag_carrier_guid = sess.guid },
      counter,
      hide_center eots true ++ sent,
    ))
    else (eots, counter, [])

unfoldable pub use_dropped_flag : Session → State → ℕ → Outcome
use_dropped_flag sess eots counter =
    let stopped = if eots.flag_return_timer then stop_return ∷ [] else [] in
    let sent =
      despawn_dynamic eots.flag_dropped_guid
      ∷ apply_flag_aura sess.guid
      ∷ world_state eots.map_id world_state_flag_state carried
      ∷ message eots.map_id (picks_flag_up sess.name (team_for_race sess.race))
      ∷ [] in
    if eots.flag_state == dropped
    then (
      record eots {
        flag_return_timer = false;
        flag_dropped_guid = 0;
        flag_state = carried;
        flag_carrier_guid = sess.guid;
      },
      counter,
      stopped ++ sent,
    )
    else (eots, counter, [])

-- The towers that count for a capture.
abbrev pub towers_held : State → ℕ → ℕ
towers_held eots team =
    let held = if team == 1 then eots.horde_towers_count else eots.alliance_towers_count in
    if leb held 4 then held else 4

abbrev pub capture_points : State → ℕ → ℕ
capture_points eots team = get_or eots_flag_capture_points (towers_held eots team) 0

-- The respawn timer runs for 10 seconds.
unfoldable pub capture_eots_flag : Session → ℕ → State → State × List Effect
unfolding score_alliance score_horde
capture_eots_flag sess team eots =
    let points = capture_points eots team in
    let freed = record eots { flag_carrier_guid = 0; flag_state = at_center } in
    let scored = if team == 0 then score_alliance points freed else score_horde points freed in
    let stopped = if eots.flag_respawn_timer then stop_respawn ∷ [] else [] in
    (
      record scored.0 { flag_respawn_timer = true },
      credit_flag sess.guid
          ∷ remove_flag_aura sess.guid
          ∷ (scored.1
              ++ (world_state eots.map_id world_state_flag_state at_center
                  ∷ message eots.map_id (captures_flag sess.name team points)
                  ∷ (stopped ++ start_respawn 10000 ∷ []))),
    )

-- What the respawn timer runs: the state stays.
unfoldable pub respawn_timer : State → List Effect
respawn_timer eots = hide_center eots false ++ message eots.map_id flag_reset ∷ []

-- The return timer runs for 15 seconds.
unfoldable pub drop_eots_flag : Session → State → ℕ → Outcome
drop_eots_flag sess eots counter =
    let low = next_low_guid counter in
    let dropped_guid = game_object_guid low flag_dropped_entry in
    let stopped = if eots.flag_return_timer then stop_return ∷ [] else [] in
    (
      record eots {
        flag_carrier_guid = 0;
        flag_state = dropped;
        flag_dropped_guid = dropped_guid;
        flag_return_timer = true;
      },
      low,
      remove_flag_aura sess.guid
          ∷ spawn_flag dropped_guid low flag_dropped_entry eots.map_id sess.guid
          ∷ world_state eots.map_id world_state_flag_state dropped
          ∷ message eots.map_id (drops_flag sess.name)
          ∷ (stopped ++ start_return 15000 ∷ []),
    )

-- What the return timer runs.
unfoldable pub return_timer : State → State × List Effect
return_timer eots =
    if eots.flag_state == dropped
    then (
      record eots { flag_dropped_guid = 0; flag_state = at_center },
      despawn_dynamic eots.flag_dropped_guid
          ∷ (hide_center eots false
              ++ (world_state eots.map_id world_state_flag_state at_center
                  ∷ message eots.map_id flag_reset_to_center
                  ∷ [])),
    )
    else (eots, [])

unfoldable pub handle_eots_player_death : Session → State → ℕ → Outcome
unfolding drop_eots_flag
handle_eots_player_death sess eots counter =
    if sess.map_id == eots_map_id
    then (if eots.flag_carrier_guid == sess.guid
        then drop_eots_flag sess eots counter
        else (eots, counter, []))
    else (eots, counter, [])

unfoldable pub handle_eots_player_leave : Session → State → ℕ → Outcome
unfolding drop_eots_flag
handle_eots_player_leave sess eots counter =
    if sess.map_id == eots_map_id
    then (if eots.flag_carrier_guid == sess.guid
        then drop_eots_flag sess eots counter
        else (eots, counter, []))
    else (eots, counter, [])

-- The sessions of the server are found by their guids.
unfoldable pub get_eots_flag_carriers : ℕ → (ℕ → Option State) → (ℕ → Option Session) → List Session
get_eots_flag_carriers map_id states find_session =
    if map_id == eots_map_id
    then elim (states map_id) [
      | none ↦ []
      | some eots ↦
          if eots.flag_carrier_guid == 0
          then []
          else elim (find_session eots.flag_carrier_guid) [ none ↦ [] | some sess ↦ sess ∷ [] ]
    ]
    else []
