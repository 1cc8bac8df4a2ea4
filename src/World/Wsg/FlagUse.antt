-- ===== src/World/Wsg/FlagUse.antt =====
-- engine/world/battleground_wsg.go, handleWSGFlagUse: a player uses a flag, on its base or on the
-- ground.
use moreno_go_moreno_core.Common.{
  ℕ, true, false, ◌&&◌, List, [], ◌∷◌, ◌++◌, ◌==◌, leb, if◌then◌else◌,
}
use moreno_go_moreno_core.World.Wsg.{
  State, Session, alliance, horde, Effect, apply_aura, remove_aura, set_hidden, broadcast_despawn,
  world_state, message, despawn_dynamic, picked_up, captured, returned_by, wins, team_for_race,
  on_base, on_player, u32_add1, show_if, alliance_flag_base_entry, horde_flag_base_entry,
  alliance_flag_dropped_entry, horde_flag_dropped_entry, spell_silverwing_flag, spell_warsong_flag,
  world_state_alliance_captures, world_state_horde_captures, world_state_alliance_flag_state,
  world_state_horde_flag_state,
}

-- The four cases of the switch in handleWSGFlagUse.
unfoldable pub use_alliance_base : Session → ℕ → State → State × List Effect
use_alliance_base sess guid w =
    let picked : State × List Effect = (
      record w {
        alliance_flag_state = on_player;
        alliance_carrier_guid = sess.guid;
        alliance_base_guid = guid;
      },
      apply_aura sess.guid spell_silverwing_flag
          ∷ set_hidden guid true
          ∷ broadcast_despawn sess.map guid
          ∷ world_state sess.map world_state_alliance_flag_state on_player
          ∷ message sess.map (picked_up alliance sess.name)
          ∷ [],
    ) in
    let score = u32_add1 w.alliance_score in
    let capture : State × List Effect = (
      record w { horde_carrier_guid = 0; horde_flag_state = on_base; alliance_score = score },
      remove_aura sess.guid spell_warsong_flag
          ∷ world_state sess.map world_state_alliance_captures score
          ∷ world_state sess.map world_state_horde_flag_state on_base
          ∷ (show_if w.horde_base_guid
              ++ (message sess.map (captured horde sess.name)
                  ∷ (if leb w.max_score score then message sess.map (wins alliance) ∷ [] else []))),
    ) in
    if team_for_race sess.race == 1
    then (if w.alliance_flag_state == on_base then picked else (w, []))
    else if team_for_race sess.race == 0
    then (if w.horde_carrier_guid == sess.guid && w.alliance_flag_state == on_base
        then capture
        else (w, []))
    else (w, [])

unfoldable pub use_horde_base : Session → ℕ → State → State × List Effect
use_horde_base sess guid w =
    let picked : State × List Effect = (
      record w {
        horde_flag_state = on_player;
        horde_carrier_guid = sess.guid;
        horde_base_guid = guid;
      },
      apply_aura sess.guid spell_warsong_flag
          ∷ set_hidden guid true
          ∷ broadcast_despawn sess.map guid
          ∷ world_state sess.map world_state_horde_flag_state on_player
          ∷ message sess.map (picked_up horde sess.name)
          ∷ [],
    ) in
    let score = u32_add1 w.horde_score in
    let capture : State × List Effect = (
      record w { alliance_carrier_guid = 0; alliance_flag_state = on_base; horde_score = score },
      remove_aura sess.guid spell_silverwing_flag
          ∷ world_state sess.map world_state_horde_captures score
          ∷ world_state sess.map world_state_alliance_flag_state on_base
          ∷ (show_if w.alliance_base_guid
              ++ (message sess.map (captured alliance sess.name)
                  ∷ (if leb w.max_score score then message sess.map (wins horde) ∷ [] else []))),
    ) in
    if team_for_race sess.race == 0
    then (if w.horde_flag_state == on_base then picked else (w, []))
    else if team_for_race sess.race == 1
    then (if w.alliance_carrier_guid == sess.guid && w.horde_flag_state == on_base
        then capture
        else (w, []))
    else (w, [])

unfoldable pub use_alliance_dropped : Session → ℕ → State → State × List Effect
use_alliance_dropped sess guid w =
    if team_for_race sess.race == 0
    then (
      record w { alliance_return_timer = false; alliance_flag_state = on_base },
      despawn_dynamic guid
          ∷ (show_if w.alliance_base_guid
              ++ (world_state sess.map world_state_alliance_flag_state on_base
                  ∷ message sess.map (returned_by alliance sess.name)
                  ∷ [])),
    )
    else (
      record w {
        alliance_return_timer = false;
        alliance_flag_state = on_player;
        alliance_carrier_guid = sess.guid;
      },
      despawn_dynamic guid
          ∷ apply_aura sess.guid spell_silverwing_flag
          ∷ world_state sess.map world_state_alliance_flag_state on_player
          ∷ message sess.map (picked_up alliance sess.name)
          ∷ [],
    )

unfoldable pub use_horde_dropped : Session → ℕ → State → State × List Effect
use_horde_dropped sess guid w =
    if team_for_race sess.race == 1
    then (
      record w { horde_return_timer = false; horde_flag_state = on_base },
      despawn_dynamic guid
          ∷ (show_if w.horde_base_guid
              ++ (world_state sess.map world_state_horde_flag_state on_base
                  ∷ message sess.map (returned_by horde sess.name)
                  ∷ [])),
    )
    else (
      record w {
        horde_return_timer = false;
        horde_flag_state = on_player;
        horde_carrier_guid = sess.guid;
      },
      despawn_dynamic guid
          ∷ apply_aura sess.guid spell_warsong_flag
          ∷ world_state sess.map world_state_horde_flag_state on_player
          ∷ message sess.map (picked_up horde sess.name)
          ∷ [],
    )

unfoldable pub flag_use : Session → ℕ → ℕ → State → State × List Effect
unfolding use_alliance_base use_horde_base use_alliance_dropped use_horde_dropped
flag_use sess guid entry w =
    if entry == alliance_flag_base_entry
    then use_alliance_base sess guid w
    else if entry == horde_flag_base_entry
    then use_horde_base sess guid w
    else if entry == alliance_flag_dropped_entry
    then use_alliance_dropped sess guid w
    else if entry == horde_flag_dropped_entry
    then use_horde_dropped sess guid w
    else (w, [])
