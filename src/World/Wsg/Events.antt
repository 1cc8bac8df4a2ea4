-- ===== src/World/Wsg/Events.antt =====
-- engine/world/battleground_wsg.go: the death and the leave of a player, the timer that returns a
-- flag from the ground, and the events of a battleground one after another.
use moreno_go_moreno_core.Common.{
  ℕ, ◌+◌, ◌*◌, ◌%◌, ◌^◌, true, List, [], ◌∷◌, ◌++◌, ◌==◌, ltb, if◌then◌else◌, bit_or, Option, none,
  some,
}
use moreno_go_moreno_core.World.Wsg.{
  State, Session, Side, alliance, horde, Effect, remove_aura, world_state, message, despawn_dynamic,
  spawn_dynamic, start_timer, returned, dropped, on_base, on_ground, show_if,
  alliance_flag_dropped_entry, horde_flag_dropped_entry, spell_silverwing_flag, spell_warsong_flag,
  world_state_alliance_flag_state, world_state_horde_flag_state, new_state,
}
use moreno_go_moreno_core.World.Wsg.FlagUse.{flag_use}

-- engine/world/gameobjects.go, nextDynamicGameObjectLowGUID: the counter is the new guid.
unfoldable pub next_low_guid : ℕ → ℕ
next_low_guid counter = let n = (counter + 1) % 2 ^ 32 in if ltb n 1000000 then 1000000 else n

-- engine/world/gameobjects.go, gameObjectGUID.
unfoldable pub game_object_guid : ℕ → ℕ → ℕ
game_object_guid guid entry = bit_or (bit_or guid (entry * 2 ^ 24)) (0xF110 * 2 ^ 48)

-- The first `if` of handleWSGPlayerDeath, and the second.
unfoldable pub drop_alliance_flag : Session → State × ℕ → State × ℕ × List Effect
unfolding next_low_guid game_object_guid
drop_alliance_flag sess (w, counter) =
    let low = next_low_guid counter in
    let guid = game_object_guid low alliance_flag_dropped_entry in
    if w.alliance_carrier_guid == sess.guid
    then (
      record w {
        alliance_carrier_guid = 0;
        alliance_flag_state = on_ground;
        alliance_dropped_guid = guid;
        alliance_return_timer = true;
      },
      low,
      remove_aura sess.guid spell_silverwing_flag
          ∷ spawn_dynamic guid low alliance_flag_dropped_entry sess.guid
          ∷ world_state sess.map world_state_alliance_flag_state on_ground
          ∷ message sess.map (dropped alliance sess.name)
          ∷ start_timer alliance
          ∷ [],
    )
    else (w, counter, [])

unfoldable pub drop_horde_flag : Session → State × ℕ → State × ℕ × List Effect
unfolding next_low_guid game_object_guid
drop_horde_flag sess (w, counter) =
    let low = next_low_guid counter in
    let guid = game_object_guid low horde_flag_dropped_entry in
    if w.horde_carrier_guid == sess.guid
    then (
      record w {
        horde_carrier_guid = 0;
        horde_flag_state = on_ground;
        horde_dropped_guid = guid;
        horde_return_timer = true;
      },
      low,
      remove_aura sess.guid spell_warsong_flag
          ∷ spawn_dynamic guid low horde_flag_dropped_entry sess.guid
          ∷ world_state sess.map world_state_horde_flag_state on_ground
          ∷ message sess.map (dropped horde sess.name)
          ∷ start_timer horde
          ∷ [],
    )
    else (w, counter, [])

unfoldable pub player_death : Session → State × ℕ → State × ℕ × List Effect
unfolding drop_alliance_flag drop_horde_flag
player_death sess s =
    let (w1, c1, e1) = drop_alliance_flag sess s in
    let (w2, c2, e2) = drop_horde_flag sess (w1, c1) in (w2, c2, e1 ++ e2)

-- The two functions that `time.AfterFunc` runs. Each looks at the state when it runs.
unfoldable pub return_timer : Side → ℕ → State → State × List Effect
return_timer alliance map w =
    if w.alliance_flag_state == on_ground
    then (
      record w { alliance_dropped_guid = 0; alliance_flag_state = on_base },
      despawn_dynamic w.alliance_dropped_guid
          ∷ (show_if w.alliance_base_guid
              ++ (world_state map world_state_alliance_flag_state on_base
                  ∷ message map (returned alliance)
                  ∷ [])),
    )
    else (w, [])
return_timer horde map w =
    if w.horde_flag_state == on_ground
    then (
      record w { horde_dropped_guid = 0; horde_flag_state = on_base },
      despawn_dynamic w.horde_dropped_guid
          ∷ (show_if w.horde_base_guid
              ++ (world_state map world_state_horde_flag_state on_base
                  ∷ message map (returned horde)
                  ∷ [])),
    )
    else (w, [])

unfoldable pub leave_alliance_flag : Session → State → State × List Effect
leave_alliance_flag sess w =
    if w.alliance_carrier_guid == sess.guid
    then (
      record w { alliance_carrier_guid = 0; alliance_flag_state = on_base },
      remove_aura sess.guid spell_silverwing_flag
          ∷ (show_if w.alliance_base_guid
              ++ (world_state sess.map world_state_alliance_flag_state on_base
                  ∷ message sess.map (returned alliance)
                  ∷ [])),
    )
    else (w, [])

unfoldable pub leave_horde_flag : Session → State → State × List Effect
leave_horde_flag sess w =
    if w.horde_carrier_guid == sess.guid
    then (
      record w { horde_carrier_guid = 0; horde_flag_state = on_base },
      remove_aura sess.guid spell_warsong_flag
          ∷ (show_if w.horde_base_guid
              ++ (world_state sess.map world_state_horde_flag_state on_base
                  ∷ message sess.map (returned horde)
                  ∷ [])),
    )
    else (w, [])

unfoldable pub player_leave : Session → State → State × List Effect
unfolding leave_alliance_flag leave_horde_flag
player_leave sess w =
    let (w1, e1) = leave_alliance_flag sess w in
    let (w2, e2) = leave_horde_flag sess w1 in (w2, e1 ++ e2)

-- What can happen to the battleground of one map. A timer may run at any time after its start.
pub data Event : Type 0 where
  uses : Session → ℕ → ℕ → Event
  dies : Session → Event
  leaves : Session → Event
  fires : Side → Event

-- The battleground's state with the server's counter of objects.
unfoldable pub step : Event → State × ℕ → State × ℕ × List Effect
unfolding flag_use player_death player_leave return_timer
step (uses sess guid entry) (w, c) = let (w', e) = flag_use sess guid entry w in (w', c, e)
step (dies sess) (w, c) = player_death sess (w, c)
step (leaves sess) (w, c) = let (w', e) = player_leave sess w in (w', c, e)
step (fires side) (w, c) = let (w', e) = return_timer side w.map_id w in (w', c, e)

-- engine/world/battleground_wsg.go, getOrCreateWSGState: the battlegrounds by their maps.
unfoldable pub get_or_create : ℕ → (ℕ → Option State) → State × (ℕ → Option State)
unfolding new_state
get_or_create map_id states = elim (states map_id) [
  | some w ↦ (w, states)
  | none ↦ (new_state map_id, λ m. if m == map_id then some (new_state map_id) else states m)
]
