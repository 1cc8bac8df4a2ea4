-- ===== src/World/Wsg.antt =====
-- engine/world/battleground_wsg.go: Warsong Gulch. Each side has a flag, which is on its base, on a
-- player of the other side, or on the ground. A handler gives the new state and what it sends.
pub mod FlagUse
pub mod Events
pub mod Invariant
pub mod Captures
use moreno_go_moreno_core.Common.{
  ℕ, ◌+◌, ◌*◌, ◌%◌, ◌^◌, Bool, true, false, not, ◌&&◌, List, [], ◌∷◌, ◌++◌, ◌==◌, leb,
  if◌then◌else◌, Option, none, some, one_of,
}

abbrev pub alliance_flag_base_entry : ℕ
alliance_flag_base_entry = 179830

abbrev pub horde_flag_base_entry : ℕ
horde_flag_base_entry = 179831

abbrev pub alliance_flag_dropped_entry : ℕ
alliance_flag_dropped_entry = 179785

abbrev pub horde_flag_dropped_entry : ℕ
horde_flag_dropped_entry = 179786

abbrev pub spell_silverwing_flag : ℕ
spell_silverwing_flag = 23335

abbrev pub spell_warsong_flag : ℕ
spell_warsong_flag = 23333

abbrev pub on_base : ℕ
on_base = 1

abbrev pub on_player : ℕ
on_player = 2

abbrev pub on_ground : ℕ
on_ground = 3

abbrev pub world_state_alliance_captures : ℕ
world_state_alliance_captures = 1581

abbrev pub world_state_horde_captures : ℕ
world_state_horde_captures = 1582

abbrev pub world_state_horde_flag_state : ℕ
world_state_horde_flag_state = 2338

abbrev pub world_state_alliance_flag_state : ℕ
world_state_alliance_flag_state = 2339

-- A timer field says whether it holds a timer; 0 is no carrier, no object.
pub record State : Type 0 where
  pub map_id : ℕ
  pub alliance_score : ℕ
  pub horde_score : ℕ
  pub max_score : ℕ
  pub alliance_flag_state : ℕ
  pub horde_flag_state : ℕ
  pub alliance_carrier_guid : ℕ
  pub horde_carrier_guid : ℕ
  pub alliance_base_guid : ℕ
  pub horde_base_guid : ℕ
  pub alliance_dropped_guid : ℕ
  pub horde_dropped_guid : ℕ
  pub alliance_return_timer : Bool
  pub horde_return_timer : Bool

-- What the handlers take from a session with a player.
pub record Session : Type 0 where
  pub guid : ℕ
  pub race : ℕ
  pub map : ℕ
  pub name : List ℕ

pub data Side : Type 0 where
  alliance horde : Side

-- The texts that are sent to the map, with the player's name where they have one.
pub data Message : Type 0 where
  picked_up : Side → List ℕ → Message
  captured : Side → List ℕ → Message
  returned_by : Side → List ℕ → Message
  returned : Side → Message
  dropped : Side → List ℕ → Message
  wins : Side → Message

pub data Effect : Type 0 where
  apply_aura remove_aura : ℕ → ℕ → Effect
  set_hidden : ℕ → Bool → Effect
  broadcast_despawn : ℕ → ℕ → Effect
  world_state : ℕ → ℕ → ℕ → Effect
  message : ℕ → Message → Effect
  despawn_dynamic : ℕ → Effect
  -- A flag on the ground where the carrier, the last argument, stands.
  spawn_dynamic : ℕ → ℕ → ℕ → ℕ → Effect
  start_timer : Side → Effect

-- engine/world/characters.go, teamForRace: 0 is the Alliance, 1 the Horde.
unfoldable pub team_for_race : ℕ → ℕ
team_for_race race =
    if one_of race (1 ∷ 3 ∷ 4 ∷ 7 ∷ 11 ∷ [])
    then 0
    else if one_of race (2 ∷ 5 ∷ 6 ∷ 8 ∷ 10 ∷ [])
    then 1
    else 0

unfoldable pub is_wsg_flag : ℕ → Bool
is_wsg_flag entry = one_of entry (
    alliance_flag_base_entry ∷ horde_flag_base_entry ∷ alliance_flag_dropped_entry
    ∷ horde_flag_dropped_entry ∷ [])

unfoldable pub new_state : ℕ → State
new_state map_id = record {
  map_id = map_id;
  alliance_score = 0;
  horde_score = 0;
  max_score = 3;
  alliance_flag_state = on_base;
  horde_flag_state = on_base;
  alliance_carrier_guid = 0;
  horde_carrier_guid = 0;
  alliance_base_guid = 0;
  horde_base_guid = 0;
  alliance_dropped_guid = 0;
  horde_dropped_guid = 0;
  alliance_return_timer = false;
  horde_return_timer = false;
}

abbrev pub u32_add1 : ℕ → ℕ
u32_add1 n = (n + 1) % 2 ^ 32

-- `if guid != 0 { s.setGameObjectHidden(guid, false) }`
abbrev pub show_if : ℕ → List Effect
show_if guid = if guid == 0 then [] else set_hidden guid false ∷ []
