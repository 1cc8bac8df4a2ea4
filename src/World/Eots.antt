-- ===== src/World/Eots.antt =====
-- engine/world/battleground_eots.go: Eye of the Storm, with four towers that a side holds from the
-- first use of their banner, and one flag. A handler gives the new state and what it sends.
pub mod Flag
pub mod Towers
pub mod Resources
pub mod Events
pub mod Scores
pub mod Boards
pub mod Flags
pub mod Matches
pub mod Timers
pub mod Returns
pub mod Captures
pub mod Rounds
pub mod Yields
use moreno_go_moreno_core.Common.{
  ℕ, ◌+◌, ◌-◌, ◌%◌, ◌^◌, Bool, ◌&&◌, ◌||◌, List, [], ◌∷◌, ◌++◌, ◌==◌, leb, if◌then◌else◌, Option,
  none, some, get_or,
}

abbrev pub eots_map_id : ℕ
eots_map_id = 566

abbrev pub eots_tower_max : ℕ
eots_tower_max = 4

abbrev pub neutral : ℕ
neutral = 0

abbrev pub controlled_alliance : ℕ
controlled_alliance = 1

abbrev pub controlled_horde : ℕ
controlled_horde = 2

abbrev pub at_center : ℕ
at_center = 1

abbrev pub carried : ℕ
carried = 2

abbrev pub dropped : ℕ
dropped = 3

abbrev pub flag_center_entry : ℕ
flag_center_entry = 184141

abbrev pub flag_dropped_entry : ℕ
flag_dropped_entry = 184142

abbrev pub eots_max_resources : ℕ
eots_max_resources = 1600

abbrev pub world_state_alliance_resources : ℕ
world_state_alliance_resources = 2749

abbrev pub world_state_horde_resources : ℕ
world_state_horde_resources = 2750

abbrev pub world_state_bases_alliance : ℕ
world_state_bases_alliance = 2752

abbrev pub world_state_bases_horde : ℕ
world_state_bases_horde = 2753

abbrev pub world_state_flag_state : ℕ
world_state_flag_state = 2757

-- The icons of a tower, by its state.
abbrev pub eots_tower_world_states : List (List ℕ)
eots_tower_world_states =
    (2724 ∷ 2722 ∷ 2723 ∷ [])
    ∷ (2727 ∷ 2725 ∷ 2726 ∷ [])
    ∷ (2730 ∷ 2728 ∷ 2729 ∷ [])
    ∷ (2733 ∷ 2731 ∷ 2732 ∷ [])
    ∷ []

unfoldable pub get_eots_banner_entry : ℕ → ℕ → ℕ
get_eots_banner_entry tower_id state =
    if leb eots_tower_max tower_id
    then 0
    else if state == neutral
    then 184080 + tower_id
    else if state == controlled_alliance
    then 184084 + tower_id
    else if state == controlled_horde
    then 184088 + tower_id
    else 0

-- By the number of towers.
abbrev pub eots_flag_capture_points : List ℕ
eots_flag_capture_points = 0 ∷ 75 ∷ 85 ∷ 100 ∷ 500 ∷ []

abbrev pub eots_tower_tick_points : List ℕ
eots_tower_tick_points = 0 ∷ 1 ∷ 2 ∷ 5 ∷ 10 ∷ []

pub record Tower : Type 0 where
  pub state : ℕ
  pub banner_guid : ℕ
  pub banner_entry : ℕ

-- The winner is `none` while the match goes on; a timer is whether there is one.
pub record State : Type 0 where
  pub map_id : ℕ
  pub alliance_resources : ℕ
  pub horde_resources : ℕ
  pub max_resources : ℕ
  pub alliance_towers_count : ℕ
  pub horde_towers_count : ℕ
  pub towers : List Tower
  pub flag_state : ℕ
  pub flag_carrier_guid : ℕ
  pub flag_center_guid : ℕ
  pub flag_dropped_guid : ℕ
  pub flag_return_timer : Bool
  pub flag_respawn_timer : Bool
  pub winner : Option ℕ
  pub alliance_accum_ms : ℕ
  pub horde_accum_ms : ℕ

abbrev pub between : ℕ → ℕ → ℕ → Bool
between low high entry = leb low entry && leb entry high

unfoldable pub is_eots_game_object : ℕ → Bool
is_eots_game_object entry =
    if (entry == flag_center_entry) || (entry == flag_dropped_entry)
    then Bool.true
    else between 184080 184091 entry

unfoldable pub get_eots_tower_id_from_banner_entry : ℕ → Option ℕ
get_eots_tower_id_from_banner_entry entry =
    if between 184080 184083 entry
    then some (entry - 184080)
    else if between 184084 184087 entry
    then some (entry - 184084)
    else if between 184088 184091 entry
    then some (entry - 184088)
    else none

unfoldable pub new_tower : ℕ → Tower
unfolding get_eots_banner_entry
new_tower i = record {
  state = neutral;
  banner_guid = 0;
  banner_entry = get_eots_banner_entry i neutral;
}

-- The state that getOrCreateEOTSState makes for a map.
unfoldable pub new_state : ℕ → State
unfolding new_tower
new_state map_id = record {
  map_id = map_id;
  alliance_resources = 0;
  horde_resources = 0;
  max_resources = eots_max_resources;
  alliance_towers_count = 0;
  horde_towers_count = 0;
  towers = new_tower 0 ∷ new_tower 1 ∷ new_tower 2 ∷ new_tower 3 ∷ [];
  flag_state = at_center;
  flag_carrier_guid = 0;
  flag_center_guid = 0;
  flag_dropped_guid = 0;
  flag_return_timer = Bool.false;
  flag_respawn_timer = Bool.false;
  winner = none;
  alliance_accum_ms = 0;
  horde_accum_ms = 0;
}

unfoldable pub get_or_create_eots_state : ℕ → (ℕ → Option State) → State × (ℕ → Option State)
unfolding new_state
get_or_create_eots_state map_id states = elim (states map_id) [
  | some eots ↦ (eots, states)
  | none ↦ (new_state map_id, λ m. if m == map_id then some (new_state map_id) else states m)
]

-- The towers have numbers below 4; another one would be a panic, which no caller makes.
abbrev pub tower_at : List Tower → ℕ → Tower
tower_at towers i = get_or towers i (record { state = 0; banner_guid = 0; banner_entry = 0 })

-- What the handlers take from a session with a player. `far_from_center` and `too_far` say whether
-- the player's distance from the center or from a tower is more than 10: it is distance3D on floats.
pub record Session : Type 0 where
  pub guid : ℕ
  pub race : ℕ
  pub name : List ℕ
  pub map_id : ℕ
  pub far_from_center : Bool
  pub too_far : ℕ → Bool

-- The texts that are sent to the map: a player's name, a side, a tower, points.
pub data Message : Type 0 where
  takes_flag picks_flag_up : List ℕ → ℕ → Message
  captures_flag : List ℕ → ℕ → ℕ → Message
  drops_flag : List ℕ → Message
  flag_reset flag_reset_to_center : Message
  has_captured : ℕ → ℕ → Message
  wins : ℕ → Message

pub data Effect : Type 0 where
  world_state : ℕ → ℕ → ℕ → Effect
  set_hidden : ℕ → Bool → Effect
  -- The aura of the flag, by the player.
  apply_flag_aura remove_flag_aura : ℕ → Effect
  stop_return stop_respawn : Effect
  -- A duration in milliseconds.
  start_return start_respawn : ℕ → Effect
  despawn_dynamic : ℕ → Effect
  -- A banner: its guid, low guid, entry and map, at its tower; the flag, at the player.
  spawn_banner spawn_flag : ℕ → ℕ → ℕ → ℕ → ℕ → Effect
  message : ℕ → Message → Effect
  credit_flag : ℕ → Effect
  credit_win : ℕ → ℕ → Effect

-- The state, the server's counter of objects, and what is sent.
abbrev pub Outcome : Type 0
Outcome = State × ℕ × List Effect

abbrev pub announce_eots_victory : ℕ → ℕ → List Effect
announce_eots_victory map_id team = message map_id (wins team) ∷ credit_win map_id team ∷ []

-- Resources are added for a side, of which those above the limit are lost.
unfoldable pub score_alliance : ℕ → State → State × List Effect
score_alliance points eots =
    let sum = (eots.alliance_resources + points) % 2 ^ 32 in
    let most = eots.max_resources in
    let shown = λ (n : ℕ). world_state eots.map_id world_state_alliance_resources n ∷ [] in
    if leb most sum
    then (
      record eots { alliance_resources = most; winner = some 0 },
      announce_eots_victory eots.map_id 0 ++ shown most,
    )
    else (record eots { alliance_resources = sum }, shown sum)

unfoldable pub score_horde : ℕ → State → State × List Effect
score_horde points eots =
    let sum = (eots.horde_resources + points) % 2 ^ 32 in
    let most = eots.max_resources in
    let shown = λ (n : ℕ). world_state eots.map_id world_state_horde_resources n ∷ [] in
    if leb most sum
    then (
      record eots { horde_resources = most; winner = some 1 },
      announce_eots_victory eots.map_id 1 ++ shown most,
    )
    else (record eots { horde_resources = sum }, shown sum)
