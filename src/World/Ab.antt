-- ===== src/World/Ab.antt =====
-- engine/world/battleground_ab.go: Arathi Basin, with five nodes that the sides hold or contest, and
-- resources that the nodes yield. A handler gives the new state and what it sends.
pub mod Banners
pub mod Bases
pub mod Contests
pub mod Reached
pub mod Control
pub mod Matches
pub mod Resources
pub mod Awards
pub mod Yields
use moreno_go_moreno_core.Common.{
  ℕ, ◌+◌, ◌-◌, ◌≤◌, Bool, ◌&&◌, List, [], ◌∷◌, ◌==◌, leb, if◌then◌else◌, Option, none, some, get_or,
}

abbrev pub ab_node_max : ℕ
ab_node_max = 5

abbrev pub neutral : ℕ
neutral = 0

abbrev pub contested_alliance : ℕ
contested_alliance = 1

abbrev pub contested_horde : ℕ
contested_horde = 2

abbrev pub controlled_alliance : ℕ
controlled_alliance = 3

abbrev pub controlled_horde : ℕ
controlled_horde = 4

-- `ABBannerCaptureTimeDefault`, in milliseconds.
abbrev pub ab_banner_capture_time_default : ℕ
ab_banner_capture_time_default = 60000

abbrev pub ab_max_resources : ℕ
ab_max_resources = 1600

abbrev pub world_state_alliance_resources : ℕ
world_state_alliance_resources = 1776

abbrev pub world_state_horde_resources : ℕ
world_state_horde_resources = 1777

abbrev pub world_state_bases_alliance : ℕ
world_state_bases_alliance = 1779

abbrev pub world_state_bases_horde : ℕ
world_state_bases_horde = 1780

unfoldable pub get_ab_banner_entry : ℕ → ℕ → ℕ
get_ab_banner_entry node_id state =
    if leb ab_node_max node_id
    then 0
    else if state == neutral
    then 180087 + node_id
    else if state == contested_alliance
    then 180100 + node_id
    else if state == contested_horde
    then 180105 + node_id
    else if state == controlled_alliance
    then 180110 + node_id
    else if state == controlled_horde
    then 180115 + node_id
    else 0

-- The icons of a node, by its state.
abbrev pub ab_node_world_states : List (List ℕ)
ab_node_world_states =
    (1771 ∷ 1768 ∷ 1769 ∷ 1767 ∷ 1770 ∷ [])
    ∷ (1781 ∷ 1773 ∷ 1774 ∷ 1772 ∷ 1775 ∷ [])
    ∷ (1786 ∷ 1783 ∷ 1784 ∷ 1782 ∷ 1785 ∷ [])
    ∷ (1791 ∷ 1788 ∷ 1789 ∷ 1787 ∷ 1790 ∷ [])
    ∷ (1796 ∷ 1793 ∷ 1794 ∷ 1792 ∷ 1795 ∷ [])
    ∷ []

-- In milliseconds, by the number of bases.
abbrev pub ab_tick_intervals : List ℕ
ab_tick_intervals = 0 ∷ 12000 ∷ 9000 ∷ 6000 ∷ 3000 ∷ 1000 ∷ []

abbrev pub ab_tick_points : List ℕ
ab_tick_points = 0 ∷ 10 ∷ 10 ∷ 10 ∷ 10 ∷ 30 ∷ []

-- The timer that a node holds is the side for which it captures.
pub record Node : Type 0 where
  pub state : ℕ
  pub prev_state : ℕ
  pub assaulted_by : ℕ
  pub capture_timer : Option ℕ
  pub banner_guid : ℕ
  pub banner_entry : ℕ

-- The winner is `none` while the match goes on. Durations are in milliseconds.
pub record State : Type 0 where
  pub map_id : ℕ
  pub alliance_resources : ℕ
  pub horde_resources : ℕ
  pub max_resources : ℕ
  pub alliance_bases_count : ℕ
  pub horde_bases_count : ℕ
  pub nodes : List Node
  pub capture_duration : ℕ
  pub winner : Option ℕ
  pub alliance_accum_ms : ℕ
  pub horde_accum_ms : ℕ

abbrev pub between : ℕ → ℕ → ℕ → Bool
between low high entry = leb low entry && leb entry high

unfoldable pub is_ab_banner : ℕ → Bool
is_ab_banner entry =
    if between 180087 180091 entry
    then Bool.true
    else if between 180100 180104 entry
    then Bool.true
    else if between 180105 180109 entry
    then Bool.true
    else if between 180110 180114 entry
    then Bool.true
    else between 180115 180119 entry

unfoldable pub get_ab_node_id_from_banner_entry : ℕ → Option ℕ
get_ab_node_id_from_banner_entry entry =
    if between 180087 180091 entry
    then some (entry - 180087)
    else if between 180100 180104 entry
    then some (entry - 180100)
    else if between 180105 180109 entry
    then some (entry - 180105)
    else if between 180110 180114 entry
    then some (entry - 180110)
    else if between 180115 180119 entry
    then some (entry - 180115)
    else none

unfoldable pub new_node : ℕ → Node
unfolding get_ab_banner_entry
new_node i = record {
  state = neutral;
  prev_state = neutral;
  assaulted_by = 0;
  capture_timer = none;
  banner_guid = 0;
  banner_entry = get_ab_banner_entry i neutral;
}

-- The state that getOrCreateABState makes for a map.
unfoldable pub new_state : ℕ → State
unfolding new_node
new_state map_id = record {
  map_id = map_id;
  alliance_resources = 0;
  horde_resources = 0;
  max_resources = ab_max_resources;
  alliance_bases_count = 0;
  horde_bases_count = 0;
  nodes = new_node 0 ∷ new_node 1 ∷ new_node 2 ∷ new_node 3 ∷ new_node 4 ∷ [];
  capture_duration = ab_banner_capture_time_default;
  winner = none;
  alliance_accum_ms = 0;
  horde_accum_ms = 0;
}

unfoldable pub get_or_create_ab_state : ℕ → (ℕ → Option State) → State × (ℕ → Option State)
unfolding new_state
get_or_create_ab_state map_id states = elim (states map_id) [
  | some ab ↦ (ab, states)
  | none ↦ (new_state map_id, λ m. if m == map_id then some (new_state map_id) else states m)
]

-- The nodes have numbers below 5; another one would be a panic, which no caller makes.
abbrev pub node_at : List Node → ℕ → Node
node_at nodes i = get_or nodes i (record {
  state = 0;
  prev_state = 0;
  assaulted_by = 0;
  capture_timer = none;
  banner_guid = 0;
  banner_entry = 0;
})

-- The texts that are sent to the map: a player's name or none, a node, a side.
pub data Message : Type 0 where
  has_assaulted has_defended : List ℕ → ℕ → ℕ → Message
  has_taken : ℕ → ℕ → Message
  wins : ℕ → Message

pub data Effect : Type 0 where
  world_state : ℕ → ℕ → ℕ → Effect
  -- The timer of a node is stopped; one is started for a duration and a side.
  stop_timer : ℕ → Effect
  start_timer : ℕ → ℕ → ℕ → Effect
  despawn_dynamic : ℕ → Effect
  -- A banner: its guid, low guid and entry, at its node.
  spawn_dynamic : ℕ → ℕ → ℕ → ℕ → ℕ → Effect
  message : ℕ → Message → Effect
  credit_objective : ℕ → ℕ → Effect
  credit_win : ℕ → ℕ → Effect
