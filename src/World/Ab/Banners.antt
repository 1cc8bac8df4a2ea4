-- ===== src/World/Ab/Banners.antt =====
-- engine/world/battleground_ab.go: a player uses a banner, and a timer completes a capture.
use moreno_go_moreno_core.Common.{
  ℕ, ◌+◌, ◌-◌, ◌%◌, ◌^◌, Bool, List, [], ◌∷◌, ◌++◌, ◌&&◌, ◌==◌, ltb, leb, if◌then◌else◌, Option,
  none, some, get_or, set,
}
use moreno_go_moreno_core.World.Wsg.{team_for_race}
use moreno_go_moreno_core.World.Wsg.Events.{next_low_guid, game_object_guid}
use moreno_go_moreno_core.World.Ab.{
  Node, State, Effect, Message, world_state, stop_timer, start_timer, despawn_dynamic,
  spawn_dynamic, message, credit_objective, has_assaulted, has_defended, has_taken, ab_node_max,
  neutral, contested_alliance, contested_horde, controlled_alliance, controlled_horde,
  ab_banner_capture_time_default, world_state_bases_alliance, world_state_bases_horde,
  get_ab_banner_entry, ab_node_world_states, get_ab_node_id_from_banner_entry, node_at,
}

-- What the handler takes from a session with a player. `too_far` says from which nodes the player's
-- distance is more than 10: it is distance3D on floats.
pub record Session : Type 0 where
  pub guid : ℕ
  pub race : ℕ
  pub name : List ℕ
  pub too_far : ℕ → Bool

-- The state, the server's counter of objects, and what is sent.
abbrev pub Outcome : Type 0
Outcome = State × ℕ × List Effect

-- `if node.CaptureTimer != nil { node.CaptureTimer.Stop() }`
abbrev pub stop_held : ℕ → Option ℕ → List Effect
stop_held node_id none = []
stop_held node_id (some team) = stop_timer node_id ∷ []

unfoldable pub start_ab_node_capture_timer : State → ℕ → ℕ → Node → Node × List Effect
start_ab_node_capture_timer ab node_id team node =
    let default = ab_banner_capture_time_default in
    let duration = if ab.capture_duration == 0 then default else ab.capture_duration in
    (
      record node { capture_timer = some team },
      stop_held node_id node.capture_timer ++ start_timer node_id duration team ∷ [],
    )

unfoldable pub update_ab_node_banner : State → ℕ → Node → ℕ → Node × ℕ × List Effect
update_ab_node_banner ab node_id node counter =
    let new_entry = get_ab_banner_entry node_id node.state in
    let low = next_low_guid counter in
    let new_guid = game_object_guid low new_entry in
    let old = if node.banner_guid == 0 then [] else despawn_dynamic node.banner_guid ∷ [] in
    if leb ab_node_max node_id
    then (node, counter, [])
    else if new_entry == 0
    then (node, counter, [])
    else (
      record node { banner_guid = new_guid; banner_entry = new_entry },
      low,
      old ++ spawn_dynamic new_guid low new_entry ab.map_id node_id ∷ [],
    )

-- The rounds of the loop from a state on.
unfoldable pub icon_states : ℕ → ℕ → ℕ → List ℕ → List Effect
icon_states map_id state st [] = []
icon_states map_id state st (icon ∷ icons) =
    world_state map_id icon (if st == state then 1 else 0) ∷ icon_states map_id state (st + 1) icons

unfoldable pub update_ab_node_world_states : State → ℕ → Node → List Effect
unfolding icon_states
update_ab_node_world_states ab node_id node =
    if leb ab_node_max node_id
    then []
    else icon_states ab.map_id node.state 0 (get_or ab_node_world_states node_id [])

-- updateABNodeBanner, updateABNodeWorldStates and an announcement, which follow one another wherever
-- a node's state has been set.
unfoldable pub show_node : Message → ℕ → State → Node → ℕ → Outcome
unfolding update_ab_node_banner update_ab_node_world_states
show_node text node_id ab node counter =
    let (shown, c, e) = update_ab_node_banner ab node_id node counter in
    (
      record ab { nodes = set ab.nodes node_id shown },
      c,
      e ++ (update_ab_node_world_states ab node_id shown ++ message ab.map_id text ∷ []),
    )

abbrev pub after : List Effect → Outcome → Outcome
after before (ab, c, e) = (ab, c, before ++ e)

-- An assault starts the timer first.
unfoldable pub assault : Session → ℕ → ℕ → State → Node → ℕ → Outcome
unfolding start_ab_node_capture_timer show_node
assault sess team node_id ab node counter =
    let (timed, e) = start_ab_node_capture_timer ab node_id team node in
    after e (show_node (has_assaulted sess.name node_id team) node_id ab timed counter)

-- `if ab.AllianceBasesCount > 0 { … }`, and the same for the Horde.
unfoldable pub lose_alliance_base : State → State × List Effect
lose_alliance_base ab =
    let count = ab.alliance_bases_count - 1 in
    if ltb 0 ab.alliance_bases_count
    then (
      record ab { alliance_bases_count = count; alliance_accum_ms = 0 },
      world_state ab.map_id world_state_bases_alliance count ∷ [],
    )
    else (ab, [])

unfoldable pub lose_horde_base : State → State × List Effect
lose_horde_base ab =
    let count = ab.horde_bases_count - 1 in
    if ltb 0 ab.horde_bases_count
    then (
      record ab { horde_bases_count = count; horde_accum_ms = 0 },
      world_state ab.map_id world_state_bases_horde count ∷ [],
    )
    else (ab, [])

unfoldable pub gain_alliance_base : State → State × List Effect
gain_alliance_base ab =
    let count = (ab.alliance_bases_count + 1) % 2 ^ 32 in
    (
      record ab { alliance_bases_count = count; alliance_accum_ms = 0 },
      world_state ab.map_id world_state_bases_alliance count ∷ [],
    )

unfoldable pub gain_horde_base : State → State × List Effect
gain_horde_base ab =
    let count = (ab.horde_bases_count + 1) % 2 ^ 32 in
    (
      record ab { horde_bases_count = count; horde_accum_ms = 0 },
      world_state ab.map_id world_state_bases_horde count ∷ [],
    )

-- The node as it is, for a switch that does nothing.
abbrev pub untouched : ℕ → State → Node → ℕ → Outcome
untouched node_id ab node counter = (record ab { nodes = set ab.nodes node_id node }, counter, [])

-- The five cases of the switch in handleABBannerUse.
unfoldable pub use_neutral : Session → ℕ → State → Node → ℕ → Outcome
unfolding assault
use_neutral sess node_id ab node counter =
    let team = team_for_race sess.race in
    let state = if team == 0 then contested_alliance else contested_horde in
    assault sess team node_id ab (record node { state = state; prev_state = neutral }) counter

unfoldable pub use_controlled_alliance : Session → ℕ → State → Node → ℕ → Outcome
unfolding assault lose_alliance_base
use_controlled_alliance sess node_id ab node counter =
    let (ab1, e) = lose_alliance_base ab in
    let lost = record node { state = contested_horde; prev_state = controlled_alliance } in
    if team_for_race sess.race == 1
    then after e (assault sess 1 node_id ab1 lost counter)
    else untouched node_id ab node counter

unfoldable pub use_controlled_horde : Session → ℕ → State → Node → ℕ → Outcome
unfolding assault lose_horde_base
use_controlled_horde sess node_id ab node counter =
    let (ab1, e) = lose_horde_base ab in
    let lost = record node { state = contested_alliance; prev_state = controlled_horde } in
    if team_for_race sess.race == 0
    then after e (assault sess 0 node_id ab1 lost counter)
    else untouched node_id ab node counter

unfoldable pub use_contested_horde : Session → ℕ → State → Node → ℕ → Outcome
unfolding assault show_node gain_alliance_base
use_contested_horde sess node_id ab node counter =
    let stopped = stop_held node_id node.capture_timer in
    let (ab1, e) = gain_alliance_base ab in
    let kept = record node { state = controlled_alliance; capture_timer = none } in
    let again = record node { state = contested_alliance; capture_timer = none } in
    let text = has_defended sess.name node_id 0 in
    if team_for_race sess.race == 0
    then (if node.prev_state == controlled_alliance
        then after (stopped ++ e) (show_node text node_id ab1 kept counter)
        else after stopped (assault sess 0 node_id ab again counter))
    else untouched node_id ab node counter

unfoldable pub use_contested_alliance : Session → ℕ → State → Node → ℕ → Outcome
unfolding assault show_node gain_horde_base
use_contested_alliance sess node_id ab node counter =
    let stopped = stop_held node_id node.capture_timer in
    let (ab1, e) = gain_horde_base ab in
    let kept = record node { state = controlled_horde; capture_timer = none } in
    let again = record node { state = contested_horde; capture_timer = none } in
    let text = has_defended sess.name node_id 1 in
    if team_for_race sess.race == 1
    then (if node.prev_state == controlled_horde
        then after (stopped ++ e) (show_node text node_id ab1 kept counter)
        else after stopped (assault sess 1 node_id ab again counter))
    else untouched node_id ab node counter

-- The switch, on a node that has just been marked with the player.
unfoldable pub use_node : Session → ℕ → State → Node → ℕ → Outcome
unfolding use_neutral use_controlled_alliance use_controlled_horde use_contested_horde
    use_contested_alliance
use_node sess node_id ab node counter =
    if node.state == neutral
    then use_neutral sess node_id ab node counter
    else if node.state == controlled_alliance
    then use_controlled_alliance sess node_id ab node counter
    else if node.state == controlled_horde
    then use_controlled_horde sess node_id ab node counter
    else if node.state == contested_horde
    then use_contested_horde sess node_id ab node counter
    else if node.state == contested_alliance
    then use_contested_alliance sess node_id ab node counter
    else untouched node_id ab node counter

-- The handler from the node on.
unfoldable pub use_banner_of : Session → ℕ → State → ℕ → Outcome
unfolding use_node
use_banner_of sess node_id ab counter =
    let node = record (node_at ab.nodes node_id) { assaulted_by = sess.guid } in
    elim ab.winner [
      | some w ↦ (ab, counter, [])
      | none ↦
          if sess.too_far node_id
          then untouched node_id ab node counter
          else use_node sess node_id ab node counter
    ]

-- `none` is the result false: the object is no banner, and nothing changes.
unfoldable pub handle_ab_banner_use : Session → ℕ → State × ℕ → Option Outcome
unfolding get_ab_node_id_from_banner_entry use_banner_of
handle_ab_banner_use sess entry (ab, counter) = elim (get_ab_node_id_from_banner_entry entry) [
  | none ↦ none
  | some node_id ↦
      if leb ab_node_max node_id then none else some (use_banner_of sess node_id ab counter)
]

unfoldable pub capture : ℕ → ℕ → State → Node → ℕ → Outcome
unfolding show_node gain_alliance_base gain_horde_base
capture node_id team ab node counter =
    let (ab0, e0) = gain_alliance_base ab in
    let (ab1, e1) = gain_horde_base ab in
    let alliance = record node { state = controlled_alliance; prev_state = controlled_alliance } in
    let horde = record node { state = controlled_horde; prev_state = controlled_horde } in
    let credit = credit_objective node.assaulted_by node_id in
    let text = has_taken team node_id in
    if team == 0 && node.state == contested_alliance
    then after (credit ∷ e0) (show_node text node_id ab0 alliance counter)
    else if team == 1 && node.state == contested_horde
    then after (credit ∷ e1) (show_node text node_id ab1 horde counter)
    else untouched node_id ab node counter

-- What a timer runs.
unfoldable pub complete_ab_node_capture : ℕ → ℕ → State × ℕ → Outcome
unfolding capture
complete_ab_node_capture node_id team (ab, counter) =
    let node = record (node_at ab.nodes node_id) { capture_timer = none } in
    elim ab.winner [
      | some w ↦ (ab, counter, [])
      | none ↦
          if leb ab_node_max node_id
          then (ab, counter, [])
          else capture node_id team ab node counter
    ]
