-- ===== src/World/Eots/Resources.antt =====
-- engine/world/battleground_eots.go, TickEOTSResources: the resources that the towers of a side
-- yield. A time is the word of an int64.
use moreno_go_moreno_core.Common.{
  ℕ, zero, suc, ◌-◌, List, [], ◌++◌, ◌&&◌, ltb, leb, if◌then◌else◌, none, some, get_or, is_none,
}
use moreno_go_moreno_core.World.Clock.{later_ms, at_least}
use moreno_go_moreno_core.World.Eots.{
  State, Effect, eots_tower_tick_points, score_alliance, score_horde,
}

-- The loop of a side, with fuel: each round takes 1000 milliseconds from the time.
unfoldable pub alliance_loop : ℕ → ℕ → State → State × List Effect
unfolding score_alliance
alliance_loop zero rate eots = (eots, [])
alliance_loop (suc fuel) rate eots =
    let taken = record eots { alliance_accum_ms = eots.alliance_accum_ms - 1000 } in
    let (s1, e1) = score_alliance rate taken in
    let (s2, e2) = alliance_loop fuel rate s1 in
    if at_least 1000 eots.alliance_accum_ms && is_none eots.winner
    then (s2, e1 ++ e2)
    else (eots, [])

unfoldable pub horde_loop : ℕ → ℕ → State → State × List Effect
unfolding score_horde
horde_loop zero rate eots = (eots, [])
horde_loop (suc fuel) rate eots =
    let taken = record eots { horde_accum_ms = eots.horde_accum_ms - 1000 } in
    let (s1, e1) = score_horde rate taken in
    let (s2, e2) = horde_loop fuel rate s1 in
    if at_least 1000 eots.horde_accum_ms && is_none eots.winner then (s2, e1 ++ e2) else (eots, [])

-- A round for each millisecond, and one more, are enough.
unfoldable pub tick_alliance : ℕ → State → State × List Effect
unfolding alliance_loop
tick_alliance elapsed eots =
    let time = later_ms eots.alliance_accum_ms elapsed in
    let count = eots.alliance_towers_count in
    let rate = get_or eots_tower_tick_points count 0 in
    let looped = alliance_loop (suc time) rate (record eots { alliance_accum_ms = time }) in
    if ltb 0 count && leb count 4 then looped else (eots, [])

unfoldable pub tick_horde : ℕ → State → State × List Effect
unfolding horde_loop
tick_horde elapsed eots =
    let time = later_ms eots.horde_accum_ms elapsed in
    let count = eots.horde_towers_count in
    let rate = get_or eots_tower_tick_points count 0 in
    let looped = horde_loop (suc time) rate (record eots { horde_accum_ms = time }) in
    if ltb 0 count && leb count 4 then looped else (eots, [])

unfoldable pub tick_eots_resources : ℕ → State → State × List Effect
unfolding tick_alliance tick_horde
tick_eots_resources elapsed eots =
    let (s1, e1) = tick_alliance elapsed eots in
    let (s2, e2) = tick_horde elapsed s1 in
    elim eots.winner [ some w ↦ (eots, []) | none ↦ (s2, e1 ++ e2) ]
