-- ===== src/World/Ab/Resources.antt =====
-- engine/world/battleground_ab.go, TickResources: the resources that the bases of a side yield. A time
-- is the word of an int64.
use moreno_go_moreno_core.Common.{
  ℕ, zero, suc, ◌+◌, ◌-◌, ◌%◌, ◌^◌, List, [], ◌∷◌, ◌++◌, ◌&&◌, ltb, leb, if◌then◌else◌, Option,
  none, some, get_or, is_none,
}
use moreno_go_moreno_core.World.Clock.{later_ms, at_least}
use moreno_go_moreno_core.World.Ab.{
  State, Effect, world_state, message, credit_win, wins, ab_tick_intervals, ab_tick_points,
  world_state_alliance_resources, world_state_horde_resources,
}

-- One side's time and resources, the winner, and what has been sent.
pub record Tally : Type 0 where
  pub accum_ms : ℕ
  pub resources : ℕ
  pub winner : Option ℕ
  pub effects : List Effect

abbrev pub resources_state : ℕ → ℕ
resources_state zero = world_state_alliance_resources
resources_state (suc team) = world_state_horde_resources

-- The body of a loop of TickResources, with announceABVictory.
unfoldable pub award : ℕ → ℕ → ℕ → ℕ → ℕ → Tally → Tally
award map_id team interval points most t =
    let sum = (t.resources + points) % 2 ^ 32 in
    let shown = λ (n : ℕ). world_state map_id (resources_state team) n ∷ [] in
    let won = message map_id (wins team) ∷ credit_win map_id team ∷ [] in
    if leb most sum
    then record {
      accum_ms = t.accum_ms - interval;
      resources = most;
      winner = some team;
      effects = t.effects ++ (won ++ shown most);
    }
    else record {
      accum_ms = t.accum_ms - interval;
      resources = sum;
      winner = t.winner;
      effects = t.effects ++ shown sum;
    }

-- The loop, with fuel: each round takes an interval from the time.
unfoldable pub award_loop : ℕ → ℕ → ℕ → ℕ → ℕ → ℕ → Tally → Tally
unfolding award
award_loop zero map_id team interval points most t = t
award_loop (suc fuel) map_id team interval points most t =
    let rest =
      award_loop fuel map_id team interval points most (award map_id team interval points most t) in
    if at_least interval t.accum_ms && is_none t.winner then rest else t

-- One of the two parts of TickResources. An interval is at least 1, so that a round for each
-- millisecond, and one more, are enough.
unfoldable pub accumulate : ℕ → ℕ → ℕ → ℕ → ℕ → Tally → Tally
unfolding award_loop
accumulate map_id team bases most elapsed t =
    let interval = get_or ab_tick_intervals bases 0 in
    let points = get_or ab_tick_points bases 0 in
    let t1 = record t { accum_ms = later_ms t.accum_ms elapsed } in
    let done = award_loop (suc t1.accum_ms) map_id team interval points most t1 in
    if ltb 0 bases && leb bases 5 then (if ltb 0 interval then done else t) else t

unfoldable pub tick_resources : ℕ → State → State × List Effect
unfolding accumulate
tick_resources elapsed ab =
    let alliance = accumulate ab.map_id 0 ab.alliance_bases_count ab.max_resources elapsed (record {
      accum_ms = ab.alliance_accum_ms;
      resources = ab.alliance_resources;
      winner = none;
      effects = [];
    }) in
    let horde = accumulate ab.map_id 1 ab.horde_bases_count ab.max_resources elapsed (record {
      accum_ms = ab.horde_accum_ms;
      resources = ab.horde_resources;
      winner = alliance.winner;
      effects = alliance.effects;
    }) in
    elim ab.winner [
      | some w ↦ (ab, [])
      | none ↦ (
        record ab {
          alliance_accum_ms = alliance.accum_ms;
          alliance_resources = alliance.resources;
          horde_accum_ms = horde.accum_ms;
          horde_resources = horde.resources;
          winner = horde.winner;
        },
        horde.effects,
      )
    ]
