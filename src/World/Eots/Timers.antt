-- ===== src/World/Eots/Timers.antt =====
-- engine/world/battleground_eots.go: which timer of the flag's return runs, as told by the effects of
-- the handlers: FlagReturnTimer itself stays set after its timer has run.
use moreno_go_moreno_core.Common.{
  ℕ, zero, suc, ◌+◌, ◌-◌, ◌%◌, ◌^◌, if-cases, ◌≡◌, refl, ◌∙◌, arith, Bool, true, false, List, [],
  ◌∷◌, ◌++◌, ◌==◌, ◌&&◌, leb, ltb, Option, none, some, is_none, Bool-cases, inl, inr, get_or,
}
use moreno_go_moreno_core.World.Clock.{at_least, later_ms}
use moreno_go_moreno_core.World.Eots.{
  Tower, State, Effect, stop_return, start_return, controlled_alliance, controlled_horde, new_state,
  score_alliance, score_horde, eots_tower_world_states, eots_tower_tick_points,
}
use moreno_go_moreno_core.World.Eots.Towers.{
  update_eots_tower_banner, tower_icon_states, update_eots_tower_world_states, take_for_alliance,
  take_for_horde,
}
use moreno_go_moreno_core.World.Eots.Resources.{
  alliance_loop, horde_loop, tick_alliance, tick_horde, tick_eots_resources,
}
use moreno_go_moreno_core.World.Eots.Events.{Event, returns, step, Named}
use moreno_go_moreno_core.World.Eots.Matches.{Reach, start, next}

-- Whether a return timer runs, after an effect and after several.
abbrev pub after_effect : Effect → Bool → Bool
after_effect stop_return running = false
after_effect (start_return ms) running = true
after_effect _ running = running

abbrev pub after_effects : List Effect → Bool → Bool
after_effects [] running = running
after_effects (e ∷ es) running = after_effects es (after_effect e running)

-- The timer that has run is over; what the event sends comes after.
abbrev pub before_event : Event → Bool → Bool
before_event returns running = false
before_event _ running = running

-- The states that a battleground reaches, and whether a return timer runs then.
pub data Run : State → ℕ → Bool → Type 0 where
  begins : (map_id counter : ℕ) → Run (new_state map_id) counter false
  goes_on :
      {s : State} {counter : ℕ} {running : Bool} (e : Event)
      → Run s counter running
      → Named e
      → Run
          (step e s counter).0
          (step e s counter).1
          (after_effects (step e s counter).2 (before_event e running))

pub Run-Reach : {s : State} {counter : ℕ} {running : Bool} → Run s counter running → Reach s counter
Run-Reach (begins map_id counter) = start map_id counter
Run-Reach (goes_on e r g) = next e (Run-Reach r) g

pub after_effects-append :
    (xs ys : List Effect) (r : Bool)
    → after_effects (xs ++ ys) r ≡ after_effects ys (after_effects xs r)
after_effects-append [] ys r = refl
after_effects-append (x ∷ xs) ys r = after_effects-append xs ys (after_effect x r)

-- Effects that neither start nor stop a return timer.
abbrev pub Untimed : List Effect → Type 0
Untimed es = (r : Bool) → after_effects es r ≡ r

pub Untimed-append : (xs ys : List Effect) → Untimed xs → Untimed ys → Untimed (xs ++ ys)
Untimed-append xs ys f g r = after_effects-append xs ys r ∙ g (after_effects xs r) ∙ f r

-- The flag stays where it is, and its timer as it is.
abbrev pub Keeps : State → State × List Effect → Type 0
Keeps s o = (o.0.flag_state ≡ s.flag_state) × Untimed o.1

then_Keeps :
    (s : State) (o p : State × List Effect) → Keeps s o → Keeps o.0 p → Keeps s (p.0, o.1 ++ p.1)
then_Keeps s o p f g = (g.0 ∙ f.0, Untimed-append o.1 p.1 f.1 g.1)

pub score_alliance-Keeps : (points : ℕ) (s : State) → Keeps s (score_alliance points s)
unfolding score_alliance
score_alliance-Keeps points s =
    elim (Bool-cases (leb s.max_resources ((s.alliance_resources + points) % 2 ^ 32))) [
      | inl e ↦ rw e (refl, λ r. refl)
      | inr e ↦ rw e (refl, λ r. refl)
    ]

pub score_horde-Keeps : (points : ℕ) (s : State) → Keeps s (score_horde points s)
unfolding score_horde
score_horde-Keeps points s =
    elim (Bool-cases (leb s.max_resources ((s.horde_resources + points) % 2 ^ 32))) [
      | inl e ↦ rw e (refl, λ r. refl)
      | inr e ↦ rw e (refl, λ r. refl)
    ]

pub take_for_alliance-Keeps : (s : State) (t : Tower) → Keeps s (take_for_alliance s t)
unfolding take_for_alliance
take_for_alliance-Keeps s t =
    elim (Bool-cases ((t.state == controlled_horde) && ltb 0 s.horde_towers_count)) [
      | inl e ↦ rw e (refl, λ r. refl)
      | inr e ↦ rw e (refl, λ r. refl)
    ]

pub take_for_horde-Keeps : (s : State) (t : Tower) → Keeps s (take_for_horde s t)
unfolding take_for_horde
take_for_horde-Keeps s t =
    elim (Bool-cases ((t.state == controlled_alliance) && ltb 0 s.alliance_towers_count)) [
      | inl e ↦ rw e (refl, λ r. refl)
      | inr e ↦ rw e (refl, λ r. refl)
    ]

alliance_loop-Keeps : (fuel rate : ℕ) (s : State) → Keeps s (alliance_loop fuel rate s)
unfolding alliance_loop
alliance_loop-Keeps zero rate s = (refl, λ r. refl)
alliance_loop-Keeps (suc fuel) rate s =
    let taken = record s { alliance_accum_ms = s.alliance_accum_ms - 1000 } in
    if-cases (Keeps s) (at_least 1000 s.alliance_accum_ms && is_none s.winner) _ _
      (λ e.
        then_Keeps s (score_alliance rate taken)
          (alliance_loop fuel rate (score_alliance rate taken).0) (score_alliance-Keeps rate taken)
          (alliance_loop-Keeps fuel rate (score_alliance rate taken).0))
      (λ e. (refl, λ r. refl))

horde_loop-Keeps : (fuel rate : ℕ) (s : State) → Keeps s (horde_loop fuel rate s)
unfolding horde_loop
horde_loop-Keeps zero rate s = (refl, λ r. refl)
horde_loop-Keeps (suc fuel) rate s =
    let taken = record s { horde_accum_ms = s.horde_accum_ms - 1000 } in
    if-cases (Keeps s) (at_least 1000 s.horde_accum_ms && is_none s.winner) _ _
      (λ e.
        then_Keeps s (score_horde rate taken) (horde_loop fuel rate (score_horde rate taken).0)
          (score_horde-Keeps rate taken) (horde_loop-Keeps fuel rate (score_horde rate taken).0))
      (λ e. (refl, λ r. refl))

tick_alliance-Keeps : (elapsed : ℕ) (s : State) → Keeps s (tick_alliance elapsed s)
unfolding tick_alliance
tick_alliance-Keeps elapsed s =
    let count = s.alliance_towers_count in
    if-cases (Keeps s) (ltb 0 count && leb count 4) _ _
      (λ e.
        alliance_loop-Keeps (suc (later_ms s.alliance_accum_ms elapsed))
          (get_or eots_tower_tick_points count 0)
          (record s { alliance_accum_ms = later_ms s.alliance_accum_ms elapsed }))
      (λ e. (refl, λ r. refl))

tick_horde-Keeps : (elapsed : ℕ) (s : State) → Keeps s (tick_horde elapsed s)
unfolding tick_horde
tick_horde-Keeps elapsed s =
    let count = s.horde_towers_count in
    if-cases (Keeps s) (ltb 0 count && leb count 4) _ _
      (λ e.
        horde_loop-Keeps (suc (later_ms s.horde_accum_ms elapsed))
          (get_or eots_tower_tick_points count 0)
          (record s { horde_accum_ms = later_ms s.horde_accum_ms elapsed }))
      (λ e. (refl, λ r. refl))

on_winner :
    (s : State) (winner : Option ℕ) (o : State × List Effect)
    → Keeps s o
    → Keeps s (elim winner as (λ _. State × List Effect) [ some w ↦ (s, []) | none ↦ o ])
on_winner s none o k = k
on_winner s (some w) o k = (refl, λ r. refl)

pub tick-Keeps : (elapsed : ℕ) (s : State) → Keeps s (tick_eots_resources elapsed s)
unfolding tick_eots_resources
tick-Keeps elapsed s =
    let a = tick_alliance elapsed s in
    let h = tick_horde elapsed a.0 in
    on_winner s s.winner (h.0, a.1 ++ h.1)
      (then_Keeps s a h (tick_alliance-Keeps elapsed s) (tick_horde-Keeps elapsed a.0))

icons-Untimed :
    (map_id state st : ℕ) (icons : List ℕ) → Untimed (tower_icon_states map_id state st icons)
unfolding tower_icon_states
icons-Untimed map_id state st [] r = refl
icons-Untimed map_id state st (icon ∷ icons) r = icons-Untimed map_id state (st + 1) icons r

pub banner-Untimed :
    (s : State) (i : ℕ) (t : Tower) (counter : ℕ)
    → Untimed (update_eots_tower_banner s i t counter).2
unfolding update_eots_tower_banner
banner-Untimed s i t counter r = ground arith

pub world_states-Untimed :
    (s : State) (i : ℕ) (t : Tower) → Untimed (update_eots_tower_world_states s i t)
unfolding update_eots_tower_world_states
world_states-Untimed s i t r = elim (Bool-cases (leb 4 i)) [
  | inl e ↦ rw e refl
  | inr e ↦ rw e (icons-Untimed s.map_id t.state 0 (get_or eots_tower_world_states i []) r)
]
