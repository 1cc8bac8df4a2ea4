-- ===== src/Tests/World.antt =====
-- engine/world: a battleground, diminishing returns and shields.
use Prim.Native.Nat.{min}
use moreno_go_moreno_core.Common.{
  ℕ, some, ◌+◌, ◌≤◌, ◌≡◌, ◌≢◌, refl, arith, true, false, [], ◌∷◌, ◌==◌, if◌then◌else◌, none,
  replicate, set,
}
use moreno_go_moreno_core.World.Wsg.{
  State, Session, alliance, u32_add1, team_for_race, new_state, on_base, on_player,
  alliance_flag_base_entry, horde_flag_base_entry, alliance_flag_dropped_entry,
}
use moreno_go_moreno_core.World.Wsg.FlagUse.{flag_use, use_alliance_base, use_horde_base}
use moreno_go_moreno_core.World.Wsg.Events.{uses, step}
use moreno_go_moreno_core.World.Wsg.Invariant.{
  Inv, IsPlayer, Reach, start, next, Reach-Inv, returns_carried_flag,
}
use moreno_go_moreno_core.World.Wsg.Captures.{CapturesHordeFlag, alliance_score-needs_capture}
use moreno_go_moreno_core.World.Absorption.{
  Absorbing, Aura, apply_absorption_shields, apply_creature_absorption_shields, use_all, use_shield,
  use_school, use_mana, take_amount, sort, insert, shields, goes_before, absorption_priority,
}
use moreno_go_moreno_core.World.Absorption.Amounts.{Absorbs, shields-Absorbs}
use moreno_go_moreno_core.World.Diminishing.{
  DiminishingReturn, no_return, Returns, get_diminishing, duration_limit,
}
use moreno_go_moreno_core.World.Diminishing.Groups.{
  group_of, is_group_duration_limited, diminishing_max, diminishing_disorient, switch, spell_cases,
  mechanic_cases,
}
use moreno_go_moreno_core.World.Diminishing.Levels.{level, entry, hits, hits-level}
use moreno_go_moreno_core.World.Diminishing.Durations.{outcome, duration_limited}

-- A human and an orc.
abbrev human : Session
human = record { guid = 10; race = 1; map = 489; name = 65 ∷ [] }

abbrev orc : Session
orc = record { guid = 20; race = 2; map = 489; name = 66 ∷ [] }

-- The players with a number of 20 or more are of the Horde.
abbrev team : ℕ → ℕ
team guid = if guid == 20 then 1 else 0

abbrev before : State
before = new_state 489

-- The human takes the Horde's flag.
abbrev taken : State
taken = (flag_use human 900 horde_flag_base_entry before).0

human_plays : IsPlayer team human
unfolding team_for_race
human_plays = (omega arith, refl)

orc_plays : IsPlayer team orc
unfolding team_for_race
orc_plays = (omega arith, refl)

taken_reached : Reach team (taken, 5)
unfolding step
taken_reached =
    next (uses human 900 horde_flag_base_entry) (start 489 5)
      (human_plays, (λ e. absurd (omega (arith, e))), (λ e. absurd (omega (arith, e))))

Reach-Inv_example : Inv team taken
Reach-Inv_example = Reach-Inv team taken_reached

-- The human brings it to the Alliance's own flag.
scores :
    (step (uses human 901 alliance_flag_base_entry) (taken, 5)).0.alliance_score
    ≢ taken.alliance_score
unfolding step flag_use use_alliance_base use_horde_base new_state team_for_race
scores e = absurd (omega (arith, e))

captures_example :
    (sess : Session) × (guid : ℕ) × (entry : ℕ) × (uses human 901 alliance_flag_base_entry
      ≡ uses sess guid entry)
    × CapturesHordeFlag sess entry taken
        (step (uses human 901 alliance_flag_base_entry) (taken, 5)).0
captures_example =
    alliance_score-needs_capture (uses human 901 alliance_flag_base_entry) taken 5 scores

-- The orc takes the Alliance's flag, and the human sends the number of that flag on the ground.
abbrev stolen : State
stolen = (flag_use orc 901 alliance_flag_base_entry before).0

stolen_state :
    (stolen.alliance_flag_state ≡ on_player)
    × (stolen.alliance_carrier_guid ≡ 20)
    × (stolen.horde_flag_state ≡ on_base)
unfolding flag_use use_alliance_base new_state team_for_race
stolen_state = (refl, refl, refl)

human_team : team_for_race human.race ≡ 0
unfolding team_for_race
human_team = refl

orc_team : team_for_race orc.race ≡ 1
unfolding team_for_race
orc_team = refl

-- The Horde scores although its carrier's flag was sent back.
returns_carried_flag_example :
    let w1 = (flag_use human 902 alliance_flag_dropped_entry stolen).0 in
    let w2 = (flag_use orc 903 horde_flag_base_entry w1).0 in
    (w1.alliance_flag_state ≡ on_base)
    × (w1.alliance_carrier_guid ≡ 20)
    × (w2.horde_score ≡ u32_add1 stolen.horde_score)
returns_carried_flag_example =
    returns_carried_flag alliance human orc 902 903 stolen human_team orc_team stolen_state.0
      stolen_state.1 stolen_state.2

-- Polymorph, which is in effect once.
abbrev sheep : DiminishingReturn
sheep = record { hit_count = 1; stack = 1; hit_time = none }

abbrev returns : Returns
returns = set (replicate diminishing_max no_return) diminishing_disorient sheep

hits-level_example :
    (entry (hits (1 ∷ 2 ∷ 3 ∷ []) diminishing_disorient returns) diminishing_disorient).hit_count
    ≡ min 3 (1 + 3)
hits-level_example =
    hits-level (1 ∷ 2 ∷ 3 ∷ []) diminishing_disorient returns refl (omega arith) (omega arith)
      (omega arith)

level_run : level 100 diminishing_disorient returns ≡ 1
unfolding get_diminishing
level_run = refl

sheep_group : group_of 118 17 ≡ diminishing_disorient
unfolding group_of switch spell_cases mechanic_cases
sheep_group = refl

duration_limited_example : (outcome 0 100 118 17 50000 true returns).1 ≤ duration_limit
unfolding group_of switch spell_cases mechanic_cases is_group_duration_limited
duration_limited_example = duration_limited 0 100 118 17 50000 true returns refl refl

-- A barrier against all schools and a mana shield, against a hit of 100 of frost.
abbrev barrier : Aura
barrier = record { aura_type = 69; school_mask = 0; amount = 40; spell_id = 11426; stopped = false }

abbrev mana_shield : Aura
mana_shield = record {
  aura_type = 72;
  school_mask = 0;
  amount = 500;
  spell_id = 1463;
  stopped = false;
}

frost_run :
    let r = apply_absorption_shields (λ n. n) 100 16 (some 60) (mana_shield ∷ barrier ∷ []) in
    r.1 ≡ record { remaining = 20; absorbed = 80; mana = 0; exhausted = 11426 ∷ [] }
unfolding apply_absorption_shields use_all use_shield use_school use_mana take_amount sort insert
    shields goes_before absorption_priority
frost_run = refl

abbrev hit : Absorbing
hit = record { remaining = 100; absorbed = 0; mana = 60; exhausted = [] }

shields-Absorbs_example :
    Absorbs 100
      (mana_shield ∷ barrier ∷ [])
      (apply_absorption_shields (λ n. n) 100 16 (some 60) (mana_shield ∷ barrier ∷ []))
    × Absorbs 100
        (mana_shield ∷ barrier ∷ [])
        (apply_creature_absorption_shields 100 16 (mana_shield ∷ barrier ∷ []))
shields-Absorbs_example =
    shields-Absorbs (λ n. n) 100 16 60 (mana_shield ∷ barrier ∷ []) (λ n h. refl) (omega arith)
