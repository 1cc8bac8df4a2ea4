-- ===== src/World/Wsg/Invariant.antt =====
-- engine/world/battleground_wsg.go: what holds of the flags between two events.
use moreno_go_moreno_core.Common.{
  ℕ, ◌≡◌, ◌≢◌, ◌⊎◌, inl, inr, refl, arith, ◌==◌, ==→eq, ==_self, Bool-cases,
}
use moreno_go_moreno_core.World.Wsg.{
  State, Session, Side, alliance, horde, team_for_race, on_base, on_player, on_ground, new_state,
  u32_add1, alliance_flag_base_entry, horde_flag_base_entry, alliance_flag_dropped_entry,
  horde_flag_dropped_entry,
}
use moreno_go_moreno_core.World.Wsg.FlagUse.{
  flag_use, use_alliance_base, use_horde_base, use_alliance_dropped, use_horde_dropped,
}
use moreno_go_moreno_core.World.Wsg.Events.{
  Event, uses, dies, leaves, fires, step, player_death, player_leave, return_timer,
}

-- A flag is carried by a player of the other side, or lies on its base or on the ground with no
-- carrier. `team` says the side of each player.
abbrev pub FlagAt : (ℕ → ℕ) → ℕ → ℕ → ℕ → Type 0
FlagAt team other state carrier =
    ((state ≡ on_player) × (carrier ≢ 0) × (team carrier ≡ other))
    ⊎ ((carrier ≡ 0) × ((state ≡ on_base) ⊎ (state ≡ on_ground)))

pub record Inv (team : ℕ → ℕ) (w : State) : Type 0 where
  pub alliance_flag : FlagAt team 1 w.alliance_flag_state w.alliance_carrier_guid
  pub horde_flag : FlagAt team 0 w.horde_flag_state w.horde_carrier_guid

-- The session is of a player, of the side that `team` says.
abbrev pub IsPlayer : (ℕ → ℕ) → Session → Type 0
IsPlayer team sess = (sess.guid ≢ 0) × (team sess.guid ≡ team_for_race sess.race)

-- A flag on the ground is used only when there is one.
abbrev pub Honest : (ℕ → ℕ) → Event → State → Type 0
Honest team (uses sess guid entry) w =
    IsPlayer team sess
    × (entry ≡ alliance_flag_dropped_entry → w.alliance_flag_state ≡ on_ground)
    × (entry ≡ horde_flag_dropped_entry → w.horde_flag_state ≡ on_ground)
Honest team (dies sess) w = IsPlayer team sess
Honest team (leaves sess) w = IsPlayer team sess
Honest team (fires side) w = Unit

pub team-cases : (race : ℕ) → (team_for_race race ≡ 0) ⊎ (team_for_race race ≡ 1)
unfolding team_for_race
team-cases race = ground arith

module _ (team : ℕ → ℕ) (sess : Session) (w : State) (v : Inv team w) where
  alliance_base-Inv : (guid : ℕ) → IsPlayer team sess → Inv team (use_alliance_base sess guid w).0
  unfolding use_alliance_base
  alliance_base-Inv guid p = ground (arith, v.alliance_flag, v.horde_flag)

  horde_base-Inv : (guid : ℕ) → IsPlayer team sess → Inv team (use_horde_base sess guid w).0
  unfolding use_horde_base
  horde_base-Inv guid p = ground (arith, v.alliance_flag, v.horde_flag)

  alliance_dropped-Inv :
      (guid : ℕ)
      → IsPlayer team sess
      → w.alliance_flag_state ≡ on_ground
      → Inv team (use_alliance_dropped sess guid w).0
  unfolding use_alliance_dropped
  alliance_dropped-Inv guid p g =
      ground (arith, v.alliance_flag, v.horde_flag, team-cases sess.race)

  horde_dropped-Inv :
      (guid : ℕ)
      → IsPlayer team sess
      → w.horde_flag_state ≡ on_ground
      → Inv team (use_horde_dropped sess guid w).0
  unfolding use_horde_dropped
  horde_dropped-Inv guid p g = ground (arith, v.alliance_flag, v.horde_flag, team-cases sess.race)

  flag_use-Inv :
      (guid entry : ℕ)
      → Honest team (uses sess guid entry) w
      → Inv team (flag_use sess guid entry w).0
  unfolding flag_use
  flag_use-Inv guid entry (p, a, h) = elim (Bool-cases (entry == alliance_flag_base_entry)) [
    | inl e ↦ rw e (alliance_base-Inv guid p)
    | inr e ↦ rw e (elim (Bool-cases (entry == horde_flag_base_entry)) [
      | inl e1 ↦ rw e1 (horde_base-Inv guid p)
      | inr e1 ↦ rw e1 (elim (Bool-cases (entry == alliance_flag_dropped_entry)) [
        | inl e2 ↦
            rw e2 (alliance_dropped-Inv guid p (a (==→eq entry alliance_flag_dropped_entry e2)))
        | inr e2 ↦ rw e2 (elim (Bool-cases (entry == horde_flag_dropped_entry)) [
          | inl e3 ↦ rw e3 (horde_dropped-Inv guid p (h (==→eq entry horde_flag_dropped_entry e3)))
          | inr e3 ↦ rw e3 v
        ])
      ])
    ])
  ]

  death-Inv : (c : ℕ) → IsPlayer team sess → Inv team (player_death sess (w, c)).0
  unfolding player_death
  death-Inv c p = ground (arith, v.alliance_flag, v.horde_flag)

  leave-Inv : IsPlayer team sess → Inv team (player_leave sess w).0
  unfolding player_leave
  leave-Inv p = ground (arith, v.alliance_flag, v.horde_flag)

timer-Inv :
    (team : ℕ → ℕ) (side : Side) (map : ℕ) (w : State)
    → Inv team w
    → Inv team (return_timer side map w).0
unfolding return_timer
timer-Inv team alliance map w v = ground (arith, v.alliance_flag, v.horde_flag)
timer-Inv team horde map w v = ground (arith, v.alliance_flag, v.horde_flag)

-- Each event keeps every flag either with one carrier, who is on the other side, or on its base or
-- on the ground with no carrier, where a player's side does not change and a player uses a flag on
-- the ground only when that flag lies there.
pub step-Inv :
    (team : ℕ → ℕ) (e : Event) (w : State) (c : ℕ)
    → Inv team w
    → Honest team e w
    → Inv team (step e (w, c)).0
unfolding step
step-Inv team (uses sess guid entry) w c v h = flag_use-Inv team sess w v guid entry h
step-Inv team (dies sess) w c v h = death-Inv team sess w v c h
step-Inv team (leaves sess) w c v h = leave-Inv team sess w v h
step-Inv team (fires side) w c v h = timer-Inv team side w.map_id w v

pub new_state-Inv : (team : ℕ → ℕ) (map_id : ℕ) → Inv team (new_state map_id)
unfolding new_state
new_state-Inv team map_id = ground arith

-- The states that a battleground reaches from its start by such events.
pub data Reach (team : ℕ → ℕ) : State × ℕ → Type 0 where
  start : (map_id c : ℕ) → Reach team (new_state map_id, c)
  next :
      {w : State} {c : ℕ} (e : Event)
      → Reach team (w, c)
      → Honest team e w
      → Reach team ((step e (w, c)).0, (step e (w, c)).1)

-- In every state that a battleground reaches, every flag is either with one carrier, who is on the
-- other side, or on its base or on the ground with no carrier, where a player's side does not change
-- and a player uses a flag on the ground only when that flag lies there.
pub Reach-Inv : (team : ℕ → ℕ) {s : State × ℕ} → Reach team s → Inv team s.0
Reach-Inv team (start map_id c) = new_state-Inv team map_id
Reach-Inv team (next {w} {c} e r h) = step-Inv team e w c (Reach-Inv team r) h

-- What is the same for both sides: `flag_state`, `carrier_of` and `score_of` read the state, the rest
-- are the numbers of a side and of its flag.
abbrev pub other : Side → Side
other alliance = horde
other horde = alliance

abbrev pub team_of : Side → ℕ
team_of alliance = 0
team_of horde = 1

abbrev pub flag_state : Side → State → ℕ
flag_state alliance w = w.alliance_flag_state
flag_state horde w = w.horde_flag_state

abbrev pub carrier_of : Side → State → ℕ
carrier_of alliance w = w.alliance_carrier_guid
carrier_of horde w = w.horde_carrier_guid

abbrev pub score_of : Side → State → ℕ
score_of alliance w = w.alliance_score
score_of horde w = w.horde_score

abbrev pub base_entry : Side → ℕ
base_entry alliance = alliance_flag_base_entry
base_entry horde = horde_flag_base_entry

abbrev pub dropped_entry : Side → ℕ
dropped_entry alliance = alliance_flag_dropped_entry
dropped_entry horde = horde_flag_dropped_entry

-- Nothing in the code asks that a flag lies on the ground when it is used from there: where a
-- player of the flag's own side sends the number of that flag on the ground while a player of the
-- other side carries it, the flag counts as back on its base and still has its carrier. If the flag
-- of the carrier's side is on its base, the carrier can then still capture: the use of it gives the
-- carrier's side its point.
pub returns_carried_flag :
    (side : Side) (sess carrier : Session) (guid base : ℕ) (w : State)
    → team_for_race sess.race ≡ team_of side
    → team_for_race carrier.race ≡ team_of (other side)
    → flag_state side w ≡ on_player
    → carrier_of side w ≡ carrier.guid
    → flag_state (other side) w ≡ on_base
    → let w1 = (flag_use sess guid (dropped_entry side) w).0 in
      let w2 = (flag_use carrier base (base_entry (other side)) w1).0 in
      (flag_state side w1 ≡ on_base)
      × (carrier_of side w1 ≡ carrier.guid)
      × (score_of (other side) w2 ≡ u32_add1 (score_of (other side) w))
unfolding flag_use use_alliance_base use_horde_base use_alliance_dropped use_horde_dropped
returns_carried_flag alliance sess carrier guid base w t u p c b =
    rw (t, u, c, b, ==_self carrier.guid) (refl, refl, refl)
returns_carried_flag horde sess carrier guid base w t u p c b =
    rw (t, u, c, b, ==_self carrier.guid) (refl, refl, refl)
