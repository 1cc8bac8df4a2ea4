-- ===== src/World/Wsg/Captures.antt =====
-- engine/world/battleground_wsg.go: when a side scores.
use moreno_go_moreno_core.Common.{
  ℕ, ◌≡◌, ◌≢◌, inl, inr, refl, arith, false, ◌==◌, ==→eq, Bool-cases,
}
use moreno_go_moreno_core.World.Wsg.{
  State, Session, Side, alliance, horde, team_for_race, on_base, u32_add1, alliance_flag_base_entry,
}
use moreno_go_moreno_core.World.Wsg.FlagUse.{
  flag_use, use_alliance_base, use_horde_base, use_alliance_dropped, use_horde_dropped,
}
use moreno_go_moreno_core.World.Wsg.Events.{
  Event, uses, dies, leaves, fires, step, player_death, player_leave, return_timer,
}

-- An Alliance player who carries the Horde's flag uses the Alliance's flag on its base, and the
-- Horde's flag goes back.
abbrev pub CapturesHordeFlag : Session → ℕ → State → State → Type 0
CapturesHordeFlag sess entry w w' =
    (entry ≡ alliance_flag_base_entry)
    × (team_for_race sess.race ≡ 0)
    × (w.horde_carrier_guid ≡ sess.guid)
    × (w.alliance_flag_state ≡ on_base)
    × (w'.alliance_score ≡ u32_add1 w.alliance_score)
    × (w'.horde_score ≡ w.horde_score)
    × (w'.horde_carrier_guid ≡ 0)
    × (w'.horde_flag_state ≡ on_base)

module _ (sess : Session) (guid : ℕ) (w : State) where
  base_capture :
      (use_alliance_base sess guid w).0.alliance_score ≢ w.alliance_score
      → CapturesHordeFlag sess alliance_flag_base_entry w (use_alliance_base sess guid w).0
  unfolding use_alliance_base
  base_capture n = (
    refl,
    ground arith,
    ground arith,
    ground arith,
    ground arith,
    ground arith,
    ground arith,
    ground arith,
  )

  horde_base_score : (use_horde_base sess guid w).0.alliance_score ≡ w.alliance_score
  unfolding use_horde_base
  horde_base_score = ground arith

  alliance_dropped_score : (use_alliance_dropped sess guid w).0.alliance_score ≡ w.alliance_score
  unfolding use_alliance_dropped
  alliance_dropped_score = ground arith

  horde_dropped_score : (use_horde_dropped sess guid w).0.alliance_score ≡ w.alliance_score
  unfolding use_horde_dropped
  horde_dropped_score = ground arith

  other_score :
      (entry : ℕ)
      → (entry == alliance_flag_base_entry) ≡ false
      → (flag_use sess guid entry w).0.alliance_score ≡ w.alliance_score
  unfolding flag_use
  other_score entry e =
      ground (arith, horde_base_score, alliance_dropped_score, horde_dropped_score)

  use_capture :
      (entry : ℕ)
      → (flag_use sess guid entry w).0.alliance_score ≢ w.alliance_score
      → CapturesHordeFlag sess entry w (flag_use sess guid entry w).0
  use_capture entry n = elim (Bool-cases (entry == alliance_flag_base_entry)) [
    | inl e ↦
        let q : entry ≡ alliance_flag_base_entry = ==→eq entry alliance_flag_base_entry e in
        rw q (unfold flag_use in base_capture (rw q at n))
    | inr e ↦ absurd (n (other_score entry e))
  ]

death_score :
    (sess : Session) (w : State) (c : ℕ)
    → (player_death sess (w, c)).0.alliance_score ≡ w.alliance_score
unfolding player_death
death_score sess w c = ground arith

leave_score :
    (sess : Session) (w : State) → (player_leave sess w).0.alliance_score ≡ w.alliance_score
unfolding player_leave
leave_score sess w = ground arith

timer_score :
    (side : Side) (map : ℕ) (w : State)
    → (return_timer side map w).0.alliance_score ≡ w.alliance_score
unfolding return_timer
timer_score alliance map w = ground arith
timer_score horde map w = ground arith

-- The Alliance's score changes in no event but a capture: an Alliance player who carries the
-- Horde's flag uses the Alliance's flag, which is on its base. The score then grows by 1, within
-- 32 bits, the Horde's score stays, and the Horde's flag is on its base with no carrier.
pub alliance_score-needs_capture :
    (e : Event) (w : State) (c : ℕ)
    → (step e (w, c)).0.alliance_score ≢ w.alliance_score
    → (sess : Session) × (guid : ℕ) × (entry : ℕ) × (e ≡ uses sess guid entry)
      × CapturesHordeFlag sess entry w (step e (w, c)).0
unfolding step
alliance_score-needs_capture (uses sess guid entry) w c n =
    (sess, guid, entry, refl, use_capture sess guid w entry n)
alliance_score-needs_capture (dies sess) w c n = absurd (n (death_score sess w c))
alliance_score-needs_capture (leaves sess) w c n = absurd (n (leave_score sess w))
alliance_score-needs_capture (fires side) w c n = absurd (n (timer_score side w.map_id w))
