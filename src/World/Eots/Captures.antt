-- ===== src/World/Eots/Captures.antt =====
-- engine/world/battleground_eots.go: how the flag is captured.
use Prim.Native.Nat.{min}
use moreno_go_moreno_core.Common.{
  ℕ, ◌+◌, ◌<◌, ◌≤◌, ◌≡◌, ◌⊎◌, inl, inr, refl, ap, ◌∙◌, arith, ◌==◌, ◌&&◌, leb, if◌then◌else◌, none,
  some, Bool, true, false, ==→eq, get_or, if-cases, if-true, if-false,
}
use moreno_go_moreno_core.World.Wsg.{team_for_race}
use moreno_go_moreno_core.World.Wsg.Invariant.{team-cases}
use moreno_go_moreno_core.World.Eots.{
  Tower, State, Session, Outcome, at_center, carried, dropped, controlled_alliance,
  controlled_horde, tower_at, eots_flag_capture_points, eots_max_resources,
}
use moreno_go_moreno_core.World.Eots.Flag.{
  capture_eots_flag, use_center_flag, use_dropped_flag, capture_points, towers_held,
}
use moreno_go_moreno_core.World.Eots.Towers.{use_tower, carries, is_controlled_by_team}
use moreno_go_moreno_core.World.Eots.Events.{uses, step, Sound, held, is}
use moreno_go_moreno_core.World.Eots.Scores.{
  score_alliance-total, score_horde-total, score_alliance-Scores, score_horde-Scores,
}
use moreno_go_moreno_core.World.Eots.Boards.{
  claim_for_alliance-Boards, claim_for_horde-Boards, held-le, is-le-held,
}
use moreno_go_moreno_core.World.Eots.Flags.{capture_points-le}
use moreno_go_moreno_core.World.Eots.Matches.{use_cases, Reach, Reach-Sound}

abbrev pub controlled_by : ℕ → ℕ
controlled_by team = if team == 0 then controlled_alliance else controlled_horde

abbrev pub resources_of : ℕ → State → ℕ
resources_of team s = if team == 0 then s.alliance_resources else s.horde_resources

-- What a capture gives to a side.
abbrev pub Paid : ℕ → ℕ → State → State → Type 0
Paid team points s s' =
    (s'.flag_state ≡ at_center)
    × (s'.flag_carrier_guid ≡ 0)
    × (resources_of team s' ≡ min eots_max_resources (resources_of team s + points))
    × (s'.winner
        ≡ (if leb eots_max_resources (resources_of team s + points) then some team else none))

module _ (sess : Session) (s : State) (v : Sound s) (n : s.winner ≡ none) where
  alliance_pays : Paid 0 (capture_points s 0) s (capture_eots_flag sess 0 s).0
  unfolding capture_eots_flag
  alliance_pays =
      let freed = record s { flag_carrier_guid = 0; flag_state = at_center } in
      let le = capture_points-le s 0 in
      let t = score_alliance-total (capture_points s 0) freed le v.score n in
      let f = (score_alliance-Scores (capture_points s 0) freed le v.score n).flag in
      (f.state, f.carrier, t.0, t.1)

  horde_pays : Paid 1 (capture_points s 1) s (capture_eots_flag sess 1 s).0
  unfolding capture_eots_flag
  horde_pays =
      let freed = record s { flag_carrier_guid = 0; flag_state = at_center } in
      let le = capture_points-le s 1 in
      let t = score_horde-total (capture_points s 1) freed le v.score n in
      let f = (score_horde-Scores (capture_points s 1) freed le v.score n).flag in
      (f.state, f.carrier, t.0, t.1)

  alliance_points :
      capture_points s 0 ≡ get_or eots_flag_capture_points (held controlled_alliance s.towers) 0
  alliance_points =
      let le = held-le controlled_alliance s.towers in
      let e : towers_held s 0 ≡ held controlled_alliance s.towers =
        ground (arith, v.board.alliance, v.board.size, le) in
      ap (λ (k : ℕ). get_or eots_flag_capture_points k 0) e

  horde_points :
      capture_points s 1 ≡ get_or eots_flag_capture_points (held controlled_horde s.towers) 0
  horde_points =
      let le = held-le controlled_horde s.towers in
      let e : towers_held s 1 ≡ held controlled_horde s.towers =
        ground (arith, v.board.horde, v.board.size, le) in
      ap (λ (k : ℕ). get_or eots_flag_capture_points k 0) e

  flag_pays :
      (team : ℕ)
      → (team ≡ 0) ⊎ (team ≡ 1)
      → Paid team
          (get_or eots_flag_capture_points (held (controlled_by team) s.towers) 0)
          s
          (capture_eots_flag sess team s).0
  flag_pays team (inl e) = rw (e, ← alliance_points) alliance_pays
  flag_pays team (inr e) = rw (e, ← horde_points) horde_pays

  captures :
      (tower_id counter : ℕ)
      → carries sess s ≡ true
      → sess.too_far tower_id ≡ false
      → is_controlled_by_team (team_for_race sess.race) (tower_at s.towers tower_id) ≡ true
      → (use_tower sess tower_id s counter).0
        ≡ (capture_eots_flag sess (team_for_race sess.race) s).0
  unfolding use_tower
  captures tower_id counter c near t =
      let k : (carries sess s
            && is_controlled_by_team (team_for_race sess.race) (tower_at s.towers tower_id))
          ≡ true =
        rw (c, t) in
      ap (λ (o : Outcome). o.0) (if-false (sess.too_far tower_id) _ _ near ∙ if-true _ _ _ k)

own_tower :
    (team : ℕ) (tower : Tower)
    → (team ≡ 0) ⊎ (team ≡ 1)
    → tower.state ≡ controlled_by team
    → is_controlled_by_team team tower ≡ true
own_tower team tower t e = ground (arith, t, e)

-- In a match that goes on, a carrier who uses the banner of a tower of the own side and is near it
-- captures the flag: the flag is back at the center, nobody carries it, the side gets the points for
-- as many towers as it holds, up to the limit, and it wins exactly when it reaches the limit.
pub Reach-pays :
    {s : State} {counter : ℕ}
    → Reach s counter
    → s.winner ≡ none
    → (sess : Session) (tower_id : ℕ) → s.flag_state ≡ carried
    → s.flag_carrier_guid ≡ sess.guid
    → sess.too_far tower_id ≡ false
    → (tower_at s.towers tower_id).state ≡ controlled_by (team_for_race sess.race)
    → let team = team_for_race sess.race in
      Paid team
        (get_or eots_flag_capture_points (held (controlled_by team) s.towers) 0)
        s
        (use_tower sess tower_id s counter).0
Reach-pays {s} {counter} r n sess tower_id f c near t =
    let v = Reach-Sound r in
    let team = team_for_race sess.race in
    let k : carries sess s ≡ true = ground (arith, f, c) in
    let w = team-cases sess.race in
    let own = own_tower team (tower_at s.towers tower_id) w t in
    rw (captures sess s v n tower_id counter k near own) (flag_pays sess s v n team w)

-- The resources and the winner stay.
abbrev pub Unscored : State → State → Type 0
Unscored s s' =
    (s'.alliance_resources ≡ s.alliance_resources)
    × (s'.horde_resources ≡ s.horde_resources)
    × (s'.winner ≡ s.winner)

-- The player carries the flag, and the own side has a tower.
abbrev pub Carrier : Session → State → Type 0
Carrier sess s =
    (s.flag_state ≡ carried)
    × (s.flag_carrier_guid ≡ sess.guid)
    × (1 ≤ held (controlled_by (team_for_race sess.race)) s.towers)

both_true : (a b : Bool) → (a && b) ≡ true → (a ≡ true) × (b ≡ true)
both_true true b e = (refl, e)
both_true false b e = ground arith

tower_is :
    (team : ℕ) (tower : Tower)
    → is_controlled_by_team team tower ≡ true
    → is (controlled_by team) tower.state ≡ 1
tower_is team tower e = ground (arith, e)

module _ (sess : Session) (s : State) (counter : ℕ) (v : Sound s) where
  Stays : State → Type 0
  Stays s' = Unscored s s' ⊎ Carrier sess s

  tower-Stays : (tower_id : ℕ) → tower_id < 4 → Stays (use_tower sess tower_id s counter).0
  unfolding use_tower Stays
  tower-Stays tower_id h =
      let team = team_for_race sess.race in
      let tower = tower_at s.towers tower_id in
      let P = λ (o : Outcome). Stays o.0 in
      if-cases P (sess.too_far tower_id) _ _ (λ e. inl (refl, refl, refl))
        (λ e.
          if-cases P (carries sess s && is_controlled_by_team team tower) _ _
            (λ k.
              let (c, t) = both_true _ _ k in
              let (st, g) = both_true _ _ c in
              let one = tower_is team tower t in
              let le =
                is-le-held (controlled_by team) s.towers tower_id
                  (omega (arith, v.board.size, h)) in
              inr (==→eq _ _ st, ==→eq _ _ g, omega (arith, one, le)))
            (λ k.
              if-cases P (team == 0) _ _
                (λ t.
                  let b = (claim_for_alliance-Boards tower_id h s v.board counter).score in
                  inl (b.2, b.3, b.1))
                (λ t.
                  let b = (claim_for_horde-Boards tower_id h s v.board counter).score in
                  inl (b.2, b.3, b.1))))

  flag-Stays : Stays (use_center_flag sess s counter).0 × Stays (use_dropped_flag sess s counter).0
  unfolding use_center_flag use_dropped_flag Stays
  flag-Stays =
      let P = λ (o : Outcome). Stays o.0 in
      let same = inl (refl, refl, refl) in
      (
        if-cases P (s.flag_state == at_center) _ _
            (λ e. if-cases P sess.far_from_center _ _ (λ f. same) (λ f. same)) (λ e. same),
        if-cases P (s.flag_state == dropped) _ _ (λ e. same) (λ e. same),
      )

-- A use of an object changes the resources or the winner only where its player carries the flag and
-- the own side holds a tower.
pub uses-Stays :
    {s : State} {counter : ℕ}
    → Reach s counter
    → (sess : Session) (entry : ℕ)
    → let s' = (step (uses sess entry) s counter).0 in Unscored s s' ⊎ Carrier sess s
unfolding Stays
uses-Stays {s} {counter} r sess entry =
    let v = Reach-Sound r in
    let f = flag-Stays sess s counter v in
    use_cases (Stays sess s counter v) s counter (inl (refl, refl, refl)) sess entry
      (λ n. (f.0, f.1, tower-Stays sess s counter v))
