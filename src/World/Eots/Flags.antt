-- ===== src/World/Eots/Flags.antt =====
-- engine/world/battleground_eots.go: what each handler does to the flag.
use moreno_go_moreno_core.Common.{
  List, ℕ, zero, suc, ◌≤◌, ◌≡◌, ◌≢◌, inl, inr, refl, arith, ◌==◌, if◌then◌else◌, none, get_or, Bool,
  true, false, Bool-cases,
}
use moreno_go_moreno_core.World.Eots.{
  State, Session, Effect, at_center, carried, dropped, eots_map_id, eots_flag_capture_points,
}
use moreno_go_moreno_core.World.Eots.Flag.{
  use_center_flag, use_dropped_flag, capture_eots_flag, drop_eots_flag, return_timer,
  handle_eots_player_death, handle_eots_player_leave, towers_held, capture_points,
}
use moreno_go_moreno_core.World.Eots.Events.{Sound, same_board, same_flag}
use moreno_go_moreno_core.World.Eots.Scores.{Scores, score_alliance-Scores, score_horde-Scores}

module _ (sess : Session) (s : State) (counter : ℕ) (v : Sound s) where
  pub use_center_flag-Sound : sess.guid ≢ 0 → Sound (use_center_flag sess s counter).0
  unfolding use_center_flag
  use_center_flag-Sound g = elim (Bool-cases (s.flag_state == at_center)) [
    | inr e ↦ rw e v
    | inl e ↦ elim (Bool-cases sess.far_from_center) [
      | inl far ↦ rw (e, far) v
      | inr near ↦
          let at_rest : s.flag_dropped_guid ≡ 0 = ground (arith, v.flag, e) in
          rw (e, near)
            (record { board = v.board; flag = inr (inl (refl, g, at_rest)); score = v.score })
    ]
  ]

  pub use_dropped_flag-Sound : sess.guid ≢ 0 → Sound (use_dropped_flag sess s counter).0
  unfolding use_dropped_flag
  use_dropped_flag-Sound g = elim (Bool-cases (s.flag_state == dropped)) [
    | inr e ↦ rw e v
    | inl e ↦ rw e (record { board = v.board; flag = inr (inl (refl, g, refl)); score = v.score })
  ]

  pub drop_eots_flag-Sound : Sound (drop_eots_flag sess s counter).0
  unfolding drop_eots_flag
  drop_eots_flag-Sound = record {
    board = v.board;
    flag = inr (inr (refl, refl, refl));
    score = v.score;
  }

  pub handle_eots_player_death-Sound : Sound (handle_eots_player_death sess s counter).0
  unfolding handle_eots_player_death
  handle_eots_player_death-Sound = elim (Bool-cases (sess.map_id == eots_map_id)) [
    | inr e ↦ rw e v
    | inl e ↦ elim (Bool-cases (s.flag_carrier_guid == sess.guid)) [
      | inr n ↦ rw (e, n) v
      | inl c ↦ rw (e, c) drop_eots_flag-Sound
    ]
  ]

  pub handle_eots_player_leave-Sound : Sound (handle_eots_player_leave sess s counter).0
  unfolding handle_eots_player_leave
  handle_eots_player_leave-Sound = elim (Bool-cases (sess.map_id == eots_map_id)) [
    | inr e ↦ rw e v
    | inl e ↦ elim (Bool-cases (s.flag_carrier_guid == sess.guid)) [
      | inr n ↦ rw (e, n) v
      | inl c ↦ rw (e, c) drop_eots_flag-Sound
    ]
  ]

pub return_timer-Sound : (s : State) → Sound s → Sound (return_timer s).0
unfolding return_timer
return_timer-Sound s v = elim (Bool-cases (s.flag_state == dropped)) [
  | inr e ↦ rw e v
  | inl e ↦
      let free : s.flag_carrier_guid ≡ 0 = ground (arith, v.flag, e) in
      rw e (record { board = v.board; flag = inl (refl, free, refl); score = v.score })
]

on_team :
    (b : Bool) (s : State) (o p : State × List Effect)
    → Scores s o.0
    → Scores s p.0
    → Scores s (if b then o else p).0
on_team true s o p f g = f
on_team false s o p f g = g

pub capture_points-le : (s : State) (team : ℕ) → capture_points s team ≤ 500
capture_points-le s team = at (towers_held s team) (ground arith)
  where
    at : (held : ℕ) → held ≤ 4 → get_or eots_flag_capture_points held 0 ≤ 500
    at zero h = omega arith
    at (suc zero) h = omega arith
    at (suc (suc zero)) h = omega arith
    at (suc (suc (suc zero))) h = omega arith
    at (suc (suc (suc (suc zero)))) h = omega arith
    at (suc (suc (suc (suc (suc n))))) h = omega arith

-- After a capture the score is as it should be, and the flag is free.
pub capture_eots_flag-Sound :
    (sess : Session) (team : ℕ) (s : State)
    → Sound s
    → s.winner ≡ none
    → s.flag_state ≡ carried
    → Sound (capture_eots_flag sess team s).0
unfolding capture_eots_flag
capture_eots_flag-Sound sess team s v n c =
    let points = capture_points s team in
    let freed = record s { flag_carrier_guid = 0; flag_state = at_center } in
    let at_rest : s.flag_dropped_guid ≡ 0 = ground (arith, v.flag, c) in
    let le = capture_points-le s team in
    let score =
      on_team (team == 0) freed _ _ (score_alliance-Scores points freed le v.score n)
        (score_horde-Scores points freed le v.score n) in
    record {
      board = same_board score.board v.board;
      flag = same_flag score.flag (inl (refl, refl, at_rest));
      score = score.score;
    }
