-- ===== src/World/Ab/Contests.antt =====
-- engine/world/battleground_ab.go: what the use of a contested node, the use of any node, and a
-- timer do.
use moreno_go_moreno_core.Common.{
  ℕ, ◌<◌, ◌≡◌, ◌≢◌, ◌⊎◌, inl, inr, refl, arith, ◌==◌, none, some, true, Bool-cases, ==→eq, ==→ne,
}
use moreno_go_moreno_core.World.Wsg.{team_for_race}
use moreno_go_moreno_core.World.Ab.{
  Node, State, neutral, contested_alliance, contested_horde, controlled_alliance, controlled_horde,
  has_defended, has_taken,
}
use moreno_go_moreno_core.World.Ab.Banners.{
  Session, use_contested_alliance, use_contested_horde, use_node, capture, gain_alliance_base,
  gain_horde_base,
}
use moreno_go_moreno_core.World.Ab.Bases.{
  Follows, Fits, timer_of, Changes, Counted, Puts-Changes, contested-Counts, gain_alliance-Counts,
  gain_horde-Counts, same-Changes, neutral-Changes, controlled_alliance-Changes,
  controlled_horde-Changes, show_node-Puts, assault-Puts,
}

-- What a contested node was before.
was_neutral_horde :
    (state prev : ℕ)
    → state ≡ contested_horde
    → Follows state prev
    → prev ≢ controlled_alliance
    → prev ≡ neutral
was_neutral_horde state prev e f n = ground (arith, f)

was_neutral_alliance :
    (state prev : ℕ)
    → state ≡ contested_alliance
    → Follows state prev
    → prev ≢ controlled_horde
    → prev ≡ neutral
was_neutral_alliance state prev e f n = ground (arith, f)

pub eq→== : {a b : ℕ} → a ≡ b → (a == b) ≡ true
eq→== e = ground arith

-- The side that a timer is for contests the node.
pub contested_by :
    (state team : ℕ)
    → timer_of state ≡ some team
    → ((team ≡ 0) × (state ≡ contested_alliance)) ⊎ ((team ≡ 1) × (state ≡ contested_horde))
contested_by state team t = ground arith

module _ (node_id : ℕ) (ab : State) (node : Node) (counter : ℕ) (h : node_id < 5) where
  contested_horde-Changes :
      (sess : Session)
      → node.state ≡ contested_horde
      → Fits node_id node
      → Counted node ab
      → Changes node_id node ab (use_contested_horde sess node_id ab node counter).0
  unfolding use_contested_horde
  contested_horde-Changes sess e f c = elim (Bool-cases (team_for_race sess.race == 0)) [
    | inr t ↦ rw t (same-Changes node_id ab node counter h f)
    | inl t ↦ elim (Bool-cases (node.prev_state == controlled_alliance)) [
      | inl p ↦
          let kept = record node { state = controlled_alliance; capture_timer = none } in
          let ab1 = (gain_alliance_base ab).0 in
          rw (t, p)
            (Puts-Changes node_id node kept ab ab1 _ (inr (inr (inr (inl refl)))) refl
              (gain_alliance-Counts node.state ab (rw e refl) (rw e refl) c.alliance.1)
              (show_node-Puts (has_defended sess.name node_id 0) node_id ab1 kept counter h
                (omega arith)))
      | inr p ↦
          let again = record node { state = contested_alliance; capture_timer = none } in
          rw (t, p)
            (Puts-Changes node_id node (record again { capture_timer = some 0 }) ab ab _
              (inr (
                inl (
                  refl,
                  inl (
                      was_neutral_horde node.state node.prev_state e f.follows
                        (==→ne node.prev_state controlled_alliance p)),
                )))
              refl
              (contested-Counts node.state contested_alliance ab (rw e (refl, refl)) (refl, refl))
              (assault-Puts sess 0 node_id ab again counter h (omega arith)))
    ]
  ]

  contested_alliance-Changes :
      (sess : Session)
      → node.state ≡ contested_alliance
      → Fits node_id node
      → Counted node ab
      → Changes node_id node ab (use_contested_alliance sess node_id ab node counter).0
  unfolding use_contested_alliance
  contested_alliance-Changes sess e f c = elim (Bool-cases (team_for_race sess.race == 1)) [
    | inr t ↦ rw t (same-Changes node_id ab node counter h f)
    | inl t ↦ elim (Bool-cases (node.prev_state == controlled_horde)) [
      | inl p ↦
          let kept = record node { state = controlled_horde; capture_timer = none } in
          let ab1 = (gain_horde_base ab).0 in
          rw (t, p)
            (Puts-Changes node_id node kept ab ab1 _ (inr (inr (inr (inr refl)))) refl
              (gain_horde-Counts node.state ab (rw e refl) (rw e refl) c.horde.1)
              (show_node-Puts (has_defended sess.name node_id 1) node_id ab1 kept counter h
                (omega arith)))
      | inr p ↦
          let again = record node { state = contested_horde; capture_timer = none } in
          rw (t, p)
            (Puts-Changes node_id node (record again { capture_timer = some 1 }) ab ab _
              (inr (
                inr (
                  inl (
                    refl,
                    inl (
                        was_neutral_alliance node.state node.prev_state e f.follows
                          (==→ne node.prev_state controlled_horde p)),
                  ))))
              refl (contested-Counts node.state contested_horde ab (rw e (refl, refl)) (refl, refl))
              (assault-Puts sess 1 node_id ab again counter h (omega arith)))
    ]
  ]

  pub use_node-Changes :
      (sess : Session)
      → Fits node_id node
      → Counted node ab
      → Changes node_id node ab (use_node sess node_id ab node counter).0
  unfolding use_node
  use_node-Changes sess f c = elim (Bool-cases (node.state == neutral)) [
    | inl e ↦ rw e (neutral-Changes node_id ab node counter h sess (==→eq _ _ e))
    | inr e ↦ rw e (elim (Bool-cases (node.state == controlled_alliance)) [
      | inl e1 ↦
          rw e1 (controlled_alliance-Changes node_id ab node counter h sess (==→eq _ _ e1) f c)
      | inr e1 ↦ rw e1 (elim (Bool-cases (node.state == controlled_horde)) [
        | inl e2 ↦
            rw e2 (controlled_horde-Changes node_id ab node counter h sess (==→eq _ _ e2) f c)
        | inr e2 ↦ rw e2 (elim (Bool-cases (node.state == contested_horde)) [
          | inl e3 ↦ rw e3 (contested_horde-Changes sess (==→eq _ _ e3) f c)
          | inr e3 ↦ rw e3 (elim (Bool-cases (node.state == contested_alliance)) [
            | inl e4 ↦ rw e4 (contested_alliance-Changes sess (==→eq _ _ e4) f c)
            | inr e4 ↦ rw e4 (same-Changes node_id ab node counter h f)
          ])
        ])
      ])
    ])
  ]

  -- The node no longer holds the timer that runs.
  pub capture-Changes :
      (team : ℕ)
      → timer_of node.state ≡ some team
      → node.capture_timer ≡ none
      → Counted node ab
      → Changes node_id node ab (capture node_id team ab node counter).0
  unfolding capture
  capture-Changes team t n c = elim (contested_by node.state team t) [
    | inl (e, s) ↦
        let b : (node.state == contested_alliance) ≡ true = eq→== s in
        let alliance = record node {
          state = controlled_alliance;
          prev_state = controlled_alliance;
        } in
        let ab1 = (gain_alliance_base ab).0 in
        rw (e, b)
          (Puts-Changes node_id node alliance ab ab1 _ (inr (inr (inr (inl refl)))) n
            (gain_alliance-Counts node.state ab (rw s refl) (rw s refl) c.alliance.1)
            (show_node-Puts (has_taken 0 node_id) node_id ab1 alliance counter h (omega arith)))
    | inr (e, s) ↦
        let b : (node.state == contested_horde) ≡ true = eq→== s in
        let horde = record node { state = controlled_horde; prev_state = controlled_horde } in
        let ab1 = (gain_horde_base ab).0 in
        rw (e, b)
          (Puts-Changes node_id node horde ab ab1 _ (inr (inr (inr (inr refl)))) n
            (gain_horde-Counts node.state ab (rw s refl) (rw s refl) c.horde.1)
            (show_node-Puts (has_taken 1 node_id) node_id ab1 horde counter h (omega arith)))
  ]
