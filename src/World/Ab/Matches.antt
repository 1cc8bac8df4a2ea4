-- ===== src/World/Ab/Matches.antt =====
-- engine/world/battleground_ab.go: the matches from their start, and the captures in them.
use moreno_go_moreno_core.Common.{
  ℕ, ◌+◌, ◌<◌, ◌≤◌, ◌≡◌, inl, inr, refl, ap, ◌∙◌, arith, List, [], ◌∷◌, ◌++◌, ◌==◌, leb,
  if◌then◌else◌, none, some, length, set, get_or-set_self, true, lt→leb, if-true, if-false, on_none,
}
use moreno_go_moreno_core.World.Ab.{
  Node, State, Effect, credit_objective, neutral, contested_alliance, contested_horde,
  controlled_alliance, controlled_horde, new_node, new_state, node_at, has_taken,
}
use moreno_go_moreno_core.World.Ab.Banners.{
  Session, use_banner_of, complete_ab_node_capture, capture, untouched, show_node,
  gain_alliance_base, gain_horde_base,
}
use moreno_go_moreno_core.World.Ab.Resources.{tick_resources}
use moreno_go_moreno_core.World.Ab.Bases.{
  Fits, timer_of, Puts, show_node-Puts, gain_alliance-Counts, gain_horde-Counts,
}
use moreno_go_moreno_core.World.Ab.Contests.{contested_by, eq→==}
use moreno_go_moreno_core.World.Ab.Reached.{Event, step, Honest, Consistent}
use moreno_go_moreno_core.World.Ab.Control.{tick_same, step-Consistent, node-Fits, node-Counted}

pub new_state-Consistent : (map_id : ℕ) → Consistent (new_state map_id)
unfolding new_state
new_state-Consistent map_id = record {
  size = refl;
  fits = (fresh 0, (fresh 1, (fresh 2, (fresh 3, (fresh 4, tt)))));
  alliance = refl;
  horde = refl;
  most = refl;
  score = inl (refl, omega arith, omega arith);
}
  where
    fresh : (i : ℕ) → Fits i (new_node i)
    fresh i = record { follows = inl refl; banner = refl; timer = refl }

-- The states that a battleground reaches from its start.
pub data Reach : State × ℕ → Type 0 where
  start : (map_id c : ℕ) → Reach (new_state map_id, c)
  next :
      {ab : State} {c : ℕ} (e : Event)
      → Reach (ab, c)
      → Honest e ab
      → Reach ((step e (ab, c)).0, (step e (ab, c)).1)

-- In every state that a battleground reaches, the counts of bases are the numbers of nodes that the
-- sides hold, each node shows the banner of its state and has a timer for a side exactly while that
-- side contests it, and a side has won exactly when it has all the resources, provided that a timer
-- that has been stopped does not run.
pub Reach-Consistent : {s : State × ℕ} → Reach s → Consistent s.0
Reach-Consistent (start map_id c) = new_state-Consistent map_id
Reach-Consistent (next {ab} {c} e r h) = step-Consistent e ab c (Reach-Consistent r) h

-- The state of a node that a side holds, and the bases that it has.
abbrev pub controlled_by : ℕ → ℕ
controlled_by team = if team == 0 then controlled_alliance else controlled_horde

abbrev pub bases_of : ℕ → State → ℕ
bases_of team ab = if team == 0 then ab.alliance_bases_count else ab.horde_bases_count

put_state :
    (node_id : ℕ) (ab ab' : State) (node : Node)
    → Puts node_id node ab ab'
    → node_id < length ab.nodes
    → (node_at ab'.nodes node_id).state ≡ node.state
put_state node_id ab ab' node p h =
    ap (λ (ns : List Node). (node_at ns node_id).state) p.nodes
    ∙ ap (λ (x : Node). x.state) (get_or-set_self ab.nodes node_id p.shown _ h)
    ∙ p.state

module _ (node_id : ℕ) (ab : State) (c : ℕ) (n : ab.winner ≡ none) (h : node_id < 5) where
  complete-eq-capture :
      (team : ℕ)
      → complete_ab_node_capture node_id team (ab, c)
        ≡ capture node_id team ab (record (node_at ab.nodes node_id) { capture_timer = none }) c
  unfolding complete_ab_node_capture
  complete-eq-capture team =
      on_none ab.winner (ab, c, []) _ n
      ∙ if-false (leb 5 node_id) (ab, c, []) _ (lt→leb 5 node_id h)

  use_banner_of_far :
      (sess : Session)
      → sess.too_far node_id ≡ true
      → use_banner_of sess node_id ab c
        ≡ untouched node_id ab (record (node_at ab.nodes node_id) { assaulted_by = sess.guid }) c
  unfolding use_banner_of
  use_banner_of_far sess far =
      on_none ab.winner (ab, c, []) _ n ∙ if-true (sess.too_far node_id) _ _ far

module _ (node_id : ℕ) (ab : State) (node : Node) (c : ℕ) (h : node_id < 5) where
  captured :
      (team : ℕ)
      → timer_of node.state ≡ some team
      → node_id < length ab.nodes
      → (ab.alliance_bases_count ≤ 5) × (ab.horde_bases_count ≤ 5)
      → let ab' = (capture node_id team ab node c).0 in
        ((node_at ab'.nodes node_id).state ≡ controlled_by team)
        × (bases_of team ab' ≡ bases_of team ab + 1)
  unfolding capture
  captured team t l k = elim (contested_by node.state team t) [
    | inl (e, s) ↦
        let b : (node.state == contested_alliance) ≡ true = eq→== s in
        let ab1 = (gain_alliance_base ab).0 in
        let next = record node { state = controlled_alliance; prev_state = controlled_alliance } in
        let p = show_node-Puts (has_taken 0 node_id) node_id ab1 next c h (omega arith) in
        let g = gain_alliance-Counts neutral ab refl refl k.0 in
        rw (e, b)
          (put_state node_id ab1 _ next p (rw g.nodes l), p.counts.0 ∙ omega (arith, g.alliance))
    | inr (e, s) ↦
        let b : (node.state == contested_horde) ≡ true = eq→== s in
        let ab1 = (gain_horde_base ab).0 in
        let next = record node { state = controlled_horde; prev_state = controlled_horde } in
        let p = show_node-Puts (has_taken 1 node_id) node_id ab1 next c h (omega arith) in
        let g = gain_horde-Counts neutral ab refl refl k.1 in
        rw (e, b)
          (put_state node_id ab1 _ next p (rw g.nodes l), p.counts.1 ∙ omega (arith, g.horde))
  ]

  capture_credits :
      (team : ℕ)
      → timer_of node.state ≡ some team
      → (rest : List Effect) × ((capture node_id team ab node c).2
          ≡ credit_objective node.assaulted_by node_id ∷ rest)
  unfolding capture
  capture_credits team t = elim (contested_by node.state team t) [
    | inl (e, s) ↦
        let b : (node.state == contested_alliance) ≡ true = eq→== s in
        let won = record node { state = controlled_alliance; prev_state = controlled_alliance } in
        let gain = gain_alliance_base ab in
        (gain.1 ++ (show_node (has_taken 0 node_id) node_id gain.0 won c).2, rw (e, b))
    | inr (e, s) ↦
        let b : (node.state == contested_horde) ≡ true = eq→== s in
        let won = record node { state = controlled_horde; prev_state = controlled_horde } in
        let gain = gain_horde_base ab in
        (gain.1 ++ (show_node (has_taken 1 node_id) node_id gain.0 won c).2, rw (e, b))
  ]

-- A contested node is never stuck: in a match that goes on it has a timer for the side that contests
-- it, and when that timer runs the side holds the node and has one more base, provided that a timer
-- that has been stopped does not run.
pub Reach-captures :
    {ab : State} {c : ℕ}
    → Reach (ab, c)
    → ab.winner ≡ none
    → (node_id team : ℕ) → node_id < 5
    → timer_of (node_at ab.nodes node_id).state ≡ some team
    → let ab' = (complete_ab_node_capture node_id team (ab, c)).0 in
      ((node_at ab.nodes node_id).capture_timer ≡ some team)
      × ((node_at ab'.nodes node_id).state ≡ controlled_by team)
      × (bases_of team ab' ≡ bases_of team ab + 1)
Reach-captures {ab} {c} r n node_id team h t =
    let v = Reach-Consistent r in
    let f = node-Fits node_id ab v h in
    let k = node-Counted node_id ab v h in
    let node = record (node_at ab.nodes node_id) { capture_timer = none } in
    let d = captured node_id ab node c h team t (omega (arith, v.size)) (k.alliance.1, k.horde.1) in
    let e = complete-eq-capture node_id ab c n h team in (f.timer ∙ t, rw e d.0, rw e d.1)

-- In a match that goes on, a player of whichever side who is too far from a contested node uses its
-- banner, a tick of any length follows that makes no winner, and the node's timer runs: the player is
-- credited with the capture. The match has its five nodes.
pub far_player_credited :
    (sess : Session) (ab : State) (c c' node_id team elapsed : ℕ)
    → ab.winner ≡ none
    → length ab.nodes ≡ 5
    → node_id < 5
    → timer_of (node_at ab.nodes node_id).state ≡ some team
    → sess.too_far node_id ≡ true
    → (tick_resources elapsed (use_banner_of sess node_id ab c).0).0.winner ≡ none
    → let ab1 = (tick_resources elapsed (use_banner_of sess node_id ab c).0).0 in
      (rest : List Effect) × ((complete_ab_node_capture node_id team (ab1, c')).2
        ≡ credit_objective sess.guid node_id ∷ rest)
far_player_credited sess ab c c' node_id team elapsed n l h t far n1 =
    let node = record (node_at ab.nodes node_id) { assaulted_by = sess.guid } in
    let used = record ab { nodes = set ab.nodes node_id node } in
    let far_used : (use_banner_of sess node_id ab c).0 ≡ used =
      ap (λ (o : State × ℕ × List Effect). o.0) (use_banner_of_far node_id ab c n h sess far) in
    let ab1 = (tick_resources elapsed used).0 in
    let going : ab1.winner ≡ none = rw far_used at n1 in
    let same : node_at ab1.nodes node_id ≡ node =
      ap (λ (ns : List Node). node_at ns node_id) (tick_same elapsed used).0
      ∙ get_or-set_self ab.nodes node_id node _ (omega (arith, l)) in
    let d =
      capture_credits node_id ab1 (record (node_at ab1.nodes node_id) { capture_timer = none }) c' h
        team (ap (λ (x : Node). timer_of x.state) same ∙ t) in
    rw (far_used, complete-eq-capture node_id ab1 c' going h team)
      (d.0, d.1 ∙ ap (λ (x : Node). credit_objective x.assaulted_by node_id ∷ d.0) same)
