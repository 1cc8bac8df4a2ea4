-- ===== src/World/Ab/Bases.antt =====
-- engine/world/battleground_ab.go: what one handler does to the node that it is about and to the
-- counts of bases.
use moreno_go_moreno_core.Common.{
  ℕ, ◌+◌, ◌<◌, ◌≤◌, ◌≡◌, ◌⊎◌, inl, inr, refl, ap, ◌∙◌, arith, List, ◌==◌, if◌then◌else◌, Option,
  none, some, set, false, Bool-cases, lt→leb, lt→ltb,
}
use moreno_go_moreno_core.World.Wsg.{team_for_race}
use moreno_go_moreno_core.World.Wsg.Invariant.{team-cases}
use moreno_go_moreno_core.World.Ab.{
  Node, State, Message, has_assaulted, neutral, contested_alliance, contested_horde,
  controlled_alliance, controlled_horde, get_ab_banner_entry,
}
use moreno_go_moreno_core.World.Ab.Banners.{
  Session, update_ab_node_banner, show_node, assault, use_neutral, use_controlled_alliance,
  use_controlled_horde, lose_alliance_base, lose_horde_base, gain_alliance_base, gain_horde_base,
  start_ab_node_capture_timer, untouched,
}

-- The side that a node in such a state has a timer for.
abbrev pub timer_of : ℕ → Option ℕ
timer_of state =
    if state == contested_alliance
    then some 0
    else if state == contested_horde
    then some 1
    else none

-- A contested node was neutral or of the other side before.
abbrev pub Follows : ℕ → ℕ → Type 0
Follows state prev =
    (state ≡ neutral)
    ⊎ ((state ≡ contested_alliance) × ((prev ≡ neutral) ⊎ (prev ≡ controlled_horde)))
    ⊎ ((state ≡ contested_horde) × ((prev ≡ neutral) ⊎ (prev ≡ controlled_alliance)))
    ⊎ (state ≡ controlled_alliance)
    ⊎ (state ≡ controlled_horde)

-- The state is one of the five, its banner is shown, and there is a timer exactly while it is
-- contested.
pub record Fits (node_id : ℕ) (node : Node) : Type 0 where
  pub follows : Follows node.state node.prev_state
  pub banner : node.banner_entry ≡ get_ab_banner_entry node_id node.state
  pub timer : node.capture_timer ≡ timer_of node.state

abbrev pub is : ℕ → ℕ → ℕ
is state x = if x == state then 1 else 0

-- One node is replaced, and the counts change with its state.
pub record Changes (node_id : ℕ) (old : Node) (ab ab' : State) : Type 0 where
  pub node : Node
  pub nodes : ab'.nodes ≡ set ab.nodes node_id node
  pub fits : Fits node_id node
  pub alliance :
      ab'.alliance_bases_count + is controlled_alliance old.state
      ≡ ab.alliance_bases_count + is controlled_alliance node.state
  pub horde :
      ab'.horde_bases_count + is controlled_horde old.state
      ≡ ab.horde_bases_count + is controlled_horde node.state
  pub winner : ab'.winner ≡ ab.winner
  pub resources :
      (ab'.alliance_resources ≡ ab.alliance_resources)
      × (ab'.horde_resources ≡ ab.horde_resources)
      × (ab'.max_resources ≡ ab.max_resources)

-- A node is put into its place, with a banner of its state.
pub record Puts (node_id : ℕ) (node : Node) (ab ab' : State) : Type 0 where
  pub shown : Node
  pub nodes : ab'.nodes ≡ set ab.nodes node_id shown
  pub state : shown.state ≡ node.state
  pub prev_state : shown.prev_state ≡ node.prev_state
  pub timer : shown.capture_timer ≡ node.capture_timer
  pub banner : shown.banner_entry ≡ get_ab_banner_entry node_id node.state
  pub counts :
      (ab'.alliance_bases_count ≡ ab.alliance_bases_count)
      × (ab'.horde_bases_count ≡ ab.horde_bases_count)
  pub winner : ab'.winner ≡ ab.winner
  pub resources :
      (ab'.alliance_resources ≡ ab.alliance_resources)
      × (ab'.horde_resources ≡ ab.horde_resources)
      × (ab'.max_resources ≡ ab.max_resources)

entry-pos :
    (node_id state : ℕ) → node_id < 5 → state ≤ 4 → (get_ab_banner_entry node_id state == 0) ≡ false
unfolding get_ab_banner_entry
entry-pos node_id state h k = ground arith

pub show_node-Puts :
    (text : Message) (node_id : ℕ) (ab : State) (node : Node) (counter : ℕ)
    → node_id < 5
    → node.state ≤ 4
    → Puts node_id node ab (show_node text node_id ab node counter).0
unfolding show_node update_ab_node_banner
show_node-Puts text node_id ab node counter h k =
    rw (lt→leb 5 node_id h, entry-pos node_id node.state h k)
      (record {
        shown = _;
        nodes = refl;
        state = refl;
        prev_state = refl;
        timer = refl;
        banner = refl;
        counts = (refl, refl);
        winner = refl;
        resources = (refl, refl, refl);
      })

pub assault-Puts :
    (sess : Session) (team node_id : ℕ) (ab : State) (node : Node) (counter : ℕ)
    → node_id < 5
    → node.state ≤ 4
    → Puts node_id
        (record node { capture_timer = some team })
        ab
        (assault sess team node_id ab node counter).0
unfolding assault start_ab_node_capture_timer
assault-Puts sess team node_id ab node counter h k =
    show_node-Puts (has_assaulted sess.name node_id team) node_id ab
      (record node { capture_timer = some team }) counter h k

-- The counts after a node goes from one state to another, with the nodes as they were.
pub record Counts (old new : ℕ) (ab ab' : State) : Type 0 where
  pub nodes : ab'.nodes ≡ ab.nodes
  pub alliance :
      ab'.alliance_bases_count + is controlled_alliance old
      ≡ ab.alliance_bases_count + is controlled_alliance new
  pub horde :
      ab'.horde_bases_count + is controlled_horde old
      ≡ ab.horde_bases_count + is controlled_horde new
  pub winner : ab'.winner ≡ ab.winner
  pub resources :
      (ab'.alliance_resources ≡ ab.alliance_resources)
      × (ab'.horde_resources ≡ ab.horde_resources)
      × (ab'.max_resources ≡ ab.max_resources)

pub Puts-Changes :
    (node_id : ℕ) (old node : Node) (ab ab1 ab' : State)
    → Follows node.state node.prev_state
    → node.capture_timer ≡ timer_of node.state
    → Counts old.state node.state ab ab1
    → Puts node_id node ab1 ab'
    → Changes node_id old ab ab'
Puts-Changes node_id old node ab ab1 ab' f t c p = record {
  node = p.shown;
  nodes = p.nodes ∙ ap (λ (ns : List Node). set ns node_id p.shown) c.nodes;
  fits = record {
    follows = rw (p.state, p.prev_state) f;
    banner = rw p.state p.banner;
    timer = rw (p.timer, p.state) t;
  };
  alliance = rw (p.counts.0, p.state) c.alliance;
  horde = rw (p.counts.1, p.state) c.horde;
  winner = p.winner ∙ c.winner;
  resources =
      (p.resources.0 ∙ c.resources.0, p.resources.1 ∙ c.resources.1, p.resources.2 ∙ c.resources.2);
}

-- Neither state is held by a side.
pub contested-Counts :
    (old new : ℕ) (ab : State)
    → ((is controlled_alliance old ≡ 0) × (is controlled_horde old ≡ 0))
    → ((is controlled_alliance new ≡ 0) × (is controlled_horde new ≡ 0))
    → Counts old new ab ab
contested-Counts old new ab h k = record {
  nodes = refl;
  alliance = omega (arith, h, k);
  horde = omega (arith, h, k);
  winner = refl;
  resources = (refl, refl, refl);
}

module _ (old : ℕ) (ab : State) where
  pub gain_alliance-Counts :
      (is controlled_alliance old ≡ 0)
      → (is controlled_horde old ≡ 0)
      → ab.alliance_bases_count ≤ 5
      → Counts old controlled_alliance ab (gain_alliance_base ab).0
  unfolding gain_alliance_base
  gain_alliance-Counts a h b = record {
    nodes = refl;
    alliance = omega (arith, a);
    horde = omega (arith, h);
    winner = refl;
    resources = (refl, refl, refl);
  }

  pub gain_horde-Counts :
      (is controlled_alliance old ≡ 0)
      → (is controlled_horde old ≡ 0)
      → ab.horde_bases_count ≤ 5
      → Counts old controlled_horde ab (gain_horde_base ab).0
  unfolding gain_horde_base
  gain_horde-Counts a h b = record {
    nodes = refl;
    alliance = omega (arith, a);
    horde = omega (arith, h);
    winner = refl;
    resources = (refl, refl, refl);
  }

  pub lose_alliance-Counts :
      old ≡ controlled_alliance
      → 1 ≤ ab.alliance_bases_count
      → Counts old contested_horde ab (lose_alliance_base ab).0
  unfolding lose_alliance_base
  lose_alliance-Counts e b =
      rw (lt→ltb 0 ab.alliance_bases_count b, e)
        (record {
          nodes = refl;
          alliance = omega arith;
          horde = refl;
          winner = refl;
          resources = (refl, refl, refl);
        })

  pub lose_horde-Counts :
      old ≡ controlled_horde
      → 1 ≤ ab.horde_bases_count
      → Counts old contested_alliance ab (lose_horde_base ab).0
  unfolding lose_horde_base
  lose_horde-Counts e b =
      rw (lt→ltb 0 ab.horde_bases_count b, e)
        (record {
          nodes = refl;
          alliance = refl;
          horde = omega arith;
          winner = refl;
          resources = (refl, refl, refl);
        })

-- The counts fit the node: there are at most five bases, and the node is one if a side holds it.
pub record Counted (node : Node) (ab : State) : Type 0 where
  pub alliance :
      (is controlled_alliance node.state ≤ ab.alliance_bases_count) × (ab.alliance_bases_count ≤ 5)
  pub horde : (is controlled_horde node.state ≤ ab.horde_bases_count) × (ab.horde_bases_count ≤ 5)

module _ (node_id : ℕ) (ab : State) (node : Node) (counter : ℕ) (h : node_id < 5) where
  -- A node of which nothing but the mark of its player has changed.
  pub same-Changes :
      Fits node_id node → Changes node_id node ab (untouched node_id ab node counter).0
  same-Changes f = record {
    node = node;
    nodes = refl;
    fits = f;
    alliance = refl;
    horde = refl;
    winner = refl;
    resources = (refl, refl, refl);
  }

  pub neutral-Changes :
      (sess : Session)
      → node.state ≡ neutral
      → Changes node_id node ab (use_neutral sess node_id ab node counter).0
  unfolding use_neutral
  neutral-Changes sess e = elim (team-cases sess.race) [
    | inl t ↦
        let next = record node { state = contested_alliance; prev_state = neutral } in
        rw t (
          Puts-Changes node_id node (record next { capture_timer = some 0 }) ab ab _
            (inr (inl (refl, inl refl))) refl
            (contested-Counts node.state contested_alliance ab (rw e (refl, refl)) (refl, refl))
            (assault-Puts sess 0 node_id ab next counter h (omega arith)))
    | inr t ↦
        let next = record node { state = contested_horde; prev_state = neutral } in
        rw t (
          Puts-Changes node_id node (record next { capture_timer = some 1 }) ab ab _
            (inr (inr (inl (refl, inl refl)))) refl
            (contested-Counts node.state contested_horde ab (rw e (refl, refl)) (refl, refl))
            (assault-Puts sess 1 node_id ab next counter h (omega arith)))
  ]

  pub controlled_alliance-Changes :
      (sess : Session)
      → node.state ≡ controlled_alliance
      → Fits node_id node
      → Counted node ab
      → Changes node_id node ab (use_controlled_alliance sess node_id ab node counter).0
  unfolding use_controlled_alliance
  controlled_alliance-Changes sess e f c = elim (Bool-cases (team_for_race sess.race == 1)) [
    | inl t ↦
        let next = record node { state = contested_horde; prev_state = controlled_alliance } in
        let ab1 = (lose_alliance_base ab).0 in
        rw t (
          Puts-Changes node_id node (record next { capture_timer = some 1 }) ab ab1 _
            (inr (inr (inl (refl, inr refl)))) refl
            (lose_alliance-Counts node.state ab e (ground (arith, c.alliance)))
            (assault-Puts sess 1 node_id ab1 next counter h (omega arith)))
    | inr t ↦ rw t (same-Changes f)
  ]

  pub controlled_horde-Changes :
      (sess : Session)
      → node.state ≡ controlled_horde
      → Fits node_id node
      → Counted node ab
      → Changes node_id node ab (use_controlled_horde sess node_id ab node counter).0
  unfolding use_controlled_horde
  controlled_horde-Changes sess e f c = elim (Bool-cases (team_for_race sess.race == 0)) [
    | inl t ↦
        let next = record node { state = contested_alliance; prev_state = controlled_horde } in
        let ab1 = (lose_horde_base ab).0 in
        rw t (
          Puts-Changes node_id node (record next { capture_timer = some 0 }) ab ab1 _
            (inr (inl (refl, inr refl))) refl
            (lose_horde-Counts node.state ab e (ground (arith, c.horde)))
            (assault-Puts sess 0 node_id ab1 next counter h (omega arith)))
    | inr t ↦ rw t (same-Changes f)
  ]
