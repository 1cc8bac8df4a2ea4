-- ===== src/World/Ab/Reached.antt =====
-- engine/world/battleground_ab.go: the events of a battleground, and what holds between them.
use moreno_go_moreno_core.Common.{
  ℕ, zero, suc, ◌+◌, ◌<◌, ◌≤◌, ◌≡◌, ◌⊎◌, arith, List, [], ◌∷◌, Option, none, some, length, set,
}
use moreno_go_moreno_core.World.Ab.{
  Node, State, controlled_alliance, controlled_horde, ab_max_resources, node_at,
}
use moreno_go_moreno_core.World.Ab.Banners.{
  Session, Outcome, handle_ab_banner_use, complete_ab_node_capture,
}
use moreno_go_moreno_core.World.Ab.Resources.{tick_resources}
use moreno_go_moreno_core.World.Ab.Bases.{Fits, is}

-- What can happen to the battleground of one map: a player uses an object, the timer of a node
-- runs for a side, and time passes.
pub data Event : Type 0 where
  uses : Session → ℕ → Event
  fires : ℕ → ℕ → Event
  ticks : ℕ → Event

unfoldable pub step : Event → State × ℕ → Outcome
unfolding handle_ab_banner_use complete_ab_node_capture tick_resources
step (uses sess entry) (ab, c) = elim (handle_ab_banner_use sess entry (ab, c)) [
  | none ↦ (ab, c, [])
  | some o ↦ o
]
step (fires node_id team) s = complete_ab_node_capture node_id team s
step (ticks elapsed) (ab, c) = let (ab', e) = tick_resources elapsed ab in (ab', c, e)

-- The timer that runs is the one that the node holds: a timer that has been stopped does not run.
abbrev pub Honest : Event → State → Type 0
Honest (uses sess entry) ab = Unit
Honest (fires node_id team) ab = (node_at ab.nodes node_id).capture_timer ≡ some team
Honest (ticks elapsed) ab = Unit

abbrev pub FitsFrom : ℕ → List Node → Type 0
FitsFrom i [] = Unit
FitsFrom i (node ∷ nodes) = Fits i node × FitsFrom (suc i) nodes

-- How many nodes are in a state.
abbrev pub held : ℕ → List Node → ℕ
held state [] = 0
held state (node ∷ nodes) = is state node.state + held state nodes

-- There is a winner exactly when a side has all the resources.
abbrev pub Score : Option ℕ → ℕ → ℕ → Type 0
Score winner alliance horde =
    ((winner ≡ none) × (alliance < ab_max_resources) × (horde < ab_max_resources))
    ⊎ ((winner ≡ some 0) × (alliance ≡ ab_max_resources) × (horde < ab_max_resources))
    ⊎ ((winner ≡ some 1) × (alliance < ab_max_resources) × (horde ≡ ab_max_resources))

pub record Consistent (ab : State) : Type 0 where
  pub size : length ab.nodes ≡ 5
  pub fits : FitsFrom 0 ab.nodes
  pub alliance : ab.alliance_bases_count ≡ held controlled_alliance ab.nodes
  pub horde : ab.horde_bases_count ≡ held controlled_horde ab.nodes
  pub most : ab.max_resources ≡ ab_max_resources
  pub score : Score ab.winner ab.alliance_resources ab.horde_resources

pub FitsFrom-node_at :
    (nodes : List Node) (i j k : ℕ)
    → k ≡ i + j
    → j < length nodes
    → FitsFrom i nodes
    → Fits k (node_at nodes j)
FitsFrom-node_at [] i j k e h f = elim h [ ]
FitsFrom-node_at (node ∷ nodes) i zero k e h f = let e' : k ≡ i = omega arith in rw e' f.0
FitsFrom-node_at (node ∷ nodes) i (suc j) k e h f =
    FitsFrom-node_at nodes (suc i) j k (omega arith) (omega arith) f.1

pub FitsFrom-set :
    (nodes : List Node) (i j k : ℕ) (node : Node)
    → k ≡ i + j
    → Fits k node
    → FitsFrom i nodes
    → FitsFrom i (set nodes j node)
FitsFrom-set [] i j k node e n f = tt
FitsFrom-set (x ∷ nodes) i zero k node e n f = let e' : i ≡ k = omega arith in (rw e' n, f.1)
FitsFrom-set (x ∷ nodes) i (suc j) k node e n f =
    (f.0, FitsFrom-set nodes (suc i) j k node (omega arith) n f.1)

pub held-set :
    (state : ℕ) (nodes : List Node) (j : ℕ) (node : Node)
    → j < length nodes
    → held state (set nodes j node) + is state (node_at nodes j).state
      ≡ held state nodes + is state node.state
held-set state [] j node h = elim h [ ]
held-set state (x ∷ nodes) zero node h = omega arith
held-set state (x ∷ nodes) (suc j) node h = omega (arith, held-set state nodes j node (omega arith))

pub held-le : (state : ℕ) (nodes : List Node) → held state nodes ≤ length nodes
held-le state [] = omega arith
held-le state (x ∷ nodes) = ground (arith, held-le state nodes)

pub is-le-held :
    (state : ℕ) (nodes : List Node) (j : ℕ)
    → j < length nodes
    → is state (node_at nodes j).state ≤ held state nodes
is-le-held state [] j h = elim h [ ]
is-le-held state (x ∷ nodes) zero h = omega arith
is-le-held state (x ∷ nodes) (suc j) h = omega (arith, is-le-held state nodes j (omega arith))
