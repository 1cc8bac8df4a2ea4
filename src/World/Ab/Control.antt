-- ===== src/World/Ab/Control.antt =====
-- engine/world/battleground_ab.go: every event keeps the counts, the banners, the timers and the
-- score of a battleground as they should be.
use Prim.Native.Nat.{min}
use moreno_go_moreno_core.Common.{
  ℕ, ◌+◌, ◌<◌, ◌≡◌, inl, inr, refl, ap, sym, ◌∙◌, arith, [], leb, if◌then◌else◌, Option, none, some,
  length, length-set, Bool, true, false, Bool-cases, Option-cases,
}
use moreno_go_moreno_core.World.Ab.{
  Node, State, controlled_alliance, controlled_horde, ab_max_resources, node_at,
  get_ab_node_id_from_banner_entry,
}
use moreno_go_moreno_core.World.Ab.Banners.{
  Session, Outcome, use_banner_of, handle_ab_banner_use, complete_ab_node_capture, capture,
}
use moreno_go_moreno_core.World.Ab.Resources.{tick_resources}
use moreno_go_moreno_core.World.Clock.{later_ms}
use moreno_go_moreno_core.World.Ab.Yields.{tick_resources-due, due}
use moreno_go_moreno_core.World.Ab.Bases.{Fits, Changes, Counted, same-Changes}
use moreno_go_moreno_core.World.Ab.Contests.{use_node-Changes, capture-Changes}
use moreno_go_moreno_core.World.Ab.Reached.{
  Event, uses, fires, ticks, step, Honest, Score, Consistent, FitsFrom-node_at, FitsFrom-set,
  held-set, held-le, is-le-held,
}

module _ (node_id : ℕ) (ab : State) (v : Consistent ab) (h : node_id < 5) where
  pub node-Fits : Fits node_id (node_at ab.nodes node_id)
  node-Fits =
      FitsFrom-node_at ab.nodes 0 node_id node_id (omega arith) (omega (arith, v.size)) v.fits

  pub node-Counted : Counted (node_at ab.nodes node_id) ab
  node-Counted =
      let a = is-le-held controlled_alliance ab.nodes node_id (omega (arith, v.size)) in
      let b = is-le-held controlled_horde ab.nodes node_id (omega (arith, v.size)) in
      record {
        alliance = omega (arith, v.alliance, v.size, a, held-le controlled_alliance ab.nodes);
        horde = omega (arith, v.horde, v.size, b, held-le controlled_horde ab.nodes);
      }

  Changes-Consistent :
      (ab' : State) → Changes node_id (node_at ab.nodes node_id) ab ab' → Consistent ab'
  Changes-Consistent ab' c =
      let a = held-set controlled_alliance ab.nodes node_id c.node (omega (arith, v.size)) in
      let b = held-set controlled_horde ab.nodes node_id c.node (omega (arith, v.size)) in
      record {
        size = rw c.nodes (length-set ab.nodes node_id c.node ∙ v.size);
        fits =
            rw c.nodes (FitsFrom-set ab.nodes 0 node_id node_id c.node (omega arith) c.fits v.fits);
        alliance = rw c.nodes (omega (arith, a, v.alliance, c.alliance));
        horde = rw c.nodes (omega (arith, b, v.horde, c.horde));
        most = c.resources.2 ∙ v.most;
        score = rw (c.winner, c.resources.0, c.resources.1) v.score;
      }

-- Who has used a node last, and whether a timer is noted, are no matter of its counts.
other_mark :
    (node_id : ℕ) (old old' : Node) (ab ab' : State)
    → old.state ≡ old'.state
    → Changes node_id old ab ab'
    → Changes node_id old' ab ab'
other_mark node_id old old' ab ab' e c = record {
  node = c.node;
  nodes = c.nodes;
  fits = c.fits;
  alliance = rw (← e) c.alliance;
  horde = rw (← e) c.horde;
  winner = c.winner;
  resources = c.resources;
}

on_winner :
    (winner : Option ℕ) (o p : Outcome)
    → Consistent o.0
    → Consistent p.0
    → Consistent (elim winner as (λ _. Outcome) [ some w ↦ o | none ↦ p ]).0
on_winner none o p v w = w
on_winner (some x) o p v w = v

on_test :
    (b : Bool) (o p : Outcome)
    → (b ≡ true → Consistent o.0)
    → (b ≡ false → Consistent p.0)
    → Consistent (if b then o else p).0
on_test true o p v w = v refl
on_test false o p v w = w refl

leb→gt : (a b : ℕ) → leb a b ≡ false → b < a
leb→gt a b h = ground arith

banner-Consistent :
    (sess : Session) (node_id : ℕ) (ab : State) (c : ℕ)
    → Consistent ab
    → node_id < 5
    → Consistent (use_banner_of sess node_id ab c).0
unfolding use_banner_of
banner-Consistent sess node_id ab c v h =
    let old = node_at ab.nodes node_id in
    let node = record old { assaulted_by = sess.guid } in
    let f = node-Fits node_id ab v h in
    let fits : Fits node_id node = record {
      follows = f.follows;
      banner = f.banner;
      timer = f.timer;
    } in
    let k = node-Counted node_id ab v h in
    let counted : Counted node ab = record { alliance = k.alliance; horde = k.horde } in
    on_winner ab.winner (ab, c, []) _ v
      (elim (Bool-cases (sess.too_far node_id)) [
        | inl e ↦ rw e (
            Changes-Consistent node_id ab v h _
              (other_mark node_id node old ab _ refl (same-Changes node_id ab node c h fits)))
        | inr e ↦ rw e (
            Changes-Consistent node_id ab v h _ (
              other_mark node_id node old ab _ refl
                (use_node-Changes node_id ab node c h sess fits counted)))
      ])

use-Consistent :
    (sess : Session) (entry : ℕ) (ab : State) (c : ℕ)
    → Consistent ab
    → Consistent (step (uses sess entry) (ab, c)).0
unfolding step handle_ab_banner_use
use-Consistent sess entry ab c v = on_banner (get_ab_node_id_from_banner_entry entry)
  where
    on_banner :
        (o : Option ℕ)
        → Consistent
            (elim (elim o as (λ _. Option Outcome) [
              | none ↦ none
              | some node_id ↦
                  if leb 5 node_id then none else some (use_banner_of sess node_id ab c)
            ])
              as (λ _. Outcome) [ none ↦ (ab, c, []) | some p ↦ p ]).0
    on_banner none = v
    on_banner (some node_id) = elim (Bool-cases (leb 5 node_id)) [
      | inl e ↦ rw e v
      | inr e ↦ rw e (banner-Consistent sess node_id ab c v (leb→gt 5 node_id e))
    ]

timer-Consistent :
    (node_id team : ℕ) (ab : State) (c : ℕ)
    → Consistent ab
    → (node_at ab.nodes node_id).capture_timer ≡ some team
    → Consistent (complete_ab_node_capture node_id team (ab, c)).0
unfolding complete_ab_node_capture
timer-Consistent node_id team ab c v t =
    let old = node_at ab.nodes node_id in
    let node = record old { capture_timer = none } in
    on_winner ab.winner (ab, c, []) _ v
      (on_test (leb 5 node_id) (ab, c, []) (capture node_id team ab node c) (λ e. v)
        (λ e.
          let h = leb→gt 5 node_id e in
          let k = node-Counted node_id ab v h in
          Changes-Consistent node_id ab v h _ (
            other_mark node_id node old ab _ refl (
              capture-Changes node_id ab node c h team (sym (node-Fits node_id ab v h).timer ∙ t)
                refl (record { alliance = k.alliance; horde = k.horde })))))

pub tick_same :
    (elapsed : ℕ) (ab : State)
    → let ab' = (tick_resources elapsed ab).0 in
      (ab'.nodes ≡ ab.nodes)
      × (ab'.alliance_bases_count ≡ ab.alliance_bases_count)
      × (ab'.horde_bases_count ≡ ab.horde_bases_count)
      × (ab'.max_resources ≡ ab.max_resources)
unfolding tick_resources
tick_same elapsed ab = elim (Option-cases ab.winner) [
  | inl e ↦ rw e (refl, refl, refl, refl)
  | inr (w, e) ↦ rw e (refl, refl, refl, refl)
]

tick_won :
    (elapsed : ℕ) (ab : State) {w : ℕ} → ab.winner ≡ some w → (tick_resources elapsed ab).0 ≡ ab
unfolding tick_resources
tick_won elapsed ab e = rw e

scored :
    {w : Option ℕ} {x y k most : ℕ} (a h : ℕ)
    → most ≡ ab_max_resources
    → k < ab_max_resources
    → x ≡ min most a
    → y ≡ (if leb most a then k else min most h)
    → w ≡ (if leb most a then some 0 else if leb most h then some 1 else none)
    → Score w x y
scored a h m l ex ey ew = ground arith

tick-Score :
    (elapsed : ℕ) (ab : State)
    → ab.max_resources ≡ ab_max_resources
    → Score ab.winner ab.alliance_resources ab.horde_resources
    → let ab' = (tick_resources elapsed ab).0 in
      Score ab'.winner ab'.alliance_resources ab'.horde_resources
tick-Score elapsed ab m s = elim (Option-cases ab.winner) [
  | inr (w, e) ↦ rw (tick_won elapsed ab e) s
  | inl e ↦
      let going : (ab.alliance_resources < ab_max_resources)
          × (ab.horde_resources < ab_max_resources) =
        ground (arith, s) in
      let a =
        ab.alliance_resources
        + due ab.alliance_bases_count (later_ms ab.alliance_accum_ms elapsed) in
      let h = ab.horde_resources + due ab.horde_bases_count (later_ms ab.horde_accum_ms elapsed) in
      let t =
        tick_resources-due elapsed ab e (omega (arith, going, m)) (omega (arith, going, m))
          (omega (arith, m)) in
      scored a h m going.1 t.0 t.1 t.2
]

tick-Consistent :
    (elapsed : ℕ) (ab : State) → Consistent ab → Consistent (tick_resources elapsed ab).0
tick-Consistent elapsed ab v =
    let (n, a, h, m) = tick_same elapsed ab in
    record {
      size = ap length n ∙ v.size;
      fits = rw n v.fits;
      alliance = rw n (a ∙ v.alliance);
      horde = rw n (h ∙ v.horde);
      most = m ∙ v.most;
      score = tick-Score elapsed ab v.most v.score;
    }

-- Between the events of a match, with ticks of any length, the counts of bases are the numbers of
-- nodes that the sides hold, each node shows the banner of its state and has a timer for a side
-- exactly while that side contests it, and a side has won exactly when it has all the resources,
-- provided that a timer that has been stopped does not run.
pub step-Consistent :
    (e : Event) (ab : State) (c : ℕ) → Consistent ab → Honest e ab → Consistent (step e (ab, c)).0
unfolding step
step-Consistent (uses sess entry) ab c v h = use-Consistent sess entry ab c v
step-Consistent (fires node_id team) ab c v h = timer-Consistent node_id team ab c v h
step-Consistent (ticks elapsed) ab c v h = tick-Consistent elapsed ab v
