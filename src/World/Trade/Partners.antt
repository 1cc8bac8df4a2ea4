-- ===== src/World/Trade/Partners.antt =====
-- engine/world/trade.go: who trades with whom.
use moreno_go_moreno_core.Common.{
  ℕ, ◌≡◌, ◌≢◌, ◌∙◌, sym, ap, arith, ◌==◌, if◌then◌else◌, Option, none, some,
}
use moreno_go_moreno_core.World.Trade.{World, PlayerTradeState}
use moreno_go_moreno_core.World.Trade.Exchange.{SamePlayers, Ended}
use moreno_go_moreno_core.World.Trade.Frames.{link, links, Quiet}

-- A relation of links is a matching: whoever trades has a partner, another session, which trades
-- back.
pub record Matching (f : ℕ → Option (Option ℕ)) : Type 0 where
  pub linked : (i : ℕ) → f i ≢ some none
  pub returned : (i j : ℕ) → f i ≡ some (some j) → (i ≢ j) × (f j ≡ some (some i))

-- What a packet may do to the links: nothing, join two sessions that do not trade, or part two that
-- do.
pub data LinkStep (f g : ℕ → Option (Option ℕ)) : Type 0 where
  keep : ((i : ℕ) → g i ≡ f i) → LinkStep f g
  join :
      (s p : ℕ)
      → s ≢ p
      → f s ≡ none
      → f p ≡ none
      → ((i : ℕ) → g i ≡ (if i == p then some (some s) else if i == s then some (some p) else f i))
      → LinkStep f g
  part :
      (s p : ℕ)
      → f s ≡ some (some p)
      → ((i : ℕ) → g i ≡ (if i == p then none else if i == s then none else f i))
      → LinkStep f g

keep-Matching : (f g : ℕ → Option (Option ℕ)) → ((i : ℕ) → g i ≡ f i) → Matching f → Matching g
keep-Matching f g e m = record {
  linked = λ i q. m.linked i (sym (e i) ∙ q);
  returned = λ i j q. let r = m.returned i j (sym (e i) ∙ q) in (r.0, e j ∙ r.1);
}

pub LinkStep-Matching : (f g : ℕ → Option (Option ℕ)) → LinkStep f g → Matching f → Matching g
LinkStep-Matching f g (keep e) m = keep-Matching f g e m
LinkStep-Matching f g (join s p n a b e) m = record {
  linked = λ i q. ground (arith, e i, m.linked i);
  returned = λ i j q. ground (arith, e i, e j, e s, e p, m.returned i j, n, a, b);
}
LinkStep-Matching f g (part s p a e) m = record {
  linked = λ i q. ground (arith, e i, m.linked i);
  returned = λ i j q.
      ground (arith, e i, e j, m.returned i j, m.returned s p a, m.returned j i, m.returned j);
}

-- A packet that moves no money.
pub record Unpaid (w w' : World) : Type 0 where
  pub moves : LinkStep (links w) (links w')
  pub players : SamePlayers w w'

pub Quiet-Unpaid : (w w' : World) → Quiet w w' → Unpaid w w'
Quiet-Unpaid w w' q = record { moves = keep (λ i. (q i).0); players = λ i. (q i).1 }

pub Ended-LinkStep :
    (s p : ℕ) (t : PlayerTradeState) (w w' : World)
    → (w.sessions s).trade ≡ some t
    → t.partner ≡ some p
    → Ended s p w w'
    → LinkStep (links w) (links w')
Ended-LinkStep s p t w w' e q h = part s p (ap link e ∙ ap some q) h
