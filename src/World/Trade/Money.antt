-- ===== src/World/Trade/Money.antt =====
-- engine/world/trade.go: the partners and the money of the players, over any packets.
use moreno_go_moreno_core.Common.{
  ℕ, ◌+◌, ◌^◌, true, ◌≤◌, ◌<◌, ◌≡◌, ◌≢◌, ◌∙◌, ap, ◌⊎◌, inl, inr, Option, none, some, ==_self, ne→==,
  arith,
}
use moreno_go_moreno_core.World.Trade.{World, Player, PlayerTradeState}
use moreno_go_moreno_core.World.Trade.Complete.{u32_exchange}
use moreno_go_moreno_core.World.Trade.Answers.{Packet, step}
use moreno_go_moreno_core.World.Trade.Frames.{link, links, player_of}
use moreno_go_moreno_core.World.Trade.Partners.{
  Matching, LinkStep, LinkStep-Matching, Ended-LinkStep,
}
use moreno_go_moreno_core.World.Trade.Deals.{Payment, step-Result}

-- Of a world in which whoever trades has one partner, another session that trades back, each
-- packet makes such a world, where the links change only as two sessions without a trade are
-- joined or two partners parted.
pub step-Matching :
    (packet : Packet) (w w' : World)
    → Matching (links w)
    → step packet w ≡ some w'
    → LinkStep (links w) (links w') × Matching (links w')
step-Matching packet w w' m e = elim (step-Result packet w w' m e) [
  | inl u ↦ (u.moves, LinkStep-Matching (links w) (links w') u.moves m)
  | inr d ↦
      let l = Ended-LinkStep d.s d.p d.s_trade w w' d.trades d.with_partner d.ends in
      (l, LinkStep-Matching (links w) (links w') l m)
]

-- The worlds that packets make of one in which nobody trades.
pub data Reach : World → Type 0 where
  start : {w : World} → ((i : ℕ) → links w i ≡ none) → Reach w
  next : {w w' : World} (packet : Packet) → Reach w → step packet w ≡ some w' → Reach w'

-- However many packets come from whichever sessions, in a world without a trade at first, whoever
-- trades has one partner, another session that trades back.
pub Reach-Matching : {w : World} → Reach w → Matching (links w)
Reach-Matching (start {w} h) = record {
  linked = λ i e. cc (h i, e);
  returned = λ i j e. absurd (cc (h i, e));
}
Reach-Matching (next {w} {w'} packet r e) = (step-Matching packet w w' (Reach-Matching r) e).1

abbrev money : Option Player → ℕ
money none = 0
money (some p) = p.money

abbrev pub money_at : World → ℕ → ℕ
money_at w i = money (player_of w i)

-- Two sessions of which each has accepted the trade with the other, `s` now and `p` before, and has
-- what it offers.
pub record Deal (w w' : World) (s p : ℕ) : Type 0 where
  pub distinct : s ≢ p
  pub s_trade : PlayerTradeState
  pub p_trade : PlayerTradeState
  pub s_trades : (w.sessions s).trade ≡ some s_trade
  pub p_trades : (w.sessions p).trade ≡ some p_trade
  pub p_accepted : p_trade.accepted ≡ true
  pub s_pays : s_trade.money ≤ money_at w s
  pub p_pays : p_trade.money ≤ money_at w p
  pub s_money : money_at w' s ≡ u32_exchange (money_at w s) s_trade.money p_trade.money
  pub p_money : money_at w' p ≡ u32_exchange (money_at w p) p_trade.money s_trade.money
  pub others : (i : ℕ) → i ≢ s → i ≢ p → money_at w' i ≡ money_at w i

Payment-Deal : (w w' : World) → Matching (links w) → (d : Payment w w') → Deal w w' d.s d.p
Payment-Deal w w' m d =
    let n : d.s ≢ d.p = (m.returned d.s d.p (ap link d.trades ∙ ap some d.with_partner)).0 in
    let (hs, hp, f) = d.paid in
    record {
      distinct = n;
      s_trade = d.s_trade;
      p_trade = d.p_trade;
      s_trades = d.trades;
      p_trades = d.trades_back;
      p_accepted = d.partner_accepted;
      s_pays = rw (d.is_player) hs;
      p_pays = rw (d.is_partner) hp;
      s_money = rw (f d.s, ne→== d.s d.p n, ==_self d.s, d.is_player);
      p_money = rw (f d.p, ==_self d.p, d.is_partner);
      others = λ i a b. rw (f i, ne→== i d.p b, ne→== i d.s a);
    }

-- Where whoever trades has a partner that trades back, a packet changes nobody's money, or it makes
-- the deal of two sessions: the partner had accepted before, both have what they offer, each pays
-- that and gets what the other offers, in words of 32 bits, and nobody else's money changes.
pub step-Deal :
    (packet : Packet) (w w' : World)
    → Matching (links w)
    → step packet w ≡ some w'
    → ((i : ℕ) → money_at w' i ≡ money_at w i) ⊎ ((s : ℕ) × (p : ℕ) × Deal w w' s p)
step-Deal packet w w' m e = elim (step-Result packet w w' m e) [
  | inl u ↦ inl (λ i. ap money (u.players i))
  | inr d ↦ inr (d.s, d.p, Payment-Deal w w' m d)
]

Deal-sum :
    (w w' : World) (s p : ℕ)
    → Deal w w' s p
    → money_at w s < 2 ^ 31
    → money_at w p < 2 ^ 31
    → money_at w' s + money_at w' p ≡ money_at w s + money_at w p
Deal-sum w w' s p d h k = omega (arith, d.s_money, d.p_money, d.s_pays, d.p_pays)

-- Where whoever trades has a partner that trades back and nobody has 2 ^ 31 of money or more, a
-- packet keeps everybody's money, or it keeps what two different sessions have together and the
-- money of all others.
pub step-conserves :
    (packet : Packet) (w w' : World)
    → Matching (links w)
    → ((i : ℕ) → money_at w i < 2 ^ 31)
    → step packet w ≡ some w'
    → ((i : ℕ) → money_at w' i ≡ money_at w i)
      ⊎ ((s : ℕ) × (p : ℕ) × (s ≢ p)
          × (money_at w' s + money_at w' p ≡ money_at w s + money_at w p)
          × ((i : ℕ) → i ≢ s → i ≢ p → money_at w' i ≡ money_at w i))
step-conserves packet w w' m h e = elim (step-Deal packet w w' m e) [
  | inl same ↦ inl same
  | inr (s, p, d) ↦ inr (s, p, d.distinct, Deal-sum w w' s p d (h s) (h p), d.others)
]
