-- ===== src/World/Trade/Offers.antt =====
-- engine/world/trade.go: a change of an offer takes back what both have accepted.
use Prim.Native.Nat.{min}
use moreno_go_moreno_core.Common.{
  ℕ, ◌+◌, ◌^◌, false, ◌<◌, ◌≡◌, ◌≢◌, refl, sym, ap, ◌∙◌, inl, inr, List, [], ◌∷◌, ◌++◌, ltb, ◌==◌,
  if◌then◌else◌, Option, none, some, Bool-cases, Option-cases, length, ==_self, ne→==, ==→eq,
  le→ltb, arith,
}
use moreno_go_moreno_core.Protocol.Buffer.{new_reader, le_bytes, int_limit}
use moreno_go_moreno_core.Protocol.Buffer.Words.{u32-Reads}
use moreno_go_moreno_core.World.Trade.{
  World, Session, Player, PlayerTradeState, TradeSlotItem, put_trade, clear_item, set_item, item_at,
}
use moreno_go_moreno_core.World.Trade.Packets.{send_trade_status, notify_trade_update}
use moreno_go_moreno_core.World.Trade.Handlers.{
  unaccept_own, offer_changed, trading, on_read, set_gold, handle_set_trade_gold,
  handle_clear_trade_item,
}
use moreno_go_moreno_core.World.Trade.Frames.{link, links, notify-sessions}
use moreno_go_moreno_core.World.Trade.Partners.{Matching}
use moreno_go_moreno_core.World.Trade.Requests.{trading-trade}

abbrev pub trade_of : World → ℕ → Option PlayerTradeState
trade_of w i = (w.sessions i).trade

abbrev pub open_again : PlayerTradeState → PlayerTradeState
open_again t = record t { accepted = false }

trade-put_trade :
    (id : ℕ) (t : Option PlayerTradeState) (w : World) (i : ℕ)
    → trade_of (put_trade id t w) i ≡ (if i == id then t else trade_of w i)
unfolding put_trade
trade-put_trade id t w i = elim (Bool-cases (i == id)) [
  | inl q ↦ rw (trade_of, q)
  | inr q ↦ rw (trade_of, q)
]

unaccept_own-trade :
    (s : ℕ) (t : PlayerTradeState) (w : World) (i : ℕ)
    → trade_of w s ≡ some t
    → trade_of (unaccept_own s w) i ≡ (if i == s then some (open_again t) else trade_of w i)
unfolding unaccept_own send_trade_status
unaccept_own-trade s t w i e = elim (Bool-cases t.accepted) [
  | inl a ↦ rw (unaccept_own, e, a) (trade-put_trade s (some (open_again t)) w i)
  | inr a ↦
      rw (unaccept_own, e, a)
        (elim (Bool-cases (i == s)) [
          | inl q ↦ rw (q, ==→eq i s q) (e ∙ λ k. some (record t { accepted = a k }))
          | inr q ↦ rw q
        ])
]

-- Both have to accept again, and all else of the trades is as before.
pub offer_changed-trades :
    (s p : ℕ) (t pt : PlayerTradeState) (w : World) (i : ℕ)
    → trade_of w s ≡ some t
    → t.partner ≡ some p
    → s ≢ p
    → trade_of w p ≡ some pt
    → trade_of (offer_changed s w) i ≡ (
        if i == p
        then some (open_again pt)
        else if i == s
        then some (open_again t)
        else trade_of w i)
unfolding offer_changed
offer_changed-trades s p t pt w i e f n g =
    let own = unaccept_own s w in
    let own_s : trade_of own s ≡ some (open_again t) =
      unaccept_own-trade s t w s e ∙ rw (==_self s) refl in
    let own_p : trade_of own p ≡ some pt =
      unaccept_own-trade s t w p e ∙ rw (ne→== p s (λ q. n (sym q))) g in
    let opened : trade_of (offer_changed s w) i
        ≡ trade_of (notify_trade_update s (unaccept_own p own)) i =
      rw (offer_changed, own_s, f, own_p) in
    opened
    ∙ (ap (λ (h : ℕ → Session). (h i).trade) (notify-sessions s (unaccept_own p own))
        ∙ unaccept_own-trade p pt own i own_p
        ∙ ap (λ (o : Option PlayerTradeState). if i == p then some (open_again pt) else o)
            (unaccept_own-trade s t w i e))

-- The partner's trade, in a world of matched partners.
partner_trade :
    (s p : ℕ) (t : PlayerTradeState) (w : World)
    → Matching (links w)
    → trade_of w s ≡ some t
    → t.partner ≡ some p
    → (s ≢ p) × (pt : PlayerTradeState) × (trade_of w p ≡ some pt)
partner_trade s p t w m e f =
    let r = m.returned s p (ap link e ∙ ap some f) in
    elim (Option-cases (trade_of w p)) [ inl g ↦ absurd (cc (r.1, g)) | inr (pt, g) ↦ (r.0, pt, g) ]

-- The trades after `s` has made an offer `t` to `p`: both have to accept again, and no other trade
-- has changed.
pub record Offered (w w' : World) (s p : ℕ) (t : PlayerTradeState) : Type 0 where
  pub partner_trade : PlayerTradeState
  pub partner_before : trade_of w p ≡ some partner_trade
  pub partner_after : trade_of w' p ≡ some (open_again partner_trade)
  pub own : trade_of w' s ≡ some (open_again t)
  pub others : (i : ℕ) → i ≢ s → i ≢ p → trade_of w' i ≡ trade_of w i

offer-Offered :
    (s p : ℕ) (t t' : PlayerTradeState) (w : World)
    → Matching (links w)
    → trade_of w s ≡ some t
    → t.partner ≡ some p
    → t'.partner ≡ some p
    → Offered w (offer_changed s (put_trade s (some t') w)) s p t'
offer-Offered s p t t' w m e f f' =
    let (n, pt, g) = partner_trade s p t w m e f in
    let u = put_trade s (some t') w in
    let at_s : trade_of u s ≡ some t' = trade-put_trade s (some t') w s ∙ rw (==_self s) refl in
    let at_p : trade_of u p ≡ some pt =
      trade-put_trade s (some t') w p ∙ rw (ne→== p s (λ q. n (sym q))) g in
    let r = λ (i : ℕ). offer_changed-trades s p t' pt u i at_s f' n at_p in
    record {
      partner_trade = pt;
      partner_before = g;
      partner_after = r p ∙ rw (==_self p) refl;
      own = r s ∙ rw (ne→== s p n, ==_self s) refl;
      others = λ i a b.
          r i
          ∙ rw (ne→== i p b, ne→== i s a) (trade-put_trade s (some t') w i ∙ rw (ne→== i s a) refl);
    }

-- A session that trades and sends the packet with an amount of gold offers that, or all its player
-- has if that is less; both have to accept again, the items stay, and no other trade changes.
pub gold_Offered :
    (s p : ℕ) (sp : Player) (t : PlayerTradeState) (w : World) (gold : ℕ) (rest : List ℕ)
    → Matching (links w)
    → trading s w ≡ some (sp, t)
    → t.partner ≡ some p
    → gold < 2 ^ 32
    → 4 + length rest < int_limit
    → Offered w
        (handle_set_trade_gold s (le_bytes 4 gold ++ rest) w).1
        s
        p
        (record t { money = min gold sp.money })
unfolding handle_set_trade_gold set_gold on_read new_reader
gold_Offered s p sp t w gold rest m e f h k =
    let money = if ltb sp.money gold then sp.money else gold in
    let least : money ≡ min gold sp.money = ground arith in
    rw
      (
        handle_set_trade_gold,
        e,
        le→ltb (length (le_bytes 4 gold ++ rest)) 4 (omega arith),
        u32-Reads gold h [] rest k,
        ← least,
      )
      (offer-Offered s p t (record t { money = money }) w m (trading-trade s w sp t e).0 f f)

pub item_at-clear_item :
    (slot k : ℕ) (items : List (ℕ × TradeSlotItem))
    → item_at k (clear_item slot items) ≡ (if k == slot then none else item_at k items)
unfolding item_at clear_item
item_at-clear_item slot k [] = ground arith
item_at-clear_item slot k ((j, it) ∷ items) = ground (arith, item_at-clear_item slot k items)

-- The items that a session offers are a map from the slots: an assignment to a slot is read there
-- and changes no other slot, and a removal empties the slot and changes no other.
pub item_at-changed :
    (slot k : ℕ) (it : TradeSlotItem) (items : List (ℕ × TradeSlotItem))
    → (item_at k (set_item slot it items) ≡ (if k == slot then some it else item_at k items))
      × (item_at k (clear_item slot items) ≡ (if k == slot then none else item_at k items))
unfolding item_at set_item
item_at-changed slot k it items =
    (ground (arith, item_at-clear_item slot k items), item_at-clear_item slot k items)

-- A session that trades and sends the packet that clears a slot no longer offers an item there;
-- both have to accept again, the money and the other slots stay, and no other trade changes.
pub clear_Offered :
    (s p : ℕ) (sp : Player) (t : PlayerTradeState) (w : World) (slot : ℕ) (rest : List ℕ)
    → Matching (links w)
    → trading s w ≡ some (sp, t)
    → t.partner ≡ some p
    → Offered w
        (handle_clear_trade_item s (slot ∷ rest) w).1
        s
        p
        (record t { items = clear_item slot t.items })
unfolding handle_clear_trade_item
clear_Offered s p sp t w slot rest m e f =
    rw (handle_clear_trade_item, e, le→ltb (length (slot ∷ rest)) 1 (omega arith))
      (offer-Offered s p t (record t { items = clear_item slot t.items }) w m
        (trading-trade s w sp t e).0 f f)
