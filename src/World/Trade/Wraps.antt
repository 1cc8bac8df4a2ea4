-- ===== src/World/Trade/Wraps.antt =====
-- engine/world/trade.go, handleAcceptTrade and completeTrade: a trade that is made, and money that does
-- not fit into 32 bits.
use moreno_go_moreno_core.Common.{
  ℕ, Bool, true, false, refl, if-false, if-true, not, ◌||◌, ◌+◌, ◌-◌, ◌^◌, ◌≡◌, ◌≢◌, ◌≤◌, ◌<◌, ◌∙◌,
  sym, ap, ltb, le→ltb, Bool-cases, ==→eq, inl, inr, ◌==◌, ==_self, ne→==, if◌then◌else◌, Option,
  some, length, arith,
}
use moreno_go_moreno_core.World.Trade.{
  World, Player, PlayerTradeState, put_trade, status_trade_accept,
}
use moreno_go_moreno_core.World.Trade.Packets.{send_trade_status}
use moreno_go_moreno_core.World.Trade.Slots.{Environment, find_free_slots}
use moreno_go_moreno_core.World.Trade.Complete.{
  traded_items, complete_with, complete_trade, u32_exchange,
}
use moreno_go_moreno_core.World.Trade.Handlers.{plain_status, trading}
use moreno_go_moreno_core.World.Trade.Answers.{
  accept_near, accept_with, handle_accept_trade, accept_trade, step,
}
use moreno_go_moreno_core.World.Trade.Frames.{link, links, player_of}
use moreno_go_moreno_core.World.Trade.Exchange.{Paid, transfer-Paid}
use moreno_go_moreno_core.World.Trade.Deals.{told_trade}
use moreno_go_moreno_core.World.Trade.Partners.{Matching}
use moreno_go_moreno_core.World.Trade.Requests.{trading-trade}
use moreno_go_moreno_core.World.Trade.Money.{money_at}
use moreno_go_moreno_core.World.Trade.Total.{step-Returns}

else_of : (b : Bool) (x y o : Option World) → b ≡ false → (if b then x else y) ≡ o → y ≡ o
else_of b x y o f e = sym (if-false b x y f) ∙ e

both_found : (a b : Bool) → a ≡ true → b ≡ true → (not a || not b) ≡ false
both_found a b e f = rw (e, f) refl

both_pay : (a b c d : ℕ) → b ≤ a → d ≤ c → (ltb a b || ltb c d) ≡ false
both_pay a b c d h k = rw (le→ltb a b h, le→ltb c d k) refl

module _ (env : Environment) (s p : ℕ) (sp pp : Player) (st pt : PlayerTradeState) where
  -- There are places for the items of both.
  abbrev pub Room : World → Type 0
  Room w =
      ((find_free_slots env (w.sessions p).player_guid
          (length (traded_items (env.item_order st.items)))).1
        ≡ true)
      × ((find_free_slots env (w.sessions s).player_guid
            (length (traded_items (env.item_order pt.items)))).1
          ≡ true)

  complete-Paid :
      (u w' : World)
      → env.has_db ≡ true
      → Room u
      → st.money ≤ sp.money
      → pt.money ≤ pp.money
      → complete_trade env s p sp pp st pt u ≡ some w'
      → Paid s p sp pp st pt u w'
  unfolding complete_trade complete_with
  complete-Paid u w' d (rp, rs) h k e =
      let made = else_of (not env.has_db) _ _ _ (rw d refl) e in
      let roomy = else_of _ _ _ _ (both_found _ _ rp rs) made in
      let z = else_of _ _ _ _ (both_pay _ _ _ _ h k) roomy in
      let s_items = traded_items (env.item_order st.items) in
      let p_items = traded_items (env.item_order pt.items) in
      transfer-Paid s p sp pp st pt u w' s_items p_items
        (find_free_slots env (u.sessions s).player_guid (length p_items)).0
        (find_free_slots env (u.sessions p).player_guid (length s_items)).0 h k z

  -- The world once the acceptance is told to the partner.
  told : World → World
  told w = plain_status p status_trade_accept (put_trade s (some (record st { accepted = true })) w)

  accepted-Paid :
      (w w' : World)
      → s ≢ p
      → trading s w ≡ some (sp, st)
      → st.partner ≡ some p
      → player_of w p ≡ some pp
      → (w.sessions p).trade ≡ some pt
      → pt.accepted ≡ true
      → (not (sp.map == pp.map) || env.is_far s p) ≡ false
      → step (accept_trade env s) w ≡ some w'
      → complete_trade env s p sp pp (record st { accepted = true }) pt (told w) ≡ some w'
  unfolding told step handle_accept_trade accept_with accept_near
  accepted-Paid w w' n t g q b a c e =
      let e1 = rw (handle_accept_trade, t, g) at e in
      let e2 = rw (accept_with, q) at e1 in
      let e3 = else_of _ _ _ _ c e2 in
      let k : ((told w).sessions p).trade ≡ some pt =
        told_trade s p (some (record st { accepted = true })) w n ∙ b in
      let e4 = rw (accept_near, k) at e3 in sym (if-true pt.accepted _ _ a) ∙ e4

  told-guid : (w : World) (i : ℕ) → ((told w).sessions i).player_guid ≡ (w.sessions i).player_guid
  unfolding told put_trade send_trade_status
  told-guid w i = elim (Bool-cases (i == s)) [
    | inl q ↦ rw (told, q) (ap (λ (j : ℕ). (w.sessions j).player_guid) (sym (==→eq i s q)))
    | inr q ↦ rw (told, q) refl
  ]

  told-Room : (w : World) → Room w → Room (told w)
  told-Room w r = rw (told-guid w p, told-guid w s) r

-- Nothing stops a trade that brings the player who accepts it last to 2 ^ 32 of money or more: that
-- player then has 2 ^ 32 less than is due, which is the own money less what is offered, with what the
-- partner offers. `s` accepts a trade with `p` that `p` has accepted, on the same map and not too far
-- away, the database is there, there are places for the items of both, and each has what is offered.
-- Whoever trades has a partner that trades back, and moneys are words of 32 bits.
pub accept_trade-wraps :
    (env : Environment) (s p : ℕ) (sp pp : Player) (st pt : PlayerTradeState) (w : World)
    → Matching (links w)
    → trading s w ≡ some (sp, st)
    → st.partner ≡ some p
    → player_of w p ≡ some pp
    → (w.sessions p).trade ≡ some pt
    → pt.accepted ≡ true
    → (not (sp.map == pp.map) || env.is_far s p) ≡ false
    → env.has_db ≡ true
    → Room env s p sp pp st pt w
    → st.money ≤ sp.money
    → pt.money ≤ pp.money
    → sp.money < 2 ^ 32
    → pt.money < 2 ^ 32
    → 2 ^ 32 ≤ sp.money - st.money + pt.money
    → (w' : World) × (step (accept_trade env s) w ≡ some w')
      × (money_at w' s + 2 ^ 32 ≡ money_at w s - st.money + pt.money)
accept_trade-wraps env s p sp pp st pt w m t g q b a c d r h k l l' o =
    let (w', e) = step-Returns (accept_trade env s) w in
    let own = trading-trade s w sp st t in
    let n : s ≢ p = (m.returned s p (ap link own.0 ∙ ap some g)).0 in
    let mine : PlayerTradeState = record st { accepted = true } in
    let made = accepted-Paid env s p sp pp st pt w w' n t g q b a c e in
    let paid =
      complete-Paid env s p sp pp mine pt (told env s p sp pp st pt w) w' d
        (told-Room env s p sp pp st pt w r) h k made in
    let mone : money_at w' s ≡ u32_exchange sp.money st.money pt.money =
      rw (paid.2 s, ne→== s p n, ==_self s) in
    let before : money_at w s ≡ sp.money = rw own.1 in (w', e, omega (arith, mone, before))
