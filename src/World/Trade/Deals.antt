-- ===== src/World/Trade/Deals.antt =====
-- engine/world/trade.go: what a packet does to the links and to the players' money.
use moreno_go_moreno_core.Common.{
  ℕ, Bool, true, false, not, ◌||◌, ◌≡◌, ◌≢◌, refl, ◌∙◌, sym, ap, ◌⊎◌, inl, inr, ◌==◌, if◌then◌else◌,
  Option, none, some, Bool-cases, Option-cases, ne→==,
}
use moreno_go_moreno_core.World.Trade.{
  World, Player, PlayerTradeState, put_trade, status_target_too_far, status_trade_accept,
  status_trade_canceled,
}
use moreno_go_moreno_core.World.Trade.Packets.{send_trade_status}
use moreno_go_moreno_core.World.Trade.Slots.{Environment}
use moreno_go_moreno_core.World.Trade.Complete.{u32_exchange}
use moreno_go_moreno_core.World.Trade.Handlers.{plain_status, trading}
use moreno_go_moreno_core.World.Trade.Answers.{
  too_far, accept_near, accept_with, handle_accept_trade, unaccept, handle_unaccept_trade,
  handle_cancel_trade, Packet, initiate_trade, set_trade_item, set_trade_gold, clear_trade_item,
  begin_trade, unaccept_trade, cancel_trade, accept_trade, step,
}
use moreno_go_moreno_core.World.Trade.Frames.{
  link, links, player_of, Quiet, stays, then_Quiet, links-put_trade, player-put_trade,
  put_trade-Quiet,
}
use moreno_go_moreno_core.World.Trade.Exchange.{
  SamePlayers, Ended, Paid, Attempted, complete-Attempted, end-Ended,
}
use moreno_go_moreno_core.World.Trade.Partners.{
  Matching, part, Unpaid, Quiet-Unpaid, Ended-LinkStep,
}
use moreno_go_moreno_core.World.Trade.Requests.{
  trading-trade, initiate-Unpaid, begin-Unpaid, gold-Unpaid, item-Unpaid, clear-Unpaid,
}

-- The exchange between two players of which both have accepted: `s` by this packet, `p` before it.
pub record Payment (w w' : World) : Type 0 where
  pub s : ℕ
  pub p : ℕ
  pub s_player : Player
  pub p_player : Player
  pub s_trade : PlayerTradeState
  pub p_trade : PlayerTradeState
  pub is_player : player_of w s ≡ some s_player
  pub is_partner : player_of w p ≡ some p_player
  pub trades : (w.sessions s).trade ≡ some s_trade
  pub with_partner : s_trade.partner ≡ some p
  pub trades_back : (w.sessions p).trade ≡ some p_trade
  pub partner_accepted : p_trade.accepted ≡ true
  pub ends : Ended s p w w'
  pub paid : Paid s p s_player p_player s_trade p_trade w w'

abbrev pub Result : World → World → Type 0
Result w w' = Unpaid w w' ⊎ Payment w w'

-- What is put before a step that leaves links and players as they are.
after_Ended : (s p : ℕ) (w u w' : World) → Quiet w u → Ended s p u w' → Ended s p w w'
after_Ended s p w u w' q h i =
    h i
    ∙ ap (λ (l : Option (Option ℕ)). if i == p then none else if i == s then none else l) (q i).0

after_Same : (w u w' : World) → Quiet w u → SamePlayers u w' → SamePlayers w w'
after_Same w u w' q h i = h i ∙ (q i).1

after_Paid :
    (s p : ℕ) (sp pp : Player) (st pt : PlayerTradeState) (w u w' : World)
    → Quiet w u
    → Paid s p sp pp st pt u w'
    → Paid s p sp pp st pt w w'
after_Paid s p sp pp st pt w u w' q (h, k, f) = (
  h,
  k,
  λ i.
      f i
      ∙ ap
          (λ (o : Option Player).
            if i == p
            then some (record pp { money = u32_exchange pp.money pt.money st.money })
            else if i == s
            then some (record sp { money = u32_exchange sp.money st.money pt.money })
            else o)
          (q i).1,
)

pub told_trade :
    (s p : ℕ) (t : Option PlayerTradeState) (w : World)
    → s ≢ p
    → ((put_trade s t w).sessions p).trade ≡ (w.sessions p).trade
unfolding put_trade
told_trade s p t w n = rw (ne→== p s (λ q. n (sym q)))

module _ (env : Environment) (s p : ℕ) (sp : Player) (t : PlayerTradeState) (w w' : World)
    (trades : (w.sessions s).trade ≡ some t) (partner : t.partner ≡ some p)
    (player : player_of w s ≡ some sp) (m : Matching (links w)) where
  distinct : s ≢ p
  distinct = (m.returned s p (ap link trades ∙ ap some partner)).0

  mine : PlayerTradeState
  mine = record t { accepted = true }

  told : World
  told = plain_status p status_trade_accept (put_trade s (some mine) w)

  told-Quiet : Quiet w told
  unfolding told send_trade_status mine
  told-Quiet = put_trade-Quiet s t mine w trades refl

  too_far-Unpaid : Unpaid w (too_far s p w)
  unfolding too_far send_trade_status
  too_far-Unpaid =
      let r =
        end-Ended s p
          (plain_status p status_target_too_far (plain_status s status_target_too_far w)) w refl in
      record { moves = Ended-LinkStep s p t w (too_far s p w) trades partner r.0; players = r.1 }

  attempted-Result :
      (pp : Player) (pt : PlayerTradeState)
      → player_of w p ≡ some pp
      → (told.sessions p).trade ≡ some pt
      → pt.accepted ≡ true
      → Attempted s p sp pp mine pt told w'
      → Result w w'
  unfolding told send_trade_status mine
  attempted-Result pp pt q b a (inl k) = inl (Quiet-Unpaid w w' (then_Quiet w told w' told-Quiet k))
  attempted-Result pp pt q b a (inr (e, inl k)) = inl (record {
    moves = Ended-LinkStep s p t w w' trades partner (after_Ended s p w told w' told-Quiet e);
    players = after_Same w told w' told-Quiet k;
  })
  attempted-Result pp pt q b a (inr (e, inr k)) = inr (record {
    s = s;
    p = p;
    s_player = sp;
    p_player = pp;
    s_trade = t;
    p_trade = pt;
    is_player = player;
    is_partner = q;
    trades = trades;
    with_partner = partner;
    trades_back = sym (told_trade s p (some mine) w distinct) ∙ b;
    partner_accepted = a;
    ends = after_Ended s p w told w' told-Quiet e;
    paid = after_Paid s p sp pp t pt w told w' told-Quiet k;
  })

  near-Result :
      (pp : Player)
      → player_of w p ≡ some pp
      → accept_near env s p sp pp t w ≡ some w'
      → Result w w'
  unfolding accept_near told mine
  near-Result pp q e = elim (Option-cases ((told.sessions p).trade)) [
    | inl f ↦
        let z : some told ≡ some w' = rw (accept_near, f) at e in
        let k : told ≡ w' = cc z in inl (Quiet-Unpaid w w' (rw (← k) told-Quiet))
    | inr (pt, f) ↦
        if_accepted pt.accepted _
          (λ a z. attempted-Result pp pt q f a (complete-Attempted s p sp pp mine pt told w' env z))
          (rw (accept_near, f) at e)
  ]
    where
      if_accepted :
          (b : Bool) (o : Option World)
          → (b ≡ true → o ≡ some w' → Result w w')
          → (if b then o else some told) ≡ some w'
          → Result w w'
      if_accepted true o k z = k refl z
      if_accepted false o k z =
          let r : told ≡ w' = cc z in inl (Quiet-Unpaid w w' (rw (← r) told-Quiet))

  with-Result : accept_with env s p sp t w ≡ some w' → Result w w'
  unfolding accept_with
  with-Result e = elim (Option-cases ((w.sessions p).player)) [
    | inl f ↦
        let z : some (too_far s p w) ≡ some w' = rw (accept_with, f) at e in
        let k : too_far s p w ≡ w' = cc z in inl (rw (← k) too_far-Unpaid)
    | inr (pp, f) ↦ elim (Bool-cases (not (sp.map == pp.map) || env.is_far s p)) [
      | inl d ↦
          let z : some (too_far s p w) ≡ some w' = rw (accept_with, f, d) at e in
          let k : too_far s p w ≡ w' = cc z in inl (rw (← k) too_far-Unpaid)
      | inr d ↦ near-Result pp f (rw (accept_with, f, d) at e)
    ]
  ]

accept-Result :
    (env : Environment) (s : ℕ) (w w' : World)
    → Matching (links w)
    → handle_accept_trade env s w ≡ some w'
    → Result w w'
unfolding handle_accept_trade
accept-Result env s w w' m e = elim (Option-cases (trading s w)) [
  | inl f ↦
      let z : some w ≡ some w' = rw (handle_accept_trade, f) at e in
      let k : w ≡ w' = cc z in inl (Quiet-Unpaid w w' (rw (← k) (stays w)))
  | inr ((sp, t), f) ↦
      let r = trading-trade s w sp t f in
      elim (Option-cases t.partner) [
        | inl g ↦
            let z : some w ≡ some w' = rw (handle_accept_trade, f, g) at e in
            let k : w ≡ w' = cc z in inl (Quiet-Unpaid w w' (rw (← k) (stays w)))
        | inr (p, g) ↦
            with-Result env s p sp t w w' r.0 g r.1 m (rw (handle_accept_trade, f, g) at e)
      ]
]

unaccept_one-Quiet :
    (s : ℕ) (t : PlayerTradeState) (w : World)
    → (w.sessions s).trade ≡ some t
    → Quiet w (unaccept s t w)
unfolding unaccept send_trade_status
unaccept_one-Quiet s t w e = put_trade-Quiet s t (record t { accepted = false }) w e refl

unaccept-Unpaid : (s : ℕ) (w : World) → Unpaid w (handle_unaccept_trade s w)
unfolding handle_unaccept_trade
unaccept-Unpaid s w = elim (Option-cases (trading s w)) [
  | inl f ↦ rw (handle_unaccept_trade, f) (Quiet-Unpaid w w (stays w))
  | inr ((sp, t), f) ↦
      let own = unaccept s t w in
      let q = unaccept_one-Quiet s t w (trading-trade s w sp t f).0 in
      elim (Option-cases t.partner) [
        | inl g ↦ rw (handle_unaccept_trade, f, g) (Quiet-Unpaid w own q)
        | inr (p, g) ↦ elim (Option-cases ((own.sessions p).trade)) [
          | inl h ↦ rw (handle_unaccept_trade, f, g, h) (Quiet-Unpaid w own q)
          | inr (pt, h) ↦
              rw (handle_unaccept_trade, f, g, h)
                (Quiet-Unpaid w (unaccept p pt own)
                  (then_Quiet w own (unaccept p pt own) q (unaccept_one-Quiet p pt own h)))
        ]
      ]
]

cancel-Unpaid : (s : ℕ) (w : World) → Matching (links w) → Unpaid w (handle_cancel_trade s w)
unfolding handle_cancel_trade send_trade_status
cancel-Unpaid s w m = elim (Option-cases (trading s w)) [
  | inl f ↦ rw (handle_cancel_trade, f) (Quiet-Unpaid w w (stays w))
  | inr ((sp, t), f) ↦
      let e = (trading-trade s w sp t f).0 in
      let own = put_trade s none (plain_status s status_trade_canceled w) in
      elim (Option-cases t.partner) [
        | inl g ↦ absurd (m.linked s (ap link e ∙ ap some g))
        | inr (p, g) ↦
            rw (handle_cancel_trade, f, g)
              (record {
                moves = part s p (ap link e ∙ ap some g) (λ i.
                    links-put_trade p none own i
                    ∙ ap (λ (l : Option (Option ℕ)). if i == p then none else l)
                        (links-put_trade s none (plain_status s status_trade_canceled w) i));
                players = λ i.
                    player-put_trade p none own i
                    ∙ player-put_trade s none (plain_status s status_trade_canceled w) i;
              })
      ]
]

unpaid-Result : (u w w' : World) → Unpaid w u → some u ≡ some w' → Result w w'
unpaid-Result u w w' q e = let k : u ≡ w' = cc e in inl (rw (← k) q)

-- A packet either moves no money, and joins or parts two sessions at most, or it is the second of
-- the two that accept a trade.
pub step-Result :
    (packet : Packet) (w w' : World) → Matching (links w) → step packet w ≡ some w' → Result w w'
unfolding step
step-Result (initiate_trade env s payload) w w' m e =
    unpaid-Result _ w w' (initiate-Unpaid env s payload w) e
step-Result (set_trade_item env s payload) w w' m e =
    unpaid-Result _ w w' (item-Unpaid env s payload w) e
step-Result (set_trade_gold s payload) w w' m e = unpaid-Result _ w w' (gold-Unpaid s payload w) e
step-Result (clear_trade_item s payload) w w' m e =
    unpaid-Result _ w w' (clear-Unpaid s payload w) e
step-Result (begin_trade s) w w' m e = unpaid-Result _ w w' (begin-Unpaid s w) e
step-Result (unaccept_trade s) w w' m e = unpaid-Result _ w w' (unaccept-Unpaid s w) e
step-Result (cancel_trade s) w w' m e = unpaid-Result _ w w' (cancel-Unpaid s w m) e
step-Result (accept_trade env s) w w' m e = accept-Result env s w w' m e
