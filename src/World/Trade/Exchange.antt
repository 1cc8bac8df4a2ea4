-- ===== src/World/Trade/Exchange.antt =====
-- engine/world/trade.go, completeTrade: what it leaves of the links and of the players' money.
use moreno_go_moreno_core.Common.{
  ℕ, Bool, true, false, not, ◌||◌, ◌≤◌, ◌≡◌, refl, ◌∙◌, sym, ap, ◌⊎◌, inl, inr, List, [], ◌∷◌, ◌==◌,
  ltb, if◌then◌else◌, Option, none, some, Bool-cases, Option-cases, ==→eq, ltb→le, length,
}
use moreno_go_moreno_core.World.Trade.{
  World, Session, Player, PlayerTradeState, TradeSlotItem, put_trade, put_money,
  status_close_window,
}
use moreno_go_moreno_core.World.Trade.Packets.{send_trade_status}
use moreno_go_moreno_core.World.Trade.Slots.{Environment, TradeSlotLoc, find_free_slots}
use moreno_go_moreno_core.World.Trade.Complete.{
  u32_exchange, end_both, move_items, tell_full, announce, bag_full, transfer_money, finish,
  transfer, complete_with, complete_trade, traded_items,
}
use moreno_go_moreno_core.World.Trade.Frames.{
  link, links, player_of, Quiet, stays, links-put_trade, player-put_trade,
}

abbrev pub SamePlayers : World → World → Type 0
SamePlayers w w' = (i : ℕ) → player_of w' i ≡ player_of w i

-- Two sessions trade no more, the others as before.
abbrev pub Ended : ℕ → ℕ → World → World → Type 0
Ended s p w w' =
    (i : ℕ) → links w' i ≡ (if i == p then none else if i == s then none else links w i)

-- Each of two players has paid what the own trade offers, which there was, and got the other's.
abbrev pub Paid :
    ℕ → ℕ → Player → Player → PlayerTradeState → PlayerTradeState → World → World → Type 0
Paid s p sp pp st pt w w' =
    (st.money ≤ sp.money)
    × (pt.money ≤ pp.money)
    × ((i : ℕ)
        → player_of w' i ≡ (
            if i == p
            then some (record pp { money = u32_exchange pp.money pt.money st.money })
            else if i == s
            then some (record sp { money = u32_exchange sp.money st.money pt.money })
            else player_of w i))

pub end_both-Ended :
    (s p : ℕ) (w : World) → Ended s p w (end_both s p w) × SamePlayers w (end_both s p w)
unfolding end_both
end_both-Ended s p w = (
  λ i.
      links-put_trade p none (put_trade s none w) i
      ∙ ap (λ (l : Option (Option ℕ)). if i == p then none else l) (links-put_trade s none w i),
  λ i. player-put_trade p none (put_trade s none w) i ∙ player-put_trade s none w i,
)

player-put_money :
    (id : ℕ) (p : Player) (n : ℕ) (w : World) (i : ℕ)
    → player_of (put_money id p n w) i
      ≡ (if i == id then some (record p { money = n }) else player_of w i)
unfolding put_money
player-put_money id p n w i = elim (Bool-cases (i == id)) [
  | inl q ↦ rw (player_of, q)
  | inr q ↦ rw (player_of, q)
]

links-put_money :
    (id : ℕ) (p : Player) (n : ℕ) (w : World) (i : ℕ) → links (put_money id p n w) i ≡ links w i
unfolding put_money
links-put_money id p n w i = elim (Bool-cases (i == id)) [
  | inl q ↦ rw (links, q) (ap (links w) (sym (==→eq i id q)))
  | inr q ↦ rw (links, q)
]

move_items-sessions :
    (giver guid : ℕ) (items : List TradeSlotItem) (locs : List TradeSlotLoc) (w w' : World)
    → move_items giver guid items locs w ≡ some w'
    → w'.sessions ≡ w.sessions
unfolding move_items
move_items-sessions giver guid [] locs w w' e = cc e
move_items-sessions giver guid (it ∷ items) [] w w' e = cc e
move_items-sessions giver guid (it ∷ items) (loc ∷ locs) w w' e =
    move_items-sessions giver guid items locs _ w' e

-- The end of a trade after what is only sent or stored.
pub end-Ended :
    (s p : ℕ) (u w : World)
    → u.sessions ≡ w.sessions
    → Ended s p w (end_both s p u) × SamePlayers w (end_both s p u)
end-Ended s p u w e = (
  λ i.
      (end_both-Ended s p u).0 i
      ∙ ap (λ (f : ℕ → Session). if i == p then none else if i == s then none else link (f i).trade)
          e,
  λ i. (end_both-Ended s p u).1 i ∙ ap (λ (f : ℕ → Session). (f i).player) e,
)

tell_full-sessions :
    (s p : ℕ) (ok1 : Bool) (w : World) → (tell_full s p ok1 w).sessions ≡ w.sessions
unfolding tell_full send_trade_status
tell_full-sessions s p true w = refl
tell_full-sessions s p false w = refl

bag_full-Ended :
    (s p : ℕ) (ok1 : Bool) (w : World)
    → Ended s p w (bag_full s p ok1 w) × SamePlayers w (bag_full s p ok1 w)
unfolding bag_full
bag_full-Ended s p ok1 w = end-Ended s p (tell_full s p ok1 w) w (tell_full-sessions s p ok1 w)

announce-sessions : (s p : ℕ) (w : World) → (announce s p w).sessions ≡ w.sessions
unfolding announce send_trade_status
announce-sessions s p w = refl

-- The money moves, and all that is sent behind it keeps the sessions.
module _ (s p : ℕ) (sp pp : Player) (st pt : PlayerTradeState) (w : World) where
  paid : World
  paid = transfer_money s p sp pp st pt w

  paid-links : (i : ℕ) → links paid i ≡ links w i
  unfolding paid transfer_money
  paid-links i =
      links-put_money p pp _ (put_money s sp (u32_exchange sp.money st.money pt.money) w) i
      ∙ links-put_money s sp _ w i

  paid-players : st.money ≤ sp.money → pt.money ≤ pp.money → Paid s p sp pp st pt w paid
  unfolding paid transfer_money
  paid-players h k = (
    h,
    k,
    λ i.
        player-put_money p pp _ (put_money s sp (u32_exchange sp.money st.money pt.money) w) i
        ∙ ap
            (λ (o : Option Player).
              if i == p
              then some (record pp { money = u32_exchange pp.money pt.money st.money })
              else o)
            (player-put_money s sp (u32_exchange sp.money st.money pt.money) w i),
  )

-- The world at the end of a transfer.
transfer-Ended :
    (s p : ℕ) (u w' : World) (s_items p_items : List TradeSlotItem)
    (s_slots p_slots : List TradeSlotLoc)
    → transfer s p s_items p_items s_slots p_slots u ≡ some w'
    → Ended s p u w' × SamePlayers u w'
unfolding transfer finish
transfer-Ended s p u w' s_items p_items s_slots p_slots e =
    let first = move_items s (u.sessions p).player_guid s_items p_slots u in
    elim (Option-cases first) [
      | inl q ↦ absurd (let r = rw (transfer, q) at e in cc r)
      | inr (w1, q) ↦
          let second = move_items p (w1.sessions s).player_guid p_items s_slots w1 in
          elim (Option-cases second) [
            | inl r ↦ absurd (let z = rw (transfer, q, r) at e in cc z)
            | inr (w2, r) ↦
                let z : some (finish s p w2) ≡ some w' = rw (transfer, q, r) at e in
                let k : finish s p w2 ≡ w' = cc z in
                rw (← k) (
                  end-Ended s p (announce s p w2) u (
                    announce-sessions s p w2
                    ∙ move_items-sessions p _ p_items s_slots w1 w2 r
                    ∙ move_items-sessions s _ s_items p_slots u w1 q))
          ]
    ]

-- What an attempt to make the trade does: nothing, or it ends the trade, with or without the
-- exchange of the money.
abbrev pub Attempted :
    ℕ → ℕ → Player → Player → PlayerTradeState → PlayerTradeState → World → World → Type 0
Attempted s p sp pp st pt w w' =
    Quiet w w' ⊎ (Ended s p w w' × (SamePlayers w w' ⊎ Paid s p sp pp st pt w w'))

module _ (s p : ℕ) (sp pp : Player) (st pt : PlayerTradeState) (w w' : World) where
  pub transfer-Paid :
      (s_items p_items : List TradeSlotItem) (s_slots p_slots : List TradeSlotLoc)
      → st.money ≤ sp.money
      → pt.money ≤ pp.money
      → transfer s p s_items p_items s_slots p_slots (transfer_money s p sp pp st pt w) ≡ some w'
      → Paid s p sp pp st pt w w'
  unfolding paid
  transfer-Paid s_items p_items s_slots p_slots h k e =
      let u = paid s p sp pp st pt w in
      let t = transfer-Ended s p u w' s_items p_items s_slots p_slots e in
      let m = paid-players s p sp pp st pt w h k in (h, k, λ i. t.1 i ∙ m.2 i)

  transfer_paid :
      (s_items p_items : List TradeSlotItem) (s_slots p_slots : List TradeSlotLoc)
      → st.money ≤ sp.money
      → pt.money ≤ pp.money
      → transfer s p s_items p_items s_slots p_slots (transfer_money s p sp pp st pt w) ≡ some w'
      → Attempted s p sp pp st pt w w'
  unfolding paid
  transfer_paid s_items p_items s_slots p_slots h k e =
      let u = paid s p sp pp st pt w in
      let t = transfer-Ended s p u w' s_items p_items s_slots p_slots e in
      inr (
        (λ i.
            t.0 i
            ∙ ap (λ (l : Option (Option ℕ)). if i == p then none else if i == s then none else l)
                (paid-links s p sp pp st pt w i)),
        inr (transfer-Paid s_items p_items s_slots p_slots h k e),
      )

  poor_Attempted :
      some (
          end_both s p (
            send_trade_status p status_close_window 0 0 0 0
              (send_trade_status s status_close_window 0 0 0 0 w)))
        ≡ some w'
      → Attempted s p sp pp st pt w w'
  unfolding send_trade_status
  poor_Attempted z =
      let u : World =
        send_trade_status p status_close_window 0 0 0 0
          (send_trade_status s status_close_window 0 0 0 0 w) in
      let r = end-Ended s p u w refl in
      let k : end_both s p u ≡ w' = cc z in inr (rw (← k) (r.0, inl r.1))

  complete_with-Attempted :
      (s_items p_items : List TradeSlotItem) (s_slots p_slots : List TradeSlotLoc × Bool)
      → complete_with s p sp pp st pt s_items p_items s_slots p_slots w ≡ some w'
      → Attempted s p sp pp st pt w w'
  unfolding complete_with
  complete_with-Attempted s_items p_items s_slots p_slots e =
      elim (Bool-cases (not p_slots.1 || not s_slots.1)) [
        | inl b ↦
            let z : some (bag_full s p p_slots.1 w) ≡ some w' = rw (complete_with, b) at e in
            let k : bag_full s p p_slots.1 w ≡ w' = cc z in
            let r = bag_full-Ended s p p_slots.1 w in inr (rw (← k) (r.0, inl r.1))
        | inr b ↦ elim (Bool-cases (ltb sp.money st.money)) [
          | inl m ↦ poor_Attempted (rw (complete_with, b, m) at e)
          | inr m ↦ elim (Bool-cases (ltb pp.money pt.money)) [
            | inl n ↦ poor_Attempted (rw (complete_with, b, m, n) at e)
            | inr n ↦
                transfer_paid s_items p_items s_slots.0 p_slots.0 (ltb→le sp.money st.money m)
                  (ltb→le pp.money pt.money n) (rw (complete_with, b, m, n) at e)
          ]
        ]
      ]

  pub complete-Attempted :
      (env : Environment)
      → complete_trade env s p sp pp st pt w ≡ some w'
      → Attempted s p sp pp st pt w w'
  unfolding complete_trade
  complete-Attempted env =
      let s_items = traded_items (env.item_order st.items) in
      let p_items = traded_items (env.item_order pt.items) in
      from env.has_db _ (
        complete_with-Attempted s_items p_items
          (find_free_slots env (w.sessions s).player_guid (length p_items))
          (find_free_slots env (w.sessions p).player_guid (length s_items)))
    where
      from :
          (d : Bool) (o : Option World)
          → (o ≡ some w' → Attempted s p sp pp st pt w w')
          → (if not d then some w else o) ≡ some w'
          → Attempted s p sp pp st pt w w'
      from false o k e = let q : w ≡ w' = cc e in inl (rw (← q) (stays w))
      from true o k e = k e
