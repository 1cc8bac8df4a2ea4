-- ===== src/World/Trade/Total.antt =====
-- engine/world/trade.go: no packet of a trade makes the server panic.
use moreno_go_moreno_core.Common.{
  ℕ, Bool, true, false, not, ◌||◌, ◌≤◌, ◌≡◌, refl, inl, inr, List, [], ◌∷◌, ltb, ◌==◌,
  if◌then◌else◌, Option, some, Option-cases, length, arith, leb→le, sym, ap, ◌∙◌, length-take_le,
}
use moreno_go_moreno_core.World.Trade.{
  World, Player, PlayerTradeState, TradeSlotItem, put_trade, status_trade_accept,
}
use moreno_go_moreno_core.World.Trade.Slots.{Environment, TradeSlotLoc, find_free_slots}
use moreno_go_moreno_core.World.Trade.Complete.{
  traded_items, move_items, transfer, transfer_money, complete_with, complete_trade, finish,
}
use moreno_go_moreno_core.World.Trade.Handlers.{plain_status, trading}
use moreno_go_moreno_core.World.Trade.Answers.{
  too_far, accept_near, accept_with, handle_accept_trade, Packet, initiate_trade, set_trade_item,
  set_trade_gold, clear_trade_item, begin_trade, unaccept_trade, cancel_trade, accept_trade, step,
}
use moreno_go_moreno_core.World.Trade.Places.{first_of, free, player_places, find_free_slots-first}

abbrev pub Returns : Option World → Type 0
Returns o = (w : World) × (o ≡ some w)

returns : (w : World) → Returns (some w)
returns w = (w, refl)

if-Returns :
    (b : Bool) (o q : Option World)
    → Returns o
    → (b ≡ false → Returns q)
    → Returns (if b then o else q)
if-Returns true o q h k = h
if-Returns false o q h k = k refl

move_items-Returns :
    (giver guid : ℕ) (items : List TradeSlotItem) (locs : List TradeSlotLoc) (w : World)
    → length items ≤ length locs
    → Returns (move_items giver guid items locs w)
unfolding move_items
move_items-Returns giver guid [] locs w h = returns w
move_items-Returns giver guid (it ∷ items) [] w h = absurd (omega arith)
move_items-Returns giver guid (it ∷ items) (loc ∷ locs) w h =
    move_items-Returns giver guid items locs _ (omega arith)

transfer-Returns :
    (s p : ℕ) (s_items p_items : List TradeSlotItem) (s_slots p_slots : List TradeSlotLoc)
    (w : World)
    → length s_items ≤ length p_slots
    → length p_items ≤ length s_slots
    → Returns (transfer s p s_items p_items s_slots p_slots w)
unfolding transfer
transfer-Returns s p s_items p_items s_slots p_slots w h k =
    let (w1, e1) = move_items-Returns s (w.sessions p).player_guid s_items p_slots w h in
    let (w2, e2) = move_items-Returns p (w1.sessions s).player_guid p_items s_slots w1 k in
    rw (transfer, e1, e2) (returns (finish s p w2))

complete_with-Returns :
    (s p : ℕ) (sp pp : Player) (st pt : PlayerTradeState) (s_items p_items : List TradeSlotItem)
    (s_slots p_slots : List TradeSlotLoc × Bool) (w : World)
    → (p_slots.1 ≡ true → length s_items ≤ length p_slots.0)
    → (s_slots.1 ≡ true → length p_items ≤ length s_slots.0)
    → Returns (complete_with s p sp pp st pt s_items p_items s_slots p_slots w)
unfolding complete_with
complete_with-Returns s p sp pp st pt s_items p_items (sl, sb) (pl, pb) w h k =
    if-Returns (not pb || not sb) _ _ (returns _) (λ b.
      if-Returns (ltb sp.money st.money || ltb pp.money pt.money) _ _ (returns _) (λ _.
        transfer-Returns s p s_items p_items sl pl (transfer_money s p sp pp st pt w)
          (h (ground arith)) (k (ground arith))))

enough :
    (n : ℕ) (all : List TradeSlotLoc) (r : List TradeSlotLoc × Bool)
    → r ≡ first_of n all
    → r.1 ≡ true
    → n ≤ length r.0
enough n all r f e =
    let most : n ≤ length all =
      leb→le n (length all) (sym (ap (λ (o : List TradeSlotLoc × Bool). o.1) f) ∙ e) in
    rw f (omega (arith, length-take_le n all most))

complete-Returns :
    (env : Environment) (s p : ℕ) (sp pp : Player) (st pt : PlayerTradeState) (w : World)
    → Returns (complete_trade env s p sp pp st pt w)
unfolding complete_trade
complete-Returns env s p sp pp st pt w =
    let s_items = traded_items (env.item_order st.items) in
    let p_items = traded_items (env.item_order pt.items) in
    let p_guid = (w.sessions p).player_guid in
    let s_guid = (w.sessions s).player_guid in
    if-Returns (not env.has_db) _ _ (returns w) (λ d.
      complete_with-Returns s p sp pp st pt s_items p_items
        (find_free_slots env s_guid (length p_items)) (find_free_slots env p_guid (length s_items))
        w
        (enough (length s_items) (free env p_guid (player_places env p_guid)) _
          (find_free_slots-first env p_guid (length s_items) (ground arith)))
        (enough (length p_items) (free env s_guid (player_places env s_guid)) _
          (find_free_slots-first env s_guid (length p_items) (ground arith))))

near-Returns :
    (env : Environment) (s p : ℕ) (sp pp : Player) (t : PlayerTradeState) (w : World)
    → Returns (accept_near env s p sp pp t w)
unfolding accept_near
near-Returns env s p sp pp t w =
    let mine : PlayerTradeState = record t { accepted = true } in
    let told = plain_status p status_trade_accept (put_trade s (some mine) w) in
    elim (Option-cases ((told.sessions p).trade)) [
      | inl f ↦ rw (accept_near, f) (returns told)
      | inr (pt, f) ↦
          rw (accept_near, f)
            (if-Returns pt.accepted _ _ (complete-Returns env s p sp pp mine pt told)
              (λ _. returns told))
    ]

with-Returns :
    (env : Environment) (s p : ℕ) (sp : Player) (t : PlayerTradeState) (w : World)
    → Returns (accept_with env s p sp t w)
unfolding accept_with
with-Returns env s p sp t w = elim (Option-cases ((w.sessions p).player)) [
  | inl f ↦ rw (accept_with, f) (returns (too_far s p w))
  | inr (pp, f) ↦
      rw (accept_with, f)
        (if-Returns (not (sp.map == pp.map) || env.is_far s p) _ _ (returns (too_far s p w))
          (λ _. near-Returns env s p sp pp t w))
]

accept-Returns : (env : Environment) (s : ℕ) (w : World) → Returns (handle_accept_trade env s w)
unfolding handle_accept_trade
accept-Returns env s w = elim (Option-cases (trading s w)) [
  | inl f ↦ rw (handle_accept_trade, f) (returns w)
  | inr ((sp, t), f) ↦ elim (Option-cases t.partner) [
    | inl g ↦ rw (handle_accept_trade, f, g) (returns w)
    | inr (p, g) ↦ rw (handle_accept_trade, f, g) (with-Returns env s p sp t w)
  ]
]

-- Every packet of a trade, in every world, whatever the database answers, is handled to its end:
-- the loops of the exchange never run out of places for the items.
pub step-Returns : (packet : Packet) (w : World) → Returns (step packet w)
unfolding step
step-Returns (initiate_trade env s payload) w = returns _
step-Returns (set_trade_item env s payload) w = returns _
step-Returns (set_trade_gold s payload) w = returns _
step-Returns (clear_trade_item s payload) w = returns _
step-Returns (begin_trade s) w = returns _
step-Returns (unaccept_trade s) w = returns _
step-Returns (cancel_trade s) w = returns _
step-Returns (accept_trade env s) w = accept-Returns env s w
