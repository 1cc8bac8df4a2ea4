-- ===== src/World/Trade/Complete.antt =====
-- engine/world/trade.go, completeTrade: the exchange.
use moreno_go_moreno_core.Common.{
  ℕ, Bool, ◌||◌, not, List, [], ◌∷◌, ltb, ◌+◌, ◌-◌, ◌%◌, ◌^◌, if◌then◌else◌, Option, none, some,
  length,
}
use moreno_go_moreno_core.World.Trade.{
  World, Player, PlayerTradeState, TradeSlotItem, store_money, store_item, despawn_item,
  send_inventory, send_money, sync_equipment, send_player, emit, put_trade, put_money,
  slot_traded_count, status_close_window, status_trade_complete,
}
use moreno_go_moreno_core.World.Trade.Packets.{send_trade_status}
use moreno_go_moreno_core.World.Trade.Slots.{Environment, TradeSlotLoc, find_free_slots}

-- The items of the slots below 6.
unfoldable pub traded_items : List (ℕ × TradeSlotItem) → List TradeSlotItem
traded_items [] = []
traded_items ((slot, it) ∷ items) =
    let rest = traded_items items in if ltb slot slot_traded_count then it ∷ rest else rest

-- `a - b + c` of words of 32 bits.
abbrev pub u32_exchange : ℕ → ℕ → ℕ → ℕ
u32_exchange a b c = (a + 2 ^ 32 - b + c) % 2 ^ 32

unfoldable pub end_both : ℕ → ℕ → World → World
unfolding put_trade
end_both s p w = put_trade p none (put_trade s none w)

-- One loop of the transfer, from a session to the player with a guid. `none` is the panic of
-- `slots[0]` where there is no place left.
unfoldable pub move_items : ℕ → ℕ → List TradeSlotItem → List TradeSlotLoc → World → Option World
move_items giver guid [] locs w = some w
move_items giver guid (it ∷ items) [] w = none
move_items giver guid (it ∷ items) (loc ∷ locs) w = move_items giver guid items locs (
    emit (despawn_item giver it.item_guid)
      (emit (store_item guid loc.bag_key loc.slot it.item_guid) w))

unfoldable pub tell_full : ℕ → ℕ → Bool → World → World
unfolding send_trade_status
tell_full s p ok1 w =
    if not ok1
    then send_trade_status s status_close_window 0 1 1 0
        (send_trade_status p status_close_window 0 1 0 0 w)
    else send_trade_status p status_close_window 0 1 1 0
        (send_trade_status s status_close_window 0 1 0 0 w)

unfoldable pub bag_full : ℕ → ℕ → Bool → World → World
unfolding tell_full end_both
bag_full s p ok1 w = end_both s p (tell_full s p ok1 w)

-- The two assignments of the money and their updates of the database. `sp` and `pp` are the
-- players, `st` and `pt` the trades.
unfoldable pub transfer_money :
    ℕ → ℕ → Player → Player → PlayerTradeState → PlayerTradeState → World → World
unfolding put_money
transfer_money s p sp pp st pt w =
    let s_money = u32_exchange sp.money st.money pt.money in
    let p_money = u32_exchange pp.money pt.money st.money in
    let paid = put_money p pp p_money (put_money s sp s_money w) in
    let s_guid = (w.sessions s).player_guid in
    let p_guid = (w.sessions p).player_guid in
    emit (store_money p_guid p_money) (emit (store_money s_guid s_money) paid)

-- What both are told once the exchange is made.
unfoldable pub announce : ℕ → ℕ → World → World
unfolding send_trade_status
announce s p w =
    let told =
      send_trade_status p status_trade_complete 0 0 0 0
        (send_trade_status s status_trade_complete 0 0 0 0 w) in
    let inventories = emit (send_inventory p) (emit (send_inventory s) told) in
    let moneys = emit (send_money p) (emit (send_money s) inventories) in
    let equipments = emit (sync_equipment p) (emit (sync_equipment s) moneys) in
    emit (send_player p) (emit (send_player s) equipments)

unfoldable pub finish : ℕ → ℕ → World → World
unfolding announce end_both
finish s p w = end_both s p (announce s p w)

unfoldable pub transfer :
    ℕ
    → ℕ
    → List TradeSlotItem
    → List TradeSlotItem
    → List TradeSlotLoc
    → List TradeSlotLoc
    → World
    → Option World
unfolding move_items finish
transfer s p s_items p_items s_slots p_slots w =
    elim (move_items s (w.sessions p).player_guid s_items p_slots w) [
      | none ↦ none
      | some w1 ↦ elim (move_items p (w1.sessions s).player_guid p_items s_slots w1) [
        | none ↦ none
        | some w2 ↦ some (finish s p w2)
      ]
    ]

-- The trade of the items that are given, where `s_slots` and `p_slots` are the places found.
unfoldable pub complete_with :
    ℕ
    → ℕ
    → Player
    → Player
    → PlayerTradeState
    → PlayerTradeState
    → List TradeSlotItem
    → List TradeSlotItem
    → List TradeSlotLoc × Bool
    → List TradeSlotLoc × Bool
    → World
    → Option World
unfolding bag_full transfer_money transfer send_trade_status end_both
complete_with s p sp pp st pt s_items p_items s_slots p_slots w =
    let poor = end_both s p (
      send_trade_status p status_close_window 0 0 0 0
        (send_trade_status s status_close_window 0 0 0 0 w)) in
    if not p_slots.1 || not s_slots.1
    then some (bag_full s p p_slots.1 w)
    else if ltb sp.money st.money || ltb pp.money pt.money
    then some poor
    else transfer s p s_items p_items s_slots.0 p_slots.0 (transfer_money s p sp pp st pt w)

unfoldable pub complete_trade :
    Environment
    → ℕ
    → ℕ
    → Player
    → Player
    → PlayerTradeState
    → PlayerTradeState
    → World
    → Option World
unfolding traded_items find_free_slots complete_with
complete_trade env s p sp pp st pt w =
    let s_items = traded_items (env.item_order st.items) in
    let p_items = traded_items (env.item_order pt.items) in
    let p_slots = find_free_slots env (w.sessions p).player_guid (length s_items) in
    let s_slots = find_free_slots env (w.sessions s).player_guid (length p_items) in
    let made = complete_with s p sp pp st pt s_items p_items s_slots p_slots w in
    if not env.has_db then some w else made
