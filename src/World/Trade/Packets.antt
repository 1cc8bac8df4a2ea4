-- ===== src/World/Trade/Packets.antt =====
-- engine/world/trade.go, sendTradeStatus, sendTradeStatusExtended and notifyTradeUpdate.
use moreno_go_moreno_core.Common.{
  ℕ, zero, suc, Bool, true, false, List, ◌==◌, if◌then◌else◌, Option, none, some,
}
use moreno_go_moreno_core.Protocol.Buffer.{Buffer, new_buffer, write_u8, write_u32, write_u64}
use moreno_go_moreno_core.World.Trade.{
  World, PlayerTradeState, TradeSlotItem, send_status, send_extended, emit, item_at, slot_count,
  status_begin_trade, status_open_window, status_close_window,
}

unfoldable pub trade_status_packet : ℕ → ℕ → ℕ → ℕ → ℕ → List ℕ
unfolding new_buffer write_u8 write_u32 write_u64
trade_status_packet status trader_guid result is_target_result item_limit_category =
    let buf = write_u32 status new_buffer in
    (if status == status_begin_trade
      then write_u64 trader_guid buf
      else if status == status_open_window
      then write_u32 0 buf
      else if status == status_close_window
      then write_u32 item_limit_category (write_u8 is_target_result (write_u32 result buf))
      else buf).bytes

unfoldable pub send_trade_status : ℕ → ℕ → ℕ → ℕ → ℕ → ℕ → World → World
unfolding trade_status_packet
send_trade_status id status trader_guid result is_target_result item_limit_category = emit (
    send_status id
      (trade_status_packet status trader_guid result is_target_result item_limit_category))

-- `for j := 0; j < n; j++ { buf.WriteU32(0) }`
unfoldable pub write_zeros : ℕ → Buffer → Buffer
unfolding write_u32
write_zeros zero buf = buf
write_zeros (suc n) buf = write_zeros n (write_u32 0 buf)

unfoldable pub write_slot : Option TradeSlotItem → Buffer → Buffer
unfolding write_zeros write_u32 write_u64
write_slot none buf = write_zeros 18 buf
write_slot (some it) buf =
    let item = write_u32 it.stack_count (write_u32 it.display_id (write_u32 it.item_entry buf)) in
    let enchanted = write_u32 it.enchant_id (write_u64 0 (write_u32 0 item)) in
    write_zeros 6 (write_u64 0 (write_zeros 3 enchanted))

-- `n` slots are left, the next one is `i`.
unfoldable pub write_slots : ℕ → ℕ → List (ℕ × TradeSlotItem) → Buffer → Buffer
unfolding write_slot write_u8 item_at
write_slots zero i items buf = buf
write_slots (suc n) i items buf =
    write_slots n (suc i) items (write_slot (item_at i items) (write_u8 i buf))

unfoldable pub trade_extended_packet : Bool → PlayerTradeState → List ℕ
unfolding new_buffer write_slots write_u8 write_u32
trade_extended_packet trader_data t =
    let start = write_u8 (if trader_data then 1 else 0) new_buffer in
    let counts = write_u32 slot_count (write_u32 slot_count (write_u32 0 start)) in
    (write_slots slot_count 0 t.items (write_u32 0 (write_u32 t.money counts))).bytes

unfoldable pub send_trade_status_extended : ℕ → Bool → World → World
unfolding trade_extended_packet
send_trade_status_extended id trader_data w = elim ((w.sessions id).trade) [
  | none ↦ w
  | some t ↦ elim t.partner [
    | none ↦ w
    | some p ↦
        let chosen : Option PlayerTradeState =
          if trader_data then (w.sessions p).trade else some t in
        elim chosen [
          | none ↦ w
          | some shown ↦ emit (send_extended id (trade_extended_packet trader_data shown)) w
        ]
  ]
]

unfoldable pub notify_trade_update : ℕ → World → World
unfolding send_trade_status_extended
notify_trade_update id w =
    let own = send_trade_status_extended id false w in
    elim ((own.sessions id).trade) [
      | none ↦ own
      | some t ↦ elim t.partner [ none ↦ own | some p ↦ send_trade_status_extended p true own ]
    ]
