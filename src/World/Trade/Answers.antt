-- ===== src/World/Trade/Answers.antt =====
-- engine/world/trade.go: the handlers that accept a trade, take that back and cancel, and all
-- packets of a trade one after another.
use moreno_go_moreno_core.Common.{
  ℕ, true, false, ◌||◌, not, List, ◌==◌, if◌then◌else◌, Option, none, some,
}
use moreno_go_moreno_core.World.Trade.{
  World, Player, PlayerTradeState, put_trade, status_back_to_trade, status_trade_accept,
  status_trade_canceled, status_target_too_far,
}
use moreno_go_moreno_core.World.Trade.Packets.{send_trade_status}
use moreno_go_moreno_core.World.Trade.Slots.{Environment}
use moreno_go_moreno_core.World.Trade.Complete.{end_both, complete_trade}
use moreno_go_moreno_core.World.Trade.Handlers.{
  plain_status, trading, handle_initiate_trade, handle_begin_trade, handle_set_trade_gold,
  handle_set_trade_item, handle_clear_trade_item,
}

-- The trade is off since the players are too far from each other.
unfoldable pub too_far : ℕ → ℕ → World → World
unfolding send_trade_status end_both
too_far s p w =
    end_both s p (plain_status p status_target_too_far (plain_status s status_target_too_far w))

-- `s` has accepted; the trade is made if the partner `pp` has too.
unfoldable pub accept_near :
    Environment → ℕ → ℕ → Player → Player → PlayerTradeState → World → Option World
unfolding put_trade send_trade_status complete_trade
accept_near env s p sp pp t w =
    let mine : PlayerTradeState = record t { accepted = true } in
    let told = plain_status p status_trade_accept (put_trade s (some mine) w) in
    elim ((told.sessions p).trade) [
      | none ↦ some told
      | some pt ↦
          let made = complete_trade env s p sp pp mine pt told in
          if pt.accepted then made else some told
    ]

unfoldable pub accept_with : Environment → ℕ → ℕ → Player → PlayerTradeState → World → Option World
unfolding too_far accept_near
accept_with env s p sp t w = elim ((w.sessions p).player) [
  | none ↦ some (too_far s p w)
  | some pp ↦
      let near = accept_near env s p sp pp t w in
      if not (sp.map == pp.map) || env.is_far s p then some (too_far s p w) else near
]

unfoldable pub handle_accept_trade : Environment → ℕ → World → Option World
unfolding trading accept_with
handle_accept_trade env s w = elim (trading s w) [
  | none ↦ some w
  | some (sp, t) ↦ elim t.partner [ none ↦ some w | some p ↦ accept_with env s p sp t w ]
]

unfoldable pub unaccept : ℕ → PlayerTradeState → World → World
unfolding put_trade send_trade_status
unaccept s t w =
    plain_status s status_back_to_trade (put_trade s (some (record t { accepted = false })) w)

unfoldable pub handle_unaccept_trade : ℕ → World → World
unfolding trading unaccept
handle_unaccept_trade s w = elim (trading s w) [
  | none ↦ w
  | some (sp, t) ↦
      let own = unaccept s t w in
      elim t.partner [
        | none ↦ own
        | some p ↦ elim ((own.sessions p).trade) [ none ↦ own | some pt ↦ unaccept p pt own ]
      ]
]

unfoldable pub handle_cancel_trade : ℕ → World → World
unfolding trading put_trade send_trade_status
handle_cancel_trade s w = elim (trading s w) [
  | none ↦ w
  | some (sp, t) ↦
      let own = put_trade s none (plain_status s status_trade_canceled w) in
      elim t.partner [
        | none ↦ own
        | some p ↦ plain_status p status_trade_canceled (put_trade p none own)
      ]
]

-- A packet of a session, with what the server finds while it handles it.
pub data Packet : Type 0 where
  initiate_trade set_trade_item : Environment → ℕ → List ℕ → Packet
  set_trade_gold clear_trade_item : ℕ → List ℕ → Packet
  begin_trade unaccept_trade cancel_trade : ℕ → Packet
  accept_trade : Environment → ℕ → Packet

-- The world after a packet. Each handler but two returns true always; the reads of those two do
-- not fail, since the payload's length was asked for.
unfoldable pub step : Packet → World → Option World
unfolding handle_initiate_trade handle_set_trade_item handle_set_trade_gold handle_clear_trade_item
    handle_begin_trade handle_unaccept_trade handle_cancel_trade handle_accept_trade
step (initiate_trade env s payload) w = some (handle_initiate_trade env s payload w).1
step (set_trade_item env s payload) w = some (handle_set_trade_item env s payload w).1
step (set_trade_gold s payload) w = some (handle_set_trade_gold s payload w).1
step (clear_trade_item s payload) w = some (handle_clear_trade_item s payload w).1
step (begin_trade s) w = some (handle_begin_trade s w).1
step (unaccept_trade s) w = some (handle_unaccept_trade s w)
step (cancel_trade s) w = some (handle_cancel_trade s w)
step (accept_trade env s) w = handle_accept_trade env s w
