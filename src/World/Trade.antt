-- ===== src/World/Trade.antt =====
-- engine/world/trade.go: the trade between two players. A session is a number; what its fields hold
-- is a `Session`. What is sent and what is written to the database is the list of a world's effects.
pub mod Packets
pub mod Slots
pub mod Complete
pub mod Handlers
pub mod Answers
pub mod Frames
pub mod Exchange
pub mod Partners
pub mod Requests
pub mod Deals
pub mod Money
pub mod Wraps
pub mod Places
pub mod Total
pub mod Offers
use moreno_go_moreno_core.Common.{
  ℕ, Bool, true, false, ◌&&◌, List, [], ◌∷◌, ◌++◌, ◌==◌, if◌then◌else◌, Option, none, some, ltb,
  not,
}

abbrev pub status_busy : ℕ
status_busy = 0

abbrev pub status_begin_trade : ℕ
status_begin_trade = 1

abbrev pub status_open_window : ℕ
status_open_window = 2

abbrev pub status_trade_canceled : ℕ
status_trade_canceled = 3

abbrev pub status_trade_accept : ℕ
status_trade_accept = 4

abbrev pub status_no_target : ℕ
status_no_target = 6

abbrev pub status_back_to_trade : ℕ
status_back_to_trade = 7

abbrev pub status_trade_complete : ℕ
status_trade_complete = 8

abbrev pub status_target_too_far : ℕ
status_target_too_far = 10

abbrev pub status_wrong_faction : ℕ
status_wrong_faction = 11

abbrev pub status_close_window : ℕ
status_close_window = 12

abbrev pub status_you_dead : ℕ
status_you_dead = 17

abbrev pub status_target_dead : ℕ
status_target_dead = 18

abbrev pub slot_count : ℕ
slot_count = 7

abbrev pub slot_traded_count : ℕ
slot_traded_count = 6

pub record TradeSlotItem : Type 0 where
  pub item_guid : ℕ
  pub item_entry : ℕ
  pub display_id : ℕ
  pub stack_count : ℕ
  pub enchant_id : ℕ

-- The map from a slot to its item has at most one entry to a slot.
pub record PlayerTradeState : Type 0 where
  pub partner : Option ℕ
  pub money : ℕ
  pub items : List (ℕ × TradeSlotItem)
  pub accepted : Bool

-- What a trade uses of the player.
pub record Player : Type 0 where
  pub guid : ℕ
  pub max_health : ℕ
  pub health : ℕ
  pub map : ℕ
  pub race : ℕ
  pub money : ℕ

pub record Session : Type 0 where
  pub player_guid : ℕ
  pub player_loaded : Bool
  pub player : Option Player
  pub trade : Option PlayerTradeState

pub data Effect : Type 0 where
  -- A packet, with SMSG_TRADE_STATUS or SMSG_TRADE_STATUS_EXTENDED, that is sent to a session.
  send_status send_extended : ℕ → List ℕ → Effect
  -- The money of the character with a guid, and the owner and place of an item.
  store_money : ℕ → ℕ → Effect
  store_item : ℕ → ℕ → ℕ → ℕ → Effect
  despawn_item : ℕ → ℕ → Effect
  -- What completeTrade sends to a session at its end.
  send_inventory send_money sync_equipment send_player : ℕ → Effect

-- The sessions, each under its number, and the effects so far.
pub record World : Type 0 where
  pub sessions : ℕ → Session
  pub effects : List Effect

abbrev pub put_session : ℕ → Session → World → World
put_session id s w = record w { sessions = λ i. if i == id then s else w.sessions i }

abbrev pub emit : Effect → World → World
emit e w = record w { effects = w.effects ++ e ∷ [] }

-- An assignment to `s.trade`, and to the player's money.
unfoldable pub put_trade : ℕ → Option PlayerTradeState → World → World
put_trade id t w = put_session id (record (w.sessions id) { trade = t }) w

unfoldable pub put_money : ℕ → Player → ℕ → World → World
put_money id p n w =
    put_session id (record (w.sessions id) { player = some (record p { money = n }) }) w

-- `s.playerLoaded && s.player != nil`, with the player.
unfoldable pub loaded : Session → Option Player
loaded s = if s.player_loaded then s.player else none

-- The entry of a slot, and its assignment and removal.
unfoldable pub item_at : ℕ → List (ℕ × TradeSlotItem) → Option TradeSlotItem
item_at slot [] = none
item_at slot ((k, it) ∷ items) =
    let rest = item_at slot items in if k == slot then some it else rest

unfoldable pub clear_item : ℕ → List (ℕ × TradeSlotItem) → List (ℕ × TradeSlotItem)
clear_item slot [] = []
clear_item slot ((k, it) ∷ items) =
    let rest = clear_item slot items in if k == slot then rest else (k, it) ∷ rest

unfoldable pub set_item : ℕ → TradeSlotItem → List (ℕ × TradeSlotItem) → List (ℕ × TradeSlotItem)
unfolding clear_item
set_item slot it items = (slot, it) ∷ clear_item slot items
