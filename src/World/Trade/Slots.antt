-- ===== src/World/Trade/Slots.antt =====
-- engine/world/trade.go, findFreeSlotsForTrade, and what the handlers ask of the database and of
-- the rest of the server.
use moreno_go_moreno_core.Common.{
  ℕ, zero, suc, Bool, true, false, ◌||◌, not, List, [], ◌∷◌, ◌++◌, ◌==◌, ltb, leb, one_of,
  if◌then◌else◌, Option, length,
}
use moreno_go_moreno_core.World.Trade.{TradeSlotItem}

-- The answer about an item that a player has somewhere in the bags.
pub record ItemRow : Type 0 where
  pub item : ℕ
  pub entry : ℕ
  pub count : ℕ
  pub flags : ℕ
  pub enchantments : List ℕ
  pub display : ℕ

-- A bag that is worn: its item and how many slots it has.
pub record EquippedBag : Type 0 where
  pub guid : ℕ
  pub slots : ℕ

pub record Environment : Type 0 where
  -- `CharactersStore.DB` is there.
  pub has_db : Bool
  -- The row of guid, bag and slot, with 0 for what a query does not give; `none` if no item is
  -- found there.
  pub item_row : ℕ → ℕ → ℕ → Option ItemRow
  -- The slots in use of a player's bag, as bytes, and the bags of a player.
  pub used_slots : ℕ → ℕ → List ℕ
  pub equipped_bags : ℕ → List EquippedBag
  -- The order in which the map of the sessions and that of the items are gone through.
  pub session_order : List ℕ
  pub item_order : List (ℕ × TradeSlotItem) → List (ℕ × TradeSlotItem)
  -- Two sessions' players are more than 11.111111 apart.
  pub is_far : ℕ → ℕ → Bool

pub record TradeSlotLoc : Type 0 where
  pub bag_key : ℕ
  pub slot : ℕ

-- The loop over `n` slots from `slot` on: the places so far, and whether the count is reached.
unfoldable pub scan_slots : ℕ → ℕ → List ℕ → ℕ → ℕ → List TradeSlotLoc → List TradeSlotLoc × Bool
scan_slots count bag used zero slot locs = (locs, false)
scan_slots count bag used (suc n) slot locs =
    let more : List TradeSlotLoc = locs ++ record { bag_key = bag; slot = slot } ∷ [] in
    let skipped = scan_slots count bag used n (suc slot) locs in
    let added = scan_slots count bag used n (suc slot) more in
    if one_of slot used then skipped else if length more == count then (more, true) else added

unfoldable pub scan_bags :
    Environment → ℕ → ℕ → List EquippedBag → List TradeSlotLoc → List TradeSlotLoc × Bool
unfolding scan_slots
scan_bags env guid count [] locs = (locs, leb count (length locs))
scan_bags env guid count (eb ∷ bags) locs =
    let skipped = scan_bags env guid count bags locs in
    let scanned = scan_slots count eb.guid (env.used_slots guid eb.guid) eb.slots 0 locs in
    let rest = scan_bags env guid count bags scanned.0 in
    if eb.slots == 0 || ltb 36 eb.slots then skipped else if scanned.1 then scanned else rest

unfoldable pub find_free_slots : Environment → ℕ → ℕ → List TradeSlotLoc × Bool
unfolding scan_slots scan_bags
find_free_slots env guid count =
    let backpack = scan_slots count 0 (env.used_slots guid 0) 16 23 [] in
    let all = scan_bags env guid count (env.equipped_bags guid) backpack.0 in
    if count == 0
    then ([], true)
    else if not env.has_db
    then ([], false)
    else if backpack.1
    then backpack
    else all
