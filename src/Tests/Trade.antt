-- ===== src/Tests/Trade.antt =====
-- engine/world/trade.go: two players who trade.
use moreno_go_moreno_core.Common.{
  ℕ, ◌+◌, ◌-◌, ◌*◌, ◌^◌, ◌≡◌, ◌≢◌, ◌⊎◌, refl, arith, true, false, [], ◌∷◌, ◌==◌, if◌then◌else◌,
  Option, none, some,
}
use moreno_go_moreno_core.Protocol.Buffer.{le_bytes}
use moreno_go_moreno_core.World.Trade.{World, Player, PlayerTradeState, TradeSlotItem, loaded}
use moreno_go_moreno_core.World.Trade.Slots.{Environment, find_free_slots, scan_slots, scan_bags}
use moreno_go_moreno_core.World.Trade.Complete.{traded_items}
use moreno_go_moreno_core.World.Trade.Handlers.{handle_initiate_trade, trading}
use moreno_go_moreno_core.World.Trade.Answers.{Packet, initiate_trade, accept_trade, step}
use moreno_go_moreno_core.World.Trade.Frames.{links}
use moreno_go_moreno_core.World.Trade.Partners.{Matching, LinkStep}
use moreno_go_moreno_core.World.Trade.Money.{
  step-Matching, start, next, Reach-Matching, money_at, Deal, step-Deal, step-conserves,
}
use moreno_go_moreno_core.World.Trade.Places.{first_of, free, player_places, find_free_slots-first}
use moreno_go_moreno_core.World.Trade.Wraps.{Room, accept_trade-wraps}
use moreno_go_moreno_core.World.Trade.Total.{Returns, step-Returns}

-- A backpack with one place left, and a bag of two.
abbrev env : Environment
env = record {
  has_db = true;
  item_row = λ guid bag slot. none;
  used_slots = λ guid bag.
      if bag == 0
      then 23 ∷ 24 ∷ 25 ∷ 26 ∷ 27 ∷ 28 ∷ 29 ∷ 30 ∷ 31 ∷ 32 ∷ 33 ∷ 34 ∷ 35 ∷ 36 ∷ 37 ∷ []
      else 0 ∷ [];
  equipped_bags = λ guid. record { guid = 77; slots = 2 } ∷ [];
  session_order = 1 ∷ 2 ∷ [];
  item_order = λ items. items;
  is_far = λ a b. false;
}

places_run :
    find_free_slots env 100 2
    ≡ (record { bag_key = 0; slot = 38 } ∷ record { bag_key = 77; slot = 1 } ∷ [], true)
unfolding find_free_slots scan_slots scan_bags
places_run = refl

find_free_slots-first_example :
    find_free_slots env 100 2 ≡ first_of 2 (free env 100 (player_places env 100))
find_free_slots-first_example = find_free_slots-first env 100 2 refl

abbrev player : ℕ → ℕ → Player
player guid money = record {
  guid = guid;
  max_health = 50;
  health = 50;
  map = 0;
  race = 1;
  money = money;
}

abbrev world : (ℕ → Option PlayerTradeState) → ℕ → World
world trades rich = record {
  sessions = λ i. record {
    player_guid = 100 * i;
    player_loaded = true;
    player =
        if i == 1 then some (player 100 500) else if i == 2 then some (player 200 rich) else none;
    trade = trades i;
  };
  effects = [];
}

abbrev quiet : World
quiet = world (λ i. none) 900

abbrev ask : Packet
ask = initiate_trade env 1 (le_bytes 8 200)

abbrev asked : World
asked = (handle_initiate_trade env 1 (le_bytes 8 200) quiet).1

quiet-Matching : Matching (links quiet)
quiet-Matching = Reach-Matching (start {w = quiet} (λ i. refl))

asks : step ask quiet ≡ some asked
unfolding step
asks = refl

step-Matching_example : LinkStep (links quiet) (links asked) × Matching (links asked)
step-Matching_example = step-Matching ask quiet asked quiet-Matching asks

Reach-Matching_example : Matching (links asked)
Reach-Matching_example = Reach-Matching (next ask (start {w = quiet} (λ i. refl)) asks)

step-Returns_example : Returns (step (accept_trade env 1) asked)
step-Returns_example = step-Returns (accept_trade env 1) asked

-- The first player offers 70 and has accepted, the second one offers 30 and a stone.
abbrev stone : TradeSlotItem
stone = record {
  item_guid = 9000;
  item_entry = 2835;
  display_id = 4681;
  stack_count = 1;
  enchant_id = 0;
}

abbrev offers : PlayerTradeState
offers = record { partner = some 2; money = 70; items = []; accepted = true }

abbrev answers : PlayerTradeState
answers = record { partner = some 1; money = 30; items = (0, stone) ∷ []; accepted = false }

abbrev paired : ℕ → Option PlayerTradeState
paired i = if i == 1 then some offers else if i == 2 then some answers else none

abbrev agreed : World
agreed = world paired 900

agreed-Matching : Matching (links agreed)
agreed-Matching = record {
  linked = λ i e. ground arith;
  returned = λ i j e. (ground arith, ground arith);
}

abbrev accepts : Packet
accepts = accept_trade env 2

step-Deal_example :
    let w' = (step-Returns accepts agreed).0 in
    ((i : ℕ) → money_at w' i ≡ money_at agreed i) ⊎ ((s : ℕ) × (p : ℕ) × Deal agreed w' s p)
step-Deal_example =
    step-Deal accepts agreed (step-Returns accepts agreed).0 agreed-Matching
      (step-Returns accepts agreed).1

step-conserves_example :
    let w' = (step-Returns accepts agreed).0 in
    ((i : ℕ) → money_at w' i ≡ money_at agreed i)
    ⊎ ((s : ℕ) × (p : ℕ) × (s ≢ p)
        × (money_at w' s + money_at w' p ≡ money_at agreed s + money_at agreed p)
        × ((i : ℕ) → i ≢ s → i ≢ p → money_at w' i ≡ money_at agreed i))
step-conserves_example =
    step-conserves accepts agreed (step-Returns accepts agreed).0 agreed-Matching
      (λ i. ground arith) (step-Returns accepts agreed).1

-- The second player is nearly as rich as a word can say, and gets more than is paid.
abbrev rich : ℕ
rich = 4294967290

abbrev overflowing : World
overflowing = world paired rich

overflowing-Matching : Matching (links overflowing)
overflowing-Matching = record {
  linked = λ i e. ground arith;
  returned = λ i j e. (ground arith, ground arith);
}

second_trades : trading 2 overflowing ≡ some (player 200 rich, answers)
unfolding trading loaded
second_trades = refl

items_fit : Room env 2 1 (player 200 rich) (player 100 500) answers offers overflowing
unfolding find_free_slots scan_slots scan_bags traded_items
items_fit = (refl, refl)

accept_trade-wraps_example :
    (w' : World) × (step accepts overflowing ≡ some w')
    × (money_at w' 2 + 2 ^ 32 ≡ money_at overflowing 2 - answers.money + offers.money)
accept_trade-wraps_example =
    accept_trade-wraps env 2 1 (player 200 rich) (player 100 500) answers offers overflowing
      overflowing-Matching second_trades refl refl refl refl refl refl items_fit (omega arith)
      (omega arith) (omega arith) (omega arith) (omega arith)
