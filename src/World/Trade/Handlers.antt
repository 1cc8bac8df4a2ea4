-- ===== src/World/Trade/Handlers.antt =====
-- engine/world/trade.go: the handlers of a client's trade packets. A handler gives what it returns,
-- false where the connection ends, and the world after it; `none` is a panic.
use moreno_go_moreno_core.Common.{
  ℕ, ◌+◌, ◌-◌, ◌*◌, Bool, true, false, ◌&&◌, ◌||◌, not, List, [], ◌∷◌, ◌==◌, ltb, leb,
  if◌then◌else◌, ◌%◌, ◌^◌, Option, none, some, length, get_or, bit_and,
}
use moreno_go_moreno_core.Protocol.Buffer.{
  Outcome, done, fail, panic, new_reader, read_u32, read_u64,
}
use moreno_go_moreno_core.World.Wsg.{team_for_race}
use moreno_go_moreno_core.World.Trade.{
  World, Session, Player, PlayerTradeState, TradeSlotItem, put_trade, loaded, set_item, clear_item,
  slot_count, slot_traded_count, status_busy, status_begin_trade, status_open_window,
  status_trade_canceled, status_no_target, status_back_to_trade, status_target_too_far,
  status_wrong_faction, status_you_dead, status_target_dead,
}
use moreno_go_moreno_core.World.Trade.Packets.{send_trade_status, notify_trade_update}
use moreno_go_moreno_core.World.Trade.Slots.{Environment, ItemRow}

abbrev pub plain_status : ℕ → ℕ → World → World
plain_status id status w = send_trade_status id status 0 0 0 0 w

-- `MaxHealth > 0 && Health == 0`
abbrev pub is_dead : Player → Bool
is_dead p = ltb 0 p.max_health && p.health == 0

-- engine/world/chat.go, findSessionByGUID.
unfoldable pub find_session : (ℕ → Session) → ℕ → List ℕ → Option ℕ
unfolding loaded
find_session sessions guid [] = none
find_session sessions guid (id ∷ ids) =
    let rest = find_session sessions guid ids in
    elim (loaded (sessions id)) [ none ↦ rest | some p ↦ if p.guid == guid then some id else rest ]

abbrev pub open_trade : ℕ → Option PlayerTradeState
open_trade id = some (record { partner = some id; money = 0; items = []; accepted = false })

unfoldable pub has_trade : Session → Bool
has_trade sess = elim sess.trade [ none ↦ false | some t ↦ true ]

-- The tests of the target, in order: the status with which the first that fails is answered.
unfoldable pub refusal : Environment → ℕ → ℕ → Player → Player → Session → Option ℕ
unfolding has_trade team_for_race
refusal env s target sp tp target_sess =
    let same_team = team_for_race sp.race == team_for_race tp.race in
    if target == s || has_trade target_sess
    then some status_busy
    else if is_dead tp
    then some status_target_dead
    else if not (tp.map == sp.map) || env.is_far s target
    then some status_target_too_far
    else if not (sp.race == 0) && not (tp.race == 0) && not same_team
    then some status_wrong_faction
    else none

unfoldable pub initiate_with : Environment → ℕ → ℕ → Player → Player → World → World
unfolding refusal put_trade send_trade_status
initiate_with env s target sp tp w =
    let both = put_trade target (open_trade s) (put_trade s (open_trade target) w) in
    elim (refusal env s target sp tp (w.sessions target)) [
      | some status ↦ plain_status s status w
      | none ↦ send_trade_status target status_begin_trade (w.sessions s).player_guid 0 0 0 both
    ]

unfoldable pub initiate_guid : Environment → ℕ → Player → ℕ → World → World
unfolding find_session initiate_with send_trade_status
initiate_guid env s sp target_guid w =
    let no_target = plain_status s status_no_target w in
    let found : World = elim (find_session w.sessions target_guid env.session_order) [
      | none ↦ no_target
      | some target ↦ elim ((w.sessions target).player) [
        | none ↦ no_target
        | some tp ↦ initiate_with env s target sp tp w
      ]
    ] in
    elim ((w.sessions s).trade) [
      | some t ↦ w
      | none ↦ if is_dead sp then plain_status s status_you_dead w else found
    ]

-- What follows a read: its error ends the connection. No read of a handler panics.
unfoldable pub on_read : Outcome ℕ → (ℕ → World) → World → Bool × World
on_read (done a b) f w = (true, f a)
on_read (fail e b) f w = (false, w)
on_read panic f w = (false, w)

unfoldable pub handle_initiate_trade : Environment → ℕ → List ℕ → World → Bool × World
unfolding on_read initiate_guid new_reader read_u64 loaded
handle_initiate_trade env s payload w = elim (loaded (w.sessions s)) [
  | none ↦ (true, w)
  | some sp ↦
      if ltb (length payload) 8
      then (true, w)
      else on_read (read_u64 (new_reader payload)) (λ guid. initiate_guid env s sp guid w) w
]

-- `!s.playerLoaded || s.player == nil || s.trade == nil`, else the player and the trade.
unfoldable pub trading : ℕ → World → Option (Player × PlayerTradeState)
unfolding loaded
trading s w = elim (loaded (w.sessions s)) [
  | none ↦ none
  | some sp ↦ elim ((w.sessions s).trade) [ none ↦ none | some t ↦ some (sp, t) ]
]

unfoldable pub handle_begin_trade : ℕ → World → Bool × World
unfolding trading send_trade_status notify_trade_update
handle_begin_trade s w = elim (trading s w) [
  | none ↦ (true, w)
  | some (sp, t) ↦ elim t.partner [
    | none ↦ (true, w)
    | some p ↦
        let told = plain_status p status_open_window (plain_status s status_open_window w) in
        (true, notify_trade_update p (notify_trade_update s told))
  ]
]

-- The end of the three handlers that change an offer: `s` takes its word back if it was given.
unfoldable pub unaccept_own : ℕ → World → World
unfolding put_trade send_trade_status
unaccept_own s w = elim ((w.sessions s).trade) [
  | none ↦ w
  | some t ↦
      if t.accepted
      then plain_status s status_back_to_trade
          (put_trade s (some (record t { accepted = false })) w)
      else w
]

-- The same of the partner, if the partner trades, and the news for both.
unfoldable pub offer_changed : ℕ → World → World
unfolding unaccept_own notify_trade_update
offer_changed s w =
    let own = unaccept_own s w in
    elim ((own.sessions s).trade) [
      | none ↦ own
      | some t ↦ elim t.partner [
        | none ↦ own
        | some p ↦ elim ((own.sessions p).trade) [
          | none ↦ own
          | some pt ↦ notify_trade_update s (unaccept_own p own)
        ]
      ]
    ]

unfoldable pub set_gold : ℕ → Player → PlayerTradeState → ℕ → World → World
unfolding put_trade offer_changed
set_gold s sp t gold w =
    let money = if ltb sp.money gold then sp.money else gold in
    offer_changed s (put_trade s (some (record t { money = money })) w)

unfoldable pub handle_set_trade_gold : ℕ → List ℕ → World → Bool × World
unfolding on_read trading set_gold new_reader read_u32
handle_set_trade_gold s payload w = elim (trading s w) [
  | none ↦ (true, w)
  | some (sp, t) ↦
      if ltb (length payload) 4
      then (true, w)
      else on_read (read_u32 (new_reader payload)) (λ gold. set_gold s sp t gold w) w
]

-- `strings.Fields` of ASCII, of which only the first field is used.
abbrev pub is_space : ℕ → Bool
is_space c = (leb 9 c && leb c 13) || c == 32

unfoldable pub field_from : List ℕ → List ℕ
field_from [] = []
field_from (c ∷ cs) = let rest = field_from cs in if is_space c then [] else c ∷ rest

unfoldable pub first_field : List ℕ → List ℕ
unfolding field_from
first_field [] = []
first_field (c ∷ cs) = let rest = first_field cs in if is_space c then rest else field_from (c ∷ cs)

-- `strconv.ParseUint(field, 10, 32)`, from the value so far.
unfoldable pub parse_digits : List ℕ → ℕ → Option ℕ
parse_digits [] n = if ltb n (2 ^ 32) then some n else none
parse_digits (c ∷ cs) n =
    let rest = parse_digits cs (10 * n + (c - 48)) in if leb 48 c && leb c 57 then rest else none

unfoldable pub parse_enchant : List ℕ → ℕ
unfolding first_field parse_digits
parse_enchant enchantments = elim (first_field enchantments) [
  | [] ↦ 0
  | c ∷ cs ↦ elim (parse_digits (c ∷ cs) 0) [ none ↦ 0 | some e ↦ e ]
]

unfoldable pub trade_item : ItemRow → TradeSlotItem
unfolding parse_enchant
trade_item row = record {
  item_guid = row.item;
  item_entry = row.entry % 2 ^ 32;
  display_id = row.display % 2 ^ 32;
  stack_count = row.count % 2 ^ 32;
  enchant_id = parse_enchant row.enchantments;
}

-- The row is there, and its item is not 0.
unfoldable pub set_row : ℕ → PlayerTradeState → ℕ → ItemRow → World → World
unfolding put_trade set_item trade_item offer_changed send_trade_status
set_row s t trade_slot row w =
    let items = set_item trade_slot (trade_item row) t.items in
    if row.item == 0
    then w
    else if ltb trade_slot slot_traded_count && not (bit_and row.flags 1 == 0)
    then plain_status s status_trade_canceled w
    else offer_changed s (put_trade s (some (record t { items = items })) w)

unfoldable pub handle_set_trade_item : Environment → ℕ → List ℕ → World → Bool × World
unfolding trading set_row
handle_set_trade_item env s payload w = elim (trading s w) [
  | none ↦ (true, w)
  | some (sp, t) ↦
      let trade_slot = get_or payload 0 0 in
      let guid = (w.sessions s).player_guid in
      if ltb (length payload) 3 || leb slot_count trade_slot || not env.has_db
      then (true, w)
      else elim (env.item_row guid (get_or payload 1 0) (get_or payload 2 0)) [
        | none ↦ (true, w)
        | some row ↦ (true, set_row s t trade_slot row w)
      ]
]

unfoldable pub handle_clear_trade_item : ℕ → List ℕ → World → Bool × World
unfolding trading put_trade clear_item offer_changed
handle_clear_trade_item s payload w = elim (trading s w) [
  | none ↦ (true, w)
  | some (sp, t) ↦
      let items = clear_item (get_or payload 0 0) t.items in
      if ltb (length payload) 1
      then (true, w)
      else (true, offer_changed s (put_trade s (some (record t { items = items })) w))
]
