-- ===== src/World/Trade/Requests.antt =====
-- engine/world/trade.go: the handlers that change no money: that of a new trade, that of its window
-- and those of the offers.
use moreno_go_moreno_core.Common.{
  ℕ, not, ◌&&◌, ◌||◌, ◌≡◌, ◌≢◌, refl, ◌∙◌, ap, inl, inr, arith, List, ◌==◌, ltb, get_or, bit_and,
  if◌then◌else◌, Option, none, some, Bool-cases, Option-cases, leb, length,
}
use moreno_go_moreno_core.World.Trade.{
  World, Session, Player, PlayerTradeState, put_trade, loaded, clear_item, set_item,
  slot_traded_count, slot_count, status_open_window, status_begin_trade, status_trade_canceled,
}
use moreno_go_moreno_core.Protocol.Buffer.{
  Outcome, done, fail, panic, new_reader, read_u32, read_u64,
}
use moreno_go_moreno_core.World.Trade.Packets.{send_trade_status}
use moreno_go_moreno_core.World.Trade.Slots.{Environment, ItemRow}
use moreno_go_moreno_core.World.Trade.Handlers.{
  plain_status, open_trade, refusal, has_trade, initiate_with, initiate_guid, handle_initiate_trade,
  trading, on_read, is_dead, find_session, handle_begin_trade, set_gold, handle_set_trade_gold,
  set_row, trade_item, handle_set_trade_item, handle_clear_trade_item,
}
use moreno_go_moreno_core.World.Trade.Frames.{
  link, stays, links-put_trade, player-put_trade, status-Quiet, offer-Quiet, begin-Quiet,
}
use moreno_go_moreno_core.World.Trade.Partners.{join, Unpaid, Quiet-Unpaid}

joined :
    (env : Environment) (s p : ℕ) (sp tp : Player) (w : World) (guid : ℕ)
    → s ≢ p
    → (w.sessions s).trade ≡ none
    → (w.sessions p).trade ≡ none
    → Unpaid w (
        send_trade_status p status_begin_trade guid 0 0 0
          (put_trade p (open_trade s) (put_trade s (open_trade p) w)))
unfolding send_trade_status
joined env s p sp tp w guid n a b =
    let v = put_trade s (open_trade p) w in
    record {
      moves = join s p n (ap link a) (ap link b) (λ i.
          links-put_trade p (open_trade s) v i
          ∙ ap (λ (l : Option (Option ℕ)). if i == p then some (some s) else l)
              (links-put_trade s (open_trade p) w i));
      players = λ i. player-put_trade p (open_trade s) v i ∙ player-put_trade s (open_trade p) w i;
    }

refusal-free :
    (env : Environment) (s p : ℕ) (sp tp : Player) (sess : Session)
    → refusal env s p sp tp sess ≡ none
    → (s ≢ p) × (sess.trade ≡ none)
unfolding refusal has_trade
refusal-free env s p sp tp sess e = (λ q. ground arith, ground arith)

pub told-Unpaid : (id status : ℕ) (w : World) → Unpaid w (plain_status id status w)
told-Unpaid id status w =
    Quiet-Unpaid w (plain_status id status w) (status-Quiet id status 0 0 0 0 w)

initiate_with-Unpaid :
    (env : Environment) (s p : ℕ) (sp tp : Player) (w : World)
    → (w.sessions s).trade ≡ none
    → Unpaid w (initiate_with env s p sp tp w)
unfolding initiate_with
initiate_with-Unpaid env s p sp tp w e =
    elim (Option-cases (refusal env s p sp tp (w.sessions p))) [
      | inr (status, r) ↦ rw (initiate_with, r) (told-Unpaid s status w)
      | inl r ↦
          let free = refusal-free env s p sp tp (w.sessions p) r in
          rw (initiate_with, r) (joined env s p sp tp w (w.sessions s).player_guid free.0 e free.1)
    ]

initiate_guid-Unpaid :
    (env : Environment) (s : ℕ) (sp : Player) (guid : ℕ) (w : World)
    → Unpaid w (initiate_guid env s sp guid w)
unfolding initiate_guid
initiate_guid-Unpaid env s sp guid w = elim (Option-cases ((w.sessions s).trade)) [
  | inr (t, e) ↦ rw (initiate_guid, e) (Quiet-Unpaid w w (stays w))
  | inl e ↦ elim (Bool-cases (is_dead sp)) [
    | inl d ↦ rw (initiate_guid, e, d) (told-Unpaid s 17 w)
    | inr d ↦ elim (Option-cases (find_session w.sessions guid env.session_order)) [
      | inl f ↦ rw (initiate_guid, e, d, f) (told-Unpaid s 6 w)
      | inr (p, f) ↦ elim (Option-cases ((w.sessions p).player)) [
        | inl g ↦ rw (initiate_guid, e, d, f, g) (told-Unpaid s 6 w)
        | inr (tp, g) ↦ rw (initiate_guid, e, d, f, g) (initiate_with-Unpaid env s p sp tp w e)
      ]
    ]
  ]
]

on_read-Unpaid :
    (o : Outcome ℕ) (f : ℕ → World) (w : World)
    → ((n : ℕ) → Unpaid w (f n))
    → Unpaid w (on_read o f w).1
unfolding on_read
on_read-Unpaid (done a b) f w k = k a
on_read-Unpaid (fail e b) f w k = Quiet-Unpaid w w (stays w)
on_read-Unpaid panic f w k = Quiet-Unpaid w w (stays w)

pub initiate-Unpaid :
    (env : Environment) (s : ℕ) (payload : List ℕ) (w : World)
    → Unpaid w (handle_initiate_trade env s payload w).1
unfolding handle_initiate_trade
initiate-Unpaid env s payload w = elim (Option-cases (loaded (w.sessions s))) [
  | inl e ↦ rw (handle_initiate_trade, e) (Quiet-Unpaid w w (stays w))
  | inr (sp, e) ↦ elim (Bool-cases (ltb (length payload) 8)) [
    | inl l ↦ rw (handle_initiate_trade, e, l) (Quiet-Unpaid w w (stays w))
    | inr l ↦
        rw (handle_initiate_trade, e, l)
          (on_read-Unpaid (read_u64 (new_reader payload)) _ w
            (λ guid. initiate_guid-Unpaid env s sp guid w))
  ]
]

pub trading-trade :
    (s : ℕ) (w : World) (sp : Player) (t : PlayerTradeState)
    → trading s w ≡ some (sp, t)
    → ((w.sessions s).trade ≡ some t) × ((w.sessions s).player ≡ some sp)
unfolding trading loaded
trading-trade s w sp t e = ground arith

pub begin-Unpaid : (s : ℕ) (w : World) → Unpaid w (handle_begin_trade s w).1
unfolding handle_begin_trade send_trade_status
begin-Unpaid s w = elim (Option-cases (trading s w)) [
  | inl e ↦ rw (handle_begin_trade, e) (Quiet-Unpaid w w (stays w))
  | inr ((sp, t), e) ↦ elim (Option-cases t.partner) [
    | inl f ↦ rw (handle_begin_trade, e, f) (Quiet-Unpaid w w (stays w))
    | inr (p, f) ↦
        let told = plain_status p status_open_window (plain_status s status_open_window w) in
        rw (handle_begin_trade, e, f) (Quiet-Unpaid w _ (begin-Quiet s p told))
  ]
]

pub gold-Unpaid :
    (s : ℕ) (payload : List ℕ) (w : World) → Unpaid w (handle_set_trade_gold s payload w).1
unfolding handle_set_trade_gold set_gold
gold-Unpaid s payload w = elim (Option-cases (trading s w)) [
  | inl e ↦ rw (handle_set_trade_gold, e) (Quiet-Unpaid w w (stays w))
  | inr ((sp, t), e) ↦ elim (Bool-cases (ltb (length payload) 4)) [
    | inl l ↦ rw (handle_set_trade_gold, e, l) (Quiet-Unpaid w w (stays w))
    | inr l ↦
        rw (handle_set_trade_gold, e, l)
          (on_read-Unpaid (read_u32 (new_reader payload)) _ w (λ gold.
            Quiet-Unpaid w (set_gold s sp t gold w) (
              offer-Quiet s t (record t { money = if ltb sp.money gold then sp.money else gold }) w
                (trading-trade s w sp t e).0 refl)))
  ]
]

set_row-Unpaid :
    (s : ℕ) (t : PlayerTradeState) (slot : ℕ) (row : ItemRow) (w : World)
    → (w.sessions s).trade ≡ some t
    → Unpaid w (set_row s t slot row w)
unfolding set_row
set_row-Unpaid s t slot row w e = elim (Bool-cases (row.item == 0)) [
  | inl a ↦ rw (set_row, a) (Quiet-Unpaid w w (stays w))
  | inr a ↦ elim (Bool-cases (ltb slot slot_traded_count && not (bit_and row.flags 1 == 0))) [
    | inl b ↦ rw (set_row, a, b) (told-Unpaid s status_trade_canceled w)
    | inr b ↦
        rw (set_row, a, b)
          (Quiet-Unpaid w _ (
            offer-Quiet s t (record t { items = set_item slot (trade_item row) t.items }) w e refl))
  ]
]

pub item-Unpaid :
    (env : Environment) (s : ℕ) (payload : List ℕ) (w : World)
    → Unpaid w (handle_set_trade_item env s payload w).1
unfolding handle_set_trade_item
item-Unpaid env s payload w =
    let slot = get_or payload 0 0 in
    let guid = (w.sessions s).player_guid in
    elim (Option-cases (trading s w)) [
      | inl e ↦ rw (handle_set_trade_item, e) (Quiet-Unpaid w w (stays w))
      | inr ((sp, t), e) ↦
          elim (Bool-cases (ltb (length payload) 3 || leb slot_count slot || not env.has_db)) [
            | inl l ↦ rw (handle_set_trade_item, e, l) (Quiet-Unpaid w w (stays w))
            | inr l ↦
                elim (Option-cases (env.item_row guid (get_or payload 1 0) (get_or payload 2 0))) [
                  | inl r ↦ rw (handle_set_trade_item, e, l, r) (Quiet-Unpaid w w (stays w))
                  | inr (row, r) ↦
                      rw (handle_set_trade_item, e, l, r)
                        (set_row-Unpaid s t slot row w (trading-trade s w sp t e).0)
                ]
          ]
    ]

pub clear-Unpaid :
    (s : ℕ) (payload : List ℕ) (w : World) → Unpaid w (handle_clear_trade_item s payload w).1
unfolding handle_clear_trade_item
clear-Unpaid s payload w = elim (Option-cases (trading s w)) [
  | inl e ↦ rw (handle_clear_trade_item, e) (Quiet-Unpaid w w (stays w))
  | inr ((sp, t), e) ↦ elim (Bool-cases (ltb (length payload) 1)) [
    | inl l ↦ rw (handle_clear_trade_item, e, l) (Quiet-Unpaid w w (stays w))
    | inr l ↦
        rw (handle_clear_trade_item, e, l)
          (Quiet-Unpaid w _ (
            offer-Quiet s t (record t { items = clear_item (get_or payload 0 0) t.items }) w
              (trading-trade s w sp t e).0 refl))
  ]
]
