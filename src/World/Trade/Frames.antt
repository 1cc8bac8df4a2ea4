-- ===== src/World/Trade/Frames.antt =====
-- engine/world/trade.go: what the parts of the handlers leave as it was.
use moreno_go_moreno_core.Common.{
  ℕ, Bool, true, false, ◌≡◌, refl, ◌∙◌, sym, ap, inl, inr, arith, ◌==◌, if◌then◌else◌, Option, none,
  some, Bool-cases, Option-cases, ==→eq,
}
use moreno_go_moreno_core.World.Trade.{World, Player, PlayerTradeState, put_trade}
use moreno_go_moreno_core.World.Trade.Packets.{
  send_trade_status, send_trade_status_extended, notify_trade_update,
}
use moreno_go_moreno_core.World.Trade.Handlers.{unaccept_own, offer_changed}

-- Whether a session trades, and with which partner.
abbrev pub link : Option PlayerTradeState → Option (Option ℕ)
link none = none
link (some t) = some t.partner

abbrev pub links : World → ℕ → Option (Option ℕ)
links w i = link (w.sessions i).trade

abbrev pub player_of : World → ℕ → Option Player
player_of w i = (w.sessions i).player

-- Every session has the same link and the same player.
abbrev pub Quiet : World → World → Type 0
Quiet w w' = (i : ℕ) → (links w' i ≡ links w i) × (player_of w' i ≡ player_of w i)

pub stays : (w : World) → Quiet w w
stays w i = (refl, refl)

pub then_Quiet : (u v w : World) → Quiet u v → Quiet v w → Quiet u w
then_Quiet u v w p q i = ((q i).0 ∙ (p i).0, (q i).1 ∙ (p i).1)

pub same_sessions : (w w' : World) → w'.sessions ≡ w.sessions → Quiet w w'
same_sessions w w' e i = (λ k. link ((e k) i).trade, λ k. ((e k) i).player)

pub extended-sessions :
    (id : ℕ) (b : Bool) (w : World) → (send_trade_status_extended id b w).sessions ≡ w.sessions
unfolding send_trade_status_extended
extended-sessions id b w = ground arith

pub notify-sessions : (id : ℕ) (w : World) → (notify_trade_update id w).sessions ≡ w.sessions
unfolding notify_trade_update
notify-sessions id w =
    let own = send_trade_status_extended id false w in
    elim (Option-cases ((own.sessions id).trade)) [
      | inl e ↦ rw (notify_trade_update, e) (extended-sessions id false w)
      | inr (t, e) ↦ elim (Option-cases t.partner) [
        | inl q ↦ rw (notify_trade_update, e, q) (extended-sessions id false w)
        | inr (p, q) ↦
            rw (notify_trade_update, e, q)
              (extended-sessions p true own ∙ extended-sessions id false w)
      ]
    ]

pub links-put_trade :
    (id : ℕ) (t : Option PlayerTradeState) (w : World) (i : ℕ)
    → links (put_trade id t w) i ≡ (if i == id then link t else links w i)
unfolding put_trade
links-put_trade id t w i = elim (Bool-cases (i == id)) [
  | inl q ↦ rw (links, q)
  | inr q ↦ rw (links, q)
]

pub player-put_trade :
    (id : ℕ) (t : Option PlayerTradeState) (w : World) (i : ℕ)
    → player_of (put_trade id t w) i ≡ player_of w i
unfolding put_trade
player-put_trade id t w i = elim (Bool-cases (i == id)) [
  | inl q ↦ rw (player_of, q) (ap (player_of w) (sym (==→eq i id q)))
  | inr q ↦ rw (player_of, q)
]

pub put_trade-Quiet :
    (id : ℕ) (t t' : PlayerTradeState) (w : World)
    → (w.sessions id).trade ≡ some t
    → t'.partner ≡ t.partner
    → Quiet w (put_trade id (some t') w)
put_trade-Quiet id t t' w e p i = (
  links-put_trade id (some t') w i ∙ elim (Bool-cases (i == id)) [
    | inl q ↦ rw (q, ==→eq i id q) (ap some p ∙ sym (ap link e))
    | inr q ↦ rw q
  ],
  player-put_trade id (some t') w i,
)

pub status-Quiet :
    (id status guid r target limit : ℕ) (w : World)
    → Quiet w (send_trade_status id status guid r target limit w)
unfolding send_trade_status
status-Quiet id status guid r target limit w = stays w

notify-Quiet : (id : ℕ) (w : World) → Quiet w (notify_trade_update id w)
notify-Quiet id w = same_sessions w (notify_trade_update id w) (notify-sessions id w)

pub unaccept_own-Quiet : (s : ℕ) (w : World) → Quiet w (unaccept_own s w)
unfolding unaccept_own send_trade_status
unaccept_own-Quiet s w = elim (Option-cases ((w.sessions s).trade)) [
  | inl e ↦ rw (unaccept_own, e) (stays w)
  | inr (t, e) ↦ elim (Bool-cases t.accepted) [
    | inl a ↦ rw (unaccept_own, e, a) (put_trade-Quiet s t (record t { accepted = false }) w e refl)
    | inr a ↦ rw (unaccept_own, e, a) (stays w)
  ]
]

pub offer_changed-Quiet : (s : ℕ) (w : World) → Quiet w (offer_changed s w)
unfolding offer_changed
offer_changed-Quiet s w =
    let own = unaccept_own s w in
    let q = unaccept_own-Quiet s w in
    elim (Option-cases ((own.sessions s).trade)) [
      | inl e ↦ rw (offer_changed, e) q
      | inr (t, e) ↦ elim (Option-cases t.partner) [
        | inl f ↦ rw (offer_changed, e, f) q
        | inr (p, f) ↦ elim (Option-cases ((own.sessions p).trade)) [
          | inl g ↦ rw (offer_changed, e, f, g) q
          | inr (pt, g) ↦
              let both = unaccept_own p own in
              rw (offer_changed, e, f, g)
                (then_Quiet w own (notify_trade_update s both) q (
                  then_Quiet own both (notify_trade_update s both) (unaccept_own-Quiet p own)
                    (notify-Quiet s both)))
        ]
      ]
    ]

-- A change of the offer of a session that trades.
pub offer-Quiet :
    (s : ℕ) (t t' : PlayerTradeState) (w : World)
    → (w.sessions s).trade ≡ some t
    → t'.partner ≡ t.partner
    → Quiet w (offer_changed s (put_trade s (some t') w))
offer-Quiet s t t' w e p =
    let w' = put_trade s (some t') w in
    then_Quiet w w' (offer_changed s w') (put_trade-Quiet s t t' w e p) (offer_changed-Quiet s w')

pub begin-Quiet : (s p : ℕ) (w : World) → Quiet w (notify_trade_update p (notify_trade_update s w))
begin-Quiet s p w =
    let own = notify_trade_update s w in
    then_Quiet w own (notify_trade_update p own) (notify-Quiet s w) (notify-Quiet p own)
