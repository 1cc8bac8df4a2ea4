-- ===== src/World/Queue/Slots.antt =====
-- engine/world/battleground.go: who joins a queue and leaves it again.
use moreno_go_moreno_core.Common.{
  ℕ, suc, ◌≡◌, ◌≢◌, ◌⊎◌, inl, inr, refl, ap, sym, ◌∙◌, arith, true, false, List, [], ◌∷◌, ◌++◌,
  ◌==◌, ◌&&◌, if◌then◌else◌, Option, none, some, set, map, Bool-cases, Option-cases, ==_self,
  if-true, if-false,
}
use moreno_go_moreno_core.Protocol.Buffer.{le_bytes, new_buffer, write_u32, write_u64}
use moreno_go_moreno_core.World.Queue.{
  Entry, Session, Effect, battlefield_status, leaves_battlegrounds, resets_criteria,
  build_battlefield_status, empty_entry, free_slot, join_queue, leave_queue, end_entries,
  handle_leave_battlefield,
}

-- What the queues hold: what an ended entry still says is no matter.
abbrev pub shown : Entry → Option Entry
shown e = if e.active then some e else none

abbrev pub view : List Entry → List (Option Entry)
view = map shown

-- The type is in no active place.
abbrev pub Unqueued : ℕ → List Entry → Type 0
Unqueued bg_type_id [] = Unit
Unqueued bg_type_id (e ∷ es) =
    ((e.active ≡ false) ⊎ (e.bg_type_id ≢ bg_type_id)) × Unqueued bg_type_id es

next_slot :
    (o : Option ℕ) {i : ℕ}
    → (elim o as (λ _. Option ℕ) [ none ↦ none | some j ↦ some (suc j) ]) ≡ some i
    → (j : ℕ) × (o ≡ some j) × (i ≡ suc j)
next_slot none e = ground arith
next_slot (some j) {i} e = (j, refl, ground (arith, e))

skipped :
    (t : ℕ) (e : Entry) (es : List Entry)
    → (e.active ≡ false) ⊎ (e.bg_type_id ≢ t)
    → (leave_queue t (e ∷ es)).0 ≡ e ∷ (leave_queue t es).0
unfolding leave_queue
skipped t e es u =
    let k : (e.active && e.bg_type_id == t) ≡ false = ground (arith, u) in
    ap (λ (o : List Entry × Option ℕ). o.0) (if-false _ _ _ k)

found :
    (e : Entry) (es : List Entry)
    → e.active ≡ true
    → (leave_queue e.bg_type_id (e ∷ es)).0 ≡ empty_entry ∷ es
unfolding leave_queue
found e es a =
    let k : (e.active && e.bg_type_id == e.bg_type_id) ≡ true = rw (a, ==_self e.bg_type_id) refl in
    ap (λ (o : List Entry × Option ℕ). o.0) (if-true _ _ _ k)

inactive : (e : Entry) → e.active ≡ false → none ≡ shown e
inactive e b = sym (if-false e.active (some e) none b)

leave_joined :
    (entry : Entry) (es : List Entry) (i : ℕ)
    → entry.active ≡ true
    → free_slot es ≡ some i
    → Unqueued entry.bg_type_id es
    → view (leave_queue entry.bg_type_id (set es i entry)).0 ≡ view es
unfolding free_slot
leave_joined entry [] i a f u = ground (arith, f)
leave_joined entry (e ∷ es) i a f u = elim (Bool-cases e.active) [
  | inl b ↦
      let (j, p, z) = next_slot (free_slot es) (sym (if-true e.active _ _ b) ∙ f) in
      let rest = leave_joined entry es j a p u.1 in
      rw z (
        ap view (skipped entry.bg_type_id e (set es j entry) u.0)
        ∙ ap (λ (xs : List (Option Entry)). shown e ∷ xs) rest)
  | inr b ↦
      let first : some 0 ≡ some i = sym (if-false e.active _ _ b) ∙ f in
      let z : i ≡ 0 = ground (arith, first) in
      rw z (ap view (found entry es a) ∙ ap (λ (x : Option Entry). x ∷ view es) (inactive e b))
]

leave_others : (t : ℕ) (es : List Entry) → Unqueued t es → (leave_queue t es).0 ≡ es
unfolding leave_queue
leave_others t [] u = refl
leave_others t (e ∷ es) u =
    skipped t e es u.0 ∙ ap (λ (xs : List Entry). e ∷ xs) (leave_others t es u.1)

-- Who joins a queue and leaves it again is in the queues as before, whether there was a free place or
-- not, provided that the same battleground was in no active place.
pub join_queue-leave :
    (now : ℕ) (entry : Entry) (s : Session)
    → entry.active ≡ true
    → Unqueued entry.bg_type_id s.queues
    → view (leave_queue entry.bg_type_id (join_queue now entry s).1.queues).0 ≡ view s.queues
unfolding join_queue
join_queue-leave now entry s a u = elim (Option-cases (free_slot s.queues)) [
  | inl e ↦ rw (join_queue, e) (ap view (leave_others entry.bg_type_id s.queues u))
  | inr (i, e) ↦ rw (join_queue, e) (leave_joined entry s.queues i a e u)
]

-- The places that are active, from a slot on.
abbrev pub active_slots : ℕ → List Entry → List ℕ
active_slots slot [] = []
active_slots slot (e ∷ es) =
    let rest = active_slots (suc slot) es in if e.active then slot ∷ rest else rest

-- The status of a place that holds nothing: its number, and eight zeros.
abbrev pub emptied : ℕ → Effect
emptied slot = battlefield_status (le_bytes 4 slot ++ le_bytes 8 0)

emptied-status :
    (now slot : ℕ) (e : Entry)
    → battlefield_status
        (build_battlefield_status now slot (record e { active = false; status = 0 }))
      ≡ emptied slot
unfolding build_battlefield_status write_u64 write_u32 new_buffer
emptied-status now slot e = refl

end_entries-view :
    (now slot : ℕ) (es : List Entry)
    → (view (end_entries now slot es).0 ≡ map (λ (e : Entry). none) es)
      × ((end_entries now slot es).1 ≡ map emptied (active_slots slot es))
unfolding end_entries
end_entries-view now slot [] = (refl, refl)
end_entries-view now slot (e ∷ es) =
    let rest = end_entries-view now (suc slot) es in
    elim (Bool-cases e.active) [
      | inl b ↦ rw b (
        ap (◌∷◌ none) rest.0,
        ap (λ (x : Effect). x ∷ (end_entries now (suc slot) es).1) (emptied-status now slot e)
            ∙ ap (◌∷◌ (emptied slot)) rest.1,
      )
      | inr b ↦ rw b (ap (◌∷◌ none) rest.0, rest.1)
    ]

-- A player who leaves a battlefield is then in no queue. The handlers of the battlegrounds are
-- called, the criteria start anew, and the client is sent, for each place that was active and for no
-- other, in the order of the places, the status of that place that says it holds nothing: the place's
-- number in four bytes, and eight zeros.
pub handle_leave_battlefield-view :
    (now : ℕ) (s : Session)
    → s.loaded ≡ true
    → let (done, s', sent) = handle_leave_battlefield now s in
      (view s'.queues ≡ map (λ (e : Entry). none) s.queues)
      × (sent ≡ leaves_battlegrounds ∷ resets_criteria ∷ map emptied (active_slots 0 s.queues))
unfolding handle_leave_battlefield
handle_leave_battlefield-view now s l =
    let v = end_entries-view now 0 s.queues in
    rw l (v.0, ap (λ (es : List Effect). leaves_battlegrounds ∷ resets_criteria ∷ es) v.1)
