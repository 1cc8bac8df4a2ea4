-- ===== src/World/Groups/Looter.antt =====
-- engine/world/group.go, updateLooter: whose turn it is to loot.
use native.Mathlib.Nat.{add-mod_left, mod-eq_of_lt}
use moreno_go_moreno_core.Common.{
  ℕ, zero, suc, ◌+◌, ◌-◌, ◌%◌, ◌<◌, ◌≤◌, ◌≡◌, refl, ap, sym, ◌∙◌, arith, Bool, true, false, List,
  [], ◌∷◌, ◌++◌, ◌==◌, ◌||◌, if◌then◌else◌, Option, none, some, length, get_elem?, take, drop,
  Bool-cases, Option-cases, inl, inr,
}
use moreno_go_moreno_core.World.Groups.{Session, Group, Member, World, find_session_by_guid}

-- The place of the looter among the members.
unfoldable pub looter_index : ℕ → List Member → Option ℕ
looter_index guid [] = none
looter_index guid (m ∷ ms) =
    let rest = elim (looter_index guid ms) as (λ _. Option ℕ) [
      | none ↦ none
      | some i ↦ some (suc i)
    ] in
    if m.guid == guid then some 0 else rest

-- The loop, on the number of rounds left: the next place, and the first member who is near.
unfoldable pub next_looter : (ℕ → Bool) → List Member → ℕ → ℕ → Option ℕ
next_looter near ms place zero = none
next_looter near ms place (suc rounds) =
    let rest = next_looter near ms (suc place) rounds in
    elim (get_elem? ms (place % length ms)) [
      | none ↦ rest
      | some m ↦ if near m.guid then some m.guid else rest
    ]

-- `close` says of a session that it is on the map of the loot and at most 100 away: it is distance3D
-- on floats.
abbrev pub is_near : (Session → Bool) → World → ℕ → Bool
is_near close w guid = elim (find_session_by_guid guid w) [ none ↦ false | some s ↦ close s ]

abbrev pub after_looter : ℕ → List Member → ℕ
after_looter guid ms = elim (looter_index guid ms) [ none ↦ 0 | some i ↦ suc i ]

abbrev pub first_guid : List Member → ℕ
first_guid [] = 0
first_guid (m ∷ ms) = m.guid

unfoldable pub update_looter : (Session → Bool) → Group → World → Group
unfolding next_looter looter_index
update_looter close g w =
    let next =
      next_looter (is_near close w) g.members (after_looter g.looter_guid g.members)
        (length g.members) in
    if g.loot_method == 0 || length g.members == 0 then g else elim next [
      | some guid ↦ record g { looter_guid = guid }
      | none ↦ if g.looter_guid == 0 then record g { looter_guid = first_guid g.members } else g
    ]

-- The reference: the first member of a list who is near.
abbrev pub first_near : (ℕ → Bool) → List Member → Option ℕ
first_near near [] = none
first_near near (m ∷ ms) = if near m.guid then some m.guid else first_near near ms

abbrev pub or_default : Option ℕ → ℕ → ℕ
or_default none d = d
or_default (some x) d = x

abbrev or_else : Option ℕ → Option ℕ → Option ℕ
or_else none p = p
or_else (some x) p = some x

first_near-append :
    (near : ℕ → Bool) (xs ys : List Member)
    → first_near near (xs ++ ys) ≡ or_else (first_near near xs) (first_near near ys)
first_near-append near [] ys = refl
first_near-append near (x ∷ xs) ys = elim (Bool-cases (near x.guid)) [
  | inl e ↦ rw e refl
  | inr e ↦ rw e (first_near-append near xs ys)
]

drop_at :
    (ms : List Member) (i : ℕ)
    → i < length ms
    → (m : Member) × (get_elem? ms i ≡ some m) × (drop i ms ≡ m ∷ drop (suc i) ms)
drop_at [] i h = elim h [ ]
drop_at (m ∷ ms) zero h = (m, refl, refl)
drop_at (m ∷ ms) (suc i) h = drop_at ms i (omega arith)

drop_all : (ms : List Member) (i : ℕ) → i ≡ length ms → drop i ms ≡ []
drop_all [] zero e = refl
drop_all [] (suc i) e = refl
drop_all (m ∷ ms) zero e = ground arith
drop_all (m ∷ ms) (suc i) e = drop_all ms i (omega arith)

on_member :
    (o : Option Member) {m : Member} (f : Member → Option ℕ) (r : Option ℕ)
    → o ≡ some m
    → (elim o as (λ _. Option ℕ) [ none ↦ r | some x ↦ f x ]) ≡ f m
on_member none f r e = cc
on_member (some x) f r e = cc

chosen :
    (b : Bool) (x : ℕ) (p q r : Option ℕ)
    → p ≡ or_else q r
    → (if b then some x else p) ≡ or_else (if b then some x else q) r
chosen true x p q r e = refl
chosen false x p q r e = e

module _ (near : ℕ → Bool) (ms : List Member) where
  one_round :
      (i k : ℕ) (m : Member)
      → i < length ms
      → get_elem? ms i ≡ some m
      → next_looter near ms i (suc k)
        ≡ (if near m.guid then some m.guid else next_looter near ms (suc i) k)
  unfolding next_looter
  one_round i k m h e =
      let rest = next_looter near ms (suc i) k in
      on_member (get_elem? ms (i % length ms))
        (λ (x : Member). if near x.guid then some x.guid else rest) rest
        (ap (get_elem? ms) (mod-eq_of_lt h) ∙ e)

  -- From a place to the last one, and on from there.
  to_end :
      (k i j : ℕ)
      → i + k ≡ length ms
      → next_looter near ms i (k + j)
        ≡ or_else (first_near near (drop i ms)) (next_looter near ms (length ms) j)
  to_end zero i j e =
      let z : 0 + j ≡ j = omega arith in
      let n : i ≡ length ms = omega arith in rw (z, drop_all ms i n, n) refl
  to_end (suc k) i j e =
      let z : suc k + j ≡ suc (k + j) = omega arith in
      let (m, g, d) = drop_at ms i (omega arith) in
      let rest = to_end k (suc i) j (omega arith) in
      rw (z, d) (one_round i (k + j) m (omega arith) g ∙ chosen (near m.guid) m.guid _ _ _ rest)

  -- So many places from one on.
  a_part :
      (k i : ℕ) → i + k ≤ length ms → next_looter near ms i k ≡ first_near near (take k (drop i ms))
  unfolding next_looter
  a_part zero i h = refl
  a_part (suc k) i h =
      let (m, g, d) = drop_at ms i (omega arith) in
      rw d (
        one_round i k m (omega arith) g
        ∙ ap (λ (o : Option ℕ). if near m.guid then some m.guid else o)
            (a_part k (suc i) (omega arith)))

  -- The places start anew after the last one.
  start_anew : (k i : ℕ) → next_looter near ms (length ms + i) k ≡ next_looter near ms i k
  unfolding next_looter
  start_anew zero i = refl
  start_anew (suc k) i =
      let n = length ms in
      let z : suc (n + i) ≡ n + suc i = omega arith in
      let round = λ (o : Option Member) (rest : Option ℕ). elim o as (λ _. Option ℕ) [
        | none ↦ rest
        | some m ↦ if near m.guid then some m.guid else rest
      ] in
      ap (λ (x : ℕ). round (get_elem? ms x) (next_looter near ms (suc (n + i)) k))
        (add-mod_left n i)
      ∙ ap (λ (r : Option ℕ). round (get_elem? ms (i % n)) r)
          (ap (λ (x : ℕ). next_looter near ms x k) z ∙ start_anew k (suc i))

  all_round :
      (place : ℕ)
      → place ≤ length ms
      → next_looter near ms place (length ms) ≡ first_near near (drop place ms ++ take place ms)
  all_round place h =
      let k = length ms - place in
      let z : k + place ≡ length ms = omega arith in
      let n : length ms + 0 ≡ length ms = omega arith in
      ap (next_looter near ms place) (sym z)
      ∙ to_end k place place (omega arith)
      ∙ ap (or_else (first_near near (drop place ms))) (
          ap (λ (x : ℕ). next_looter near ms x place) (sym n)
          ∙ start_anew place 0
          ∙ a_part place 0 (omega arith))
      ∙ sym (first_near-append near (drop place ms) (take place ms))

looter_index-lt : (guid : ℕ) (ms : List Member) → after_looter guid ms ≤ length ms
unfolding looter_index
looter_index-lt guid [] = omega arith
looter_index-lt guid (m ∷ ms) = elim (Option-cases (looter_index guid ms)) [
  | inl e ↦ ground (arith, e)
  | inr (i, e) ↦
      let h : suc i ≤ length ms = ground (arith, e, looter_index-lt guid ms) in ground (arith, e, h)
]

picked :
    (o : Option ℕ) (b : Bool) (g : Group)
    → (elim o as (λ _. Group) [
      | some guid ↦ record g { looter_guid = guid }
      | none ↦ if b then record g { looter_guid = first_guid g.members } else g
    ]).looter_guid
      ≡ or_default o (if b then first_guid g.members else g.looter_guid)
picked none true g = refl
picked none false g = refl
picked (some x) b g = refl

-- The next looter is the first member who is near from the one after the last looter on, around the
-- list and up to the last looter; where nobody is near it stays, or is the first member where there
-- was none. The group has members, and its loot is not free for all.
pub update_looter-first_near :
    (close : Session → Bool) (g : Group) (w : World)
    → (g.loot_method == 0) ≡ false
    → (length g.members == 0) ≡ false
    → let place = after_looter g.looter_guid g.members in
      let turn = drop place g.members ++ take place g.members in
      (update_looter close g w).looter_guid
      ≡ or_default
          (first_near (is_near close w) turn)
          (if g.looter_guid == 0 then first_guid g.members else g.looter_guid)
unfolding update_looter
update_looter-first_near close g w f n =
    let near = is_near close w in
    let place = after_looter g.looter_guid g.members in
    let e = all_round near g.members place (looter_index-lt g.looter_guid g.members) in
    rw (f, n, e)
      (picked (first_near near (drop place g.members ++ take place g.members)) (g.looter_guid == 0)
        g)
