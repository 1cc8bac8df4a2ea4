-- ===== src/World/Trade/Places.antt =====
-- engine/world/trade.go, findFreeSlotsForTrade: the places that a traded item may go to.
use moreno_go_moreno_core.Common.{
  ℕ, zero, suc, Bool, true, false, not, ◌||◌, ◌<◌, ◌≤◌, ◌≡◌, refl, sym, ap, ◌∙◌, inl, inr, List, [],
  ◌∷◌, ◌++◌, ◌==◌, ltb, leb, one_of, if◌then◌else◌, Bool-cases, ==→eq, ==→ne, lt→leb, le→leb,
  leb→le, length, length-append, take, take-append, append-nil, append_assoc, arith,
}
use moreno_go_moreno_core.World.Trade.Slots.{
  Environment, EquippedBag, TradeSlotLoc, scan_slots, scan_bags, find_free_slots,
}

-- The reference: the places of a bag, those of the bags that may hold an item, those of a player.
abbrev pub bag_places : ℕ → ℕ → ℕ → List TradeSlotLoc
bag_places bag zero slot = []
bag_places bag (suc n) slot = record { bag_key = bag; slot = slot } ∷ bag_places bag n (suc slot)

abbrev pub worn_places : List EquippedBag → List TradeSlotLoc
worn_places [] = []
worn_places (eb ∷ bags) =
    if eb.slots == 0 || ltb 36 eb.slots
    then worn_places bags
    else bag_places eb.guid eb.slots 0 ++ worn_places bags

-- The backpack is bag 0, with the slots from 23 to 38.
abbrev pub player_places : Environment → ℕ → List TradeSlotLoc
player_places env guid = bag_places 0 16 23 ++ worn_places (env.equipped_bags guid)

-- Those places that are not in use.
abbrev pub free : Environment → ℕ → List TradeSlotLoc → List TradeSlotLoc
free env guid [] = []
free env guid (loc ∷ locs) =
    let rest = free env guid locs in
    if one_of loc.slot (env.used_slots guid loc.bag_key) then rest else loc ∷ rest

-- As many of the places as asked for, in their order, and whether there are so many.
abbrev pub first_of : ℕ → List TradeSlotLoc → List TradeSlotLoc × Bool
first_of count locs = (take count locs, leb count (length locs))

take_all : (n : ℕ) (xs : List TradeSlotLoc) → length xs ≤ n → take n xs ≡ xs
take_all zero [] h = refl
take_all zero (x ∷ xs) h = absurd (omega arith)
take_all (suc n) [] h = refl
take_all (suc n) (x ∷ xs) h = ap (◌∷◌ x) (take_all n xs (omega arith))

take_more : (n : ℕ) (xs ys : List TradeSlotLoc) → n ≤ length xs → take n (xs ++ ys) ≡ take n xs
take_more zero xs ys h = refl
take_more (suc n) [] ys h = absurd (omega arith)
take_more (suc n) (x ∷ xs) ys h = ap (◌∷◌ x) (take_more n xs ys (omega arith))

free-append :
    (env : Environment) (guid : ℕ) (xs ys : List TradeSlotLoc)
    → free env guid (xs ++ ys) ≡ free env guid xs ++ free env guid ys
free-append env guid [] ys = refl
free-append env guid (x ∷ xs) ys =
    elim (Bool-cases (one_of x.slot (env.used_slots guid x.bag_key))) [
      | inl u ↦ rw u (free-append env guid xs ys)
      | inr u ↦ rw u (ap (◌∷◌ x) (free-append env guid xs ys))
    ]

first_of-exact :
    (count : ℕ) (xs ys : List TradeSlotLoc)
    → length xs ≡ count
    → (xs, true) ≡ first_of count (xs ++ ys)
first_of-exact count xs ys e =
    let t : take count (xs ++ ys) ≡ xs = rw (← e) (take-append xs ys) in
    let b : leb count (length (xs ++ ys)) ≡ true =
      le→leb count (length (xs ++ ys)) (omega (arith, length-append xs ys)) in
    rw (t, b) refl

module _ (env : Environment) (guid count : ℕ) where
  scan_slots-first :
      (bag n slot : ℕ) (locs : List TradeSlotLoc)
      → length locs < count
      → scan_slots count bag (env.used_slots guid bag) n slot locs
        ≡ first_of count (locs ++ free env guid (bag_places bag n slot))
  unfolding scan_slots
  scan_slots-first bag zero slot locs h =
      rw (append-nil locs, take_all count locs (omega arith), lt→leb count (length locs) h) refl
  scan_slots-first bag (suc n) slot locs h =
      let loc : TradeSlotLoc = record { bag_key = bag; slot = slot } in
      let more = locs ++ loc ∷ [] in
      let fs = free env guid (bag_places bag n (suc slot)) in
      let moved = append_assoc locs (loc ∷ []) fs in
      elim (Bool-cases (one_of slot (env.used_slots guid bag))) [
        | inl u ↦ rw u (scan_slots-first bag n (suc slot) locs h)
        | inr u ↦ elim (Bool-cases (length more == count)) [
          | inl e ↦
              rw (u, e)
                (first_of-exact count more fs (==→eq (length more) count e)
                  ∙ ap (first_of count) moved)
          | inr e ↦
              rw (u, e)
                (scan_slots-first bag n (suc slot) more
                    (omega (arith, ==→ne (length more) count e, length-append locs (loc ∷ [])))
                  ∙ ap (first_of count) moved)
        ]
      ]

  -- The end of a scan, and what follows one that found too few.
  scanned-first :
      (locs fs : List TradeSlotLoc) (r : List TradeSlotLoc × Bool)
      (rest : List TradeSlotLoc → List TradeSlotLoc × Bool)
      → r ≡ first_of count locs
      → ((ls : List TradeSlotLoc) → length ls < count → rest ls ≡ first_of count (ls ++ fs))
      → (if r.1 then r else rest r.0) ≡ first_of count (locs ++ fs)
  scanned-first locs fs r rest e k = elim (Bool-cases (leb count (length locs))) [
    | inl b ↦
        let h : count ≤ length locs = leb→le count (length locs) b in
        let m : leb count (length (locs ++ fs)) ≡ true =
          le→leb count (length (locs ++ fs)) (omega (arith, length-append locs fs)) in
        rw (e, b, take_more count locs fs h, m) refl
    | inr b ↦
        let h : length locs < count = ground arith in
        rw (e, b, take_all count locs (omega arith)) (k locs h)
  ]

  scan_bags-first :
      (bags : List EquippedBag) (locs : List TradeSlotLoc)
      → length locs < count
      → scan_bags env guid count bags locs
        ≡ first_of count (locs ++ free env guid (worn_places bags))
  unfolding scan_bags
  scan_bags-first [] locs h = rw (append-nil locs, take_all count locs (omega arith)) refl
  scan_bags-first (eb ∷ bags) locs h =
      let own = bag_places eb.guid eb.slots 0 in
      let after = worn_places bags in
      elim (Bool-cases (eb.slots == 0 || ltb 36 eb.slots)) [
        | inl e ↦ rw e (scan_bags-first bags locs h)
        | inr e ↦ rw e (
            scanned-first (locs ++ free env guid own) (free env guid after) _
              (scan_bags env guid count bags) (scan_slots-first eb.guid eb.slots 0 locs h)
              (scan_bags-first bags)
            ∙ ap (first_of count) (
                append_assoc locs (free env guid own) (free env guid after)
                ∙ ap (λ (xs : List TradeSlotLoc). locs ++ xs)
                    (sym (free-append env guid own after))))
      ]

  -- The tests before the scan.
  tested-first :
      (all : List TradeSlotLoc) (b d : Bool) (o : List TradeSlotLoc × Bool)
      → (b ≡ true → count ≡ 0)
      → d ≡ true
      → (b ≡ false → o ≡ first_of count all)
      → (if b then ([], true) else if not d then ([], false) else o) ≡ first_of count all
  tested-first all true d o z e f = rw (z refl, le→leb 0 (length all) (omega arith)) refl
  tested-first all false true o z e f = f refl
  tested-first all false false o z e f = absurd (cc e)

  -- With a database, the places that are found for a number of items are the first free ones of the
  -- player, as many as there are items or, where there are fewer, all of them, and the answer says
  -- whether there are enough. The places of a player are, in this order, the slots 23 to 38 of the
  -- backpack and all the slots of each worn bag that has from 1 to 36 slots; those that hold an item
  -- are not free.
  pub find_free_slots-first :
      env.has_db ≡ true
      → find_free_slots env guid count ≡ first_of count (free env guid (player_places env guid))
  unfolding find_free_slots
  find_free_slots-first d =
      let own = bag_places 0 16 23 in
      let after = worn_places (env.equipped_bags guid) in
      tested-first (free env guid (player_places env guid)) (count == 0) env.has_db _
        (==→eq count 0) d
        (λ n.
          scanned-first (free env guid own) (free env guid after) _
            (scan_bags env guid count (env.equipped_bags guid))
            (scan_slots-first 0 16 23 [] (omega (arith, ==→ne count 0 n)))
            (scan_bags-first (env.equipped_bags guid))
          ∙ ap (first_of count) (sym (free-append env guid own after)))
