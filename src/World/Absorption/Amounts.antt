-- ===== src/World/Absorption/Amounts.antt =====
-- engine/world/absorption.go: no damage is lost or made, and shields lose what they absorb.
use moreno_go_moreno_core.Common.{
  ℕ, ◌+◌, ◌-◌, ◌^◌, ◌≤◌, ◌<◌, ◌≡◌, refl, ◌&&◌, ◌||◌, List, [], ◌∷◌, ◌==◌, ltb, if◌then◌else◌, some,
  inl, inr, Bool-cases, bit_and, arith,
}
use moreno_go_moreno_core.World.Absorption.{
  Aura, Absorbing, take_amount, use_school, use_mana, use_shield, use_creature_shield, use_all,
  insert, covers, mana_cost, mana_pays, shields, sort, aura_school_absorb, aura_mana_shield,
  aura_magic_absorb, apply_absorption_shields, apply_creature_absorption_shields,
}

-- One shield took from the damage what it lost.
pub record Took (a : Aura) (st : Absorbing) (r : Aura × Absorbing) : Type 0 where
  pub damage : r.1.remaining + r.1.absorbed ≡ st.remaining + st.absorbed
  pub amount : r.0.amount + r.1.absorbed ≡ a.amount + st.absorbed
  pub less : r.1.remaining ≤ st.remaining

-- The damage fits, so that no cost in mana passes 32 bits.
abbrev pub Fits : Absorbing → Type 0
Fits st = st.remaining + st.absorbed < 2 ^ 31

nothing : (a : Aura) (st : Absorbing) → Took a st (a, st)
nothing a st = record { damage = refl; amount = refl; less = omega arith }

take_amount-Took :
    (n mana : ℕ) (a : Aura) (st : Absorbing)
    → n ≤ st.remaining
    → n ≤ a.amount
    → Fits st
    → Took a st (take_amount n a (record st { mana = mana }))
unfolding take_amount
take_amount-Took n mana a st h k f = record {
  damage = omega arith;
  amount = omega arith;
  less = omega arith;
}

school-Took :
    (school : ℕ) (a : Aura) (st : Absorbing) → Fits st → Took a st (use_school school a st)
unfolding use_school
school-Took school a st f =
    let n = if ltb st.remaining a.amount then st.remaining else a.amount in
    let h : n ≤ st.remaining = ground arith in
    let k : n ≤ a.amount = ground arith in
    elim (Bool-cases (covers school a)) [
      | inl c ↦ rw (use_school, c) (take_amount-Took n st.mana a st h k f)
      | inr c ↦ rw (use_school, c) (nothing a st)
    ]

-- The machine's conversion of a float that fits 32 bits.
abbrev pub Converts : (ℕ → ℕ) → Type 0
Converts to_u32 = (n : ℕ) → n < 2 ^ 32 → to_u32 n ≡ n

mana-Took :
    (to_u32 : ℕ → ℕ) (a : Aura) (st : Absorbing)
    → Converts to_u32
    → Fits st
    → Took a st (use_mana to_u32 a st)
unfolding use_mana
mana-Took to_u32 a st c f =
    let needed = to_u32 (mana_cost st.remaining) in
    let can = if ltb st.mana needed then mana_pays st.mana else st.remaining in
    let n = if ltb a.amount can then a.amount else can in
    let exact : needed ≡ mana_cost st.remaining = c (mana_cost st.remaining) (omega arith) in
    let pays : can ≤ st.remaining = ground (arith, exact) in
    let h : n ≤ st.remaining = ground (arith, pays) in
    let k : n ≤ a.amount = ground arith in
    elim (Bool-cases (ltb 0 n)) [
      | inl p ↦ rw (use_mana, p) (take_amount-Took n _ a st h k f)
      | inr p ↦ rw (use_mana, p) (nothing a st)
    ]

take_amount-absorbed :
    (n mana : ℕ) (a : Aura) (st : Absorbing)
    → n ≤ st.remaining
    → Fits st
    → let r = (take_amount n a (record st { mana = mana })).1 in
      (r.absorbed - st.absorbed ≡ n) × (r.mana ≡ mana)
unfolding take_amount
take_amount-absorbed n mana a st h f = (omega arith, refl)

-- A mana shield absorbs no more than the mana pays for, at one and a half for each point of damage,
-- rounded up, and that mana is spent, where the machine converts a float that fits 32 bits to its
-- value and the damage is below 2 ^ 31.
pub use_mana_pays :
    (to_u32 : ℕ → ℕ) (a : Aura) (st : Absorbing)
    → Converts to_u32
    → Fits st
    → let r = (use_mana to_u32 a st).1 in r.mana + mana_cost (r.absorbed - st.absorbed) ≡ st.mana
unfolding use_mana
use_mana_pays to_u32 a st c f =
    let needed = to_u32 (mana_cost st.remaining) in
    let can = if ltb st.mana needed then mana_pays st.mana else st.remaining in
    let n = if ltb a.amount can then a.amount else can in
    let drain = to_u32 (mana_cost n) in
    let left = if ltb st.mana drain then 0 else st.mana - drain in
    let exact : needed ≡ mana_cost st.remaining = c (mana_cost st.remaining) (omega arith) in
    let pays : (can ≤ st.remaining) × (mana_cost can ≤ st.mana) = ground (arith, exact) in
    let h : (n ≤ st.remaining) × (mana_cost n ≤ st.mana) = ground (arith, pays) in
    let cost : drain ≡ mana_cost n = c (mana_cost n) (omega (arith, h)) in
    let rest : left + mana_cost n ≡ st.mana = ground (arith, cost, h) in
    elim (Bool-cases (ltb 0 n)) [
      | inl p ↦
          let t = take_amount-absorbed n left a st h.0 f in rw (use_mana, p) (rw (t.0, t.1) rest)
      | inr p ↦ rw (use_mana, p) (omega arith)
    ]

shield-Took :
    (to_u32 : ℕ → ℕ) (school : ℕ) (a : Aura) (st : Absorbing)
    → Converts to_u32
    → Fits st
    → Took a st (use_shield to_u32 school a st)
unfolding use_shield
shield-Took to_u32 school a st c f = elim (Bool-cases (a.aura_type == aura_school_absorb)) [
  | inl e ↦ rw (use_shield, e) (school-Took school a st f)
  | inr e ↦ elim (Bool-cases (a.aura_type == aura_magic_absorb && bit_and school 1 == 0)) [
    | inl g ↦ rw (use_shield, e, g) (school-Took school a st f)
    | inr g ↦ elim (Bool-cases (a.aura_type == aura_mana_shield && ltb 0 st.mana)) [
      | inl h ↦ rw (use_shield, e, g, h) (mana-Took to_u32 a st c f)
      | inr h ↦ rw (use_shield, e, g, h) (nothing a st)
    ]
  ]
]

creature-Took :
    (school : ℕ) (a : Aura) (st : Absorbing) → Fits st → Took a st (use_creature_shield school a st)
unfolding use_creature_shield
creature-Took school a st f =
    elim (Bool-cases (
      a.aura_type == aura_school_absorb
      || (a.aura_type == aura_magic_absorb && bit_and school 1 == 0))) [
        | inl e ↦ rw (use_creature_shield, e) (school-Took school a st f)
        | inr e ↦ rw (use_creature_shield, e) (nothing a st)
      ]

-- What shields can absorb together.
pub total : List Aura → ℕ
total [] = 0
total (a ∷ auras) = a.amount + total auras

-- Shields took from the damage what they lost together.
pub record TookAll (auras : List Aura) (st : Absorbing) (r : List Aura × Absorbing) : Type 0 where
  pub damage : r.1.remaining + r.1.absorbed ≡ st.remaining + st.absorbed
  pub amount : total r.0 + r.1.absorbed ≡ total auras + st.absorbed

use_all-TookAll :
    (use_one : Aura → Absorbing → Aura × Absorbing) (auras : List Aura) (st : Absorbing)
    → ((a : Aura) (st : Absorbing) → Fits st → Took a st (use_one a st))
    → Fits st
    → TookAll auras st (use_all use_one auras st)
unfolding use_all total
use_all-TookAll use_one [] st k f = record { damage = refl; amount = refl }
use_all-TookAll use_one (a ∷ auras) st k f = elim (Bool-cases (st.remaining == 0)) [
  | inl e ↦ rw e (record { damage = refl; amount = refl })
  | inr e ↦
      let one = use_one a st in
      let t = k a st f in
      let r = use_all-TookAll use_one auras one.1 k (omega (arith, t.damage)) in
      rw e (record {
        damage = omega (arith, t.damage, r.damage);
        amount = omega (arith, t.amount, r.amount);
      })
]

-- The order in which shields are used keeps what they can absorb.
total-insert : (a : Aura) (bs : List Aura) → total (insert a bs) ≡ a.amount + total bs
unfolding insert total
total-insert a [] = refl
total-insert a (b ∷ bs) = ground (arith, total-insert a bs)

total-sort : (bs : List Aura) → total (sort bs) ≡ total bs
unfolding sort total
total-sort [] = refl
total-sort (b ∷ bs) = omega (arith, total-insert b (sort bs), total-sort bs)

-- What a hit leaves of the damage and of the shields.
pub record Absorbs (hit : ℕ) (auras : List Aura) (r : List Aura × Absorbing) : Type 0 where
  pub damage : r.1.remaining + r.1.absorbed ≡ hit
  pub amount : total r.0 + r.1.absorbed ≡ total (shields auras)

-- Of a hit below 2 ^ 31 on a player or a creature, what is absorbed and what remains are the damage,
-- and the shields that are in effect lose together what is absorbed, whatever their kinds and their
-- order, where the machine converts a float that fits 32 bits to its value.
pub shields-Absorbs :
    (to_u32 : ℕ → ℕ) (hit school mana : ℕ) (auras : List Aura)
    → Converts to_u32
    → hit < 2 ^ 31
    → Absorbs hit auras (apply_absorption_shields to_u32 hit school (some mana) auras)
      × Absorbs hit auras (apply_creature_absorption_shields hit school auras)
unfolding apply_absorption_shields apply_creature_absorption_shields
shields-Absorbs to_u32 hit school mana auras c h =
    let sorted = sort (shields auras) in
    let st : Absorbing = record { remaining = hit; absorbed = 0; mana = mana; exhausted = [] } in
    let st0 : Absorbing = record { remaining = hit; absorbed = 0; mana = 0; exhausted = [] } in
    let p =
      use_all-TookAll (use_shield to_u32 school) sorted st
        (λ a s f. shield-Took to_u32 school a s c f) (omega arith) in
    let q =
      use_all-TookAll (use_creature_shield school) sorted st0 (λ a s f. creature-Took school a s f)
        (omega arith) in
    (
      record {
        damage = omega (arith, p.damage);
        amount = omega (arith, p.amount, total-sort (shields auras));
      },
      record {
        damage = omega (arith, q.damage);
        amount = omega (arith, q.amount, total-sort (shields auras));
      },
    )
