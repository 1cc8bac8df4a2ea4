-- ===== src/World/Absorption.antt =====
-- engine/world/absorption.go: the shields that take damage before its target does. The shields of a
-- map are the list in which Go happens to go through it.
pub mod Amounts
use moreno_go_moreno_core.Common.{
  ℕ, ◌+◌, ◌-◌, ◌*◌, ◌/◌, ◌%◌, ◌^◌, Bool, true, false, not, ◌&&◌, ◌||◌, List, [], ◌∷◌, ◌++◌, ◌==◌,
  ltb, if◌then◌else◌, Option, none, some, bit_and,
}

abbrev pub aura_school_absorb : ℕ
aura_school_absorb = 69

abbrev pub aura_mana_shield : ℕ
aura_mana_shield = 72

abbrev pub aura_magic_absorb : ℕ
aura_magic_absorb = 256

-- What a shield takes of an active aura.
pub record Aura : Type 0 where
  pub aura_type : ℕ
  pub school_mask : ℕ
  pub amount : ℕ
  pub spell_id : ℕ
  pub stopped : Bool

unfoldable pub absorption_priority : Aura → ℕ
absorption_priority a =
    if a.aura_type == aura_school_absorb
    then (if not (a.school_mask == 0) && not (a.school_mask == 127) then 1 else 3)
    else if a.aura_type == aura_magic_absorb
    then 2
    else if a.aura_type == aura_mana_shield
    then 4
    else 5

-- The order of the sort, which is stable.
unfoldable pub goes_before : Aura → Aura → Bool
unfolding absorption_priority
goes_before a b =
    let p = absorption_priority a in
    let q = absorption_priority b in if p == q then ltb a.spell_id b.spell_id else ltb p q

unfoldable pub insert : Aura → List Aura → List Aura
unfolding goes_before
insert a [] = a ∷ []
insert a (b ∷ bs) = let rest = insert a bs in if goes_before b a then b ∷ rest else a ∷ b ∷ bs

unfoldable pub sort : List Aura → List Aura
unfolding insert
sort [] = []
sort (a ∷ auras) = insert a (sort auras)

abbrev pub is_shield : Aura → Bool
is_shield a = not a.stopped && ltb 0 a.amount

unfoldable pub shields : List Aura → List Aura
shields [] = []
shields (a ∷ auras) = let rest = shields auras in if is_shield a then a ∷ rest else rest

-- What is left of the damage, what was absorbed, the mana, and the spells that are used up.
pub record Absorbing : Type 0 where
  pub remaining : ℕ
  pub absorbed : ℕ
  pub mana : ℕ
  pub exhausted : List ℕ

-- `aura.Amount -= n` and what goes with it.
unfoldable pub take_amount : ℕ → Aura → Absorbing → Aura × Absorbing
take_amount n a st =
    let used = if a.amount - n == 0 then st.exhausted ++ a.spell_id ∷ [] else st.exhausted in
    (
      record a { amount = a.amount - n },
      record st {
        remaining = st.remaining - n;
        absorbed = (st.absorbed + n) % 2 ^ 32;
        exhausted = used;
      },
    )

abbrev pub covers : ℕ → Aura → Bool
covers school a = a.school_mask == 0 || not (bit_and a.school_mask school == 0)

unfoldable pub use_school : ℕ → Aura → Absorbing → Aura × Absorbing
unfolding take_amount
use_school school a st =
    let n = if ltb st.remaining a.amount then st.remaining else a.amount in
    let taken = take_amount n a st in if covers school a then taken else (a, st)

-- `math.Ceil(float64(n) * 1.5)` and `float64(n) / 1.5`, cut to a whole number: both are exact for
-- words of 32 bits. The conversion of a float past 32 bits, `to_u32`, is left to the machine.
abbrev pub mana_cost : ℕ → ℕ
mana_cost n = (3 * n + 1) / 2

abbrev pub mana_pays : ℕ → ℕ
mana_pays mana = 2 * mana / 3

unfoldable pub use_mana : (ℕ → ℕ) → Aura → Absorbing → Aura × Absorbing
unfolding take_amount
use_mana to_u32 a st =
    let needed = to_u32 (mana_cost st.remaining) in
    let can = if ltb st.mana needed then mana_pays st.mana else st.remaining in
    let n = if ltb a.amount can then a.amount else can in
    let drain = to_u32 (mana_cost n) in
    let left = if ltb st.mana drain then 0 else st.mana - drain in
    let taken = take_amount n a (record st { mana = left }) in if ltb 0 n then taken else (a, st)

unfoldable pub use_shield : (ℕ → ℕ) → ℕ → Aura → Absorbing → Aura × Absorbing
unfolding use_school use_mana
use_shield to_u32 school a st =
    let by_school = use_school school a st in
    let by_mana = use_mana to_u32 a st in
    if a.aura_type == aura_school_absorb
    then by_school
    else if a.aura_type == aura_magic_absorb && bit_and school 1 == 0
    then by_school
    else if a.aura_type == aura_mana_shield && ltb 0 st.mana
    then by_mana
    else (a, st)

-- A creature has no mana shield.
unfoldable pub use_creature_shield : ℕ → Aura → Absorbing → Aura × Absorbing
unfolding use_school
use_creature_shield school a st =
    let by_school = use_school school a st in
    if a.aura_type == aura_school_absorb
      || (a.aura_type == aura_magic_absorb && bit_and school 1 == 0)
    then by_school
    else (a, st)

-- The loop, which ends where no damage is left.
unfoldable pub use_all :
    (Aura → Absorbing → Aura × Absorbing) → List Aura → Absorbing → List Aura × Absorbing
use_all use_one [] st = ([], st)
use_all use_one (a ∷ auras) st =
    let one = use_one a st in
    let rest = use_all use_one auras one.1 in
    if st.remaining == 0 then (a ∷ auras, st) else (one.0 ∷ rest.0, rest.1)

-- The shields after the damage; the caller removes the exhausted spells. `none` is no player.
unfoldable pub apply_absorption_shields :
    (ℕ → ℕ) → ℕ → ℕ → Option ℕ → List Aura → List Aura × Absorbing
unfolding shields sort use_all use_shield
apply_absorption_shields to_u32 damage school none auras =
    (sort (shields auras), record { remaining = damage; absorbed = 0; mana = 0; exhausted = [] })
apply_absorption_shields to_u32 damage school (some mana) auras =
    let st : Absorbing = record { remaining = damage; absorbed = 0; mana = mana; exhausted = [] } in
    use_all (use_shield to_u32 school) (sort (shields auras)) st

unfoldable pub apply_creature_absorption_shields : ℕ → ℕ → List Aura → List Aura × Absorbing
unfolding shields sort use_all use_creature_shield
apply_creature_absorption_shields damage school auras =
    let st : Absorbing = record { remaining = damage; absorbed = 0; mana = 0; exhausted = [] } in
    use_all (use_creature_shield school) (sort (shields auras)) st
