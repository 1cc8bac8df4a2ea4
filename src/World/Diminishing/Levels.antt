-- ===== src/World/Diminishing/Levels.antt =====
-- engine/world/diminishing.go: the levels of the groups, over hits, auras and time.
use Prim.Native.Nat.{min}
use moreno_go_moreno_core.Common.{
  ℕ, ◌+◌, ◌-◌, ◌%◌, ◌^◌, ◌<◌, ◌≤◌, ◌≡◌, ◌≢◌, sym, ap, ◌∙◌, inl, inr, arith, Bool, true, List, [],
  ◌∷◌, ltb, ◌==◌, if◌then◌else◌, some, get_or, set, length, length-set, get_or-set_self,
  get_or-set_ne, Bool-cases, lt→leb, ltb→lt, ltb→le, ==→eq, lt→ltb,
}
use moreno_go_moreno_core.World.Diminishing.Groups.{diminishing_max}
use moreno_go_moreno_core.World.Diminishing.{
  DiminishingReturn, no_return, Returns, past_reset, get_diminishing, incr_diminishing,
  apply_diminishing_aura,
}

-- The level that a group has at a time.
abbrev pub level : ℕ → ℕ → Returns → ℕ
level now group ds = (get_diminishing now group ds).0

abbrev pub entry : Returns → ℕ → DiminishingReturn
entry ds group = get_or ds group no_return

-- The group's last aura ended more than 15 seconds ago.
abbrev pub HasExpired : ℕ → DiminishingReturn → Type 0
HasExpired now d = (d.stack ≡ 0) × (past_reset now d.hit_time ≡ true)

module _ (now group : ℕ) (ds : Returns) where
  get_other :
      (other : ℕ) → group ≢ other → entry (get_diminishing now group ds).1 other ≡ entry ds other
  unfolding get_diminishing
  get_other other h =
      ground
        (arith, get_or-set_ne ds group other (record (entry ds group) { hit_count = 0 }) no_return)

  incr_other :
      (other : ℕ) → group ≢ other → entry (incr_diminishing now group ds) other ≡ entry ds other
  unfolding incr_diminishing
  incr_other other h =
      let ds' = (get_diminishing now group ds).1 in
      let l = level now group ds in
      ground (
        arith,
        get_other other h,
        get_or-set_ne ds' group other (record (entry ds' group) { hit_count = l + 1 }) no_return h,
      )

  aura_other :
      (apply : Bool) (other : ℕ)
      → group ≢ other
      → entry (apply_diminishing_aura now group apply ds) other ≡ entry ds other
  unfolding apply_diminishing_aura
  aura_other apply other h =
      let d = entry ds group in
      let down : DiminishingReturn = record d {
        stack = d.stack - 1;
        hit_time = if d.stack - 1 == 0 then some now else d.hit_time;
      } in
      ground (
        arith,
        get_or-set_ne ds group other (record d { stack = (d.stack + 1) % 2 ^ 16 }) no_return h,
        get_or-set_ne ds group other down no_return h,
      )

  get-length : length (get_diminishing now group ds).1 ≡ length ds
  unfolding get_diminishing
  get-length = ground (arith, length-set ds group (record (entry ds group) { hit_count = 0 }))

-- No operation on a group touches another group.
pub other_groups :
    (now group other : ℕ) (apply : Bool) (ds : Returns)
    → group ≢ other
    → (entry (get_diminishing now group ds).1 other ≡ entry ds other)
      × (entry (incr_diminishing now group ds) other ≡ entry ds other)
      × (entry (apply_diminishing_aura now group apply ds) other ≡ entry ds other)
other_groups now group other apply ds h = (
  get_other now group ds other h,
  incr_other now group ds other h,
  aura_other now group ds apply other h,
)

-- A hit counts one level up to the last one, from the level that the group has at that time.
pub incr_diminishing-level :
    (now group : ℕ) (ds : Returns)
    → length ds ≡ diminishing_max
    → group < diminishing_max
    → level now group ds < 3
    → (entry (incr_diminishing now group ds) group).hit_count ≡ level now group ds + 1
unfolding incr_diminishing
incr_diminishing-level now group ds n h l =
    let ds' = (get_diminishing now group ds).1 in
    let k = level now group ds in
    let v : DiminishingReturn = record (entry ds' group) { hit_count = k + 1 } in
    rw (
      lt→leb diminishing_max group h,
      lt→ltb k 3 l,
      get_or-set_self ds' group v no_return (omega (arith, get-length now group ds)),
    )

level_fresh :
    (now group : ℕ) (ds : Returns)
    → group < diminishing_max
    → ¬ HasExpired now (entry ds group)
    → level now group ds ≡ (entry ds group).hit_count
unfolding get_diminishing
level_fresh now group ds h e =
    let d = entry ds group in
    rw (level, lt→leb diminishing_max group h)
      (elim (Bool-cases (d.hit_count == 0)) [
        | inl z ↦ rw z (sym (==→eq d.hit_count 0 z))
        | inr z ↦ rw z (elim (Bool-cases (d.stack == 0)) [
          | inl s ↦ rw s (elim (Bool-cases (past_reset now d.hit_time)) [
            | inl p ↦ absurd (e (==→eq d.stack 0 s, p))
            | inr p ↦ rw p
          ])
          | inr s ↦ rw s
        ])
      ])

-- The level is 0 once the group has expired, else the hits that were counted.
pub level_cases :
    (now group : ℕ) (ds : Returns)
    → group < diminishing_max
    → (HasExpired now (entry ds group) → level now group ds ≡ 0)
      × (¬ HasExpired now (entry ds group) → level now group ds ≡ (entry ds group).hit_count)
unfolding get_diminishing
level_cases now group ds h = (λ e. ground arith, λ e. level_fresh now group ds h e)

-- Hits of one group at given times.
pub hits : List ℕ → ℕ → Returns → Returns
hits [] group ds = ds
hits (now ∷ nows) group ds = hits nows group (incr_diminishing now group ds)

-- While an aura of the group lasts, a hit changes the count of that group alone.
get_active :
    (now group : ℕ) (ds : Returns)
    → group < diminishing_max
    → 0 < (entry ds group).stack
    → get_diminishing now group ds ≡ ((entry ds group).hit_count, ds)
unfolding get_diminishing
get_active now group ds h s = ground arith

incr_active :
    (now group : ℕ) (ds : Returns)
    → group < diminishing_max
    → 0 < (entry ds group).stack
    → let d = entry ds group in
      incr_diminishing now group ds
      ≡ (if ltb d.hit_count 3 then set ds group (record d { hit_count = d.hit_count + 1 }) else ds)
unfolding incr_diminishing
incr_active now group ds h s = rw (get_active now group ds h s, lt→leb diminishing_max group h)

-- While an aura of a group lasts, each hit of the group, at whatever times, counts one level up,
-- to the last level at most.
pub hits-level :
    (nows : List ℕ) (group : ℕ) (ds : Returns)
    → length ds ≡ diminishing_max
    → group < diminishing_max
    → 0 < (entry ds group).stack
    → (entry ds group).hit_count ≤ 3
    → (entry (hits nows group ds) group).hit_count
      ≡ min 3 ((entry ds group).hit_count + length nows)
unfolding hits
hits-level [] group ds n h s l = omega arith
hits-level (now ∷ nows) group ds n h s l =
    let d = entry ds group in
    let d' : DiminishingReturn = record d { hit_count = d.hit_count + 1 } in
    let e : entry (set ds group d') group ≡ d' =
      get_or-set_self ds group d' no_return (omega arith) in
    rw (incr_active now group ds h s) (elim (Bool-cases (ltb d.hit_count 3)) [
      | inl b ↦ rw b (
          omega (
            arith,
            ap (λ (x : DiminishingReturn). x.hit_count) e,
            ap (λ (x : DiminishingReturn). x.stack) e,
            ltb→lt d.hit_count 3 b,
            hits-level nows group (set ds group d') (length-set ds group d' ∙ n) h
                (omega (arith, ap (λ (x : DiminishingReturn). x.stack) e))
                (omega
                  (arith, ap (λ (x : DiminishingReturn). x.hit_count) e, ltb→lt d.hit_count 3 b)),
          ))
      | inr b ↦ rw b (omega (arith, ltb→le d.hit_count 3 b, hits-level nows group ds n h s l))
    ])
