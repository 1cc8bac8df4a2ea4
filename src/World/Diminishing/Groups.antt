-- ===== src/World/Diminishing/Groups.antt =====
-- engine/world/diminishing.go, getDiminishingReturnsGroup: the groups, and which spells they hold.
use moreno_go_moreno_core.Common.{
  ℕ, ◌<◌, arith, Bool, List, [], ◌∷◌, one_of, if◌then◌else◌, All, Bool-cases, inl, inr,
}

abbrev pub diminishing_none : ℕ
diminishing_none = 0

abbrev pub diminishing_banish : ℕ
diminishing_banish = 1

abbrev pub diminishing_charge : ℕ
diminishing_charge = 2

abbrev pub diminishing_opening_stun : ℕ
diminishing_opening_stun = 3

abbrev pub diminishing_controlled_stun : ℕ
diminishing_controlled_stun = 4

abbrev pub diminishing_controlled_root : ℕ
diminishing_controlled_root = 5

abbrev pub diminishing_cyclone : ℕ
diminishing_cyclone = 6

abbrev pub diminishing_disarm : ℕ
diminishing_disarm = 7

abbrev pub diminishing_disorient : ℕ
diminishing_disorient = 8

abbrev pub diminishing_entrapment : ℕ
diminishing_entrapment = 9

abbrev pub diminishing_fear : ℕ
diminishing_fear = 10

abbrev pub diminishing_horror : ℕ
diminishing_horror = 11

abbrev pub diminishing_mind_control : ℕ
diminishing_mind_control = 12

abbrev pub diminishing_root : ℕ
diminishing_root = 13

abbrev pub diminishing_stun : ℕ
diminishing_stun = 14

abbrev pub diminishing_scatter_shot : ℕ
diminishing_scatter_shot = 15

abbrev pub diminishing_silence : ℕ
diminishing_silence = 16

abbrev pub diminishing_sleep : ℕ
diminishing_sleep = 17

abbrev pub diminishing_taunt : ℕ
diminishing_taunt = 18

abbrev pub diminishing_limit_only : ℕ
diminishing_limit_only = 19

abbrev pub diminishing_dragons_breath : ℕ
diminishing_dragons_breath = 20

abbrev pub diminishing_max : ℕ
diminishing_max = 21

-- A `switch` whose cases return: the first case that names `x`.
unfoldable pub switch : List (List ℕ × ℕ) → ℕ → ℕ → ℕ
switch [] other x = other
switch ((names, group) ∷ cases) other x =
    let rest = switch cases other x in if one_of x names then group else rest

unfoldable pub spell_cases : List (List ℕ × ℕ)
spell_cases =
    (33786 ∷ [], diminishing_cyclone)
    ∷ (1833 ∷ 9005 ∷ 9823 ∷ 9827 ∷ 27006 ∷ 49803 ∷ [], diminishing_opening_stun)
    ∷ (
      408 ∷ 8643 ∷ 853 ∷ 5588 ∷ 5589 ∷ 10308 ∷ 5211 ∷ 6798 ∷ 8983 ∷ 44572 ∷ 20252 ∷ 20616 ∷ 20617
          ∷ 25272 ∷ 25275 ∷ 30283 ∷ 30413 ∷ 30414 ∷ 12809 ∷ 46968 ∷ 47481 ∷ 19577 ∷ 24394 ∷ 20549
          ∷ 2812 ∷ 10318 ∷ 27139 ∷ 48816 ∷ 48817 ∷ [],
      diminishing_controlled_stun,
    )
    ∷ (100 ∷ 6178 ∷ 11578 ∷ 7922 ∷ [], diminishing_charge)
    ∷ (19503 ∷ [], diminishing_scatter_shot)
    ∷ (19184 ∷ 19387 ∷ 19388 ∷ 64803 ∷ [], diminishing_entrapment)
    ∷ (31661 ∷ 33041 ∷ 33042 ∷ 33043 ∷ 42949 ∷ 42950 ∷ [], diminishing_dragons_breath)
    ∷ (6789 ∷ 17925 ∷ 17926 ∷ 27223 ∷ 47859 ∷ 47860 ∷ 64044 ∷ [], diminishing_horror)
    ∷ (
      5782 ∷ 6213 ∷ 6215 ∷ 5484 ∷ 17928 ∷ 6358 ∷ 2094 ∷ 8122 ∷ 8124 ∷ 10888 ∷ 10890 ∷ 10326 ∷ 5246
          ∷ [],
      diminishing_fear,
    )
    ∷ (
      118 ∷ 12824 ∷ 12825 ∷ 12826 ∷ 28271 ∷ 28272 ∷ 61305 ∷ 61721 ∷ 61780 ∷ 6770 ∷ 2070 ∷ 11297
          ∷ 1776 ∷ 1499 ∷ 14310 ∷ 14311 ∷ 43415 ∷ 19386 ∷ 24132 ∷ 24133 ∷ 27068 ∷ 49011 ∷ 49012
          ∷ 20066 ∷ 49203 ∷ [],
      diminishing_disorient,
    )
    ∷ (
      122 ∷ 865 ∷ 6131 ∷ 10230 ∷ 27088 ∷ 42917 ∷ 33395 ∷ 339 ∷ 1062 ∷ 5195 ∷ 5196 ∷ 9852 ∷ 9853
          ∷ 26989 ∷ 53308 ∷ 16689 ∷ [],
      diminishing_controlled_root,
    )
    ∷ (11071 ∷ 12494 ∷ 55080 ∷ [], diminishing_root)
    ∷ (15487 ∷ 47476 ∷ 19244 ∷ 19647 ∷ 1330 ∷ 28730 ∷ 25046 ∷ 50613 ∷ [], diminishing_silence)
    ∷ (676 ∷ 51722 ∷ 53359 ∷ 64058 ∷ [], diminishing_disarm)
    ∷ (605 ∷ 10911 ∷ 10912 ∷ [], diminishing_mind_control)
    ∷ (710 ∷ 18647 ∷ [], diminishing_banish)
    ∷ (355 ∷ 6795 ∷ 62124 ∷ 56222 ∷ [], diminishing_taunt)
    ∷ (1715 ∷ 3408 ∷ 2974 ∷ 12323 ∷ 1130 ∷ 20164 ∷ [], diminishing_limit_only)
    ∷ []

unfoldable pub mechanic_cases : List (List ℕ × ℕ)
mechanic_cases =
    (1 ∷ [], diminishing_mind_control)
    ∷ (2 ∷ 14 ∷ 17 ∷ 20 ∷ 30 ∷ [], diminishing_disorient)
    ∷ (3 ∷ [], diminishing_disarm)
    ∷ (5 ∷ [], diminishing_fear)
    ∷ (7 ∷ 13 ∷ [], diminishing_controlled_root)
    ∷ (9 ∷ [], diminishing_silence)
    ∷ (10 ∷ [], diminishing_sleep)
    ∷ (11 ∷ [], diminishing_limit_only)
    ∷ (12 ∷ [], diminishing_controlled_stun)
    ∷ (18 ∷ [], diminishing_banish)
    ∷ (24 ∷ [], diminishing_horror)
    ∷ []

-- The spell's own case, else that of its mechanic.
unfoldable pub group_of : ℕ → ℕ → ℕ
unfolding switch spell_cases mechanic_cases
group_of spell mechanic = switch spell_cases (switch mechanic_cases diminishing_none mechanic) spell

unfoldable pub is_group_duration_limited : ℕ → Bool
is_group_duration_limited group = one_of group (
    diminishing_banish ∷ diminishing_controlled_stun ∷ diminishing_controlled_root
    ∷ diminishing_cyclone ∷ diminishing_disorient ∷ diminishing_entrapment ∷ diminishing_fear
    ∷ diminishing_horror ∷ diminishing_mind_control ∷ diminishing_opening_stun ∷ diminishing_root
    ∷ diminishing_scatter_shot ∷ diminishing_silence ∷ diminishing_sleep ∷ diminishing_limit_only
    ∷ diminishing_dragons_breath ∷ [])

abbrev Below : List (List ℕ × ℕ) → Type 0
Below cs = All (λ (c : List ℕ × ℕ). c.1 < diminishing_max) cs

switch-lt :
    (cs : List (List ℕ × ℕ)) (other x : ℕ)
    → Below cs
    → other < diminishing_max
    → switch cs other x < diminishing_max
unfolding switch
switch-lt [] other x h k = k
switch-lt ((names, group) ∷ cs) other x h k = elim (Bool-cases (one_of x names)) [
  | inl e ↦ rw e h.0
  | inr e ↦ rw e (switch-lt cs other x h.1 k)
]

spell_cases-Below : Below spell_cases
unfolding spell_cases
spell_cases-Below = omega arith

mechanic_cases-Below : Below mechanic_cases
unfolding mechanic_cases
mechanic_cases-Below = omega arith

-- Every spell and mechanic has a group that the array of a session holds.
pub group_of-lt : (spell mechanic : ℕ) → group_of spell mechanic < diminishing_max
unfolding group_of
group_of-lt spell mechanic =
    switch-lt spell_cases (switch mechanic_cases diminishing_none mechanic) spell spell_cases-Below
      (switch-lt mechanic_cases diminishing_none mechanic mechanic_cases-Below (omega arith))
