-- ===== src/World/Eots/Boards.antt =====
-- engine/world/battleground_eots.go: what the use of a tower's banner does to the towers and the
-- counts.
use moreno_go_moreno_core.Common.{
  ℕ, zero, suc, ◌+◌, ◌<◌, ◌≤◌, ◌≡◌, ◌≢◌, inl, inr, refl, ap, ◌∙◌, arith, List, [], ◌∷◌, ◌==◌, ltb,
  length, set, length-set, true, false, Bool-cases, lt→leb, ==→eq, ==→ne, lt→ltb,
}
use moreno_go_moreno_core.World.Eots.{
  Tower, State, Effect, controlled_alliance, controlled_horde, get_eots_banner_entry, tower_at,
}
use moreno_go_moreno_core.World.Eots.Towers.{
  update_eots_tower_banner, show_tower, take_for_alliance, take_for_horde, claim_for_alliance,
  claim_for_horde,
}
use moreno_go_moreno_core.World.Eots.Events.{is, held, Shown, Board, SameFlag, SameFlag-trans}

pub Shown-tower_at :
    (towers : List Tower) (i j k : ℕ)
    → k ≡ i + j
    → j < length towers
    → Shown i towers
    → ((tower_at towers j).state ≤ 2)
      × ((tower_at towers j).banner_entry ≡ get_eots_banner_entry k (tower_at towers j).state)
Shown-tower_at [] i j k e h f = elim h [ ]
Shown-tower_at (t ∷ towers) i zero k e h f = let e' : k ≡ i = omega arith in rw e' (f.0, f.1)
Shown-tower_at (t ∷ towers) i (suc j) k e h f =
    Shown-tower_at towers (suc i) j k (omega arith) (omega arith) f.2

Shown-set :
    (towers : List Tower) (i j k : ℕ) (t : Tower)
    → k ≡ i + j
    → t.state ≤ 2
    → t.banner_entry ≡ get_eots_banner_entry k t.state
    → Shown i towers
    → Shown i (set towers j t)
Shown-set [] i j k t e n b f = tt
Shown-set (x ∷ towers) i zero k t e n b f = let e' : i ≡ k = omega arith in (n, rw e' b, f.2)
Shown-set (x ∷ towers) i (suc j) k t e n b f =
    (f.0, f.1, Shown-set towers (suc i) j k t (omega arith) n b f.2)

held-set :
    (state : ℕ) (towers : List Tower) (j : ℕ) (t : Tower)
    → j < length towers
    → held state (set towers j t) + is state (tower_at towers j).state
      ≡ held state towers + is state t.state
held-set state [] j t h = elim h [ ]
held-set state (x ∷ towers) zero t h = omega arith
held-set state (x ∷ towers) (suc j) t h = omega (arith, held-set state towers j t (omega arith))

pub held-le : (state : ℕ) (towers : List Tower) → held state towers ≤ length towers
held-le state [] = omega arith
held-le state (x ∷ towers) = ground (arith, held-le state towers)

pub is-le-held :
    (state : ℕ) (towers : List Tower) (j : ℕ)
    → j < length towers
    → is state (tower_at towers j).state ≤ held state towers
is-le-held state [] j h = elim h [ ]
is-le-held state (x ∷ towers) zero h = omega arith
is-le-held state (x ∷ towers) (suc j) h = omega (arith, is-le-held state towers j (omega arith))

-- The flag and the score stay; the towers and the counts are as they should be.
pub record Boards (s s' : State) : Type 0 where
  pub flag : SameFlag s s'
  pub score :
      (s'.max_resources ≡ s.max_resources)
      × (s'.winner ≡ s.winner)
      × (s'.alliance_resources ≡ s.alliance_resources)
      × (s'.horde_resources ≡ s.horde_resources)
  pub board : Board s'.towers s'.alliance_towers_count s'.horde_towers_count

-- A tower is put into its place, with a banner of its state.
record Puts (tower_id : ℕ) (tower : Tower) (s s' : State) : Type 0 where
  shown : Tower
  towers : s'.towers ≡ set s.towers tower_id shown
  state : shown.state ≡ tower.state
  banner : shown.banner_entry ≡ get_eots_banner_entry tower_id tower.state
  alliance : s'.alliance_towers_count ≡ s.alliance_towers_count
  horde : s'.horde_towers_count ≡ s.horde_towers_count
  flag : SameFlag s s'
  score :
      (s'.max_resources ≡ s.max_resources)
      × (s'.winner ≡ s.winner)
      × (s'.alliance_resources ≡ s.alliance_resources)
      × (s'.horde_resources ≡ s.horde_resources)

entry-pos :
    (tower_id state : ℕ)
    → tower_id < 4
    → state ≤ 2
    → (get_eots_banner_entry tower_id state == 0) ≡ false
unfolding get_eots_banner_entry
entry-pos tower_id state h k = ground arith

show_tower-Puts :
    (team tower_id : ℕ) (s : State) (tower : Tower) (counter : ℕ) (before : List Effect)
    → tower_id < 4
    → tower.state ≤ 2
    → Puts tower_id tower s (show_tower team tower_id s tower counter before).0
unfolding show_tower update_eots_tower_banner
show_tower-Puts team tower_id s tower counter before h k =
    rw (lt→leb 4 tower_id h, entry-pos tower_id tower.state h k)
      (record {
        shown = _;
        towers = refl;
        state = refl;
        banner = refl;
        alliance = refl;
        horde = refl;
        flag = record { state = refl; carrier = refl; guid = refl; timer = refl };
        score = (refl, refl, refl, refl);
      })

-- The counts after a tower goes from one state to another, with all else as it was.
record Counts (old new : ℕ) (s s' : State) : Type 0 where
  towers : s'.towers ≡ s.towers
  alliance :
      s'.alliance_towers_count + is controlled_alliance old
      ≡ s.alliance_towers_count + is controlled_alliance new
  horde :
      s'.horde_towers_count + is controlled_horde old
      ≡ s.horde_towers_count + is controlled_horde new
  flag : SameFlag s s'
  score :
      (s'.max_resources ≡ s.max_resources)
      × (s'.winner ≡ s.winner)
      × (s'.alliance_resources ≡ s.alliance_resources)
      × (s'.horde_resources ≡ s.horde_resources)

-- The counts are those of at most four towers, one of which is in this state.
abbrev Counted : ℕ → State → Type 0
Counted state s =
    (is controlled_alliance state ≤ s.alliance_towers_count)
    × (is controlled_horde state ≤ s.horde_towers_count)
    × (s.alliance_towers_count ≤ 4)
    × (s.horde_towers_count ≤ 4)

module _ (s : State) (tower : Tower) (c : Counted tower.state s) where
  take_for_alliance-Counts :
      tower.state ≢ controlled_alliance
      → Counts tower.state controlled_alliance s (take_for_alliance s tower).0
  unfolding take_for_alliance
  take_for_alliance-Counts n = elim (Bool-cases (tower.state == controlled_horde)) [
    | inl e ↦
        let e' = ==→eq tower.state controlled_horde e in
        let l : ltb 0 s.horde_towers_count ≡ true =
          lt→ltb 0 s.horde_towers_count (ground (arith, c.1, e')) in
        rw (e, l)
          (record {
            towers = refl;
            alliance = ground (arith, e', c.2);
            horde = ground (arith, e', c);
            flag = record { state = refl; carrier = refl; guid = refl; timer = refl };
            score = (refl, refl, refl, refl);
          })
    | inr e ↦
        let e' = ==→ne tower.state controlled_horde e in
        rw e (record {
          towers = refl;
          alliance = ground (arith, n, c.2);
          horde = ground (arith, e');
          flag = record { state = refl; carrier = refl; guid = refl; timer = refl };
          score = (refl, refl, refl, refl);
        })
  ]

  take_for_horde-Counts :
      tower.state ≢ controlled_horde
      → Counts tower.state controlled_horde s (take_for_horde s tower).0
  unfolding take_for_horde
  take_for_horde-Counts n = elim (Bool-cases (tower.state == controlled_alliance)) [
    | inl e ↦
        let e' = ==→eq tower.state controlled_alliance e in
        let l : ltb 0 s.alliance_towers_count ≡ true =
          lt→ltb 0 s.alliance_towers_count (ground (arith, c.0, e')) in
        rw (e, l)
          (record {
            towers = refl;
            alliance = ground (arith, e', c);
            horde = ground (arith, e', c.2);
            flag = record { state = refl; carrier = refl; guid = refl; timer = refl };
            score = (refl, refl, refl, refl);
          })
    | inr e ↦
        let e' = ==→ne tower.state controlled_alliance e in
        rw e (record {
          towers = refl;
          alliance = ground (arith, e');
          horde = ground (arith, n, c.2);
          flag = record { state = refl; carrier = refl; guid = refl; timer = refl };
          score = (refl, refl, refl, refl);
        })
  ]

-- From the counts and the place of a tower to the board.
module _ (tower_id : ℕ) (h : tower_id < 4) (s : State) where
  module _ (b : Board s.towers s.alliance_towers_count s.horde_towers_count) where
    counted : Counted (tower_at s.towers tower_id).state s
    counted =
        let x = is-le-held controlled_alliance s.towers tower_id (omega (arith, b.size, h)) in
        let y = is-le-held controlled_horde s.towers tower_id (omega (arith, b.size, h)) in
        (
          omega (arith, b.alliance, x),
          omega (arith, b.horde, y),
          omega (arith, b.alliance, b.size, held-le controlled_alliance s.towers),
          omega (arith, b.horde, b.size, held-le controlled_horde s.towers),
        )

    Puts-Boards :
        (s1 s' : State) (tower : Tower)
        → tower.state ≤ 2
        → Counts (tower_at s.towers tower_id).state tower.state s s1
        → Puts tower_id tower s1 s'
        → Boards s s'
    Puts-Boards s1 s' tower n c p =
        let t : s'.towers ≡ set s.towers tower_id p.shown =
          p.towers ∙ ap (λ (ts : List Tower). set ts tower_id p.shown) c.towers in
        let x = held-set controlled_alliance s.towers tower_id p.shown (omega (arith, b.size, h)) in
        let y = held-set controlled_horde s.towers tower_id p.shown (omega (arith, b.size, h)) in
        record {
          flag = SameFlag-trans c.flag p.flag;
          score = (
            p.score.0 ∙ c.score.0,
            p.score.1 ∙ c.score.1,
            p.score.2 ∙ c.score.2,
            p.score.3 ∙ c.score.3,
          );
          board = rw t (record {
            size = length-set s.towers tower_id p.shown ∙ b.size;
            shown =
                Shown-set s.towers 0 tower_id tower_id p.shown (omega arith) (rw p.state n)
                  (rw p.state p.banner) b.shown;
            alliance =
                omega (
                  arith,
                  x,
                  b.alliance,
                  c.alliance,
                  p.alliance,
                  ap (is controlled_alliance) p.state,
                );
            horde = omega (arith, y, b.horde, c.horde, p.horde, ap (is controlled_horde) p.state);
          });
        }

    pub Boards-self : Boards s s
    Boards-self = record {
      flag = record { state = refl; carrier = refl; guid = refl; timer = refl };
      score = (refl, refl, refl, refl);
      board = b;
    }

    pub claim_for_alliance-Boards :
        (counter : ℕ)
        → Boards s (claim_for_alliance tower_id s (tower_at s.towers tower_id) counter).0
    unfolding claim_for_alliance
    claim_for_alliance-Boards counter =
        let tower = tower_at s.towers tower_id in
        let mine = record tower { state = controlled_alliance } in
        let (s1, e) = take_for_alliance s tower in
        elim (Bool-cases (tower.state == controlled_alliance)) [
          | inl n ↦ rw n Boards-self
          | inr n ↦ rw n (
              Puts-Boards s1 _ mine (omega arith)
                (take_for_alliance-Counts s tower counted (==→ne _ _ n))
                (show_tower-Puts 0 tower_id s1 mine counter e h (omega arith)))
        ]

    pub claim_for_horde-Boards :
        (counter : ℕ) → Boards s (claim_for_horde tower_id s (tower_at s.towers tower_id) counter).0
    unfolding claim_for_horde
    claim_for_horde-Boards counter =
        let tower = tower_at s.towers tower_id in
        let mine = record tower { state = controlled_horde } in
        let (s1, e) = take_for_horde s tower in
        elim (Bool-cases (tower.state == controlled_horde)) [
          | inl n ↦ rw n Boards-self
          | inr n ↦ rw n (
              Puts-Boards s1 _ mine (omega arith)
                (take_for_horde-Counts s tower counted (==→ne _ _ n))
                (show_tower-Puts 1 tower_id s1 mine counter e h (omega arith)))
        ]
