-- ===== src/World/Eots/Events.antt =====
-- engine/world/battleground_eots.go: the events of a battleground, and what holds between them.
use moreno_go_moreno_core.Common.{
  ℕ, suc, ◌+◌, ◌<◌, ◌≤◌, ◌≡◌, ◌≢◌, ◌⊎◌, ◌∙◌, List, [], ◌∷◌, ◌==◌, if◌then◌else◌, Option, none, some,
  length, Bool, true,
}
use moreno_go_moreno_core.World.Eots.{
  Tower, State, Session, Outcome, controlled_alliance, controlled_horde, at_center, carried,
  dropped, eots_max_resources, get_eots_banner_entry,
}
use moreno_go_moreno_core.World.Eots.Flag.{
  handle_eots_player_death, handle_eots_player_leave, return_timer, respawn_timer,
}
use moreno_go_moreno_core.World.Eots.Towers.{handle_eots_game_object_use}
use moreno_go_moreno_core.World.Eots.Resources.{tick_eots_resources}

-- A player uses an object, dies or leaves, a timer of the flag runs, and time passes. A timer may
-- run at any time, also after it has been stopped.
pub data Event : Type 0 where
  uses : Session → ℕ → Event
  dies leaves : Session → Event
  returns respawns : Event
  ticks : ℕ → Event

abbrev pub or_same : State → ℕ → Option Outcome → Outcome
or_same eots counter none = (eots, counter, [])
or_same eots counter (some o) = o

unfoldable pub step : Event → State → ℕ → Outcome
unfolding handle_eots_game_object_use handle_eots_player_death handle_eots_player_leave return_timer
    respawn_timer tick_eots_resources
step (uses sess entry) eots counter =
    or_same eots counter (handle_eots_game_object_use sess entry eots counter)
step (dies sess) eots counter = handle_eots_player_death sess eots counter
step (leaves sess) eots counter = handle_eots_player_leave sess eots counter
step returns eots counter = let (s, e) = return_timer eots in (s, counter, e)
step respawns eots counter = (eots, counter, respawn_timer eots)
step (ticks elapsed) eots counter = let (s, e) = tick_eots_resources elapsed eots in (s, counter, e)

-- A player has a guid.
abbrev pub Named : Event → Type 0
Named (uses sess entry) = sess.guid ≢ 0
Named (dies sess) = sess.guid ≢ 0
Named (leaves sess) = sess.guid ≢ 0
Named returns = Unit
Named respawns = Unit
Named (ticks elapsed) = Unit

abbrev pub is : ℕ → ℕ → ℕ
is state x = if x == state then 1 else 0

-- How many towers are in a state.
abbrev pub held : ℕ → List Tower → ℕ
held state [] = 0
held state (tower ∷ towers) = is state tower.state + held state towers

-- Each tower shows the banner of its state.
abbrev pub Shown : ℕ → List Tower → Type 0
Shown i [] = Unit
Shown i (tower ∷ towers) =
    (tower.state ≤ 2)
    × (tower.banner_entry ≡ get_eots_banner_entry i tower.state)
    × Shown (suc i) towers

-- The counts are those of the towers.
pub record Board (towers : List Tower) (a h : ℕ) : Type 0 where
  pub size : length towers ≡ 4
  pub shown : Shown 0 towers
  pub alliance : a ≡ held controlled_alliance towers
  pub horde : h ≡ held controlled_horde towers

-- The flag is at one place: a player has it exactly while it is carried, and a flag on the ground
-- has a timer.
abbrev pub OnePlace : ℕ → ℕ → ℕ → Bool → Type 0
OnePlace state carrier guid timer =
    ((state ≡ at_center) × (carrier ≡ 0) × (guid ≡ 0))
    ⊎ ((state ≡ carried) × (carrier ≢ 0) × (guid ≡ 0))
    ⊎ ((state ≡ dropped) × (carrier ≡ 0) × (timer ≡ true))

-- There is a winner exactly when a side has all the resources.
abbrev pub Score : ℕ → Option ℕ → ℕ → ℕ → Type 0
Score most winner alliance horde =
    (most ≡ eots_max_resources)
    × (((winner ≡ none) × (alliance < eots_max_resources) × (horde < eots_max_resources))
        ⊎ ((winner ≡ some 0) × (alliance ≡ eots_max_resources) × (horde < eots_max_resources))
        ⊎ ((winner ≡ some 1) × (alliance < eots_max_resources) × (horde ≡ eots_max_resources)))

pub record Sound (eots : State) : Type 0 where
  pub board : Board eots.towers eots.alliance_towers_count eots.horde_towers_count
  pub flag :
      OnePlace eots.flag_state eots.flag_carrier_guid eots.flag_dropped_guid eots.flag_return_timer
  pub score : Score eots.max_resources eots.winner eots.alliance_resources eots.horde_resources

-- What an operation leaves as it is.
pub record SameBoard (s s' : State) : Type 0 where
  pub towers : s'.towers ≡ s.towers
  pub alliance : s'.alliance_towers_count ≡ s.alliance_towers_count
  pub horde : s'.horde_towers_count ≡ s.horde_towers_count

pub record SameFlag (s s' : State) : Type 0 where
  pub state : s'.flag_state ≡ s.flag_state
  pub carrier : s'.flag_carrier_guid ≡ s.flag_carrier_guid
  pub guid : s'.flag_dropped_guid ≡ s.flag_dropped_guid
  pub timer : s'.flag_return_timer ≡ s.flag_return_timer

pub same_board :
    {s s' : State}
    → SameBoard s s'
    → Board s.towers s.alliance_towers_count s.horde_towers_count
    → Board s'.towers s'.alliance_towers_count s'.horde_towers_count
same_board m b = rw (m.towers, m.alliance, m.horde) b

pub same_flag :
    {s s' : State}
    → SameFlag s s'
    → OnePlace s.flag_state s.flag_carrier_guid s.flag_dropped_guid s.flag_return_timer
    → OnePlace s'.flag_state s'.flag_carrier_guid s'.flag_dropped_guid s'.flag_return_timer
same_flag m f = rw (m.state, m.carrier, m.guid, m.timer) f

pub SameBoard-trans : {s s' s'' : State} → SameBoard s s' → SameBoard s' s'' → SameBoard s s''
SameBoard-trans a b = record {
  towers = b.towers ∙ a.towers;
  alliance = b.alliance ∙ a.alliance;
  horde = b.horde ∙ a.horde;
}

pub SameFlag-trans : {s s' s'' : State} → SameFlag s s' → SameFlag s' s'' → SameFlag s s''
SameFlag-trans a b = record {
  state = b.state ∙ a.state;
  carrier = b.carrier ∙ a.carrier;
  guid = b.guid ∙ a.guid;
  timer = b.timer ∙ a.timer;
}
