-- ===== src/Engine/Objects.antt =====
-- Objects of a game: `Zone` (crates/engine/src/types.rs),
-- `GameObject` with what it is made of (crates/engine/src/game.rs), and the arena `Objects`
-- (crates/engine/src/objects.rs). Ids, cards and seats are numbers.
pub mod Arena
use manaline.Prelude.{◌==◌, [], ℕ, Bool, true, false, Option, none, List}
use manaline.Prelude.Int.{ℤ, pos}
use manaline.Card.Types.{Keyword}
use manaline.Card.Ir.{Restriction}

pub data Zone : Type 0 where
  library hand battlefield graveyard exile stack command out_of_game : Zone

-- The order of declaration, for the derived equality.
abbrev pub zone_index : Zone → ℕ
zone_index library = 0
zone_index hand = 1
zone_index battlefield = 2
zone_index graveyard = 3
zone_index exile = 4
zone_index stack = 5
zone_index command = 6
zone_index out_of_game = 7

abbrev pub zone_eq : Zone → Zone → Bool
zone_eq a b = zone_index a == zone_index b

unfoldable pub is_public : Zone → Bool
is_public battlefield = true
is_public graveyard = true
is_public exile = true
is_public stack = true
is_public command = true
is_public _ = false

pub data AttackTarget : Type 0 where
  player : ℕ → AttackTarget
  planeswalker : ℕ → AttackTarget

pub record Counters : Type 0 where
  pub plus1 : ℕ
  pub minus1 : ℕ

pub data ModifierKind : Type 0 where
  pt : ℤ → ℤ → ModifierKind
  keyword : Keyword → ModifierKind
  restriction : Restriction → ModifierKind
  skip_untap : ModifierKind

pub data Expiry : Type 0 where
  end_of_turn : Expiry
  turn_of : ℕ → Expiry
  next_untap_of : ℕ → Expiry
  leaves_of : ℕ → Expiry

pub record Modifier : Type 0 where
  pub kind : ModifierKind
  pub expires : Expiry

pub record GameObject : Type 0 where
  pub id : ℕ
  pub card : ℕ
  pub owner : ℕ
  pub controller : ℕ
  pub zone : Zone
  pub tapped : Bool
  pub summoning_sick : Bool
  pub damage : ℤ
  pub counters : Counters
  pub attached_to : Option ℕ
  pub attacking : Option AttackTarget
  pub blocking : List ℕ
  pub blocked : Bool
  pub blocked_by : List ℕ
  pub modifiers : List Modifier
  pub deathtouch_damaged : Bool
  pub exiled_by : Option ℕ
  pub until_source_leaves : Bool

abbrev pub no_counters : Counters
no_counters = record { plus1 = 0; minus1 = 0 }

-- `GameObject::new`
unfoldable pub new_object : ℕ → ℕ → ℕ → GameObject
new_object id card owner = record {
  id = id;
  card = card;
  owner = owner;
  controller = owner;
  zone = library;
  tapped = false;
  summoning_sick = false;
  damage = pos 0;
  counters = no_counters;
  attached_to = none;
  attacking = none;
  blocking = [];
  blocked = false;
  blocked_by = [];
  modifiers = [];
  deathtouch_damaged = false;
  exiled_by = none;
  until_source_leaves = false;
}

-- `reset_zone_state`: the id, the card, the owner, the controller and the zone stay.
unfoldable pub reset_zone_state : GameObject → GameObject
reset_zone_state o = record o {
  tapped = false;
  summoning_sick = false;
  damage = pos 0;
  counters = no_counters;
  attached_to = none;
  attacking = none;
  blocking = [];
  blocked = false;
  blocked_by = [];
  modifiers = [];
  deathtouch_damaged = false;
  exiled_by = none;
  until_source_leaves = false;
}
