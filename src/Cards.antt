-- ===== src/Cards.antt =====
-- `CardDef` of crates/engine/src/card.rs: a card as the engine plays it, made from the representation
-- of a card or from the description of a token.
pub mod Db
pub mod Examples
use manaline.Prelude.{
  ◌∷◌, ◌++◌, if◌then◌else◌, [], ℕ, suc, Bool, true, false, Option, none, some, List, set,
}
use manaline.Prelude.Int.{ℤ}
use manaline.Text.{Str, codes}
use manaline.Mana.Color.{Color}
use manaline.Mana.Cost.{ManaCost, no_cost, colors, sort, dedup}
use manaline.Card.Types.{CardType, Supertype, Keyword, type_eq, supertype_eq, permanent_type}
use manaline.Card.Ir.{
  Card, TokenSpec, Effect, Effects, Ability, Amount, add_mana, const, effect_list,
}
use manaline.Card.Ir.Queries.{any_where, mana_abilities, is_mana_ability, is_modal}

pub record CardDef : Type 0 where
  pub name : Str
  pub cost : ManaCost
  pub types : List CardType
  pub supertypes : List Supertype
  pub subtypes : List Str
  pub pt : Option (ℤ × ℤ)
  pub text : Str
  pub set : Str
  pub keywords : List Keyword
  pub token : Bool
  pub colors : List Color
  pub ir : Card

-- `CardDef::from_ir`
unfoldable pub from_ir : Card → Str → CardDef
unfolding colors
from_ir card set = record {
  name = card.name;
  cost = card.cost;
  types = card.types;
  supertypes = card.supertypes;
  subtypes = card.subtypes;
  pt = card.pt;
  text = card.text;
  set = set;
  keywords = card.keywords;
  token = false;
  colors = colors card.cost;
  ir = card;
}

-- `CardDef::token`
unfoldable pub token_of : TokenSpec → CardDef
token_of spec = record {
  name = spec.name;
  cost = no_cost;
  types = spec.types;
  supertypes = [];
  subtypes = spec.subtypes;
  pt = spec.pt;
  text = [];
  set = codes "token";
  keywords = spec.keywords;
  token = true;
  colors = spec.colors;
  ir = record {
    name = spec.name;
    cost = no_cost;
    types = spec.types;
    supertypes = [];
    subtypes = spec.subtypes;
    pt = spec.pt;
    text = [];
    keywords = spec.keywords;
    spell = none;
    enchant = none;
    equip = none;
    statics = [];
    triggers = [];
    activated = [];
  };
}

unfoldable pub creature_def : CardDef → Bool
unfolding any_where
creature_def c = any_where (type_eq CardType.creature) c.types

-- `CardDef::is_basic`
unfoldable pub basic_def : CardDef → Bool
unfolding any_where
basic_def c = any_where (supertype_eq Supertype.basic) c.supertypes

abbrev made_colors : List Effect → List Color
made_colors [] = []
made_colors (add_mana (some c) n ∷ es) = c ∷ made_colors es
made_colors (e ∷ es) = made_colors es

abbrev ability_colors : List Ability → List Color
ability_colors [] = []
ability_colors (a ∷ rest) = made_colors (effect_list a.effects) ++ ability_colors rest

-- `CardDef::produces`
unfoldable pub produces : CardDef → List Color
unfolding mana_abilities sort dedup
produces c = dedup (sort (ability_colors (mana_abilities c.ir)))

-- The amount of a mana ability that does not depend on the board.
abbrev fixed_amount : Amount → Option ℤ
fixed_amount (const n) = some n
fixed_amount _ = none

abbrev made_mana : ℕ → List Effect → List (Option Color × Option ℤ × ℕ)
made_mana i [] = []
made_mana i (add_mana c n ∷ es) = (c, fixed_amount n, i) ∷ made_mana i es
made_mana i (e ∷ es) = made_mana i es

-- From the ability with this index.
unfoldable pub mana_made_from : ℕ → List Ability → List (Option Color × Option ℤ × ℕ)
unfolding is_mana_ability
mana_made_from i [] = []
mana_made_from i (a ∷ rest) =
    let later = mana_made_from (suc i) rest in
    if is_mana_ability a then made_mana i (effect_list a.effects) ++ later else later

-- `CardDef::mana_abilities`
unfoldable pub mana_made : CardDef → List (Option Color × Option ℤ × ℕ)
unfolding mana_made_from
mana_made c = mana_made_from 0 c.ir.activated
