-- ===== src/Card/Ir/Queries.antt =====
-- The methods of crates/cardir/src/ir.rs: the questions that a card, a filter, an ability and an event
-- pattern answer, and `divided_damage`.
use manaline.Prelude.{
  ◌==◌, ◌∷◌, ◌&&◌, ◌||◌, [], ℕ, Bool, true, false, not, Option, none, some, List, retain,
}
use manaline.Prelude.Int.{pos_part}
use manaline.Card.Types.{
  CardType, Keyword, type_eq, supertype_eq, keyword_eq, permanent_type, Supertype,
}
use manaline.Card.Ir.{
  Card, Filter, ModeChoice, Ability, Effect, Effects, EventPattern, EventPatterns, Amount, targets,
  exactly, up_to, any_number, one, two, one_or_both, PlayerRef, you, no_effects, effect_then,
  deal_damage, sequence, add_mana, target, this_enters, this_dies, this_leaves, this_attacks,
  this_blocks, this_becomes_blocked, this_deals_combat_damage_to_player, this_becomes_tapped,
  any_of, no_events, or_event, Cost, tap_this,
}

-- `iter().any(p)`
unfoldable pub any_where {ℓ} : {A : Type ℓ} → (A → Bool) → List A → Bool
any_where p [] = false
any_where p (x ∷ xs) = p x || any_where p xs

abbrev pub is_some {ℓ} : {A : Type ℓ} → Option A → Bool
is_some none = false
is_some (some a) = true

abbrev pub is_empty {ℓ} : {A : Type ℓ} → List A → Bool
is_empty [] = true
is_empty (x ∷ xs) = false

unfoldable pub has_type : CardType → Card → Bool
unfolding any_where
has_type t card = any_where (type_eq t) card.types

unfoldable pub is_creature : Card → Bool
unfolding has_type
is_creature card = has_type CardType.creature card

unfoldable pub is_land : Card → Bool
unfolding has_type
is_land card = has_type CardType.land card

unfoldable pub is_permanent : Card → Bool
unfolding any_where
is_permanent card = any_where permanent_type card.types

unfoldable pub is_basic : Card → Bool
unfolding any_where
is_basic card = any_where (supertype_eq Supertype.basic) card.supertypes

unfoldable pub is_aura : Card → Bool
is_aura card = is_some card.enchant

unfoldable pub is_equipment : Card → Bool
is_equipment card = is_some card.equip

-- `card.keywords.contains(&kw)`
unfoldable pub has_printed : Keyword → Card → Bool
unfolding any_where
has_printed kw card = any_where (keyword_eq kw) card.keywords

unfoldable pub has_instant_speed : Card → Bool
unfolding has_type has_printed
has_instant_speed card = has_type CardType.instant card || has_printed Keyword.flash card

unfoldable pub is_modal : Card → Bool
is_modal card = elim card.spell [ none ↦ false | some s ↦ not (is_empty s.modes) ]

abbrev is_add_mana : Effect → Bool
is_add_mana (add_mana c n) = true
is_add_mana _ = false

abbrev all_add_mana : Effects → Bool
all_add_mana no_effects = true
all_add_mana (effect_then e es) = is_add_mana e && all_add_mana es

abbrev pub no_effect : Effects → Bool
no_effect no_effects = true
no_effect (effect_then e es) = false

-- `self.cost == [Cost::Tap]`
abbrev costs_only_tap : List Cost → Bool
costs_only_tap (tap_this ∷ []) = true
costs_only_tap _ = false

unfoldable pub is_mana_ability : Ability → Bool
is_mana_ability a =
    costs_only_tap a.cost
    && is_empty a.targets
    && not (no_effect a.effects)
    && all_add_mana a.effects

unfoldable pub mana_abilities : Card → List Ability
unfolding is_mana_ability retain
mana_abilities card = retain is_mana_ability card.activated

-- `ModeChoice::bounds`
unfoldable pub bounds : ModeChoice → ℕ × ℕ
bounds one = (1, 1)
bounds two = (2, 2)
bounds one_or_both = (1, 2)

unfoldable pub is_you : PlayerRef → Bool
is_you you = true
is_you _ = false

-- The filter, the fewest and the most it picks. The casts to `usize` follow a `max(0)`, which
-- `pos_part` is.
unfoldable pub spec_bounds : Filter → Filter × ℕ × Option ℕ
spec_bounds (targets (exactly n) f) = (f, pos_part n, some (pos_part n))
spec_bounds (targets (up_to n) f) = (f, 0, some (pos_part n))
spec_bounds (targets any_number f) = (f, 0, none)
spec_bounds f = (f, 1, some 1)

unfoldable pub is_variable : Filter → Bool
is_variable (targets (up_to n) f) = true
is_variable (targets any_number f) = true
is_variable _ = false

abbrev is_one : Option ℕ → Bool
is_one none = false
is_one (some n) = n == 1

unfoldable pub is_multi : Filter → Bool
unfolding spec_bounds
is_multi f = not (is_one (spec_bounds f).2)

unfoldable mutual
  pub names_this : EventPattern → Bool
  names_this this_enters = true
  names_this this_dies = true
  names_this this_leaves = true
  names_this this_attacks = true
  names_this this_blocks = true
  names_this this_becomes_blocked = true
  names_this this_deals_combat_damage_to_player = true
  names_this this_becomes_tapped = true
  names_this (any_of es) = all_name_this es
  names_this _ = false

  pub all_name_this : EventPatterns → Bool
  all_name_this no_events = true
  all_name_this (or_event e es) = names_this e && all_name_this es

-- `a.or_else(b)`
abbrev or_later {ℓ} : {A : Type ℓ} → Option A → Option A → Option A
or_later none b = b
or_later (some a) b = some a

unfoldable mutual
  -- The closure of `divided_damage`, on one effect.
  pub divided_by : Effect → Option (ℕ × Amount)
  divided_by (deal_damage n (target i) true) = some (i, n)
  divided_by (sequence es) = divided_damage es
  divided_by _ = none

  pub divided_damage : Effects → Option (ℕ × Amount)
  divided_damage no_effects = none
  divided_damage (effect_then e es) = or_later (divided_by e) (divided_damage es)
