-- ===== src/Validator/Whole.antt =====
-- `validate` of crates/cardir/src/validate.rs: the checks of a card's head, its spell, what it
-- enchants, its statics, its triggers and its activated abilities, in this order, on one context.
use manaline.Prelude.{
  ◌∷◌, ◌&&◌, ◌||◌, if◌then◌else◌, [], Bool, true, false, not, Option, none, some, List, ltb, Result,
  ok, err, length, count, xor,
}
use manaline.Text.{Str, codes, str_eq}
use manaline.Mana.Cost.{is_free, has_x}
use manaline.Card.Types.{CardType, Keyword, keyword_eq, word}
use manaline.Card.Ir.{Card, Filter, Static, Spell, Mode, Trigger, Ability, Cost, Condition, mana}
use manaline.Card.Ir.Queries.{
  is_creature, is_land, is_permanent, is_equipment, has_type, has_printed, any_where, is_some,
  is_empty, no_effect, bounds,
}
use manaline.Validator.{Ctx, Problem, err_if, filter, is_blank}
use manaline.Validator.Effects.{declare_targets, effects, static, event, condition, cost}

pub record ValidationError : Type 0 where
  pub card : Str
  pub problem : List Problem

abbrev pub start : Card → Ctx
start card = record {
  card = card;
  targets = 0;
  in_trigger = false;
  direct = false;
  bound = [];
  has_x = false;
  variable_specs = [];
  in_spell = false;
  errors = [];
}

unfoldable pub is_spell_card : Card → Bool
unfolding has_type
is_spell_card card = has_type CardType.instant card || has_type CardType.sorcery card

-- `card.subtypes.iter().any(|s| s == name)`
unfoldable pub has_subtype : Str → Card → Bool
unfolding any_where
has_subtype name card = any_where (str_eq name) card.subtypes

unfoldable pub is_enchantment_aura : Card → Bool
unfolding has_type has_subtype
is_enchantment_aura card = has_type CardType.enchantment card && has_subtype (codes "Aura") card

unfoldable pub is_artifact_equipment : Card → Bool
unfolding has_type has_subtype
is_artifact_equipment card = has_type CardType.artifact card && has_subtype (codes "Equipment") card

-- The loop that reports a keyword once for each time a keyword that is printed twice is met.
unfoldable pub duplicate_keywords : List Keyword → Ctx → Ctx
unfolding err_if word
duplicate_keywords [] c = c
duplicate_keywords (k ∷ ks) c =
    duplicate_keywords ks
      (err_if (ltb 1 (count (keyword_eq k) c.card.keywords)) (Problem.duplicate_keyword (word k)) c)

-- The checks of what a card is, before those of what it does: a test and its problem.
unfoldable pub head_checks : Card → List (Bool × Problem)
unfolding is_blank is_creature is_land is_permanent is_spell_card is_enchantment_aura
    is_artifact_equipment is_equipment is_free has_printed
head_checks card =
    (is_blank card.name, Problem.missing_name)
    ∷ (is_empty card.types, Problem.no_types)
    ∷ (xor (is_creature card) (is_some card.pt), Problem.creature_pt)
    ∷ (xor (is_spell_card card) (is_some card.spell), Problem.spell_missing)
    ∷ (is_spell_card card && is_permanent card, Problem.spell_permanent)
    ∷ (is_some card.enchant && not (is_enchantment_aura card), Problem.enchant_type)
    ∷ (is_enchantment_aura card && not (is_some card.enchant), Problem.aura_enchant)
    ∷ (xor (is_equipment card) (is_artifact_equipment card), Problem.equipment_equip)
    ∷ (is_land card && not (is_free card.cost), Problem.land_cost)
    ∷ (has_printed Keyword.reach card && has_printed Keyword.flying card, Problem.flying_reach)
    ∷ []

unfoldable pub run_checks : List (Bool × Problem) → Ctx → Ctx
unfolding err_if
run_checks [] c = c
run_checks (check ∷ checks) c = run_checks checks (err_if check.0 check.1 c)

unfoldable pub check_head : Ctx → Ctx
unfolding run_checks head_checks duplicate_keywords
check_head c = duplicate_keywords c.card.keywords (run_checks (head_checks c.card) c)

unfoldable pub check_modes : List Mode → Ctx → Ctx
unfolding declare_targets effects err_if
check_modes [] c = c
check_modes (m ∷ ms) c = check_modes ms (
    effects m.effects
      (err_if (no_effect m.effects) Problem.empty_mode (declare_targets m.targets c)))

-- A spell without modes.
unfoldable pub check_plain : Spell → Ctx → Ctx
unfolding declare_targets effects err_if
check_plain s c =
    let declared = err_if (no_effect s.effects) Problem.empty_spell (declare_targets s.targets c) in
    record (effects s.effects (record declared { in_spell = true })) { in_spell = false }

unfoldable pub check_modal : Spell → Ctx → Ctx
unfolding check_modes err_if bounds
check_modal s c = check_modes s.modes (
    err_if (ltb (length s.modes) (bounds s.choose).0) Problem.few_to_choose (
      err_if (ltb (length s.modes) 2) Problem.few_modes
        (err_if (not (no_effect s.effects) || not (is_empty s.targets)) Problem.modal_effects c)))

unfoldable pub check_spell : Option Spell → Ctx → Ctx
unfolding check_plain check_modal has_x
check_spell none c = c
check_spell (some s) c =
    let costed = record c { has_x = has_x c.card.cost } in
    if is_empty s.modes then check_plain s costed else check_modal s costed

unfoldable pub check_enchant : Option Filter → Ctx → Ctx
unfolding filter
check_enchant none c = c
check_enchant (some f) c = filter f (record c { targets = 0 })

unfoldable pub check_statics : List Static → Ctx → Ctx
unfolding static
check_statics [] c = c
check_statics (s ∷ ss) c = check_statics ss (static s (record c { targets = 0 }))

unfoldable pub check_condition : Option Condition → Ctx → Ctx
unfolding condition
check_condition none c = c
check_condition (some if_) c = condition if_ c

unfoldable pub check_trigger : Trigger → Ctx → Ctx
unfolding declare_targets event check_condition effects err_if
check_trigger t c =
    let announced =
      check_condition t.condition
        (event t.event (declare_targets t.targets (record c { in_trigger = true }))) in
    let checked =
      effects t.effects (err_if (no_effect t.effects) Problem.empty_trigger announced) in
    record checked { in_trigger = false }

unfoldable pub check_triggers : List Trigger → Ctx → Ctx
unfolding check_trigger
check_triggers [] c = c
check_triggers (t ∷ ts) c = check_triggers ts (check_trigger t c)

abbrev costs_x : Cost → Bool
unfolding has_x
costs_x (mana m) = has_x m
costs_x _ = false

unfoldable pub check_costs : List Cost → Ctx → Ctx
unfolding cost
check_costs [] c = c
check_costs (k ∷ ks) c = check_costs ks (cost k c)

unfoldable pub any_costs_x : List Cost → Bool
unfolding has_x any_where
any_costs_x costs = any_where costs_x costs

unfoldable pub check_ability : Ability → Ctx → Ctx
unfolding declare_targets effects err_if check_costs any_costs_x
check_ability a c =
    let declared = declare_targets a.targets (record c { has_x = any_costs_x a.cost }) in
    effects a.effects (
      err_if (no_effect a.effects) Problem.empty_ability
        (check_costs a.cost (err_if (is_empty a.cost) Problem.empty_cost declared)))

unfoldable pub check_abilities : List Ability → Ctx → Ctx
unfolding check_ability
check_abilities [] c = c
check_abilities (a ∷ rest) c = check_abilities rest (check_ability a c)

-- The spell, the enchanted, and then the rest without an `{X}` to refer to.
unfoldable pub check_card : Card → Ctx
unfolding check_head check_spell check_enchant check_statics check_triggers check_abilities
check_card card =
    let cast = check_enchant card.enchant (check_spell card.spell (check_head (start card))) in
    let ongoing = check_statics card.statics (record cast { has_x = false }) in
    check_abilities card.activated (check_triggers card.triggers ongoing)

-- The source's `Ok(())` if no problem was found.
unfoldable pub verdict : Ctx → Result {0, 0} ValidationError Unit
verdict c =
    if is_empty c.errors then ok tt else err (record { card = c.card.name; problem = c.errors })

unfoldable pub validate : Card → Result {0, 0} ValidationError Unit
unfolding check_card verdict
validate card = verdict (check_card card)
