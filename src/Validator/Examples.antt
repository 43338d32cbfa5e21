-- ===== src/Validator/Examples.antt =====
-- The cards crates/cardir/src/validate.rs is run on: tests, and its theorems at concrete cards.
use manaline.Prelude.{◌≡◌, ◌∷◌, [], refl, true, none, some, ok, if◌then◌else◌, false, err, xor}
use manaline.Prelude.Int.{pos}
use manaline.Text.{codes}
use manaline.Mana.Color.{red, green}
use manaline.Mana.Cost.{no_cost}
use manaline.Card.Types.{CardType}
use manaline.Card.Ir
use manaline.Card.Ir.{
  Card, Effects, Effect, Filter, Spell, Trigger, Ability, no_effects, effect_then,
}
use manaline.Card.Ir.Queries.{is_mana_ability, divided_damage, names_this, is_multi}
use manaline.Card.Types.{permanent_type}
use manaline.Text.{trim, is_whitespace}
use manaline.Card.Ir.Queries.{is_empty}
use manaline.Validator.{Problem, check_target, is_bound, bind_option, is_bound, bind_option}
use manaline.Validator.Whole.{validate}
use manaline.Validator.Problems.{problems}
use manaline.Validator.Problems.Exact.Total.{validate_reports_problems}
use manaline.Validator.Problems.Fits.Accepted.{accepted_fits, CardFits}
use manaline.Validator.Problems.Fits.Head.{accepted_head, HeadFits}

abbrev blank_card : Card
blank_card = record {
  name = codes "Blank";
  cost = no_cost;
  types = CardType.sorcery ∷ [];
  supertypes = [];
  subtypes = [];
  pt = none;
  text = [];
  keywords = [];
  spell = none;
  enchant = none;
  equip = none;
  statics = [];
  triggers = [];
  activated = [];
}

-- `{X}{R}`: X damage divided among up to two targets.
abbrev pub fork : Card
fork = record blank_card {
  cost = record { generic = 0; pips = red ∷ []; x = 1 };
  spell = some (record {
    targets = Ir.targets (Ir.up_to (pos 2)) Ir.any ∷ [];
    effects = effect_then (Ir.deal_damage Ir.Amount.x (Ir.target 0) true) no_effects;
    modes = [];
    choose = Ir.one;
  });
}

abbrev mana_ability : Ability
mana_ability = record {
  cost = Ir.tap_this ∷ [];
  targets = [];
  effects = effect_then (Ir.add_mana (some green) (Ir.const (pos 1))) no_effects;
  sorcery_speed = false;
  from_graveyard = false;
}

-- A creature that taps for mana, sacrifices what another one chose, and remembers it.
abbrev pub elder : Card
elder = record blank_card {
  name = codes "Elder";
  types = CardType.creature ∷ [];
  pt = some (pos 1, pos 1);
  triggers =
      record {
        event = Ir.enters Ir.creature;
        condition = none;
        targets = Ir.creature ∷ [];
        effects =
            effect_then
              (Ir.tap
                (Ir.chosen Ir.triggering_player Ir.land (Ir.exactly (pos 1)) (some (codes "it"))))
              (effect_then (Ir.untap (Ir.named (codes "it")))
                (effect_then (Ir.destroy (Ir.target 0)) no_effects));
      }
      ∷ [];
  activated = mana_ability ∷ [];
}

-- The same with a second target that is not declared, and a name before it is bound.
abbrev broken : Card
broken = record elder {
  pt = none;
  triggers =
      record {
        event = Ir.dies Ir.creature;
        condition = none;
        targets = Ir.creature ∷ [];
        effects =
            effect_then (Ir.untap (Ir.named (codes "it")))
              (effect_then (Ir.destroy (Ir.target 1)) no_effects);
      }
      ∷ [];
}

pub fork_accepted : validate fork ≡ ok tt
unfolding validate check_target xor permanent_type trim is_whitespace
fork_accepted = refl

pub elder_accepted : validate elder ≡ ok tt
unfolding validate check_target xor permanent_type trim is_whitespace is_bound bind_option
elder_accepted = refl

broken_rejected :
    validate broken
    ≡ err (record {
      card = codes "Elder";
      problem =
          Problem.creature_pt ∷ Problem.unbound (codes "it") ∷ Problem.target_undeclared 1 1 ∷ [];
    })
unfolding validate check_target xor permanent_type trim is_whitespace is_bound
broken_rejected = refl

queries_test :
    (is_mana_ability mana_ability ≡ true)
    × (names_this (Ir.any_of (Ir.or_event Ir.this_dies Ir.no_events)) ≡ true)
    × (is_multi (Ir.targets (Ir.up_to (pos 1)) Ir.any) ≡ false)
    × (divided_damage (
          effect_then
            (Ir.sequence (effect_then (Ir.deal_damage Ir.Amount.x (Ir.target 0) true) no_effects))
            no_effects)
        ≡ some (0, Ir.Amount.x))
unfolding is_mana_ability names_this is_multi divided_damage
queries_test = (refl, refl, refl, refl)

validate_reports_problems_example : validate broken ≡ (
    if is_empty (problems broken)
    then ok tt
    else err (record { card = broken.name; problem = problems broken }))
validate_reports_problems_example = validate_reports_problems broken

accepted_fits_example : CardFits elder
accepted_fits_example = accepted_fits elder elder_accepted

accepted_head_example : HeadFits elder
accepted_head_example = accepted_head elder elder_accepted
