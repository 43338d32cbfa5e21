-- ===== src/Validator/Problems.antt =====
-- The problems of a card, without a context: what the validator of crates/cardir/src/validate.rs should
-- report. Each part of a card has a scope of its own; what one part leaves to the next are the names
-- bound in it and which of its target specs vary.
pub mod Exact
pub mod Fits
use manaline.Prelude.{
  ◌∷◌, ◌++◌, ◌||◌, if◌then◌else◌, [], ℕ, Bool, true, false, not, Option, none, some, List, map, ltb,
  length, count,
}
use manaline.Text.{Str}
use manaline.Mana.Cost.{has_x}
use manaline.Card.Types.{Keyword, keyword_eq, word}
use manaline.Card.Ir.{Card, Filter, Static, Spell, Mode, Trigger, Ability}
use manaline.Card.Ir.Queries.{is_variable, is_permanent, is_empty, no_effect, bounds}
use manaline.Validator.{Problem, attachable}
use manaline.Validator.Whole.{head_checks, any_costs_x, ValidationError}
use manaline.Validator.Occurrences.{Occurrence, in_effects, in_filter, always_if, always}
use manaline.Validator.Occurrences.Parts.{in_static, in_declared, in_body, in_trigger, in_ability}
use manaline.Validator.Occurrences.Faults.{Scope, faults, names_after, problem_if}

pub record Left : Type 0 where
  pub variable_specs : List Bool
  pub names : List Str

-- A part of a card: the problems in it and what it leaves, from what was left before it.
abbrev pub Part : Type 0
Part = Left → List Problem × Left

abbrev pub no_part : Part
no_part left = ([], left)

abbrev pub and_part : Part → Part → Part
and_part p q left = ((p left).0 ++ (q (p left).1).0, (q (p left).1).1)

-- The switches of a scope: inside a trigger, with an `{X}` in the cost, in a spell's own effects.
pub record Place : Type 0 where
  pub in_trigger : Bool
  pub has_x : Bool
  pub in_spell : Bool

unfoldable pub scope : Card → Place → ℕ → List Bool → Scope
unfolding is_permanent attachable
scope card place n specs = record {
  targets = n;
  variable_specs = specs;
  in_trigger = place.in_trigger;
  has_x = place.has_x;
  in_spell = place.in_spell;
  permanent = is_permanent card;
  attachable = attachable card;
}

-- Occurrences where `n` targets are declared.
unfoldable pub part_of : Card → Place → ℕ → List Occurrence → Part
unfolding scope faults names_after
part_of card place n os left = (
  faults (scope card place n left.variable_specs) left.names os,
  record left { names = names_after left.names os },
)

-- A list of target specs: it forgets the names bound before.
unfoldable pub opened : List Filter → Part
unfolding is_variable
opened specs left = ([], record { variable_specs = map is_variable specs; names = [] })

unfoldable pub keyword_problems : List Keyword → List Keyword → List Problem
unfolding problem_if word
keyword_problems printed [] = []
keyword_problems printed (k ∷ ks) =
    problem_if (ltb 1 (count (keyword_eq k) printed)) (Problem.duplicate_keyword (word k))
    ++ keyword_problems printed ks

unfoldable pub failed : List (Bool × Problem) → List Problem
unfolding problem_if
failed [] = []
failed (check ∷ checks) = problem_if check.0 check.1 ++ failed checks

unfoldable pub head_part : Card → Part
unfolding failed head_checks keyword_problems
head_part card left =
    (failed (head_checks card) ++ keyword_problems card.keywords card.keywords, left)

abbrev pub plain_place : Card → Place
unfolding has_x
plain_place card = record { in_trigger = false; has_x = has_x card.cost; in_spell = false }

unfoldable pub mode_part : Card → Mode → Part
unfolding opened part_of in_declared in_body
mode_part card m = and_part (opened m.targets) (
    part_of card (plain_place card) (length m.targets)
      (in_declared m.targets ++ in_body Problem.empty_mode m.effects))

unfoldable pub modes_part : Card → List Mode → Part
unfolding mode_part
modes_part card [] = no_part
modes_part card (m ∷ ms) = and_part (mode_part card m) (modes_part card ms)

unfoldable pub modal_problems : Spell → List Problem
unfolding problem_if bounds
modal_problems s =
    problem_if (not (no_effect s.effects) || not (is_empty s.targets)) Problem.modal_effects
    ++ problem_if (ltb (length s.modes) 2) Problem.few_modes
    ++ problem_if (ltb (length s.modes) (bounds s.choose).0) Problem.few_to_choose

unfoldable pub spell_part : Card → Option Spell → Part
unfolding opened part_of in_declared in_effects always_if modes_part modal_problems
spell_part card none = no_part
spell_part card (some s) =
    if is_empty s.modes
    then and_part
        (and_part (opened s.targets) (
          part_of card (plain_place card) (length s.targets)
            (in_declared s.targets ++ always_if (no_effect s.effects) Problem.empty_spell)))
        (part_of card (record (plain_place card) { in_spell = true }) (length s.targets)
          (in_effects s.effects))
    else and_part (λ left. (modal_problems s, left)) (modes_part card s.modes)

-- `{X}` may still stand in what an aura enchants, if it stands in the cost of a spell.
unfoldable pub enchant_part : Card → Bool → Option Filter → Part
unfolding part_of in_filter
enchant_part card x none = no_part
enchant_part card x (some f) =
    part_of card (record { in_trigger = false; has_x = x; in_spell = false }) 0 (in_filter false f)

abbrev pub bare_place : Place
bare_place = record { in_trigger = false; has_x = false; in_spell = false }

unfoldable pub statics_part : Card → List Static → Part
unfolding part_of in_static
statics_part card [] = no_part
statics_part card (s ∷ ss) =
    and_part (part_of card bare_place 0 (in_static s)) (statics_part card ss)

abbrev pub trigger_place : Place
trigger_place = record { in_trigger = true; has_x = false; in_spell = false }

unfoldable pub trigger_part : Card → Trigger → Part
unfolding opened part_of in_trigger
trigger_part card t =
    and_part (opened t.targets) (part_of card trigger_place (length t.targets) (in_trigger t))

unfoldable pub triggers_part : Card → List Trigger → Part
unfolding trigger_part
triggers_part card [] = no_part
triggers_part card (t ∷ ts) = and_part (trigger_part card t) (triggers_part card ts)

unfoldable pub ability_part : Card → Ability → Part
unfolding opened part_of in_ability any_costs_x
ability_part card a = and_part (opened a.targets) (
    part_of card (record bare_place { has_x = any_costs_x a.cost }) (length a.targets)
      (in_ability a))

unfoldable pub abilities_part : Card → List Ability → Part
unfolding ability_part
abilities_part card [] = no_part
abilities_part card (a ∷ rest) = and_part (ability_part card a) (abilities_part card rest)

-- Whether an `{X}` is in scope behind the spell.
unfoldable pub spell_has_x : Card → Option Spell → Bool
unfolding has_x
spell_has_x card none = false
spell_has_x card (some s) = has_x card.cost

unfoldable pub card_part : Card → Part
unfolding head_part spell_part enchant_part statics_part triggers_part abilities_part spell_has_x
card_part card =
    and_part
      (and_part
        (and_part
          (and_part (and_part (head_part card) (spell_part card card.spell))
            (enchant_part card (spell_has_x card card.spell) card.enchant))
          (statics_part card card.statics))
        (triggers_part card card.triggers))
      (abilities_part card card.activated)

abbrev pub nothing_left : Left
nothing_left = record { variable_specs = []; names = [] }

unfoldable pub problems : Card → List Problem
unfolding card_part
problems card = (card_part card nothing_left).0
