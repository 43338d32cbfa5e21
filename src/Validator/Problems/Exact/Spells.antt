-- ===== src/Validator/Problems/Exact/Spells.antt =====
-- Spells, with modes and without: the checks of crates/cardir/src/validate.rs add their problems.
use manaline.Prelude.{
  ◌≡◌, ◌++◌, ◌∙◌, ℕ, ap, Bool, false, List, append_assoc, length, ◌∷◌, [], Option, none, some, ltb,
  ◌||◌, if◌then◌else◌, true, not,
}
use manaline.Card.Ir.{Card, Mode, Spell}
use manaline.Card.Ir.Queries.{no_effect, is_empty, bounds}
use manaline.Validator.{Ctx, Problem, err_if}
use manaline.Validator.Effects.{effects, declare_targets}
use manaline.Validator.Whole.{check_modes, check_modal, check_plain, check_spell}
use manaline.Validator.Occurrences.{Occurrence, in_effects, always_if}
use manaline.Validator.Occurrences.Parts.{in_declared, in_body}
use manaline.Validator.Occurrences.Faults.{problem_if}
use manaline.Validator.Occurrences.Judged.{Judged-then, Judged-err_if}
use manaline.Validator.Occurrences.Judged.Parts.{Judged-declared, Judged-body}
use manaline.Validator.Problems.{
  Left, Part, Place, and_part, part_of, opened, scope, mode_part, modes_part, modal_problems, has_x,
  plain_place, spell_part, spell_has_x,
}
use manaline.Validator.Occurrences.Judged.Effects.{Judged-effects}
use manaline.Validator.Problems.Exact.{at, Adds, Adds-skip, Adds-then, Judged-at, Adds-err_if}

Adds-mode :
    (card : Card) (m : Mode)
    → Adds card
        (has_x card.cost)
        (has_x card.cost)
        (λ c.
          effects m.effects
            (err_if (no_effect m.effects) Problem.empty_mode (declare_targets m.targets c)))
        (mode_part card m)
unfolding declare_targets mode_part opened
Adds-mode card m n left es = (
  length m.targets,
  Judged-at (in_declared m.targets ++ in_body Problem.empty_mode m.effects) card (plain_place card)
      (length m.targets) (opened m.targets left).1 es
      (Judged-then _ (in_body Problem.empty_mode m.effects) (Judged-declared m.targets)
        (Judged-body Problem.empty_mode m.effects)),
)

Adds-modes :
    (card : Card) (ms : List Mode)
    → Adds card (has_x card.cost) (has_x card.cost) (check_modes ms) (modes_part card ms)
unfolding check_modes modes_part
Adds-modes card [] = Adds-skip card (has_x card.cost)
Adds-modes card (m ∷ ms) =
    Adds-then
      (λ c.
        effects m.effects
          (err_if (no_effect m.effects) Problem.empty_mode (declare_targets m.targets c)))
      (check_modes ms) (mode_part card m) (modes_part card ms) (Adds-mode card m)
      (Adds-modes card ms)

abbrev stray : Spell → Bool
stray s = not (no_effect s.effects) || not (is_empty s.targets)

abbrev two_checks : Spell → Ctx → Ctx
two_checks s c =
    err_if (ltb (length s.modes) 2) Problem.few_modes (err_if (stray s) Problem.modal_effects c)

abbrev three_checks : Spell → Ctx → Ctx
three_checks s c =
    err_if (ltb (length s.modes) (bounds s.choose).0) Problem.few_to_choose (two_checks s c)

Adds-three_checks :
    (card : Card) (x : Bool) (s : Spell)
    → Adds card x x (three_checks s) (λ left. (modal_problems s, left))
unfolding modal_problems
Adds-three_checks card x s =
    Adds-then (two_checks s)
      (err_if (ltb (length s.modes) (bounds s.choose).0) Problem.few_to_choose)
      (λ left. (
        problem_if (stray s) Problem.modal_effects
            ++ problem_if (ltb (length s.modes) 2) Problem.few_modes,
        left,
      ))
      (λ left. (problem_if (ltb (length s.modes) (bounds s.choose).0) Problem.few_to_choose, left))
      (Adds-then (err_if (stray s) Problem.modal_effects)
        (err_if (ltb (length s.modes) 2) Problem.few_modes)
        (λ left. (problem_if (stray s) Problem.modal_effects, left))
        (λ left. (problem_if (ltb (length s.modes) 2) Problem.few_modes, left))
        (Adds-err_if card x (stray s) Problem.modal_effects)
        (Adds-err_if card x (ltb (length s.modes) 2) Problem.few_modes))
      (Adds-err_if card x (ltb (length s.modes) (bounds s.choose).0) Problem.few_to_choose)

Adds-modal :
    (card : Card) (s : Spell)
    → Adds card
        (has_x card.cost)
        (has_x card.cost)
        (check_modal s)
        (and_part (λ left. (modal_problems s, left)) (modes_part card s.modes))
unfolding check_modal
Adds-modal card s =
    Adds-then (three_checks s) (check_modes s.modes) (λ left. (modal_problems s, left))
      (modes_part card s.modes) (Adds-three_checks card (has_x card.cost) s)
      (Adds-modes card s.modes)

abbrev plain_part : Card → Spell → Part
plain_part card s =
    and_part
      (and_part (opened s.targets) (
        part_of card (plain_place card) (length s.targets)
          (in_declared s.targets ++ always_if (no_effect s.effects) Problem.empty_spell)))
      (part_of card (record (plain_place card) { in_spell = true }) (length s.targets)
        (in_effects s.effects))

Adds-plain :
    (card : Card) (s : Spell)
    → Adds card (has_x card.cost) (has_x card.cost) (check_plain s) (plain_part card s)
unfolding check_plain declare_targets opened part_of scope
Adds-plain card s n left es = (length s.targets, ap finish declared ∙ ap leave cast ∙ regroup)
  where
    os : List Occurrence
    os = in_declared s.targets ++ always_if (no_effect s.effects) Problem.empty_spell

    place : Place
    place = plain_place card

    size : ℕ
    size = length s.targets

    leave : Ctx → Ctx
    leave c = record c { in_spell = false }

    finish : Ctx → Ctx
    finish c = leave (effects s.effects (record c { in_spell = true }))

    first : List Problem × Left
    first = part_of card place size os (opened s.targets left).1

    second : List Problem × Left
    second = part_of card (record place { in_spell = true }) size (in_effects s.effects) first.1

    declared :
        err_if
          (no_effect s.effects)
          Problem.empty_spell
          (declare_targets s.targets (at card place n left es))
        ≡ at card place size first.1 (es ++ first.0)
    declared = Judged-at os card place size (opened s.targets left).1 es (
        Judged-then _ (always_if (no_effect s.effects) Problem.empty_spell)
          (Judged-declared s.targets)
          (Judged-err_if false (no_effect s.effects) Problem.empty_spell))

    cast :
        effects s.effects (at card (record place { in_spell = true }) size first.1 (es ++ first.0))
        ≡ at card (record place { in_spell = true }) size second.1 (es ++ first.0 ++ second.0)
    cast =
        Judged-at (in_effects s.effects) card (record place { in_spell = true }) size first.1
          (es ++ first.0) (Judged-effects s.effects)

    regroup :
        at card place size second.1 (es ++ first.0 ++ second.0)
        ≡ at card place size second.1 (es ++ (first.0 ++ second.0))
    regroup = λ i. at card place size second.1 (append_assoc es first.0 second.0 i)

-- A spell by whether it has modes.
by_modes :
    (card : Card) (s : Spell) (plain : Bool)
    → Adds card
        (has_x card.cost)
        (has_x card.cost)
        (λ c. if plain then check_plain s c else check_modal s c)
        (if plain
          then plain_part card s
          else and_part (λ left. (modal_problems s, left)) (modes_part card s.modes))
by_modes card s true = Adds-plain card s
by_modes card s false = Adds-modal card s

pub Adds-spell :
    (card : Card) (s : Option Spell)
    → Adds card false (spell_has_x card s) (check_spell s) (spell_part card s)
unfolding check_spell spell_part spell_has_x
Adds-spell card none n left es = Adds-skip card false n left es
Adds-spell card (some s) n left es = by_modes card s (is_empty s.modes) n left es
