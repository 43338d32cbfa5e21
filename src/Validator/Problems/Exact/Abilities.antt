-- ===== src/Validator/Problems/Exact/Abilities.antt =====
-- Triggers and activated abilities: the checks of crates/cardir/src/validate.rs add their problems.
use manaline.Prelude.{
  ◌≡◌, ◌++◌, ◌∙◌, ℕ, sym, ap, Bool, false, List, append-nil, append_assoc, length, ◌∷◌, [], refl,
}
use manaline.Card.Ir.{Card, Trigger, Ability}
use manaline.Card.Ir.Queries.{is_empty}
use manaline.Validator.{Ctx, Problem}
use manaline.Validator.Effects.{declare_targets}
use manaline.Validator.Whole.{
  check_trigger, check_triggers, check_ability, check_abilities, any_costs_x,
}
use manaline.Validator.Occurrences.{always_if}
use manaline.Validator.Occurrences.Parts.{
  in_body, in_trigger, in_event, in_if, in_ability, in_costs,
}
use manaline.Validator.Occurrences.Judged.{Judged-then, Judged-err_if}
use manaline.Validator.Occurrences.Judged.Parts.{
  Judged-declared, Judged-event, Judged-if, Judged-body, Judged-costs,
}
use manaline.Validator.Problems.{
  Left, opened, trigger_place, trigger_part, triggers_part, ability_part, abilities_part,
}
use manaline.Validator.Problems.Exact.{at, with_x, Adds, Adds-skip, Adds-then, Judged-at}

Adds-trigger :
    (card : Card) (t : Trigger) → Adds card false false (check_trigger t) (trigger_part card t)
unfolding check_trigger declare_targets trigger_part opened in_trigger
Adds-trigger card t n left es = (
  length t.targets,
  ap {A = Ctx} (λ c. record c { in_trigger = false })
      (Judged-at (in_trigger t) card trigger_place (length t.targets) (opened t.targets left).1 es (
        Judged-then _ (in_body Problem.empty_trigger t.effects)
          (Judged-then _ (in_if t.condition)
            (Judged-then _ (in_event t.event) (Judged-declared t.targets) (Judged-event t.event))
            (Judged-if t.condition))
          (Judged-body Problem.empty_trigger t.effects))),
)

pub Adds-triggers :
    (card : Card) (ts : List Trigger)
    → Adds card false false (check_triggers ts) (triggers_part card ts)
unfolding check_triggers triggers_part
Adds-triggers card [] = Adds-skip card false
Adds-triggers card (t ∷ ts) =
    Adds-then (check_trigger t) (check_triggers ts) (trigger_part card t) (triggers_part card ts)
      (Adds-trigger card t) (Adds-triggers card ts)

ability_exact :
    (card : Card) (a : Ability) (x : Bool)
    → Adds card x (any_costs_x a.cost) (check_ability a) (ability_part card a)
unfolding check_ability declare_targets ability_part opened in_ability
ability_exact card a x n left es = (
  length a.targets,
  Judged-at (in_ability a) card (with_x (any_costs_x a.cost)) (length a.targets)
      (opened a.targets left).1 es
      (Judged-then _ (in_body Problem.empty_ability a.effects)
        (Judged-then _ (in_costs a.cost)
          (Judged-then _ (always_if (is_empty a.cost) Problem.empty_cost)
            (Judged-declared a.targets) (Judged-err_if false (is_empty a.cost) Problem.empty_cost))
          (Judged-costs a.cost))
        (Judged-body Problem.empty_ability a.effects)),
)

-- The card and the errors behind the abilities; each of them has its own `{X}`.
pub check_abilities_exact :
    (card : Card) (abilities : List Ability) (x : Bool) (n : ℕ) (left : Left) (es : List Problem)
    → ((check_abilities abilities (at card (with_x x) n left es)).card ≡ card)
      × ((check_abilities abilities (at card (with_x x) n left es)).errors
          ≡ es ++ (abilities_part card abilities left).0)
unfolding check_abilities abilities_part
check_abilities_exact card [] x n left es = (refl, sym (append-nil es))
check_abilities_exact card (a ∷ rest) x n left es =
    let first = ability_exact card a x n left es in
    let done = ability_part card a left in
    let later =
      check_abilities_exact card rest (any_costs_x a.cost) first.0 done.1 (es ++ done.0) in
    (
      ap (λ c. (check_abilities rest c).card) first.1 ∙ later.0,
      ap (λ c. (check_abilities rest c).errors) first.1
          ∙ later.1
          ∙ append_assoc es done.0 (abilities_part card rest done.1).0,
    )
