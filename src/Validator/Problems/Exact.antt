-- ===== src/Validator/Problems/Exact.antt =====
-- The validator of crates/cardir/src/validate.rs reports exactly the problems of Problems.antt: the
-- rules by which the children follow it part by part.
pub mod Heads
pub mod Spells
pub mod Abilities
pub mod Total
use manaline.Card.Types.{Keyword, keyword_eq, word}
use manaline.Prelude.{
  ◌≡◌, ◌++◌, ◌∙◌, ℕ, refl, sym, ap, Bool, false, List, append-nil, append_assoc, length, ◌∷◌, [],
  Option, none, some, ltb, count,
}
use manaline.Card.Ir.{Card, Filter, Trigger, Effects, Static, Mode, Spell}
use manaline.Card.Ir.Queries.{no_effect}
use manaline.Validator.{Ctx, Problem, err_if}
use manaline.Validator.Effects.{effects, declare_targets, static}
use manaline.Validator.Whole.{
  check_trigger, check_triggers, check_statics, check_enchant, run_checks, duplicate_keywords,
  check_head, check_modes, check_modal, head_checks,
}
use manaline.Validator.Occurrences.{Occurrence, in_filter}
use manaline.Validator.Occurrences.Parts.{
  in_declared, in_body, in_trigger, in_event, in_if, in_static,
}
use manaline.Validator.Occurrences.Faults.{with_faults, scope_of, problem_if}
use manaline.Validator.Occurrences.Judged.{Judged, Judged-then, err_if_lem}
use manaline.Validator.Occurrences.Judged.Parts.{
  Judged-declared, Judged-event, Judged-if, Judged-body, Judged-static,
}
use manaline.Validator.Problems.{
  Left, Part, Place, no_part, and_part, part_of, opened, bare_place, trigger_place, scope,
  trigger_part, triggers_part, mode_part, statics_part, enchant_part, failed, keyword_problems,
  head_part, modes_part, modal_problems, has_x, plain_place,
}

-- The context between two parts of a card.
abbrev pub at : Card → Place → ℕ → Left → List Problem → Ctx
at card place n left es = record {
  card = card;
  targets = n;
  in_trigger = place.in_trigger;
  direct = false;
  bound = left.names;
  has_x = place.has_x;
  variable_specs = left.variable_specs;
  in_spell = place.in_spell;
  errors = es;
}

abbrev pub with_x : Bool → Place
with_x x = record bare_place { has_x = x }

-- A step of the validator that adds the problems of a part and leaves what the part leaves.
abbrev pub Adds : Card → Bool → Bool → (Ctx → Ctx) → Part → Type 0
Adds card x y f part =
    (n : ℕ) (left : Left) (es : List Problem)
    → (m : ℕ) × (f (at card (with_x x) n left es)
        ≡ at card (with_x y) m (part left).1 (es ++ (part left).0))

pub Adds-skip : (card : Card) (x : Bool) → Adds card x x (λ c. c) no_part
Adds-skip card x n left es = (n, λ i. at card (with_x x) n left (sym (append-nil es) i))

pub Adds-then :
    {card : Card} {x y z : Bool} (f g : Ctx → Ctx) (p q : Part)
    → Adds card x y f p
    → Adds card y z g q
    → Adds card x z (λ c. g (f c)) (and_part p q)
Adds-then {card} {x} {y} {z} f g p q first second n left es =
    let one = first n left es in
    let two = second one.0 (p left).1 (es ++ (p left).0) in
    (
      two.0,
      ap g one.1 ∙ two.1 ∙ (λ i.
          at card (with_x z) two.0 (q (p left).1).1
            (append_assoc es (p left).0 (q (p left).1).0 i)),
    )

-- Judged occurrences, at any place.
pub Judged-at :
    {f : Ctx → Ctx} (os : List Occurrence) (card : Card) (place : Place) (n : ℕ) (left : Left)
    (es : List Problem)
    → Judged false f os
    → f (at card place n left es)
      ≡ at card place n (part_of card place n os left).1 (es ++ (part_of card place n os left).0)
unfolding part_of with_faults scope_of scope
Judged-at os card place n left es judged = judged (at card place n left es) refl

-- A check that adds a problem by a test.
pub Adds-err_if :
    (card : Card) (x b : Bool) (p : Problem)
    → Adds card x x (err_if b p) (λ left. (problem_if b p, left))
Adds-err_if card x b p n left es = (n, err_if_lem b p (at card (with_x x) n left es))
