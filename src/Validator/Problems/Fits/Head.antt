-- ===== src/Validator/Problems/Fits/Head.antt =====
-- What a card is that `validate` of crates/cardir/src/validate.rs accepts: its types agree with what
-- else is printed on it.
use manaline.Prelude.{◌≡◌, ◌∷◌, [], refl, true, List, ok, Bool, false, All, ◌&&◌, not, arith, xor}
use manaline.Mana.Cost.{is_free}
use manaline.Card.Ir.{Card}
use manaline.Card.Ir.Queries.{is_creature, is_equipment, is_land, is_some, is_empty, is_permanent}
use manaline.Validator.{Problem, is_blank}
use manaline.Validator.Whole.{
  validate, is_spell_card, is_enchantment_aura, is_artifact_equipment, head_checks,
}
use manaline.Validator.Occurrences.Faults.{problem_if}
use manaline.Validator.Problems.{head_part, failed, keyword_problems}
use manaline.Validator.Problems.Fits.{nothing_before}
use manaline.Validator.Problems.Fits.Accepted.{accepted_parts}

-- The types, the numbers and the rest of a card agree.
abbrev pub HeadFits : Card → Type 0
HeadFits card =
    (is_blank card.name ≡ false)
    × (is_empty card.types ≡ false)
    × (is_creature card ≡ is_some card.pt)
    × (is_spell_card card ≡ is_some card.spell)
    × ((is_spell_card card && is_permanent card) ≡ false)
    × (is_enchantment_aura card ≡ is_some card.enchant)
    × (is_equipment card ≡ is_artifact_equipment card)
    × ((is_land card && not (is_free card.cost)) ≡ false)

equal_of_xor : (b c : Bool) → xor b c ≡ false → b ≡ c
unfolding xor
equal_of_xor true true e = refl
equal_of_xor true false e = cc
equal_of_xor false true e = cc
equal_of_xor false false e = refl

equal_of_two : (b c : Bool) → (b && not c) ≡ false → (c && not b) ≡ false → c ≡ b
equal_of_two b c h k = ground arith

no_failure : (b : Bool) (p : Problem) → problem_if b p ≡ [] → b ≡ false
unfolding problem_if
no_failure true p e = cc
no_failure false p e = refl

failed-All :
    (checks : List (Bool × Problem)) → failed checks ≡ [] → All (λ check. check.0 ≡ false) checks
unfolding failed
failed-All [] e = tt
failed-All (check ∷ checks) e =
    let apart = nothing_before (problem_if check.0 check.1) (failed checks) e in
    (no_failure check.0 check.1 apart.0, failed-All checks apart.1)

-- An accepted card has a name and a type; it is a creature iff it has power and toughness, an instant
-- or a sorcery iff it has a spell, and then no permanent; an Aura iff it enchants, an Equipment iff it
-- has an equip cost; and a land has no mana cost.
pub accepted_head : (card : Card) → validate card ≡ ok tt → HeadFits card
unfolding head_part head_checks
accepted_head card e =
    let parts = accepted_parts card e in
    let checks =
      failed-All (head_checks card)
        (nothing_before (failed (head_checks card)) (keyword_problems card.keywords card.keywords)
          parts.0).0 in
    (
      checks.0,
      checks.1.0,
      equal_of_xor _ _ checks.1.1.0,
      equal_of_xor _ _ checks.1.1.1.0,
      checks.1.1.1.1.0,
      equal_of_two _ _ checks.1.1.1.1.1.0 checks.1.1.1.1.1.1.0,
      equal_of_xor _ _ checks.1.1.1.1.1.1.1.0,
      checks.1.1.1.1.1.1.1.1.0,
    )
