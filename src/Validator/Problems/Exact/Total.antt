-- ===== src/Validator/Problems/Exact/Total.antt =====
-- `validate` of crates/cardir/src/validate.rs, as a whole: it accepts a card without problems, and
-- rejects any other with the list of its problems.
use manaline.Prelude.{[], false, ◌≡◌, ◌∙◌, if◌then◌else◌, ap, ok, err}
use manaline.Card.Ir.{Card}
use manaline.Validator.{Ctx, is_empty}
use manaline.Validator.Whole.{
  check_head, check_spell, check_enchant, check_statics, check_triggers, check_card, validate,
  verdict, check_abilities,
}
use manaline.Validator.Problems.{
  Part, and_part, head_part, spell_part, enchant_part, spell_has_x, statics_part, triggers_part,
  problems, card_part, nothing_left,
}
use manaline.Validator.Problems.Exact.{Adds, Adds-then}
use manaline.Validator.Problems.Exact.Heads.{Adds-head, Adds-enchant, Adds-statics}
use manaline.Validator.Problems.Exact.Spells.{Adds-spell}
use manaline.Validator.Problems.Exact.Abilities.{Adds-triggers, check_abilities_exact}

-- The head, the spell and what the card enchants.
Adds-cast :
    (card : Card)
    → Adds card false
        (spell_has_x card card.spell)
        (λ c. check_enchant card.enchant (check_spell card.spell (check_head c)))
        (and_part
          (and_part (head_part card) (spell_part card card.spell))
          (enchant_part card (spell_has_x card card.spell) card.enchant))
Adds-cast card =
    Adds-then (λ c. check_spell card.spell (check_head c)) (check_enchant card.enchant)
      (and_part (head_part card) (spell_part card card.spell))
      (enchant_part card (spell_has_x card card.spell) card.enchant)
      (Adds-then check_head (check_spell card.spell) (head_part card) (spell_part card card.spell)
        (Adds-head card) (Adds-spell card card.spell))
      (Adds-enchant card (spell_has_x card card.spell) card.enchant)

-- Everything before the activated abilities.
abbrev before_abilities : Card → Ctx → Ctx
before_abilities card c = check_triggers card.triggers (
    check_statics card.statics
      (record (check_enchant card.enchant (check_spell card.spell (check_head c))) {
        has_x = false;
      }))

abbrev cast_part : Card → Part
cast_part card =
    and_part (and_part (head_part card) (spell_part card card.spell))
      (enchant_part card (spell_has_x card card.spell) card.enchant)

Adds-before_abilities :
    (card : Card)
    → Adds card false false (before_abilities card) (
        and_part
          (and_part (cast_part card) (statics_part card card.statics))
          (triggers_part card card.triggers))
Adds-before_abilities card =
    Adds-then
      (λ c.
        check_statics card.statics
          (record (check_enchant card.enchant (check_spell card.spell (check_head c))) {
            has_x = false;
          }))
      (check_triggers card.triggers) (and_part (cast_part card) (statics_part card card.statics))
      (triggers_part card card.triggers)
      (Adds-then (λ c. check_enchant card.enchant (check_spell card.spell (check_head c)))
        (λ c. check_statics card.statics (record c { has_x = false })) (cast_part card)
        (statics_part card card.statics) (Adds-cast card)
        (λ n left es. Adds-statics card card.statics n left es))
      (Adds-triggers card card.triggers)

check_card_exact :
    (card : Card) → ((check_card card).card ≡ card) × ((check_card card).errors ≡ problems card)
unfolding check_card problems card_part
check_card_exact card =
    let before = Adds-before_abilities card 0 nothing_left [] in
    let part =
      and_part (and_part (cast_part card) (statics_part card card.statics))
        (triggers_part card card.triggers) nothing_left in
    let after = check_abilities_exact card card.activated false before.0 part.1 part.0 in
    (
      ap (λ c. (check_abilities card.activated c).card) before.1 ∙ after.0,
      ap (λ c. (check_abilities card.activated c).errors) before.1 ∙ after.1,
    )

-- The validator accepts a card that has no problems, and otherwise returns the card's name with all
-- of its problems, in the order of the card's parts.
pub validate_reports_problems :
    (card : Card)
    → validate card ≡ (
        if is_empty (problems card)
        then ok tt
        else err (record { card = card.name; problem = problems card }))
unfolding validate verdict
validate_reports_problems card =
    let exact = check_card_exact card in
    λ i.
      if is_empty (exact.1 i)
      then ok tt
      else err (record { card = (exact.0 i).name; problem = exact.1 i })
