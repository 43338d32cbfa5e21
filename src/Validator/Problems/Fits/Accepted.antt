-- ===== src/Validator/Problems/Fits/Accepted.antt =====
-- The cards that `validate` of crates/cardir/src/validate.rs accepts.
use manaline.Prelude.{
  ◌≡◌, ◌∷◌, ◌∙◌, if◌then◌else◌, [], refl, sym, true, List, ok, err, length, Bool, false, Option,
  none, some, map, Result, All,
}
use manaline.Card.Ir.{Card, Spell}
use manaline.Card.Ir.Queries.{is_empty, is_variable}
use manaline.Validator.{Problem}
use manaline.Validator.Whole.{validate, ValidationError}
use manaline.Validator.Occurrences.{in_effects}
use manaline.Validator.Occurrences.Faults.{names_after}
use manaline.Validator.Problems.{
  Left, Part, and_part, part_of, opened, scope, plain_place, head_part, spell_part, spell_has_x,
  enchant_part, statics_part, triggers_part, abilities_part, modes_part, modal_problems, card_part,
  problems, nothing_left,
}
use manaline.Validator.Problems.Exact.Total.{validate_reports_problems}
use manaline.Validator.Problems.Fits.{
  PlainFits, ModeFits, SpellFits, TriggerFits, AbilityFits, both_parts, faults-AllFit, spell_head,
  triggers_fit, abilities_fit, modes_fit,
}

-- The result with the problems of a card.
abbrev reported : Card → List Problem → Result {0, 0} ValidationError Unit
reported card ps = if is_empty ps then ok tt else err (record { card = card.name; problem = ps })

no_problems : (card : Card) (ps : List Problem) → reported card ps ≡ ok tt → ps ≡ []
no_problems card [] e = refl
no_problems card (p ∷ ps) e = cc

pub accepted_problems : (card : Card) → validate card ≡ ok tt → problems card ≡ []
accepted_problems card e =
    no_problems card (problems card) (sym (validate_reports_problems card) ∙ e)

plain_fits :
    (card : Card) (s : Spell) (left : Left)
    → (and_part
        (and_part
          (opened s.targets)
          (part_of card (plain_place card) (length s.targets) (spell_head s)))
        (part_of card
          (record (plain_place card) { in_spell = true })
          (length s.targets)
          (in_effects s.effects))
        left).0
      ≡ []
    → PlainFits card s
unfolding opened part_of PlainFits
plain_fits card s left e =
    let declared = part_of card (plain_place card) (length s.targets) (spell_head s) in
    let cast =
      part_of card (record (plain_place card) { in_spell = true }) (length s.targets)
        (in_effects s.effects) in
    let opening = and_part (opened s.targets) declared in
    let apart = both_parts opening cast left e in
    let specs = map is_variable s.targets in
    (
      faults-AllFit (scope card (plain_place card) (length s.targets) specs) [] (spell_head s)
          apart.0,
      faults-AllFit
          (scope card (record (plain_place card) { in_spell = true }) (length s.targets) specs)
          (names_after [] (spell_head s)) (in_effects s.effects) apart.1,
    )

abbrev plain_part : Card → Spell → Part
plain_part card s =
    and_part
      (and_part (opened s.targets)
        (part_of card (plain_place card) (length s.targets) (spell_head s)))
      (part_of card (record (plain_place card) { in_spell = true }) (length s.targets)
        (in_effects s.effects))

abbrev modal_part : Card → Spell → Part
modal_part card s = and_part (λ left. (modal_problems s, left)) (modes_part card s.modes)

-- By whether the spell has modes.
spell_by_modes :
    (card : Card) (s : Spell) (left : Left) (plain : Bool)
    → ((if plain then plain_part card s else modal_part card s) left).0 ≡ []
    → if plain then PlainFits card s else All (ModeFits card) s.modes
spell_by_modes card s left true e = plain_fits card s left e
spell_by_modes card s left false e =
    modes_fit card s.modes left
      (both_parts (λ l. (modal_problems s, l)) (modes_part card s.modes) left e).1

spell_fits :
    (card : Card) (s : Option Spell) (left : Left)
    → (spell_part card s left).0 ≡ []
    → SpellFits card s
unfolding spell_part
spell_fits card none left e = tt
spell_fits card (some s) left e = spell_by_modes card s left (is_empty s.modes) e

-- No part of an accepted card has a problem.
pub accepted_parts :
    (card : Card)
    → validate card ≡ ok tt
    → ((head_part card nothing_left).0 ≡ [])
      × ((spell_part card card.spell nothing_left).0 ≡ [])
      × ((l : Left) × ((triggers_part card card.triggers l).0 ≡ []))
      × ((l : Left) × ((abilities_part card card.activated l).0 ≡ []))
unfolding problems card_part head_part
accepted_parts card e =
    let x = spell_has_x card card.spell in
    let cast = and_part (head_part card) (spell_part card card.spell) in
    let enchanting = and_part cast (enchant_part card x card.enchant) in
    let ongoing = and_part enchanting (statics_part card card.statics) in
    let triggered = and_part ongoing (triggers_part card card.triggers) in
    let a =
      both_parts triggered (abilities_part card card.activated) nothing_left
        (accepted_problems card e) in
    let t = both_parts ongoing (triggers_part card card.triggers) nothing_left a.0 in
    let s = both_parts enchanting (statics_part card card.statics) nothing_left t.0 in
    let c = both_parts cast (enchant_part card x card.enchant) nothing_left s.0 in
    let h = both_parts (head_part card) (spell_part card card.spell) nothing_left c.0 in
    (h.0, h.1, ((ongoing nothing_left).1, t.1), ((triggered nothing_left).1, a.1))

abbrev pub CardFits : Card → Type 0
CardFits card =
    SpellFits card card.spell
    × All (TriggerFits card) card.triggers
    × All (AbilityFits card) card.activated

-- In an accepted card, each occurrence in the spell or its modes, the triggers and the activated
-- abilities fits its place: targets are declared, what a trigger refers to is in a trigger, an `{X}`
-- is in the cost, a `Chosen` is in an effect's target, a `Named` follows what binds it, divided damage
-- goes to varying targets of a plain spell, and nothing is unsupported.
pub accepted_fits : (card : Card) → validate card ≡ ok tt → CardFits card
accepted_fits card e =
    let parts = accepted_parts card e in
    (
      spell_fits card card.spell nothing_left parts.1,
      triggers_fit card card.triggers parts.2.0 parts.2.1,
      abilities_fit card card.activated parts.3.0 parts.3.1,
    )
