-- ===== src/Validator/Problems/Fits.antt =====
-- What a card is like that `validate` of crates/cardir/src/validate.rs accepts: each occurrence in its
-- spell, modes, triggers and activated abilities fits the place where it stands.
pub mod Accepted
pub mod Head
use manaline.Prelude.{
  ◌≡◌, ◌∷◌, ◌++◌, ◌<◌, [], ℕ, refl, Bool, true, false, not, List, leb, if◌then◌else◌, Option, none,
  some, map, arith, length, All,
}
use manaline.Text.{Str}
use manaline.Card.Ir.{Card, Filter, Spell, Mode, Trigger, Ability}
use manaline.Card.Ir.Queries.{is_variable, is_empty, no_effect}
use manaline.Validator.{Problem, is_bound, is_blank}
use manaline.Validator.Effects.{goes_to_variable}
use manaline.Validator.Whole.{any_costs_x}
use manaline.Validator.Occurrences.{
  Occurrence, in_effects, target_at, in_trigger_only, permanent_only, attachable_only, x_at,
  chosen_at, binds, uses, divided_over, divided_here, always, always_if,
}
use manaline.Validator.Occurrences.Parts.{in_declared, in_body, in_trigger, in_ability}
use manaline.Validator.Occurrences.Faults.{
  Scope, fault, faults, names_behind, names_after, problem_if, bind_fault,
}
use manaline.Validator.Problems.{
  Left, Part, Place, and_part, part_of, opened, scope, plain_place, trigger_place, bare_place,
  trigger_part, triggers_part, ability_part, abilities_part, modes_part, mode_part,
}

-- An occurrence is right in a scope. A name is a matter of what is bound before it.
abbrev pub Fits : Scope → List Str → Occurrence → Type 0
unfolding is_bound is_blank goes_to_variable
Fits s names (target_at i) = i < s.targets
Fits s names (in_trigger_only p) = s.in_trigger ≡ true
Fits s names (permanent_only p) = s.permanent ≡ true
Fits s names (attachable_only p) = s.attachable ≡ true
Fits s names x_at = s.has_x ≡ true
Fits s names (chosen_at direct) = direct ≡ true
Fits s names (binds n) = (is_blank n ≡ false) × (is_bound names n ≡ false)
Fits s names (uses n) = is_bound names n ≡ true
Fits s names (divided_over r) = goes_to_variable s.variable_specs r ≡ true
Fits s names divided_here = s.in_spell ≡ true
Fits s names (always p) = ⊥

-- Each occurrence fits, where the names before it are bound.
abbrev pub AllFit : Scope → List Str → List Occurrence → Type 0
unfolding names_behind
AllFit s names [] = Unit
AllFit s names (o ∷ os) = Fits s names o × AllFit s (names_behind names o) os

pub nothing_before : (ps qs : List Problem) → ps ++ qs ≡ [] → (ps ≡ []) × (qs ≡ [])
nothing_before [] qs e = (refl, e)
nothing_before (p ∷ ps) qs e = cc

no_problem : (b : Bool) (p : Problem) → problem_if (not b) p ≡ [] → b ≡ true
unfolding problem_if
no_problem true p e = refl
no_problem false p e = cc

in_range : (n i : ℕ) (p : Problem) → problem_if (leb n i) p ≡ [] → i < n
unfolding problem_if
in_range n i p e = no_range (leb n i) refl e
  where
    no_range : (b : Bool) → leb n i ≡ b → problem_if b p ≡ [] → i < n
    no_range true h k = cc
    no_range false h k = ground arith

-- The two tests of a name that is bound.
names_fit :
    (blank known : Bool) (p q : Problem)
    → (if blank then p ∷ [] else if known then q ∷ [] else []) ≡ []
    → (blank ≡ false) × (known ≡ false)
names_fit true known p q e = cc
names_fit false true p q e = cc
names_fit false false p q e = (refl, refl)

fault-Fits : (s : Scope) (names : List Str) (o : Occurrence) → fault s names o ≡ [] → Fits s names o
unfolding fault bind_fault
fault-Fits s names (target_at i) e = in_range s.targets i (Problem.target_undeclared i s.targets) e
fault-Fits s names (in_trigger_only p) e = no_problem s.in_trigger p e
fault-Fits s names (permanent_only p) e = no_problem s.permanent p e
fault-Fits s names (attachable_only p) e = no_problem s.attachable p e
fault-Fits s names x_at e = no_problem s.has_x Problem.x_without_cost e
fault-Fits s names (chosen_at direct) e = no_problem direct Problem.chosen_indirect e
fault-Fits s names (binds n) e =
    names_fit (is_blank n) (is_bound names n) Problem.empty_bind (Problem.bound_twice n) e
fault-Fits s names (uses n) e = no_problem (is_bound names n) (Problem.unbound n) e
fault-Fits s names (divided_over r) e =
    no_problem (goes_to_variable s.variable_specs r) Problem.divided_target e
fault-Fits s names divided_here e = no_problem s.in_spell Problem.divided_outside e
fault-Fits s names (always p) e = cc

pub faults-AllFit :
    (s : Scope) (names : List Str) (os : List Occurrence)
    → faults s names os ≡ []
    → AllFit s names os
unfolding faults
faults-AllFit s names [] e = tt
faults-AllFit s names (o ∷ os) e =
    let apart = nothing_before (fault s names o) (faults s (names_behind names o) os) e in
    (fault-Fits s names o apart.0, faults-AllFit s (names_behind names o) os apart.1)

-- Targets are declared, and the occurrences fit with no name bound before them.
abbrev pub BlockFits : Card → Place → List Filter → List Occurrence → Type 0
BlockFits card place specs os =
    AllFit (scope card place (length specs) (map is_variable specs)) [] os

-- The target specs of a spell, and that it has an effect.
abbrev pub spell_head : Spell → List Occurrence
unfolding in_declared always_if
spell_head s = in_declared s.targets ++ always_if (no_effect s.effects) Problem.empty_spell

abbrev pub TriggerFits : Card → Trigger → Type 0
unfolding in_trigger
TriggerFits card t = BlockFits card trigger_place t.targets (in_trigger t)

-- The scope has an `{X}` if the ability's own cost has.
abbrev pub AbilityFits : Card → Ability → Type 0
unfolding any_costs_x in_ability
AbilityFits card a =
    BlockFits card (record bare_place { has_x = any_costs_x a.cost }) a.targets (in_ability a)

abbrev pub ModeFits : Card → Mode → Type 0
unfolding in_declared in_body
ModeFits card m =
    BlockFits card (plain_place card) m.targets
      (in_declared m.targets ++ in_body Problem.empty_mode m.effects)

-- The effects may name what was bound in the target specs, and only they may divide damage.
abbrev pub PlainFits : Card → Spell → Type 0
unfolding in_declared in_effects names_after always_if no_effect
PlainFits card s =
    BlockFits card (plain_place card) s.targets (spell_head s)
    × AllFit
        (scope card (record (plain_place card) { in_spell = true }) (length s.targets)
          (map is_variable s.targets))
        (names_after [] (spell_head s)) (in_effects s.effects)

abbrev pub SpellFits : Card → Option Spell → Type 0
SpellFits card none = Unit
SpellFits card (some s) = if is_empty s.modes then PlainFits card s else All (ModeFits card) s.modes

pub both_parts :
    (p q : Part) (left : Left)
    → (and_part p q left).0 ≡ []
    → ((p left).0 ≡ []) × ((q (p left).1).0 ≡ [])
both_parts p q left e = nothing_before (p left).0 (q (p left).1).0 e

block_fits :
    (card : Card) (place : Place) (specs : List Filter) (os : List Occurrence) (left : Left)
    → (and_part (opened specs) (part_of card place (length specs) os) left).0 ≡ []
    → BlockFits card place specs os
unfolding opened part_of
block_fits card place specs os left e =
    faults-AllFit (scope card place (length specs) (map is_variable specs)) [] os e

pub triggers_fit :
    (card : Card) (ts : List Trigger) (left : Left)
    → (triggers_part card ts left).0 ≡ []
    → All (TriggerFits card) ts
unfolding triggers_part trigger_part
triggers_fit card [] left e = tt
triggers_fit card (t ∷ ts) left e =
    let apart = both_parts (trigger_part card t) (triggers_part card ts) left e in
    (
      block_fits card trigger_place t.targets (in_trigger t) left apart.0,
      triggers_fit card ts (trigger_part card t left).1 apart.1,
    )

pub abilities_fit :
    (card : Card) (abilities : List Ability) (left : Left)
    → (abilities_part card abilities left).0 ≡ []
    → All (AbilityFits card) abilities
unfolding abilities_part ability_part
abilities_fit card [] left e = tt
abilities_fit card (a ∷ rest) left e =
    let apart = both_parts (ability_part card a) (abilities_part card rest) left e in
    (
      block_fits card (record bare_place { has_x = any_costs_x a.cost }) a.targets (in_ability a)
          left apart.0,
      abilities_fit card rest (ability_part card a left).1 apart.1,
    )

pub modes_fit :
    (card : Card) (ms : List Mode) (left : Left)
    → (modes_part card ms left).0 ≡ []
    → All (ModeFits card) ms
unfolding modes_part mode_part
modes_fit card [] left e = tt
modes_fit card (m ∷ ms) left e =
    let apart = both_parts (mode_part card m) (modes_part card ms) left e in
    (
      block_fits card (plain_place card) m.targets
          (in_declared m.targets ++ in_body Problem.empty_mode m.effects) left apart.0,
      modes_fit card ms (mode_part card m left).1 apart.1,
    )
