-- ===== src/Validator/Occurrences/Faults.antt =====
-- The problems of a list of occurrences in a scope, and a context with those problems added.
use manaline.Prelude.{
  ◌≡◌, ◌∷◌, ◌++◌, ◌∙◌, if◌then◌else◌, [], ℕ, refl, sym, ap, Bool, true, false, not, List,
  append_assoc, leb,
}
use manaline.Text.{Str}
use manaline.Card.Ir.Queries.{is_permanent}
use manaline.Validator.{Ctx, Problem, is_bound, is_blank, attachable}
use manaline.Validator.Effects.{goes_to_variable}
use manaline.Validator.Occurrences.{
  Occurrence, target_at, in_trigger_only, permanent_only, attachable_only, x_at, chosen_at, binds,
  uses, divided_over, divided_here, always,
}

-- Where an occurrence stands: how many targets are declared and which of them vary, and so on.
pub record Scope : Type 0 where
  pub targets : ℕ
  pub variable_specs : List Bool
  pub in_trigger : Bool
  pub has_x : Bool
  pub in_spell : Bool
  pub permanent : Bool
  pub attachable : Bool

unfoldable pub scope_of : Ctx → Scope
unfolding is_permanent attachable
scope_of c = record {
  targets = c.targets;
  variable_specs = c.variable_specs;
  in_trigger = c.in_trigger;
  has_x = c.has_x;
  in_spell = c.in_spell;
  permanent = is_permanent c.card;
  attachable = attachable c.card;
}

unfoldable pub problem_if : Bool → Problem → List Problem
problem_if true p = p ∷ []
problem_if false p = []

unfoldable pub bind_fault : List Str → Str → List Problem
unfolding is_blank is_bound
bind_fault names n =
    if is_blank n
    then Problem.empty_bind ∷ []
    else if is_bound names n
    then Problem.bound_twice n ∷ []
    else []

-- What is wrong with one occurrence, where `names` are bound before it.
unfoldable pub fault : Scope → List Str → Occurrence → List Problem
unfolding problem_if bind_fault is_bound goes_to_variable
fault s names (target_at i) = problem_if (leb s.targets i) (Problem.target_undeclared i s.targets)
fault s names (in_trigger_only p) = problem_if (not s.in_trigger) p
fault s names (permanent_only p) = problem_if (not s.permanent) p
fault s names (attachable_only p) = problem_if (not s.attachable) p
fault s names x_at = problem_if (not s.has_x) Problem.x_without_cost
fault s names (chosen_at direct) = problem_if (not direct) Problem.chosen_indirect
fault s names (binds n) = bind_fault names n
fault s names (uses n) = problem_if (not (is_bound names n)) (Problem.unbound n)
fault s names (divided_over r) =
    problem_if (not (goes_to_variable s.variable_specs r)) Problem.divided_target
fault s names divided_here = problem_if (not s.in_spell) Problem.divided_outside
fault s names (always p) = p ∷ []

-- The names bound behind an occurrence: a new name that is not blank joins them.
unfoldable pub names_behind : List Str → Occurrence → List Str
unfolding is_blank is_bound
names_behind names (binds n) =
    if is_blank n then names else if is_bound names n then names else names ++ n ∷ []
names_behind names _ = names

unfoldable pub names_after : List Str → List Occurrence → List Str
unfolding names_behind
names_after names [] = names
names_after names (o ∷ os) = names_after (names_behind names o) os

unfoldable pub faults : Scope → List Str → List Occurrence → List Problem
unfolding fault names_behind
faults s names [] = []
faults s names (o ∷ os) = fault s names o ++ faults s (names_behind names o) os

-- The context in which the occurrences were judged.
unfoldable pub with_faults : List Occurrence → Ctx → Ctx
unfolding names_after faults scope_of
with_faults os c = record c {
  bound = names_after c.bound os;
  errors = c.errors ++ faults (scope_of c) c.bound os;
}

pub names_after-append :
    (names : List Str) (os qs : List Occurrence)
    → names_after names (os ++ qs) ≡ names_after (names_after names os) qs
unfolding names_after
names_after-append names [] qs = refl
names_after-append names (o ∷ os) qs = names_after-append (names_behind names o) os qs

pub faults-append :
    (s : Scope) (names : List Str) (os qs : List Occurrence)
    → faults s names (os ++ qs) ≡ faults s names os ++ faults s (names_after names os) qs
unfolding faults names_after
faults-append s names [] qs = refl
faults-append s names (o ∷ os) qs =
    ap (λ ps. fault s names o ++ ps) (faults-append s (names_behind names o) os qs)
    ∙ sym (
        append_assoc (fault s names o) (faults s (names_behind names o) os)
          (faults s (names_after (names_behind names o) os) qs))

-- Judging one list and then another is judging them in a row.
pub with_faults-append :
    (os qs : List Occurrence) (c : Ctx)
    → with_faults qs (with_faults os c) ≡ with_faults (os ++ qs) c
unfolding names_after faults scope_of with_faults
with_faults-append os qs c = λ i. record c { bound = names i; errors = problems i }
  where
    names : names_after (names_after c.bound os) qs ≡ names_after c.bound (os ++ qs)
    names = sym (names_after-append c.bound os qs)

    problems :
        (c.errors ++ faults (scope_of c) c.bound os)
          ++ faults (scope_of c) (names_after c.bound os) qs
        ≡ c.errors ++ faults (scope_of c) c.bound (os ++ qs)
    problems =
        append_assoc c.errors (faults (scope_of c) c.bound os)
          (faults (scope_of c) (names_after c.bound os) qs)
        ∙ ap (λ ps. c.errors ++ ps) (sym (faults-append (scope_of c) c.bound os qs))
