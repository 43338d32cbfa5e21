-- ===== src/Validator/Occurrences/Judged.antt =====
-- The checks of crates/cardir/src/validate.rs judge the occurrences in what they check, one after the
-- other: the rules from which Judged/References.antt and Judged/Effects.antt build every check.
pub mod References
pub mod Effects
pub mod Parts
use manaline.Prelude.{◌≡◌, ◌∷◌, ◌++◌, ◌∙◌, [], refl, sym, ap, Bool, true, false, List, append-nil}
use manaline.Prelude.Int.{pos, ltb_ℤ}
use manaline.Card.Ir.{Quantity, exactly, up_to, any_number}
use manaline.Validator.{
  Ctx, Problem, err_if, check_target, at_least_one, bind_option, is_bound, attachable, error, pos,
}
use manaline.Card.Ir.Queries.{is_permanent}
use manaline.Validator.Occurrences.{
  Occurrence, always_if, in_count, in_bind, target_at, always, binds, uses, in_trigger_only,
  permanent_only, attachable_only, x_at, chosen_at,
}
use manaline.Validator.Occurrences.Faults.{
  with_faults, with_faults-append, names_after, faults, scope_of, fault, problem_if, names_behind,
}

-- Where `direct` is `d`, the check does what judging the occurrences does.
abbrev pub Judged : Bool → (Ctx → Ctx) → List Occurrence → Type 0
Judged d f os = (c : Ctx) → c.direct ≡ d → f c ≡ with_faults os c

pub Judged-skip : (d : Bool) → Judged d (λ c. c) []
unfolding faults names_after scope_of with_faults
Judged-skip d c e = λ i. record c { errors = sym (append-nil c.errors) i }

pub Judged-then :
    {d : Bool} {f g : Ctx → Ctx} (os qs : List Occurrence)
    → Judged d f os
    → Judged d g qs
    → Judged d (λ c. g (f c)) (os ++ qs)
unfolding with_faults
Judged-then {d} {f} {g} os qs first second c e =
    ap g (first c e) ∙ second (with_faults os c) e ∙ with_faults-append os qs c

pub Judged-err_if : (d b : Bool) (p : Problem) → Judged d (err_if b p) (always_if b p)
unfolding err_if error always_if faults names_after scope_of fault with_faults problem_if
Judged-err_if d true p c e = refl
Judged-err_if d false p c e = Judged-skip d c e

pub Judged-at_least_one :
    (d : Bool) (p : Problem) (n : Quantity) → Judged d (at_least_one p n) (in_count p n)
unfolding at_least_one in_count
Judged-at_least_one d p (exactly n) = Judged-err_if d (ltb_ℤ n (pos 1)) p
Judged-at_least_one d p (up_to n) = Judged-err_if d (ltb_ℤ n (pos 1)) p
Judged-at_least_one d p any_number = Judged-skip d

pub err_if_lem :
    (b : Bool) (p : Problem) (c : Ctx)
    → err_if b p c ≡ record c { errors = c.errors ++ problem_if b p }
unfolding err_if error problem_if
err_if_lem true p c = refl
err_if_lem false p c = λ i. record c { errors = sym (append-nil c.errors) i }

-- A check whose test reads the context, where the occurrence fails by the same test.
pub Judged-one :
    (d : Bool) (o : Occurrence) (test : Ctx → Bool) (p : Ctx → Problem)
    → ((c : Ctx) → c.direct ≡ d → fault (scope_of c) c.bound o ≡ problem_if (test c) (p c))
    → ((c : Ctx) → names_behind c.bound o ≡ c.bound)
    → Judged d (λ c. err_if (test c) (p c) c) (o ∷ [])
unfolding faults names_after with_faults
Judged-one d o test p fails keeps c e = err_if_lem (test c) (p c) c ∙ as_fault
  where
    problems :
        c.errors ++ problem_if (test c) (p c) ≡ c.errors ++ (fault (scope_of c) c.bound o ++ [])
    problems =
        ap (λ ps. c.errors ++ ps) (sym (append-nil (fault (scope_of c) c.bound o) ∙ fails c e))

    as_fault : record c { errors = c.errors ++ problem_if (test c) (p c) } ≡ with_faults (o ∷ []) c
    as_fault = λ i. record c { bound = sym (keeps c) i; errors = problems i }
