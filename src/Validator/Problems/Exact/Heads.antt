-- ===== src/Validator/Problems/Exact/Heads.antt =====
-- The head of a card, what it enchants and its statics: the checks of crates/cardir/src/validate.rs add
-- their problems.
use manaline.Card.Types.{Keyword, keyword_eq, word}
use manaline.Prelude.{Bool, false, List, ◌∷◌, [], Option, none, some, ltb, count}
use manaline.Card.Ir.{Card, Filter, Static}
use manaline.Validator.{Problem, err_if}
use manaline.Validator.Effects.{static}
use manaline.Validator.Whole.{
  check_statics, check_enchant, run_checks, duplicate_keywords, check_head, head_checks,
}
use manaline.Validator.Occurrences.{in_filter}
use manaline.Validator.Occurrences.Parts.{in_static}
use manaline.Validator.Occurrences.Faults.{problem_if}
use manaline.Validator.Occurrences.Judged.Parts.{Judged-static}
use manaline.Validator.Problems.{
  part_of, bare_place, statics_part, enchant_part, failed, keyword_problems, head_part,
}
use manaline.Validator.Occurrences.Judged.References.{Judged-filter}
use manaline.Validator.Problems.Exact.{with_x, Adds, Adds-skip, Adds-then, Judged-at, Adds-err_if}

Adds-run_checks :
    (card : Card) (checks : List (Bool × Problem))
    → Adds card false false (run_checks checks) (λ left. (failed checks, left))
unfolding run_checks failed
Adds-run_checks card [] = Adds-skip card false
Adds-run_checks card (check ∷ checks) =
    Adds-then (err_if check.0 check.1) (run_checks checks)
      (λ left. (problem_if check.0 check.1, left)) (λ left. (failed checks, left))
      (Adds-err_if card false check.0 check.1) (Adds-run_checks card checks)

Adds-duplicate_keywords :
    (card : Card) (ks : List Keyword)
    → Adds card false false
        (duplicate_keywords ks)
        (λ left. (keyword_problems card.keywords ks, left))
unfolding duplicate_keywords keyword_problems
Adds-duplicate_keywords card [] = Adds-skip card false
Adds-duplicate_keywords card (k ∷ ks) =
    Adds-then
      (err_if (ltb 1 (count (keyword_eq k) card.keywords)) (Problem.duplicate_keyword (word k)))
      (duplicate_keywords ks)
      (λ left. (
        problem_if (ltb 1 (count (keyword_eq k) card.keywords))
            (Problem.duplicate_keyword (word k)),
        left,
      ))
      (λ left. (keyword_problems card.keywords ks, left))
      (Adds-err_if card false (ltb 1 (count (keyword_eq k) card.keywords))
        (Problem.duplicate_keyword (word k)))
      (Adds-duplicate_keywords card ks)

pub Adds-head : (card : Card) → Adds card false false check_head (head_part card)
unfolding check_head head_part
Adds-head card =
    Adds-then (run_checks (head_checks card)) (duplicate_keywords card.keywords)
      (λ left. (failed (head_checks card), left))
      (λ left. (keyword_problems card.keywords card.keywords, left))
      (Adds-run_checks card (head_checks card)) (Adds-duplicate_keywords card card.keywords)

Adds-static :
    (card : Card) (s : Static)
    → Adds card false false
        (λ c. static s (record c { targets = 0 }))
        (part_of card bare_place 0 (in_static s))
Adds-static card s n left es =
    (0, Judged-at (in_static s) card bare_place 0 left es (Judged-static s))

pub Adds-statics :
    (card : Card) (ss : List Static)
    → Adds card false false (check_statics ss) (statics_part card ss)
unfolding check_statics statics_part
Adds-statics card [] = Adds-skip card false
Adds-statics card (s ∷ ss) =
    Adds-then (λ c. static s (record c { targets = 0 })) (check_statics ss)
      (part_of card bare_place 0 (in_static s)) (statics_part card ss) (Adds-static card s)
      (Adds-statics card ss)

pub Adds-enchant :
    (card : Card) (x : Bool) (f : Option Filter)
    → Adds card x x (check_enchant f) (enchant_part card x f)
unfolding check_enchant enchant_part
Adds-enchant card x none n left es = Adds-skip card x n left es
Adds-enchant card x (some f) n left es =
    (0, Judged-at (in_filter false f) card (with_x x) 0 left es (Judged-filter false f))
