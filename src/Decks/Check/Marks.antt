-- ===== src/Decks/Check/Marks.antt =====
-- What the marks of crates/deckstats/src/check.rs leave on the lines of a report.
use manaline.Prelude.{
  ◌≡◌, ◌∷◌, ◌++◌, ◌+◌, ◌≤◌, ◌<◌, ◌&&◌, ◌||◌, ◌↔◌, if◌then◌else◌, [], ℕ, suc, refl, Bool, true,
  false, not, List, length, count, All, arith, length-append, max,
}
use manaline.Text.{Str}
use manaline.Formats.{Violation, eq_ignore_ascii_case}
use manaline.Decks.Check.Named.{OfName}
use manaline.Decks.Check.{
  CardStatus, LineReport, CheckReport, is_fine, is_legal, problems, mark, mark_violation,
  mark_violations, all_fine, is_empty,
}

-- How many lines are marked.
abbrev pub marked : List LineReport → ℕ
marked ls = count (λ l. not (is_fine l.status)) ls

all_fine_iff : (ls : List LineReport) → (all_fine ls ≡ true) ↔ (marked ls ≡ 0)
all_fine_iff [] = ((λ e. refl), (λ e. refl))
all_fine_iff (l ∷ ls) = by_status l.status (all_fine_iff ls)
  where
    by_status :
        (s : CardStatus)
        → (all_fine ls ≡ true) ↔ (marked ls ≡ 0)
        → ((is_fine s && all_fine ls) ≡ true)
          ↔ ((if not (is_fine s) then suc (marked ls) else marked ls) ≡ 0)
    by_status s h = ground (arith, h)

-- A report is legal exactly if it counts no problem.
pub is_legal_iff : (r : CheckReport) → (is_legal r ≡ true) ↔ (problems r ≡ 0)
unfolding is_legal problems
is_legal_iff r = by_deck r.deck (all_fine_iff r.lines)
  where
    by_deck :
        (vs : List Violation)
        → (all_fine r.lines ≡ true) ↔ (marked r.lines ≡ 0)
        → ((is_empty vs && all_fine r.lines) ≡ true) ↔ ((length vs + marked r.lines) ≡ 0)
    by_deck [] h = ground (arith, h)
    by_deck (v ∷ vs) h = ground arith

is_fine-mark :
    (t f : Bool) (l : LineReport) (s : CardStatus)
    → is_fine s ≡ false
    → is_fine l.status ≡ f
    → is_fine (if t && f then record l { status = s } else l).status ≡ (f && not t)
is_fine-mark true true l s h e = h
is_fine-mark true false l s h e = e
is_fine-mark false true l s h e = e
is_fine-mark false false l s h e = e

mark-marked :
    (name : Str) (s : CardStatus) (ls : List LineReport)
    → is_fine s ≡ false
    → marked ls ≤ marked (mark name s ls)
unfolding mark
mark-marked name s [] h = omega arith
mark-marked name s (l ∷ ls) h = ground (
  arith,
  mark-marked name s ls h,
  is_fine-mark (eq_ignore_ascii_case l.name name) (is_fine l.status) l s h refl,
)

-- A line has this name, upper and lower case being the same.
abbrev pub has_name : Str → List LineReport → Bool
has_name name [] = false
has_name name (l ∷ ls) = eq_ignore_ascii_case l.name name || has_name name ls

mark-marks :
    (name : Str) (s : CardStatus) (ls : List LineReport)
    → is_fine s ≡ false
    → has_name name ls ≡ true
    → 0 < marked (mark name s ls)
unfolding mark
mark-marks name s [] h there = absurd (ground arith)
mark-marks name s (l ∷ ls) h there = ground (
  arith,
  mark-marks name s ls h,
  is_fine-mark (eq_ignore_ascii_case l.name name) (is_fine l.status) l s h refl,
)

-- A violation of a card has a line to mark.
abbrev pub HasLine : List LineReport → Violation → Type 0
HasLine ls v = OfName (λ name. has_name name ls ≡ true) v

deck_grows :
    (v : Violation) (r : CheckReport)
    → suc (problems r) ≤ problems (record r { deck = r.deck ++ v ∷ [] })
unfolding problems
deck_grows v r = omega (arith, length-append r.deck (v ∷ []))

mark_violation-problems :
    (v : Violation) (r : CheckReport) → problems r ≤ problems (mark_violation v r)
unfolding mark_violation problems
mark_violation-problems (Violation.banned name) r =
    omega (arith, mark-marked name CardStatus.banned r.lines refl)
mark_violation-problems (Violation.not_in_pool name) r =
    omega (arith, mark-marked name CardStatus.not_in_pool r.lines refl)
mark_violation-problems (Violation.not_singleton name n) r =
    omega (arith, mark-marked name (CardStatus.not_singleton n) r.lines refl)
mark_violation-problems (Violation.too_many_copies name n max) r =
    omega (arith, mark-marked name (CardStatus.too_many_copies n max) r.lines refl)
mark_violation-problems v r = omega (arith, deck_grows v r)

mark_violation-marks :
    (v : Violation) (r : CheckReport) → HasLine r.lines v → 0 < problems (mark_violation v r)
unfolding mark_violation problems
mark_violation-marks (Violation.banned name) r h =
    omega (arith, mark-marks name CardStatus.banned r.lines refl h)
mark_violation-marks (Violation.not_in_pool name) r h =
    omega (arith, mark-marks name CardStatus.not_in_pool r.lines refl h)
mark_violation-marks (Violation.not_singleton name n) r h =
    omega (arith, mark-marks name (CardStatus.not_singleton n) r.lines refl h)
mark_violation-marks (Violation.too_many_copies name n max) r h =
    omega (arith, mark-marks name (CardStatus.too_many_copies n max) r.lines refl h)
mark_violation-marks v r h = omega (arith, deck_grows v r)

mark_violations-problems :
    (vs : List Violation) (r : CheckReport) → problems r ≤ problems (mark_violations vs r)
unfolding mark_violations
mark_violations-problems [] r = omega arith
mark_violations-problems (v ∷ vs) r =
    omega (arith, mark_violation-problems v r, mark_violations-problems vs (mark_violation v r))

-- With a line for each violation, the report has no problem exactly if it had none and there is no
-- violation.
pub mark_violations_iff :
    (vs : List Violation) (r : CheckReport)
    → All (HasLine r.lines) vs
    → (problems (mark_violations vs r) ≡ 0) ↔ ((vs ≡ []) × (problems r ≡ 0))
unfolding mark_violations
mark_violations_iff [] r h = ((λ e. (refl, e)), (λ e. e.1))
mark_violations_iff (v ∷ vs) r h = (
  (λ e. absurd (
      omega (
        arith,
        mark_violation-marks v r h.0,
        mark_violations-problems vs (mark_violation v r),
        e,
      ))),
  (λ e. cc e.0),
)
