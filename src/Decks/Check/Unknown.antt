-- ===== src/Decks/Check/Unknown.antt =====
-- What the entries that were not resolved leave on the lines of a report, in crates/deckstats/src/check.rs.
use manaline.Prelude.{
  ◌==◌, ◌≡◌, ◌∷◌, ◌≤◌, ◌<◌, ◌||◌, ◌↔◌, ◌∙◌, if◌then◌else◌, [], ℕ, refl, ap, Bool, true, false,
  Option, none, some, List, All, arith,
}
use manaline.Text.{Str}
use manaline.Formats.{eq_ignore_ascii_case}
use manaline.Decks.{Unresolved}
use manaline.Decks.Check.{
  CardStatus, LineReport, is_fine, set_status, unresolved_status, mark_unresolved, KnownCards,
}
use manaline.Decks.Check.Marks.{marked, has_name}

-- A line has this number.
abbrev pub has_line : ℕ → List LineReport → Bool
has_line n [] = false
has_line n (l ∷ ls) = l.line == n || has_line n ls

has_name-set_status :
    (name : Str) (n : ℕ) (s : CardStatus) (ls : List LineReport)
    → has_name name (set_status n s ls) ≡ has_name name ls
unfolding set_status
has_name-set_status name n s [] = refl
has_name-set_status name n s (l ∷ ls) = by_test (l.line == n) (has_name-set_status name n s ls)
  where
    by_test :
        (t : Bool)
        → has_name name (set_status n s ls) ≡ has_name name ls
        → has_name name (if t then record l { status = s } ∷ ls else l ∷ set_status n s ls)
          ≡ has_name name (l ∷ ls)
    by_test true h = refl
    by_test false h = ap (λ b. eq_ignore_ascii_case l.name name || b) h

set_status-marked :
    (n : ℕ) (s : CardStatus) (ls : List LineReport)
    → is_fine s ≡ false
    → (marked ls ≤ marked (set_status n s ls))
      × (has_line n ls ≡ true → 0 < marked (set_status n s ls))
unfolding set_status
set_status-marked n s [] h = (omega arith, (λ e. absurd (ground arith)))
set_status-marked n s (l ∷ ls) h = by_test (l.line == n) (set_status-marked n s ls h)
  where
    by_test :
        (t : Bool)
        → (marked ls ≤ marked (set_status n s ls))
          × (has_line n ls ≡ true → 0 < marked (set_status n s ls))
        → (marked (l ∷ ls)
            ≤ marked (if t then record l { status = s } ∷ ls else l ∷ set_status n s ls))
          × ((t || has_line n ls) ≡ true
              → 0 < marked (if t then record l { status = s } ∷ ls else l ∷ set_status n s ls))
    by_test true rest = (ground (arith, h), (λ e. ground (arith, h)))
    by_test false rest = (ground (arith, rest.0), (λ e. ground (arith, rest.1 e)))

unresolved_status-marks :
    (known : Option KnownCards) (u : Unresolved) → is_fine (unresolved_status known u) ≡ false
unfolding unresolved_status
unresolved_status-marks none u = refl
unresolved_status-marks (some k) u = by_test (k.is_card u.entry.name)
  where
    by_test :
        (t : Bool)
        → is_fine (if t then CardStatus.not_implemented else CardStatus.unknown u.suggestion)
          ≡ false
    by_test true = refl
    by_test false = refl

pub has_name-mark_unresolved :
    (known : Option KnownCards) (name : Str) (us : List Unresolved) (ls : List LineReport)
    → has_name name (mark_unresolved known us ls) ≡ has_name name ls
unfolding mark_unresolved
has_name-mark_unresolved known name [] ls = refl
has_name-mark_unresolved known name (u ∷ us) ls =
    let s = unresolved_status known u in
    has_name-mark_unresolved known name us (set_status u.entry.line s ls)
    ∙ has_name-set_status name u.entry.line s ls

mark_unresolved-marked :
    (known : Option KnownCards) (us : List Unresolved) (ls : List LineReport)
    → marked ls ≤ marked (mark_unresolved known us ls)
unfolding mark_unresolved
mark_unresolved-marked known [] ls = omega arith
mark_unresolved-marked known (u ∷ us) ls =
    let s = unresolved_status known u in
    let first = set_status-marked u.entry.line s ls (unresolved_status-marks known u) in
    omega (arith, first.0, mark_unresolved-marked known us (set_status u.entry.line s ls))

-- With a line for each entry, no line is marked exactly if none was and every entry was resolved.
pub mark_unresolved_iff :
    (known : Option KnownCards) (us : List Unresolved) (ls : List LineReport)
    → All (λ u. has_line u.entry.line ls ≡ true) us
    → (marked (mark_unresolved known us ls) ≡ 0) ↔ ((us ≡ []) × (marked ls ≡ 0))
unfolding mark_unresolved
mark_unresolved_iff known [] ls h = ((λ e. (refl, e)), (λ e. e.1))
mark_unresolved_iff known (u ∷ us) ls h =
    let s = unresolved_status known u in
    let first = set_status-marked u.entry.line s ls (unresolved_status-marks known u) in
    let later = mark_unresolved-marked known us (set_status u.entry.line s ls) in
    ((λ e. absurd (omega (arith, first.1 h.0, later, e))), (λ e. cc e.0))
