-- ===== src/Decks/Check.antt =====
-- The check of a deck list against a format, of crates/deckstats/src/check.rs. What is known of the real
-- cards, a trait in the code, is a parameter.
pub mod Agrees
mod Examples
pub mod Marks
pub mod Named
pub mod Unknown
use manaline.Prelude.{
  ◌==◌, ◌∷◌, ◌++◌, ◌+◌, ◌&&◌, if◌then◌else◌, [], ℕ, Bool, true, false, not, Option, none, some,
  List, length, map, count, max,
}
use manaline.Prelude.Maybe.{◌>>=◌}
use manaline.Text.{Str}
use manaline.Cards.Db.{CardDb}
use manaline.Formats.{CardPool, Format, Violation, eq_ignore_ascii_case, check_deck_with}
use manaline.Decks.{Entry, Unresolved, main_entries, resolve}

pub data CardStatus : Type 0 where
  fine : CardStatus
  unknown : (suggestion : Option Str) → CardStatus
  not_implemented : CardStatus
  banned : CardStatus
  not_in_pool : CardStatus
  not_singleton : (count : ℕ) → CardStatus
  too_many_copies : (count max : ℕ) → CardStatus

-- `status == CardStatus::Ok`; `fine` is `Ok`.
abbrev pub is_fine : CardStatus → Bool
is_fine fine = true
is_fine _ = false

pub record LineReport : Type 0 where
  pub line : ℕ
  pub count : ℕ
  pub name : Str
  pub status : CardStatus

pub record CheckReport : Type 0 where
  pub lines : List LineReport
  pub deck : List Violation

abbrev pub all_fine : List LineReport → Bool
all_fine [] = true
all_fine (l ∷ ls) = is_fine l.status && all_fine ls

abbrev pub is_empty : List Violation → Bool
is_empty [] = true
is_empty (v ∷ vs) = false

-- `CheckReport::is_legal`
unfoldable pub is_legal : CheckReport → Bool
is_legal r = is_empty r.deck && all_fine r.lines

-- `CheckReport::problems`
unfoldable pub problems : CheckReport → ℕ
problems r = length r.deck + count (λ l. not (is_fine l.status)) r.lines

-- `KnownCards`
pub record KnownCards : Type 0 where
  pub is_card : Str → Bool
  pub as_legality : Str → Str → Option Bool

-- `mark`
unfoldable pub mark : Str → CardStatus → List LineReport → List LineReport
unfolding eq_ignore_ascii_case
mark name status [] = []
mark name status (l ∷ ls) =
    (if eq_ignore_ascii_case l.name name && is_fine l.status
      then record l { status = status }
      else l)
    ∷ mark name status ls

-- The first of the lines with this number gets this status.
unfoldable pub set_status : ℕ → CardStatus → List LineReport → List LineReport
set_status n status [] = []
set_status n status (l ∷ ls) =
    let later = set_status n status ls in
    if l.line == n then record l { status = status } ∷ ls else l ∷ later

-- The status of an entry that was not resolved.
unfoldable pub unresolved_status : Option KnownCards → Unresolved → CardStatus
unresolved_status none u = unknown u.suggestion
unresolved_status (some k) u =
    if k.is_card u.entry.name then not_implemented else unknown u.suggestion

-- The loop over the entries that were not resolved.
unfoldable pub mark_unresolved :
    Option KnownCards → List Unresolved → List LineReport → List LineReport
unfolding set_status unresolved_status
mark_unresolved known [] lines = lines
mark_unresolved known (u ∷ us) lines =
    mark_unresolved known us (set_status u.entry.line (unresolved_status known u) lines)

-- What a violation does: it marks the lines of its card, or is one of the deck.
unfoldable pub mark_violation : Violation → CheckReport → CheckReport
unfolding mark
mark_violation (Violation.banned name) r = record r { lines = mark name banned r.lines }
mark_violation (Violation.not_in_pool name) r = record r { lines = mark name not_in_pool r.lines }
mark_violation (Violation.not_singleton name n) r = record r {
  lines = mark name (not_singleton n) r.lines;
}
mark_violation (Violation.too_many_copies name n max) r = record r {
  lines = mark name (too_many_copies n max) r.lines;
}
mark_violation v r = record r { deck = r.deck ++ v ∷ [] }

unfoldable pub mark_violations : List Violation → CheckReport → CheckReport
unfolding mark_violation
mark_violations [] r = r
mark_violations (v ∷ vs) r = mark_violations vs (mark_violation v r)

-- The line of an entry, with nothing against it.
unfoldable pub fine_line : Entry → LineReport
fine_line e = record { line = e.line; count = e.count; name = e.name; status = fine }

unfoldable pub legality_of : Option KnownCards → Option (Str → Str → Option Bool)
legality_of none = none
legality_of (some k) = some k.as_legality

-- `check`
unfoldable pub check :
    (Str → Str)
    → (CardPool → Str)
    → List Entry
    → Format
    → CardDb
    → Option KnownCards
    → Option CheckReport
unfolding resolve main_entries mark_unresolved mark_violations fine_line legality_of check_deck_with
check to_lowercase debug_pool entries format db known = do
  res ← resolve to_lowercase db entries
  let lines = mark_unresolved known res.unresolved (map fine_line (main_entries entries))
  violations ← check_deck_with (legality_of known) debug_pool format res.deck db
  some (mark_violations violations (record { lines = lines; deck = [] }))
