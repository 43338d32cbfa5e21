-- ===== src/Decks/Distance.antt =====
-- `edit_distance` of crates/deckstats/src/parse.rs: two rows of a table that is filled cell by cell. An
-- index out of bounds is `none`.
pub mod Edits
pub mod Table
use manaline.Prelude.{
  ◌==◌, ◌≡◌, ◌∷◌, ◌++◌, ◌+◌, if◌then◌else◌, [], ℕ, zero, suc, min, refl, Option, none, some, List,
  length, get_elem?, set, replicate, ◌-◌,
}
use manaline.Prelude.Maybe.{◌>>=◌}
use manaline.Text.{Str, codes}

-- `(i..i + n).collect()`
unfoldable pub count_up : ℕ → ℕ → List ℕ
count_up i zero = []
count_up i (suc n) = i ∷ count_up (suc i) n

-- The loop over `j`, with what is left of it; `x` is `a[i - 1]`. It returns `cur`.
unfoldable pub fill_row : ℕ → ℕ → ℕ → Str → List ℕ → List ℕ → Option (List ℕ)
fill_row zero j x b prev cur = some cur
fill_row (suc left) j x b prev cur = do
  y ← get_elem? b (j - 1)
  let cost = if x == y then 0 else 1
  above ← get_elem? prev j
  before ← get_elem? cur (j - 1)
  corner ← get_elem? prev (j - 1)
  fill_row left (suc j) x b prev (set cur j (min (min (above + 1) (before + 1)) (corner + cost)))

-- The loop over `i`, with what is left of it. It returns `prev`.
unfoldable pub fill_rows : ℕ → ℕ → Str → Str → List ℕ → List ℕ → Option (List ℕ)
unfolding fill_row
fill_rows zero i a b prev cur = some prev
fill_rows (suc left) i a b prev cur = do
  x ← get_elem? a (i - 1)
  filled ← fill_row (length b) 1 x b prev (set cur 0 i)
  fill_rows left (suc i) a b filled prev

unfoldable pub edit_distance : Str → Str → Option ℕ
unfolding fill_rows count_up
edit_distance a b = do
  row ← fill_rows (length a) 1 a b (count_up 0 (length b + 1)) (replicate (length b + 1) 0)
  get_elem? row (length b)
