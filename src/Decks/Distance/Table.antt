-- ===== src/Decks/Distance/Table.antt =====
-- `edit_distance` of crates/deckstats/src/parse.rs: the table holds the distances of the prefixes, read
-- backwards.
use manaline.Prelude.{
  ◌==◌, ◌≡◌, ◌∷◌, ◌++◌, ◌+◌, ◌-◌, ◌∙◌, if◌then◌else◌, [], ℕ, zero, suc, min, refl, sym, ap, some,
  List, length, get_elem?, set, length-append, append_assoc, arith, replicate, length-replicate,
}
use manaline.Text.{Str}
use manaline.Decks.Distance.{fill_row, fill_rows, count_up, edit_distance}
use manaline.Decks.Distance.Edits.{dist, onto, IsDistance, dist_backwards}

module _ {ℓ} {A : Type ℓ} where
  get_elem?-append :
      (i : ℕ) (xs : List A) (y : A) (ys : List A)
      → length xs ≡ i
      → get_elem? (xs ++ y ∷ ys) i ≡ some y
  get_elem?-append zero [] y ys h = refl
  get_elem?-append (suc i) [] y ys h = absurd (omega arith)
  get_elem?-append zero (x ∷ xs) y ys h = absurd (omega arith)
  get_elem?-append (suc i) (x ∷ xs) y ys h = get_elem?-append i xs y ys (omega arith)

  set-append :
      (i : ℕ) (xs : List A) (y : A) (ys : List A) (v : A)
      → length xs ≡ i
      → set (xs ++ y ∷ ys) i v ≡ xs ++ v ∷ ys
  set-append zero [] y ys v h = refl
  set-append (suc i) [] y ys v h = absurd (omega arith)
  set-append zero (x ∷ xs) y ys v h = absurd (omega arith)
  set-append (suc i) (x ∷ xs) y ys v h = ap (λ zs. x ∷ zs) (set-append i xs y ys v (omega arith))

  length_one_more : (xs : List A) (y : A) → length (xs ++ y ∷ []) ≡ suc (length xs)
  length_one_more xs y = omega (arith, length-append xs (y ∷ []))

module _ {ℓ} {A : Type ℓ} where
  -- One element passes to the left of the place where a list is split.
  split_later :
      (zs xs : List A) (y : A) (ys : List A) → zs ≡ xs ++ y ∷ ys → zs ≡ (xs ++ y ∷ []) ++ ys
  split_later zs xs y ys h = h ∙ sym (append_assoc xs (y ∷ []) ys)

  get_elem?-split :
      (zs : List A) (i : ℕ) (xs : List A) (y : A) (ys : List A)
      → zs ≡ xs ++ y ∷ ys
      → length xs ≡ i
      → get_elem? zs i ≡ some y
  get_elem?-split zs i xs y ys e h = ap (λ l. get_elem? l i) e ∙ get_elem?-append i xs y ys h

  set-split :
      (zs : List A) (i : ℕ) (xs : List A) (y : A) (ys : List A) (v : A)
      → zs ≡ xs ++ y ∷ ys
      → length xs ≡ i
      → set zs i v ≡ xs ++ v ∷ ys
  set-split zs i xs y ys v e h = ap (λ l. set l i v) e ∙ set-append i xs y ys v h

-- The cells of a row behind the one for the prefix `b`, which is backwards.
unfoldable row_after : Str → Str → Str → List ℕ
row_after a b [] = []
row_after a b (y ∷ rest) = dist a (y ∷ b) ∷ row_after a (y ∷ b) rest

fill_row_step :
    (left j x : ℕ) (b : Str) (prev cur : List ℕ) (y above before corner : ℕ)
    → get_elem? b (j - 1) ≡ some y
    → get_elem? prev j ≡ some above
    → get_elem? cur (j - 1) ≡ some before
    → get_elem? prev (j - 1) ≡ some corner
    → fill_row (suc left) j x b prev cur
      ≡ fill_row left
          (suc j)
          x
          b
          prev
          (set cur j (min (min (above + 1) (before + 1)) (corner + (if x == y then 0 else 1))))
unfolding fill_row
fill_row_step left j x b prev cur y above before corner e u v w = cc (e, u, v, w)

fill_row_lem :
    (x j : ℕ) (a rb b0 rest b : Str) (p0 c0 stale prev cur : List ℕ)
    → b ≡ b0 ++ rest
    → prev ≡ p0 ++ dist a rb ∷ row_after a rb rest
    → cur ≡ c0 ++ dist (x ∷ a) rb ∷ stale
    → suc (length b0) ≡ j
    → suc (length p0) ≡ j
    → suc (length c0) ≡ j
    → length stale ≡ length rest
    → fill_row (length rest) j x b prev cur
      ≡ some (c0 ++ dist (x ∷ a) rb ∷ row_after (x ∷ a) rb rest)
unfolding fill_row row_after dist
fill_row_lem x j a rb b0 [] b p0 c0 [] prev cur eb ep ec lb lp lc ls = ap some ec
fill_row_lem x j a rb b0 [] b p0 c0 (s ∷ stale) prev cur eb ep ec lb lp lc ls = absurd (omega arith)
fill_row_lem x j a rb b0 (y ∷ rest) b p0 c0 [] prev cur eb ep ec lb lp lc ls = absurd (omega arith)
fill_row_lem x j a rb b0 (y ∷ rest) b p0 c0 (s ∷ stale) prev cur eb ep ec lb lp lc ls =
    let this = dist (x ∷ a) rb in
    let next = dist (x ∷ a) (y ∷ rb) in
    let p1 = p0 ++ dist a rb ∷ [] in
    let c1 = c0 ++ this ∷ [] in
    let ep1 = split_later prev p0 (dist a rb) (row_after a rb (y ∷ rest)) ep in
    let ec1 = split_later cur c0 this (s ∷ stale) ec in
    let lp1 : length p1 ≡ j = length_one_more p0 (dist a rb) ∙ lp in
    let lc1 : length c1 ≡ j = length_one_more c0 this ∙ lc in
    fill_row_step (length rest) j x b prev cur y (dist a (y ∷ rb)) this (dist a rb)
      (get_elem?-split b (j - 1) b0 y rest eb (omega arith))
      (get_elem?-split prev j p1 (dist a (y ∷ rb)) (row_after a (y ∷ rb) rest) ep1 lp1)
      (get_elem?-split cur (j - 1) c0 this (s ∷ stale) ec (omega arith))
      (get_elem?-split prev (j - 1) p0 (dist a rb) (row_after a rb (y ∷ rest)) ep (omega arith))
    ∙ fill_row_lem x (suc j) a (y ∷ rb) (b0 ++ y ∷ []) rest b p1 c1 stale prev (set cur j next)
        (split_later b b0 y rest eb) ep1 (set-split cur j c1 s stale next ec1 lc1)
        (ap suc (length_one_more b0 y ∙ lb)) (ap suc lp1) (ap suc lc1) (omega (arith, ls))
    ∙ ap some (append_assoc c0 (this ∷ []) (next ∷ row_after (x ∷ a) (y ∷ rb) rest))

row_after-length : (a rb b : Str) → length (row_after a rb b) ≡ length b
unfolding row_after
row_after-length a rb [] = refl
row_after-length a rb (y ∷ b) = ap suc (row_after-length a (y ∷ rb) b)

fill_rows_step :
    (left i : ℕ) (a b : Str) (prev cur : List ℕ) (x : ℕ) (filled : List ℕ)
    → get_elem? a (i - 1) ≡ some x
    → fill_row (length b) 1 x b prev (set cur 0 i) ≡ some filled
    → fill_rows (suc left) i a b prev cur ≡ fill_rows left (suc i) a b filled prev
unfolding fill_rows
fill_rows_step left i a b prev cur x filled e f = rw e (rw f)

fill_rows_lem :
    (i : ℕ) (ra a0 rest a b : Str) (cur : List ℕ)
    → a ≡ a0 ++ rest
    → suc (length a0) ≡ i
    → suc (length ra) ≡ i
    → length cur ≡ suc (length b)
    → fill_rows (length rest) i a b (dist ra [] ∷ row_after ra [] b) cur
      ≡ some (dist (onto rest ra) [] ∷ row_after (onto rest ra) [] b)
unfolding fill_rows dist
fill_rows_lem i ra a0 [] a b cur ea la lr lc = refl
fill_rows_lem i ra a0 (x ∷ rest) a b [] ea la lr lc = absurd (omega arith)
fill_rows_lem i ra a0 (x ∷ rest) a b (s ∷ stale) ea la lr lc =
    fill_rows_step (length rest) i a b (dist ra [] ∷ row_after ra [] b) (s ∷ stale) x
      (dist (x ∷ ra) [] ∷ row_after (x ∷ ra) [] b)
      (get_elem?-split a (i - 1) a0 x rest ea (omega arith))
      (fill_row_lem x 1 ra [] [] b b [] [] stale (dist ra [] ∷ row_after ra [] b) (i ∷ stale) refl
        refl (ap (λ n. n ∷ stale) (sym lr)) refl refl refl (omega arith))
    ∙ fill_rows_lem (suc i) (x ∷ ra) (a0 ++ x ∷ []) rest a b (dist ra [] ∷ row_after ra [] b)
        (split_later a a0 x rest ea) (ap suc (length_one_more a0 x ∙ la)) (ap suc lr)
        (ap suc (row_after-length ra [] b))

last_cell :
    (a rb b : Str) → get_elem? (dist a rb ∷ row_after a rb b) (length b) ≡ some (dist a (onto b rb))
unfolding row_after
last_cell a rb [] = refl
last_cell a rb (y ∷ b) = last_cell a (y ∷ rb) b

first_row : (rb b : Str) → count_up (length rb) (suc (length b)) ≡ dist [] rb ∷ row_after [] rb b
unfolding count_up row_after dist
first_row rb [] = refl
first_row rb (y ∷ b) = ap (λ ns. length rb ∷ ns) (first_row (y ∷ rb) b)

-- The edit distance of two strings is computed without a failing index, and it is the least number of
-- edits (a character replaced, removed or added) that makes the one string the other: so many edits do
-- it, and no fewer do.
pub edit_distance-IsDistance :
    (a b : Str) → (d : ℕ) × (edit_distance a b ≡ some d) × IsDistance a b d
unfolding edit_distance
edit_distance-IsDistance a b = (
  dist (onto a []) (onto b []),
  by_row (
      fill_rows_lem 1 [] [] a a b (replicate (length b + 1) 0) refl refl refl
        (length-replicate (length b + 1) 0 ∙ omega arith)),
  dist_backwards a b,
)
  where
    by_row :
        fill_rows (length a) 1 a b (dist [] [] ∷ row_after [] [] b) (replicate (length b + 1) 0)
          ≡ some (dist (onto a []) [] ∷ row_after (onto a []) [] b)
        → edit_distance a b ≡ some (dist (onto a []) (onto b []))
    by_row e =
        let one_more : length b + 1 ≡ suc (length b) = omega arith in
        let start : count_up 0 (length b + 1) ≡ dist [] [] ∷ row_after [] [] b =
          ap (count_up 0) one_more ∙ first_row [] b in
        rw start (rw e (last_cell (onto a []) [] b))
