-- ===== src/Decks/Distance/Edits.antt =====
-- What an edit distance is: the least number of edits between two strings.
use manaline.Prelude.{
  ◌==◌, ◌≡◌, ◌∷◌, ◌+◌, ◌≤◌, if◌then◌else◌, [], ℕ, suc, min, refl, length, subst, arith, true, false,
  Bool, inl, inr, leb, Bool-cases,
}
use manaline.Text.{Str}

-- One string becomes another by so many edits.
pub data Edits : Str → Str → ℕ → Type 0 where
  done : Edits [] [] 0
  keep : (c : ℕ) {a b : Str} {n : ℕ} → Edits a b n → Edits (c ∷ a) (c ∷ b) n
  replace : (c d : ℕ) {a b : Str} {n : ℕ} → Edits a b n → Edits (c ∷ a) (d ∷ b) (suc n)
  remove : (c : ℕ) {a b : Str} {n : ℕ} → Edits a b n → Edits (c ∷ a) b (suc n)
  add : (d : ℕ) {a b : Str} {n : ℕ} → Edits a b n → Edits a (d ∷ b) (suc n)

-- So many edits do it, and fewer do not.
abbrev pub IsDistance : Str → Str → ℕ → Type 0
IsDistance a b d = Edits a b d × ((n : ℕ) → Edits a b n → d ≤ n)

-- The recursion, from the first characters on.
unfoldable pub dist : Str → Str → ℕ
dist [] b = length b
dist (x ∷ a) [] = suc (length a)
dist (x ∷ a) (y ∷ b) =
    min (min (dist a (y ∷ b) + 1) (dist (x ∷ a) b + 1)) (dist a b + (if x == y then 0 else 1))

dist_nil : (a : Str) → dist a [] ≡ length a
unfolding dist
dist_nil [] = refl
dist_nil (x ∷ a) = refl

dist_remove : (c : ℕ) (a b : Str) → dist (c ∷ a) b ≤ suc (dist a b)
unfolding dist
dist_remove c a [] = omega (arith, dist_nil a)
dist_remove c a (y ∷ b) = ground arith

dist_add : (d : ℕ) (a b : Str) → dist a (d ∷ b) ≤ suc (dist a b)
unfolding dist
dist_add d [] b = omega arith
dist_add d (x ∷ a) b = ground arith

dist_replace : (c d : ℕ) (a b : Str) → dist (c ∷ a) (d ∷ b) ≤ dist a b + (if c == d then 0 else 1)
unfolding dist
dist_replace c d a b = ground arith

dist-le : {a b : Str} {n : ℕ} → Edits a b n → dist a b ≤ n
unfolding dist
dist-le done = omega arith
dist-le (keep c {a} {b} e) = ground (arith, dist-le e, dist_replace c c a b)
dist-le (replace c d {a} {b} e) = ground (arith, dist-le e, dist_replace c d a b)
dist-le (remove c {a} {b} e) = omega (arith, dist-le e, dist_remove c a b)
dist-le (add d {a} {b} e) = omega (arith, dist-le e, dist_add d a b)

by_adding : (b : Str) → Edits [] b (length b)
by_adding [] = done
by_adding (y ∷ b) = add y (by_adding b)

by_removing : (a : Str) → Edits a [] (length a)
by_removing [] = done
by_removing (x ∷ a) = remove x (by_removing a)

at_corner :
    (x y : ℕ) {a b : Str} {n : ℕ}
    → Edits a b n
    → Edits (x ∷ a) (y ∷ b) (n + (if x == y then 0 else 1))
at_corner x y {a} {b} {n} e = by_test (x == y) refl
  where
    by_test : (t : Bool) → (x == y) ≡ t → Edits (x ∷ a) (y ∷ b) (n + (if t then 0 else 1))
    by_test true same =
        subst (λ m. Edits (x ∷ a) (y ∷ b) m) (omega arith)
          (subst (λ c. Edits (x ∷ a) (c ∷ b) n) (ground arith) (keep x e))
    by_test false other = subst (λ m. Edits (x ∷ a) (y ∷ b) m) (omega arith) (replace x y e)

the_less : {a b : Str} {m n : ℕ} → Edits a b m → Edits a b n → Edits a b (min m n)
the_less {a} {b} {m} {n} d e = elim (Bool-cases (leb m n)) [
  | inl le ↦ subst (λ k. Edits a b k) (ground arith) d
  | inr gt ↦ subst (λ k. Edits a b k) (ground arith) e
]

dist-Edits : (a b : Str) → Edits a b (dist a b)
unfolding dist
dist-Edits [] b = by_adding b
dist-Edits (x ∷ a) [] = by_removing (x ∷ a)
dist-Edits (x ∷ a) (y ∷ b) =
    the_less
      (the_less (one_more (remove x (dist-Edits a (y ∷ b))))
        (one_more (add y (dist-Edits (x ∷ a) b))))
      (at_corner x y (dist-Edits a b))
  where
    one_more : {c d : Str} {n : ℕ} → Edits c d (suc n) → Edits c d (n + 1)
    one_more {c} {d} e = subst (λ k. Edits c d k) (omega arith) e

-- From the last characters on: the edits do not mind.
abbrev pub onto : Str → Str → Str
onto [] c = c
onto (x ∷ a) c = onto a (x ∷ c)

onto-Edits :
    {a b : Str} {m : ℕ} {c d : Str} {n k : ℕ}
    → Edits a b m
    → Edits c d n
    → m + n ≡ k
    → Edits (onto a c) (onto b d) k
onto-Edits {c = c} {d = d} done e h = subst (λ k. Edits c d k) (omega arith) e
onto-Edits (keep x s) e h = onto-Edits s (keep x e) h
onto-Edits (replace x y s) e h = onto-Edits s (replace x y e) (omega arith)
onto-Edits (remove x s) e h = onto-Edits s (remove x e) (omega arith)
onto-Edits (add y s) e h = onto-Edits s (add y e) (omega arith)

onto-onto : (a b : Str) → onto (onto a b) [] ≡ onto b a
onto-onto [] b = refl
onto-onto (x ∷ a) b = onto-onto a (x ∷ b)

-- The distance of two strings that are read backwards is their distance.
pub dist_backwards : (a b : Str) → IsDistance a b (dist (onto a []) (onto b []))
dist_backwards a b =
    let d = dist (onto a []) (onto b []) in
    (
      subst (λ s. Edits s b d) (onto-onto a [])
          (subst (λ s. Edits (onto (onto a []) []) s d) (onto-onto b [])
            (onto-Edits (dist-Edits (onto a []) (onto b [])) done (omega arith))),
      λ n e. dist-le (onto-Edits e done (omega arith)),
    )
