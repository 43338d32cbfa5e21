-- ===== src/Mana/Payment/Gather.antt =====
-- The two loops of `payment_covers` (crates/engine/src/mana.rs) that gather the units of a payment.
use manaline.Prelude.{
  contains, ◌==◌, ◌≡◌, ◌∷◌, ◌++◌, ◌||◌, ◌≤◌, [], ℕ, inl, inr, false, some, List, append-nil,
  append_assoc, arith, Option-cases, ok, count, All, ◌↔◌, ◌∙◌, if◌then◌else◌, suc, sym, ap,
  Bool-cases,
}
use manaline.Mana.Pool.{Mana, mana_eq, ManaPool, get, remove}
use manaline.Mana.Pool.Laws.{IsPool, get-remove, remove-enough, remove-IsPool, mana_eq→eq}
use manaline.Mana.Payment.{Source, find, output, collect_taps, collect_pool, tapped_units}

-- No permanent twice.
abbrev pub IsDistinct : List ℕ → Type 0
IsDistinct [] = Unit
IsDistinct (x ∷ xs) = All (λ y. (x == y) ≡ false) xs × IsDistinct xs

-- Every permanent is one of the sources.
abbrev pub AreSources : List Source → List ℕ → Type 0
AreSources sources ids = All (λ id. (s : Source) × (find sources id ≡ some s)) ids

abbrev pub IsFresh : List ℕ → List ℕ → Type 0
IsFresh seen [] = Unit
IsFresh seen (id ∷ ids) = (contains seen id ≡ false) × IsFresh (seen ++ id ∷ []) ids

contains-append_one :
    (seen : List ℕ) (x y : ℕ) → contains (seen ++ x ∷ []) y ≡ (contains seen y || x == y)
unfolding contains
contains-append_one [] x y = ground arith
contains-append_one (z ∷ seen) x y = ground (arith, contains-append_one seen x y)

-- `contains` over `seen ++ x ∷ []` is `contains` over `seen` and a test against `x`.
unseen_split :
    (seen : List ℕ) (x : ℕ) (ids : List ℕ)
    → All (λ y. contains (seen ++ x ∷ []) y ≡ false) ids
    → All (λ y. contains seen y ≡ false) ids × All (λ y. (x == y) ≡ false) ids
unseen_split seen x [] h = (tt, tt)
unseen_split seen x (y ∷ ys) h =
    let (old, new) = unseen_split seen x ys h.1 in
    let both : (contains seen y || x == y) ≡ false = sym (contains-append_one seen x y) ∙ h.0 in
    ((ground arith, old), (ground arith, new))

unseen_join :
    (seen : List ℕ) (x : ℕ) (ids : List ℕ)
    → All (λ y. contains seen y ≡ false) ids
    → All (λ y. (x == y) ≡ false) ids
    → All (λ y. contains (seen ++ x ∷ []) y ≡ false) ids
unseen_join seen x [] h k = tt
unseen_join seen x (y ∷ ys) h k =
    (ground (arith, contains-append_one seen x y), unseen_join seen x ys h.1 k.1)

pub fresh→distinct :
    (seen ids : List ℕ)
    → IsFresh seen ids
    → All (λ id. contains seen id ≡ false) ids × IsDistinct ids
fresh→distinct seen [] h = (tt, tt)
fresh→distinct seen (id ∷ ids) h =
    let (unseen, distinct) = fresh→distinct (seen ++ id ∷ []) ids h.1 in
    let (old, new) = unseen_split seen id ids unseen in ((h.0, old), (new, distinct))

pub distinct→fresh :
    (seen ids : List ℕ)
    → All (λ id. contains seen id ≡ false) ids
    → IsDistinct ids
    → IsFresh seen ids
distinct→fresh seen [] h k = tt
distinct→fresh seen (id ∷ ids) h k =
    (h.0, distinct→fresh (seen ++ id ∷ []) ids (unseen_join seen id ids h.1 k.0) k.1)

module _ (sources : List Source) where
  pub collect_taps_complete :
      (ids seen : List ℕ) (paying : List Mana)
      → IsFresh seen ids
      → AreSources sources ids
      → collect_taps sources ids seen paying ≡ ok (paying ++ tapped_units sources ids)
  unfolding collect_taps tapped_units
  collect_taps_complete [] seen paying h k = rw append-nil
  collect_taps_complete (id ∷ ids) seen paying h k =
      let (s, e) = k.0 in
      rw (
        h.0,
        e,
        collect_taps_complete ids (seen ++ id ∷ []) (paying ++ output s) h.1 k.1,
        append_assoc,
      )

  pub collect_taps_sound :
      (ids seen : List ℕ) (paying : List Mana) {out : List Mana}
      → collect_taps sources ids seen paying ≡ ok out
      → IsFresh seen ids × AreSources sources ids
  unfolding collect_taps
  collect_taps_sound [] seen paying h = (tt, tt)
  collect_taps_sound (id ∷ ids) seen paying {out} h = elim (Option-cases (find sources id)) [
    | inl missing ↦ ground arith
    | inr (s, e) ↦
        let unseen : contains seen id ≡ false = ground arith in
        let more : collect_taps sources ids (seen ++ id ∷ []) (paying ++ output s) ≡ ok out =
          ground (arith, e) in
        let (fresh, sourced) = collect_taps_sound ids (seen ++ id ∷ []) (paying ++ output s) more in
        ((unseen, fresh), ((s, e), sourced))
  ]

-- What is left for the later units, when one unit of `m` is out of the pool.
pub pool_left :
    (m k : Mana) (pool : ManaPool) (c : ℕ)
    → IsPool pool
    → 1 ≤ get m pool
    → ((if mana_eq m k then suc c else c) ≤ get k pool) ↔ (c ≤ get k (remove m 1 pool).0)
pool_left m k pool c w h = elim (Bool-cases (mana_eq m k)) [
  | inl same ↦
      let here : get m pool ≡ get k pool = ap (λ (n : Mana). get n pool) (mana_eq→eq m k same) in
      (
        λ le. ground (arith, get-remove m 1 pool w k, remove-enough m 1 pool w),
        λ le. ground (arith, get-remove m 1 pool w k, remove-enough m 1 pool w),
      )
  | inr other ↦
      (λ le. ground (arith, get-remove m 1 pool w k), λ le. ground (arith, get-remove m 1 pool w k))
]

pub collect_pool_complete :
    (ms : List Mana) (pool : ManaPool) (paying : List Mana)
    → IsPool pool
    → ((m : Mana) → count (λ n. mana_eq n m) ms ≤ get m pool)
    → collect_pool ms pool paying ≡ ok (paying ++ ms)
unfolding collect_pool
collect_pool_complete [] pool paying w h = rw append-nil
collect_pool_complete (m ∷ ms) pool paying w h =
    let one : 1 ≤ get m pool = ground (arith, h m) in
    let rest =
      collect_pool_complete ms (remove m 1 pool).0 (paying ++ m ∷ []) (remove-IsPool m 1 pool w)
        (λ k. (pool_left m k pool (count (λ n. mana_eq n k) ms) w one).0 (h k)) in
    ground (arith, rest, remove-enough m 1 pool w, append_assoc paying (m ∷ []) ms)

pub collect_pool_sound :
    (ms : List Mana) (pool : ManaPool) (paying : List Mana) {out : List Mana}
    → IsPool pool
    → collect_pool ms pool paying ≡ ok out
    → (m : Mana) → count (λ n. mana_eq n m) ms ≤ get m pool
unfolding collect_pool
collect_pool_sound [] pool paying w h m = omega arith
collect_pool_sound (n ∷ ms) pool paying {out} w h m =
    let one : 1 ≤ get n pool = ground (arith, remove-enough n 1 pool w) in
    let more : collect_pool ms (remove n 1 pool).0 (paying ++ n ∷ []) ≡ ok out = ground arith in
    (pool_left n m pool (count (λ k. mana_eq k m) ms) w one).1 (
      collect_pool_sound ms (remove n 1 pool).0 (paying ++ n ∷ []) (remove-IsPool n 1 pool w) more
        m)
