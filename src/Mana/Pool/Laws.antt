-- ===== src/Mana/Pool/Laws.antt =====
-- What `add`, `remove` and `units` do to the counts of a pool (crates/engine/src/types.rs).
use manaline.Prelude.{
  ◌≡◌, ◌∷◌, ◌&&◌, ◌+◌, ◌-◌, ◌≤◌, ◌<◌, ◌∙◌, if◌then◌else◌, [], ℕ, zero, suc, min, inl, inr, true,
  List, arith, ltb, leb, Bool-cases, length, All, get_or, set, length-set, get_or-set, sum-set,
  Bool, replicate, count, ◌*◌, refl, ap, length-append, length-replicate, count-append, sum,
  set-set, set-get_or,
}
use manaline.Mana.Color.{white}
use manaline.Mana.Pool.{
  Mana, colored, colorless, slot, mana_eq, ManaPool, get, add, remove, total, units, units_of,
  all_mana,
}

-- Six counts, each a `u8`.
pub record IsPool (p : ManaPool) : Type 0 where
  pub six : length p.amounts ≡ 6
  pub u8 : All (λ n. n ≤ 255) p.amounts

pub slot-lt : (m : Mana) → slot m < 6
slot-lt (colored c) = ground arith
slot-lt colorless = omega arith

pub mana_eq→eq : (m n : Mana) → mana_eq m n ≡ true → m ≡ n
mana_eq→eq m n h = ground arith

All-set : (P : ℕ → Type 0) (xs : List ℕ) (i v : ℕ) → All P xs → P v → All P (set xs i v)
All-set P [] i v h k = tt
All-set P (x ∷ xs) zero v h k = (k, h.1)
All-set P (x ∷ xs) (suc i) v h k = (h.0, All-set P xs i v h.1 k)

get_or-All : (xs : List ℕ) (i : ℕ) → All (λ n. n ≤ 255) xs → get_or xs i 0 ≤ 255
get_or-All [] i h = omega arith
get_or-All (x ∷ xs) zero h = h.0
get_or-All (x ∷ xs) (suc i) h = get_or-All xs i h.1

pub get-le : (m : Mana) (p : ManaPool) → IsPool p → get m p ≤ 255
unfolding get
get-le m p h = get_or-All p.amounts (slot m) h.u8

module _ (m : Mana) (n : ℕ) (p : ManaPool) (w : IsPool p) where
  pub add-IsPool : IsPool (add m n p)
  unfolding add
  add-IsPool = record {
    six = length-set p.amounts (slot m) _ ∙ w.six;
    u8 = All-set (λ k. k ≤ 255) p.amounts (slot m) _ w.u8 (omega arith);
  }

  pub remove-IsPool : IsPool (remove m n p).0
  unfolding remove
  remove-IsPool = elim (Bool-cases (ltb (get m p) n)) [
    | inl short ↦ rw short w
    | inr enough ↦ rw enough (record {
      six = length-set p.amounts (slot m) _ ∙ w.six;
      u8 = All-set (λ k. k ≤ 255) p.amounts (slot m) _ w.u8 (omega (arith, get-le m p w));
    })
  ]

  -- `add` adds to one count, which stops at 255, and leaves the others alone.
  pub get-add :
      (k : Mana) → get k (add m n p) ≡ (if mana_eq m k then min (get m p + n) 255 else get k p)
  unfolding get add
  get-add k = get_or-set p.amounts (slot m) (slot k) _ 0 (omega (arith, slot-lt m, w.six))

  -- `remove` takes from one count, or refuses and changes nothing when the count is too small.
  pub get-remove :
      (k : Mana)
      → get k (remove m n p).0 ≡ (if mana_eq m k && (remove m n p).1 then get m p - n else get k p)
  unfolding get remove
  get-remove k = ground (
    arith,
    get_or-set p.amounts (slot m) (slot k) (get m p - n) 0 (omega (arith, slot-lt m, w.six)),
  )

  pub remove-enough : (remove m n p).1 ≡ leb n (get m p)
  unfolding remove
  remove-enough = ground arith

  pub total-add : get m p + n ≤ 255 → total (add m n p) ≡ total p + n
  unfolding total add get
  total-add h =
      omega (
        arith,
        sum-set p.amounts (slot m) (min (get m p + n) 255) (omega (arith, slot-lt m, w.six)),
      )

  pub total-remove : n ≤ get m p → total (remove m n p).0 + n ≡ total p
  unfolding total remove get
  total-remove h =
      ground (arith, sum-set p.amounts (slot m) (get m p - n) (omega (arith, slot-lt m, w.six)))

  -- What was added can be taken out again, and the pool is as before, unless a count overflowed.
  pub remove-add : get m p + n ≤ 255 → remove m n (add m n p) ≡ (p, true)
  unfolding remove add get
  remove-add h =
      let now : get_or (set p.amounts (slot m) (min (get_or p.amounts (slot m) 0 + n) 255)) (slot m)
            0
          ≡ get_or p.amounts (slot m) 0 + n =
        ground (
          arith,
          get_or-set p.amounts (slot m) (slot m) (min (get_or p.amounts (slot m) 0 + n) 255) 0
              (omega (arith, slot-lt m, w.six)),
        ) in
      let back : get_or p.amounts (slot m) 0 + n - n ≡ get_or p.amounts (slot m) 0 = omega arith in
      ground (
        arith,
        now,
        back,
        set-set p.amounts (slot m) (min (get_or p.amounts (slot m) 0 + n) 255)
            (get_or p.amounts (slot m) 0),
        set-get_or p.amounts (slot m) 0,
      )

count-replicate :
    (f : Mana → Bool) (n : ℕ) (m : Mana) → count f (replicate n m) ≡ (if f m then n else 0)
count-replicate f zero m = ground arith
count-replicate f (suc n) m = ground (arith, count-replicate f n m)

count-units_of :
    (ms : List Mana) (p : ManaPool) (k : Mana)
    → count (λ m. mana_eq m k) (units_of ms p) ≡ count (λ m. mana_eq m k) ms * get k p
unfolding units_of
count-units_of [] p k = omega arith
count-units_of (m ∷ ms) p k =
    let whole = count-append (λ n. mana_eq n k) (replicate (get m p) m) (units_of ms p) in
    let head = count-replicate (λ n. mana_eq n k) (get m p) m in
    let ih = count-units_of ms p k in
    elim (Bool-cases (mana_eq m k)) [
      | inl same ↦
          let here : get m p ≡ get k p = ap (λ (n : Mana). get n p) (mana_eq→eq m k same) in
          rw same (omega (arith, whole, here, ih, (rw same at head)))
      | inr other ↦ rw other (omega (arith, whole, ih, (rw other at head)))
    ]

once-all_mana : (k : Mana) → count (λ m. mana_eq m k) all_mana ≡ 1
once-all_mana colorless = refl
once-all_mana (colored white) = refl
once-all_mana (colored _) = refl

-- `units` lists each kind as often as the pool holds it.
pub count-units : (p : ManaPool) (k : Mana) → count (λ m. mana_eq m k) (units p) ≡ get k p
unfolding units
count-units p k =
    omega (arith, count-units_of all_mana p k, ap (λ (t : ℕ). t * get k p) (once-all_mana k))

sum_six :
    (xs : List ℕ)
    → length xs ≡ 6
    → sum xs
      ≡ get_or xs 0 0
        + (get_or xs 1 0 + (get_or xs 2 0 + (get_or xs 3 0 + (get_or xs 4 0 + get_or xs 5 0))))
sum_six (a ∷ b ∷ c ∷ d ∷ e ∷ f ∷ []) h = omega arith
sum_six _ h = absurd (omega arith)

length-units_of :
    (m : Mana) (ms : List Mana) (p : ManaPool)
    → length (units_of (m ∷ ms) p) ≡ get m p + length (units_of ms p)
unfolding units_of
length-units_of m ms p =
    omega
      (arith, length-append (replicate (get m p) m) (units_of ms p), length-replicate (get m p) m)

-- `units` lists as many units as `total` counts.
pub length-units : (p : ManaPool) → IsPool p → length (units p) ≡ total p
unfolding units total get
length-units p w = omega (arith, sum_six p.amounts w.six, length-units_of)
