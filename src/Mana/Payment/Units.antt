-- ===== src/Mana/Payment/Units.antt =====
-- The units that `pay_mana` (crates/engine/src/mana.rs) moves: out of the pool, to the pips, to the
-- generic part, and back to the pool.
use manaline.Prelude.{
  ◌≡◌, ◌∷◌, ◌+◌, ◌-◌, ◌≤◌, ◌<◌, if◌then◌else◌, [], ℕ, zero, suc, refl, inl, inr, some, List, arith,
  Bool-cases, ok, length, count, get_or, sum,
}
use manaline.Mana.Color.{Color, color_eq}
use manaline.Mana.Pool.{Mana, colored, mana_eq, ManaPool, get, add, remove, total, slot}
use manaline.Mana.Pool.Laws.{IsPool, add-IsPool, remove-IsPool, mana_eq→eq, total-add, total-remove}
use manaline.Mana.Payment.{
  spend, take_unit, pay_pips, insert_unit, sort_units, pop, pop_times, add_all,
}
use manaline.Mana.Payment.Gather.{pool_left}

-- A unit that is there is found, and taken out once.
take_unit-finds :
    (m : Mana) (ns : List Mana)
    → 0 < count (λ n. mana_eq n m) ns
    → (rest : List Mana) × (take_unit m ns ≡ some rest)
      × (length ns ≡ suc (length rest))
      × ((k : Mana)
          → count (λ n. mana_eq n k) ns
            ≡ (if mana_eq m k then 1 else 0) + count (λ n. mana_eq n k) rest)
unfolding take_unit
take_unit-finds m [] h = absurd (omega arith)
take_unit-finds m (n ∷ ns) h = elim (Bool-cases (mana_eq n m)) [
  | inl here ↦ (ns, ground arith, refl, λ k. ground (arith, mana_eq→eq n m here))
  | inr other ↦
      let (rest, found, size, counts) = take_unit-finds m ns (ground arith) in
      (n ∷ rest, ground (arith, found), omega arith, λ k. ground (arith, counts k))
]

-- Every pip finds its unit, if the units hold as many of each colour as the pips do.
pub pay_pips-finds :
    (cs : List Color) (paying : List Mana)
    → ((c : Color) → count (λ d. color_eq d c) cs ≤ count (λ n. mana_eq n (colored c)) paying)
    → (left : List Mana) × (pay_pips cs paying ≡ ok left)
      × (length paying ≡ length cs + length left)
unfolding pay_pips
pay_pips-finds [] paying h = (paying, refl, omega arith)
pay_pips-finds (c ∷ cs) paying h =
    let (rest, found, size, counts) = take_unit-finds (colored c) paying (ground (arith, h c)) in
    let (left, paid, sizes) =
      pay_pips-finds cs rest (λ d. ground (arith, h d, counts (colored d))) in
    (left, rw (found, pay_pips) paid, omega arith)

length-insert_unit : (m : Mana) (ns : List Mana) → length (insert_unit m ns) ≡ suc (length ns)
unfolding insert_unit
length-insert_unit m [] = refl
length-insert_unit m (n ∷ ns) = ground (arith, length-insert_unit m ns)

pub length-sort_units : (ms : List Mana) → length (sort_units ms) ≡ length ms
unfolding sort_units
length-sort_units [] = refl
length-sort_units (m ∷ ms) =
    omega (arith, length-insert_unit m (sort_units ms), length-sort_units ms)

length-pop : (ms : List Mana) → length (pop ms) ≡ length ms - 1
unfolding pop
length-pop [] = omega arith
length-pop (m ∷ []) = omega arith
length-pop (m ∷ n ∷ ns) = omega (arith, length-pop (n ∷ ns))

pub length-pop_times : (n : ℕ) (ms : List Mana) → length (pop_times n ms) ≡ length ms - n
unfolding pop_times
length-pop_times zero ms = omega arith
length-pop_times (suc n) ms = omega (arith, length-pop_times n (pop ms), length-pop ms)

-- Spending units that the pool holds takes as many from its total.
pub total-spend :
    (ms : List Mana) (pool : ManaPool)
    → IsPool pool
    → ((m : Mana) → count (λ n. mana_eq n m) ms ≤ get m pool)
    → IsPool (spend ms pool) × (total (spend ms pool) + length ms ≡ total pool)
unfolding spend
total-spend [] pool w h = (w, omega arith)
total-spend (m ∷ ms) pool w h =
    let one : 1 ≤ get m pool = ground (arith, h m) in
    let (pooled, sum) =
      total-spend ms (remove m 1 pool).0 (remove-IsPool m 1 pool w)
        (λ k. (pool_left m k pool (count (λ n. mana_eq n k) ms) w one).0 (h k)) in
    (pooled, omega (arith, total-remove m 1 pool w one))

get_or-le-sum : (xs : List ℕ) (i : ℕ) → get_or xs i 0 ≤ sum xs
get_or-le-sum [] i = omega arith
get_or-le-sum (x ∷ xs) zero = omega arith
get_or-le-sum (x ∷ xs) (suc i) = omega (arith, get_or-le-sum xs i)

get-le-total : (m : Mana) (pool : ManaPool) → get m pool ≤ total pool
unfolding get total
get-le-total m pool = get_or-le-sum pool.amounts (slot m)

-- Units that come back add to the total, as long as no count can pass 255.
pub total-add_all :
    (ms : List Mana) (pool : ManaPool)
    → IsPool pool
    → total pool + length ms ≤ 255
    → IsPool (add_all ms pool) × (total (add_all ms pool) ≡ total pool + length ms)
unfolding add_all
total-add_all [] pool w h = (w, omega arith)
total-add_all (m ∷ ms) pool w h =
    let fits : get m pool + 1 ≤ 255 = omega (arith, get-le-total m pool) in
    let more = total-add m 1 pool w fits in
    let (pooled, sum) = total-add_all ms (add m 1 pool) (add-IsPool m 1 pool w) (omega arith) in
    (pooled, omega arith)
