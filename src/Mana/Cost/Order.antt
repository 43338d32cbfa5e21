-- ===== src/Mana/Cost/Order.antt =====
-- Sorting and deduplicating colours (crates/cardir/src/types.rs): the facts about order.
use manaline.Prelude.{
  ℕ, suc, ◌≤◌, ◌<◌, ◌≡◌, refl, Bool, List, [], ◌∷◌, arith, count, length, All, ◌↔◌,
}
use manaline.Mana.Color.{Color, index, color_eq}
use manaline.Mana.Cost.{insert, sort, dedup}

-- Colours in WUBRG order, repetitions allowed.
abbrev pub IsSorted : List Color → Type 0
IsSorted [] = Unit
IsSorted (c ∷ cs) = All (λ d. index c ≤ index d) cs × IsSorted cs

-- Each colour once, in WUBRG order.
abbrev pub IsStrict : List Color → Type 0
IsStrict [] = Unit
IsStrict (c ∷ cs) = All (λ d. index c < index d) cs × IsStrict cs

All-insert :
    (n : ℕ) (c : Color) (cs : List Color)
    → n ≤ index c
    → All (λ d. n ≤ index d) cs
    → All (λ d. n ≤ index d) (insert c cs)
unfolding insert
All-insert n c [] h k = (h, tt)
All-insert n c (d ∷ ds) h k = ground (arith, All-insert n c ds h k.1)

All-weaken :
    (m n : ℕ) (cs : List Color) → m ≤ n → All (λ d. n ≤ index d) cs → All (λ d. m ≤ index d) cs
All-weaken m n [] h k = tt
All-weaken m n (c ∷ cs) h k = (omega arith, All-weaken m n cs h k.1)

insert-IsSorted : (c : Color) (cs : List Color) → IsSorted cs → IsSorted (insert c cs)
unfolding insert
insert-IsSorted c [] h = (tt, tt)
insert-IsSorted c (d ∷ ds) h =
    ground (
      arith,
      All-weaken (index c) (index d) ds,
      All-insert (index d) c ds,
      insert-IsSorted c ds h.1,
    )

pub sort-IsSorted : (cs : List Color) → IsSorted (sort cs)
unfolding sort
sort-IsSorted [] = tt
sort-IsSorted (c ∷ cs) = insert-IsSorted c (sort cs) (sort-IsSorted cs)

insert-IsSorted_head :
    (c : Color) (cs : List Color) → All (λ d. index c ≤ index d) cs → insert c cs ≡ c ∷ cs
unfolding insert
insert-IsSorted_head c [] h = refl
insert-IsSorted_head c (d ∷ ds) h = ground arith

-- Sorting changes nothing that is sorted.
pub sort-eq_self : (cs : List Color) → IsSorted cs → sort cs ≡ cs
unfolding sort insert
sort-eq_self [] h = refl
sort-eq_self (c ∷ cs) h = rw (sort-eq_self cs h.1) (insert-IsSorted_head c cs h.0)

count-insert :
    (p : Color → Bool) (c : Color) (cs : List Color) → count p (insert c cs) ≡ count p (c ∷ cs)
unfolding insert
count-insert p c [] = refl
count-insert p c (d ∷ ds) = ground (arith, count-insert p c ds)

-- Sorting keeps how often each colour occurs.
pub count-sort : (p : Color → Bool) (cs : List Color) → count p (sort cs) ≡ count p cs
unfolding sort
count-sort p [] = refl
count-sort p (c ∷ cs) = ground (arith, count-insert p c (sort cs), count-sort p cs)

length-insert : (c : Color) (cs : List Color) → length (insert c cs) ≡ suc (length cs)
unfolding insert
length-insert c [] = refl
length-insert c (d ∷ ds) = ground (arith, length-insert c ds)

pub length-sort : (cs : List Color) → length (sort cs) ≡ length cs
unfolding sort
length-sort [] = refl
length-sort (c ∷ cs) = omega (arith, length-insert c (sort cs), length-sort cs)

All-dedup :
    (n : ℕ) (cs : List Color) → All (λ d. n ≤ index d) cs → All (λ d. n ≤ index d) (dedup cs)
unfolding dedup
All-dedup n [] h = tt
All-dedup n (c ∷ []) h = h
All-dedup n (c ∷ d ∷ ds) h = ground (arith, All-dedup n (d ∷ ds) h.1)

-- Of a sorted list `dedup` leaves each colour once.
pub dedup-IsStrict : (cs : List Color) → IsSorted cs → IsStrict (dedup cs)
unfolding dedup
dedup-IsStrict [] h = tt
dedup-IsStrict (c ∷ []) h = (tt, tt)
dedup-IsStrict (c ∷ d ∷ ds) h =
    let above_d : All (λ e. index d ≤ index e) (dedup (d ∷ ds)) =
      All-dedup (index d) (d ∷ ds) (omega arith, h.1.0) in
    ground
      (arith, dedup-IsStrict (d ∷ ds) h.1, All-weaken (suc (index c)) (index d) (dedup (d ∷ ds)))

-- Of a list sorted or not, `dedup` keeps which colours occur.
pub count-dedup_pos :
    (k : Color) (cs : List Color)
    → (0 < count (λ c. color_eq c k) (dedup cs)) ↔ (0 < count (λ c. color_eq c k) cs)
unfolding dedup
count-dedup_pos k [] = (λ h. h, λ h. h)
count-dedup_pos k (c ∷ []) = (λ h. h, λ h. h)
count-dedup_pos k (c ∷ d ∷ ds) =
    let ih = count-dedup_pos k (d ∷ ds) in (λ h. ground (arith, ih), λ h. ground (arith, ih))
