-- ===== src/Engine/Combat/InOrder.antt =====
-- The default division of damage, `lethal_in_order` (crates/engine/src/combat.rs), is a legal one.
use manaline.Prelude.{
  contains, min, ◌==◌, ◌≡◌, ◌<◌, ◌∷◌, ◌++◌, ◌+◌, ◌-◌, if◌then◌else◌, [], ℕ, Bool, true, false, List,
  All, refl, sym, subst, arith,
}
use manaline.Prelude.Int.{ℤ, pos, negsuc, ◌≤ℤ◌}
use manaline.Engine.Events.{DamageTarget, player, object}
use manaline.Engine.Combat.{Attack, Assignments, lethal_for, got, give_in_order, has_seen}
use manaline.Engine.Combat.Legal.{MayTake, NamedOnce, total, hit}
use manaline.Engine.Combat.Division.{AllLethal}

-- No blocker twice.
abbrev pub IsDistinct : List ℕ → Type 0
IsDistinct [] = Unit
IsDistinct (b ∷ bs) = (contains bs b ≡ false) × IsDistinct bs

-- Damage for objects only.
abbrev pub IsForObjects : Assignments → Type 0
IsForObjects [] = Unit
IsForObjects ((object o, pos n) ∷ xs) = IsForObjects xs
IsForObjects (_ ∷ xs) = ⊥

pub hit-IsForObjects : (xs : Assignments) → IsForObjects xs → hit xs ≡ 0
hit-IsForObjects [] h = refl
hit-IsForObjects ((object o, pos n) ∷ xs) h = hit-IsForObjects xs h
hit-IsForObjects ((object o, negsuc n) ∷ xs) h = absurd h
hit-IsForObjects ((player s, pos n) ∷ xs) h = absurd h
hit-IsForObjects ((player s, negsuc n) ∷ xs) h = absurd h

if_both :
    (P : Assignments × ℕ → Type 0) (c : Bool) (u v : Assignments × ℕ)
    → P u
    → P v
    → P (if c then u else v)
if_both P true u v p q = p
if_both P false u v p q = q

pub give_in_order-IsForObjects :
    (a : Attack) (n : ℕ) (bs : List ℕ) → IsForObjects (give_in_order a n bs).0
unfolding give_in_order
give_in_order-IsForObjects a n [] = tt
give_in_order-IsForObjects a n (b ∷ bs) =
    if_both (λ r. IsForObjects r.0) (n == 0) _ _ tt
      (give_in_order-IsForObjects a (n - min n (lethal_for a b)) bs)

-- What is given and what remains are together what was there.
pub total-give_in_order :
    (a : Attack) (n : ℕ) (bs : List ℕ)
    → total (give_in_order a n bs).0 + (give_in_order a n bs).1 ≡ n
unfolding give_in_order
total-give_in_order a n [] = omega arith
total-give_in_order a n (b ∷ bs) =
    ground (arith, total-give_in_order a (n - min n (lethal_for a b)) bs)

pub give_in_order-MayTake :
    (a : Attack) (n : ℕ) (bs : List ℕ)
    → All (λ b. contains a.blockers b ≡ true) bs
    → All (MayTake a) (give_in_order a n bs).0
unfolding give_in_order
give_in_order-MayTake a n [] h = tt
give_in_order-MayTake a n (b ∷ bs) h =
    if_both (λ r. All (MayTake a) r.0) (n == 0) _ _ tt
      (h.0, give_in_order-MayTake a (n - min n (lethal_for a b)) bs h.1)

abbrev pub AllFresh : List DamageTarget → List ℕ → Type 0
AllFresh seen bs = All (λ b. has_seen seen (object b) ≡ false) bs

AllFresh-cons :
    (b : ℕ) (seen : List DamageTarget) (bs : List ℕ)
    → contains bs b ≡ false
    → AllFresh seen bs
    → AllFresh (object b ∷ seen) bs
unfolding contains
AllFresh-cons b seen [] h fresh = tt
AllFresh-cons b seen (c ∷ bs) h fresh =
    (ground (arith, fresh.0), AllFresh-cons b seen bs (ground arith) fresh.1)

pub give_in_order-NamedOnce :
    (a : Attack) (n : ℕ) (bs : List ℕ) (seen : List DamageTarget)
    → IsDistinct bs
    → AllFresh seen bs
    → NamedOnce seen (give_in_order a n bs).0
unfolding give_in_order
give_in_order-NamedOnce a n [] seen h fresh = tt
give_in_order-NamedOnce a n (b ∷ bs) seen h fresh =
    if_both (λ r. NamedOnce seen r.0) (n == 0) _ _ tt
      (
        fresh.0,
        give_in_order-NamedOnce a (n - min n (lethal_for a b)) bs (object b ∷ seen) h.1
            (AllFresh-cons b seen bs h.0 fresh.1),
      )

-- An entry in front for somebody else takes nothing from the others.
AllLethal-cons :
    (a : Attack) (b : ℕ) (n : ℤ) (bs : List ℕ) (xs : Assignments)
    → contains bs b ≡ false
    → AllLethal a bs xs
    → AllLethal a bs ((object b, n) ∷ xs)
unfolding contains got
AllLethal-cons a b n [] xs h lethal = tt
AllLethal-cons a b n (c ∷ bs) xs h lethal =
    let apart : (b == c) ≡ false = ground arith in
    (
      subst (λ (x : Bool). pos (lethal_for a c) ≤ℤ (if x then n else got xs c)) (sym apart)
          lethal.0,
      AllLethal-cons a b n bs xs (ground arith) lethal.1,
    )

-- One round of the loop.
abbrev round : Attack → ℕ → ℕ → List ℕ → Bool → Assignments × ℕ
round a n b bs c =
    let give = min n (lethal_for a b) in
    let rest = give_in_order a (n - give) bs in
    if c then ([], n) else ((object b, pos give) ∷ rest.0, rest.1)

round-AllLethal :
    (a : Attack) (n b : ℕ) (bs : List ℕ) (tail : Assignments) (c : Bool)
    → (n == 0) ≡ c
    → contains bs b ≡ false
    → 0 < (round a n b bs c).1
    → (0 < (give_in_order a (n - min n (lethal_for a b)) bs).1
        → AllLethal a bs ((give_in_order a (n - min n (lethal_for a b)) bs).0 ++ tail))
    → AllLethal a (b ∷ bs) ((round a n b bs c).0 ++ tail)
unfolding got
round-AllLethal a n b bs tail true e h left later = absurd (ground arith)
round-AllLethal a n b bs tail false e h left later =
    let give = min n (lethal_for a b) in
    let xs = (give_in_order a (n - give) bs).0 ++ tail in
    let same : (b == b) ≡ true = ground arith in
    (
      subst (λ (x : Bool). pos (lethal_for a b) ≤ℤ (if x then pos give else got xs b)) (sym same)
          (omega (arith, left, total-give_in_order a (n - give) bs)),
      AllLethal-cons a b (pos give) bs xs h (later left),
    )

-- If something remains, every blocker got lethal damage.
pub give_in_order-AllLethal :
    (a : Attack) (n : ℕ) (bs : List ℕ) (tail : Assignments)
    → IsDistinct bs
    → 0 < (give_in_order a n bs).1
    → AllLethal a bs ((give_in_order a n bs).0 ++ tail)
unfolding give_in_order
give_in_order-AllLethal a n [] tail h left = tt
give_in_order-AllLethal a n (b ∷ bs) tail h left =
    round-AllLethal a n b bs tail (n == 0) refl h.0 left
      (give_in_order-AllLethal a (n - min n (lethal_for a b)) bs tail h.1)
