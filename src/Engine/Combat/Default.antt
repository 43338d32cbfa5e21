-- ===== src/Engine/Combat/Default.antt =====
-- What `lethal_in_order` (crates/engine/src/combat.rs) does with the rest, and its result.
use manaline.Prelude.{
  contains, length, ◌==◌, ◌≡◌, ◌<◌, ◌∷◌, ◌++◌, ◌+◌, if◌then◌else◌, [], ℕ, Bool, true, false, not,
  List, All, All-append, ltb, Option, none, some, refl, sym, ◌∙◌, subst, arith, ok, sum,
}
use manaline.Prelude.Int.{ℤ, pos, negsuc, pos_part, ◌+ℤ◌}
use manaline.Engine.Events.{DamageTarget, player, object}
use manaline.Engine.Combat.{
  Attack, Assignments, give_in_order, add_last, give_rest, lethal_in_order, defending, may_hit,
  has_seen, assignment_is_legal,
}
use manaline.Engine.Combat.Legal.{MayTake, NamedOnce, total}
use manaline.Engine.Combat.Division.{IsDivision, AllLethal, assignment_is_legal_iff}
use manaline.Engine.Combat.InOrder.{
  IsDistinct, IsForObjects, AllFresh, hit-IsForObjects, give_in_order-IsForObjects,
  give_in_order-MayTake, give_in_order-NamedOnce, give_in_order-AllLethal, total-give_in_order,
}

pos_plus : (m n : ℕ) → pos m +ℤ pos n ≡ pos (m + n)
unfolding ◌+ℤ◌
pos_plus m n = ground arith

-- A division for objects of so much damage that the attack allows and that names nobody twice.
abbrev IsGiven : Attack → List DamageTarget → ℕ → Assignments → Type 0
IsGiven a seen n xs = IsForObjects xs × (total xs ≡ n) × All (MayTake a) xs × NamedOnce seen xs

add_last-IsGiven :
    (a : Attack) (seen : List DamageTarget) (n m : ℕ) (xs : Assignments)
    → 0 < length xs
    → IsGiven a seen m xs
    → IsGiven a seen (m + n) (add_last n xs)
unfolding add_last
add_last-IsGiven a seen n m [] some_one h = absurd (omega arith)
add_last-IsGiven a seen n m ((object o, pos k) ∷ []) some_one (objects, sum, may, once) =
    subst (λ z. IsGiven a seen (m + n) ((object o, z) ∷ [])) (sym (pos_plus k n))
      (tt, omega (arith, sum), (may.0, tt), once)
add_last-IsGiven a seen n m ((object o, pos k) ∷ y ∷ ys) some_one (objects, sum, may, once) =
    let (o', s', m', n') =
      add_last-IsGiven a (object o ∷ seen) n (total (y ∷ ys)) (y ∷ ys) (omega arith)
        (objects, refl, may.1, once.1) in
    (o', omega (arith, sum, s'), (may.0, m'), (once.0, n'))
add_last-IsGiven a seen n m ((object o, negsuc k) ∷ xs) some_one h = absurd h.0
add_last-IsGiven a seen n m ((player s, pos k) ∷ xs) some_one h = absurd h.0
add_last-IsGiven a seen n m ((player s, negsuc k) ∷ xs) some_one h = absurd h.0

-- A part for the player behind damage for objects.
NamedOnce-append_player :
    (seen : List DamageTarget) (xs : Assignments) (s : ℕ) (z : ℤ)
    → IsForObjects xs
    → has_seen seen (player s) ≡ false
    → NamedOnce seen xs
    → NamedOnce seen (xs ++ (player s, z) ∷ [])
NamedOnce-append_player seen [] s z objects fresh once = (fresh, tt)
NamedOnce-append_player seen ((object o, pos k) ∷ xs) s z objects fresh once =
    (once.0, NamedOnce-append_player (object o ∷ seen) xs s z objects fresh once.1)
NamedOnce-append_player seen ((object o, negsuc k) ∷ xs) s z h fresh once = absurd h
NamedOnce-append_player seen ((player t, pos k) ∷ xs) s z h fresh once = absurd h
NamedOnce-append_player seen ((player t, negsuc k) ∷ xs) s z h fresh once = absurd h

total-append : (xs ys : Assignments) → total (xs ++ ys) ≡ total xs + total ys
total-append [] ys = omega arith
total-append (x ∷ xs) ys = omega (arith, total-append xs ys)

All-contained :
    (xs ys : List ℕ)
    → ((b : ℕ) → contains ys b ≡ true → contains xs b ≡ true)
    → All (λ b. contains xs b ≡ true) ys
unfolding contains
All-contained xs [] h = tt
All-contained xs (b ∷ ys) h =
    (h b (ground arith), All-contained xs ys (λ c k. h c (ground (arith, k))))

AllFresh-nil : (bs : List ℕ) → AllFresh [] bs
AllFresh-nil [] = tt
AllFresh-nil (b ∷ bs) = (refl, AllFresh-nil bs)

-- If something remains and somebody blocks, something was given.
gave_some :
    (a : Attack) (n : ℕ) (bs : List ℕ)
    → 0 < length bs
    → 0 < (give_in_order a n bs).1
    → 0 < length (give_in_order a n bs).0
unfolding give_in_order
gave_some a n [] h left = h
gave_some a n (b ∷ bs) h left = ground arith

-- Damage for objects that sums to the power is a division, whatever the blockers got.
IsGiven-IsDivision :
    (a : Attack) (xs : Assignments) → IsGiven a [] (pos_part a.power) xs → IsDivision a xs
IsGiven-IsDivision a xs (objects, sum, may, once) =
    (may, once, sum, λ some_hit. absurd (omega (arith, some_hit, hit-IsForObjects xs objects)))

give_rest-IsDivision :
    (a : Attack) (left : ℕ) (out : Assignments)
    → IsForObjects out
    → total out + left ≡ pos_part a.power
    → All (MayTake a) out
    → NamedOnce [] out
    → (0 < left → 0 < length out)
    → (0 < left → (tail : Assignments) → AllLethal a a.blockers (out ++ tail))
    → IsDivision a (give_rest a left out)
unfolding give_rest
give_rest-IsDivision a left out objects sum may once gave lethal = by_left (ltb 0 left) refl
  where
    to_last : 0 < left → IsDivision a (add_last left out)
    to_last some_left = IsGiven-IsDivision a (add_last left out) (
        subst (λ n. IsGiven a [] n (add_last left out)) sum
          (add_last-IsGiven a [] left (total out) out (gave some_left) (objects, refl, may, once)))

    may_player : (s : ℕ) → defending a.attacking ≡ some s → a.trample ≡ true → may_hit a s ≡ true
    may_player s e tramples = let k : (s == s) ≡ true = ground arith in cc (e, tramples, k)

    to_player :
        (s : ℕ)
        → defending a.attacking ≡ some s
        → a.trample ≡ true
        → 0 < left
        → IsDivision a (out ++ (player s, pos left) ∷ [])
    to_player s e tramples some_left = (
      All-append (MayTake a) out ((player s, pos left) ∷ []) may (may_player s e tramples, tt),
      NamedOnce-append_player [] out s (pos left) objects refl once,
      total-append out ((player s, pos left) ∷ []) ∙ omega (arith, sum),
      λ some_hit. lethal some_left ((player s, pos left) ∷ []),
    )

    by_target :
        (t : Bool) (r : Option ℕ)
        → a.trample ≡ t
        → defending a.attacking ≡ r
        → 0 < left
        → IsDivision a (
            if t
            then elim r [ none ↦ add_last left out | some s ↦ out ++ (player s, pos left) ∷ [] ]
            else add_last left out)
    by_target true none e f some_left = to_last some_left
    by_target true (some s) e f some_left = to_player s f e some_left
    by_target false r e f some_left = to_last some_left

    by_left :
        (b : Bool)
        → ltb 0 left ≡ b
        → IsDivision a (
            if not b
            then out
            else if a.trample
            then elim (defending a.attacking) [
              | none ↦ add_last left out
              | some s ↦ out ++ (player s, pos left) ∷ []
            ]
            else add_last left out)
    by_left false e = IsGiven-IsDivision a out (objects, omega (arith, sum, nothing), may, once)
      where
        nothing : left ≡ 0
        nothing = ground arith
    by_left true e = by_target a.trample (defending a.attacking) refl refl (ground arith)

-- The default division of the damage of an attacker with at least one live blocker, no blocker listed
-- twice and a power below 2 ^ 31 is legal.
pub lethal_in_order_legal :
    (a : Attack)
    → IsDistinct a.blockers
    → 0 < length a.blockers
    → pos_part a.power < 2147483648
    → assignment_is_legal a (lethal_in_order a) ≡ ok tt
unfolding lethal_in_order
lethal_in_order_legal a distinct blocked small =
    let n = pos_part a.power in
    let given = give_in_order a n a.blockers in
    let division =
      give_rest-IsDivision a given.1 given.0 (give_in_order-IsForObjects a n a.blockers)
        (total-give_in_order a n a.blockers)
        (give_in_order-MayTake a n a.blockers (All-contained a.blockers a.blockers (λ b k. k)))
        (give_in_order-NamedOnce a n a.blockers [] distinct (AllFresh-nil a.blockers))
        (gave_some a n a.blockers blocked)
        (λ left tail. give_in_order-AllLethal a n a.blockers tail distinct left) in
    (assignment_is_legal_iff a (give_rest a given.1 given.0) (omega (arith, division.2, small))).1
      division
