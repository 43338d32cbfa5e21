-- ===== src/Engine/Combat/Division.antt =====
-- `assignment_is_legal` (crates/engine/src/combat.rs) as a condition on the division.
use manaline.Prelude.{
  ◌==◌, ◌≡◌, ◌<◌, ◌≤◌, ◌↔◌, ◌∷◌, ◌&&◌, ◌+◌, ◌%◌, if◌then◌else◌, [], ℕ, Bool, true, false, not, List,
  All, ltb, refl, sym, ap, ◌∙◌, arith, Result, ok, err, ◌>>=◌, >>=-Through, sum,
}
use manaline.Prelude.Int.{pos, pos_part, ltb_ℤ, ◌≤ℤ◌}
use manaline.Engine.Events.{player, object}
use manaline.Engine.Combat.{
  Attack, Assignments, Refusal, wrong_sum, not_lethal, check_all, check_lethal, assignment_is_legal,
  lethal_for, got,
}
use manaline.Engine.Combat.Legal.{
  MayTake, NamedOnce, total, hit, check_all_sound, check_all_complete,
}

-- Each of the blockers gets lethal damage.
abbrev pub AllLethal : Attack → List ℕ → Assignments → Type 0
AllLethal a bs xs = All (λ b. pos (lethal_for a b) ≤ℤ got xs b) bs

passed_guard :
    {A : Type 0}
    → (b : Bool) (x : Refusal) (rest : Result Refusal A) (r : A)
    → (if b then err x else rest) ≡ ok r
    → (b ≡ false) × (rest ≡ ok r)
passed_guard true x rest r e = cc
passed_guard false x rest r e = (refl, e)

check_lethal_sound :
    (a : Attack) (bs : List ℕ) (xs : Assignments) → check_lethal a bs xs ≡ ok tt → AllLethal a bs xs
unfolding check_lethal
check_lethal_sound a [] xs e = tt
check_lethal_sound a (b ∷ bs) xs e =
    let (high, later) =
      passed_guard (ltb_ℤ (got xs b) (pos (lethal_for a b))) (not_lethal b) (check_lethal a bs xs)
        tt e in
    (ground arith, check_lethal_sound a bs xs later)

check_lethal_complete :
    (a : Attack) (bs : List ℕ) (xs : Assignments) → AllLethal a bs xs → check_lethal a bs xs ≡ ok tt
unfolding check_lethal
check_lethal_complete a [] xs h = refl
check_lethal_complete a (b ∷ bs) xs h =
    let high : ltb_ℤ (got xs b) (pos (lethal_for a b)) ≡ false = ground (arith, h.0) in
    cc (high, check_lethal_complete a bs xs h.1)

hit-le-total : (xs : Assignments) → hit xs ≤ total xs
hit-le-total [] = omega arith
hit-le-total ((object o, n) ∷ xs) = omega (arith, hit-le-total xs)
hit-le-total ((player s, n) ∷ xs) = omega (arith, hit-le-total xs)

-- A division of the attacker's damage: only what the attack allows, nobody twice, exactly the power,
-- and lethal damage for every blocker if the player takes any.
abbrev pub IsDivision : Attack → Assignments → Type 0
IsDivision a xs =
    All (MayTake a) xs
    × NamedOnce [] xs
    × (total xs ≡ pos_part a.power)
    × (0 < hit xs → AllLethal a a.blockers xs)

-- What `assignment_is_legal` does with the two sums.
finish : Attack → Assignments → ℕ × ℕ → Result Refusal (Unit {0})
finish a xs r =
    if not (r.0 == pos_part a.power)
    then err wrong_sum
    else if ltb 0 r.1 && ltb r.1 2147483648
    then check_lethal a a.blockers xs
    else ok tt

finish_sound :
    (a : Attack) (xs : Assignments) (sum to_player : ℕ)
    → to_player < 2147483648
    → finish a xs (sum, to_player) ≡ ok tt
    → (sum ≡ pos_part a.power) × (0 < to_player → AllLethal a a.blockers xs)
unfolding finish
finish_sound a xs sum to_player small e =
    let (same, later) =
      passed_guard (not (sum == pos_part a.power)) wrong_sum
        (if ltb 0 to_player && ltb to_player 2147483648
          then check_lethal a a.blockers xs
          else ok tt)
        tt e in
    (
      ground arith,
      λ some_hit.
          let low : ltb 0 to_player ≡ true = ground arith in
          let high : ltb to_player 2147483648 ≡ true = ground arith in
          check_lethal_sound a a.blockers xs (cc (low, high, later)),
    )

finish_complete :
    (a : Attack) (xs : Assignments) (sum to_player : ℕ)
    → sum ≡ pos_part a.power
    → (0 < to_player → AllLethal a a.blockers xs)
    → finish a xs (sum, to_player) ≡ ok tt
unfolding finish
finish_complete a xs sum to_player same lethal = by_hit (ltb 0 to_player) refl
  where
    equal : (sum == pos_part a.power) ≡ true
    equal = ground arith

    by_hit : (b : Bool) → ltb 0 to_player ≡ b → finish a xs (sum, to_player) ≡ ok tt
    by_hit true e =
        let lethal_ok = check_lethal_complete a a.blockers xs (lethal (ground arith)) in
        by_size (ltb to_player 2147483648) refl lethal_ok
      where
        by_size :
            (b : Bool)
            → ltb to_player 2147483648 ≡ b
            → check_lethal a a.blockers xs ≡ ok tt
            → finish a xs (sum, to_player) ≡ ok tt
        by_size true f k = cc (equal, e, f, k)
        by_size false f k = cc (equal, e, f)
    by_hit false e = cc (equal, e)

sums :
    (a : Attack) (xs : Assignments)
    → total xs < 2147483648
    → finish a xs ((0 + total xs) % 4294967296, (0 + hit xs) % 4294967296)
      ≡ finish a xs (total xs, hit xs)
sums a xs small =
    let sum : (0 + total xs) % 4294967296 ≡ total xs = omega arith in
    let part : (0 + hit xs) % 4294967296 ≡ hit xs = omega (arith, hit-le-total xs) in cc (sum, part)

IsDivision-sound :
    (a : Attack) (xs : Assignments)
    → total xs < 2147483648
    → assignment_is_legal a xs ≡ ok tt
    → IsDivision a xs
unfolding assignment_is_legal finish
IsDivision-sound a xs small e =
    let (r, checked, finished) = >>=-Through (check_all a xs [] 0 0) (finish a xs) e in
    let (may, once, q) = check_all_sound a xs [] 0 0 r (omega arith) (omega arith) checked in
    let (sum, lethal) =
      finish_sound a xs (total xs) (hit xs) (omega (arith, hit-le-total xs))
        (sym (ap (finish a xs) q ∙ sums a xs small) ∙ finished) in
    (may, once, sum, lethal)

IsDivision-complete :
    (a : Attack) (xs : Assignments)
    → total xs < 2147483648
    → IsDivision a xs
    → assignment_is_legal a xs ≡ ok tt
unfolding assignment_is_legal finish
IsDivision-complete a xs small (may, once, sum, lethal) =
    ap (λ r. r >>= finish a xs)
      (check_all_complete a xs [] 0 0 (omega arith) (omega arith) may once)
    ∙ sums a xs small
    ∙ finish_complete a xs (total xs) (hit xs) sum lethal

-- A division of less than 2 ^ 31 damage is legal exactly if it names only live blockers, and the player
-- that a creature with trample attacks, nobody twice and with no negative amount, assigns exactly the
-- power, and gives every blocker lethal damage if the player takes any.
pub assignment_is_legal_iff :
    (a : Attack) (xs : Assignments)
    → total xs < 2147483648
    → (assignment_is_legal a xs ≡ ok tt) ↔ IsDivision a xs
assignment_is_legal_iff a xs small = (IsDivision-sound a xs small, IsDivision-complete a xs small)
