-- ===== src/Engine/Combat/Legal.antt =====
-- Which divisions of damage `assignment_is_legal` (crates/engine/src/combat.rs) accepts.
use manaline.Prelude.{
  contains, ◌≡◌, ◌<◌, ◌∷◌, ◌+◌, ◌%◌, if◌then◌else◌, [], ℕ, Bool, true, false, not, List, All, refl,
  ap, ◌∙◌, arith, Result, ok, err, sum,
}
use manaline.Prelude.Int.{ℤ, pos, negsuc, pos_part}
use manaline.Engine.Events.{DamageTarget, player, object}
use manaline.Engine.Combat.{
  not_blocking, once_only, only_trample, Refusal, Attack, Assignments, Refusal, not_blocking,
  once_only, only_trample, may_hit, has_seen, check_all,
}

-- An entry that the attack allows: an amount of damage for a live blocker, or for the player that a
-- creature with trample attacks.
abbrev pub MayTake : Attack → DamageTarget × ℤ → Type 0
MayTake a (to, negsuc n) = ⊥
MayTake a (object o, pos n) = contains a.blockers o ≡ true
MayTake a (player s, pos n) = may_hit a s ≡ true

-- Nobody is named twice, nor was before.
abbrev pub NamedOnce : List DamageTarget → Assignments → Type 0
NamedOnce seen [] = Unit
NamedOnce seen (x ∷ xs) = (has_seen seen x.0 ≡ false) × NamedOnce (x.0 ∷ seen) xs

abbrev pub total : Assignments → ℕ
total [] = 0
total (x ∷ xs) = pos_part x.1 + total xs

-- What the player takes.
abbrev pub hit : Assignments → ℕ
hit [] = 0
hit ((object o, n) ∷ xs) = hit xs
hit ((player s, n) ∷ xs) = pos_part n + hit xs

abbrev pub IsChecked : Attack → List DamageTarget → ℕ → ℕ → Assignments → ℕ × ℕ → Type 0
IsChecked a seen sum to_player xs r =
    All (MayTake a) xs
    × NamedOnce seen xs
    × (r ≡ ((sum + total xs) % 4294967296, (to_player + hit xs) % 4294967296))

passed_guards :
    {A : Type 0}
    → (b c : Bool) (x y : Refusal) (rest : Result Refusal A) (r : A)
    → (if not b then err x else if c then err y else rest) ≡ ok r
    → (b ≡ true) × (c ≡ false) × (rest ≡ ok r)
passed_guards true true x y rest r e = cc
passed_guards true false x y rest r e = (refl, refl, e)
passed_guards false c x y rest r e = cc

wrap_add : (m n t : ℕ) → ((m + n) % 4294967296 + t) % 4294967296 ≡ (m + (n + t)) % 4294967296
wrap_add m n t = omega arith

wrap_lt : (n : ℕ) → n % 4294967296 < 4294967296
wrap_lt n = omega arith

wrap_small : (n : ℕ) → n < 4294967296 → (n + 0) % 4294967296 ≡ n
wrap_small n h = omega arith

pub check_all_sound :
    (a : Attack) (xs : Assignments) (seen : List DamageTarget) (sum to_player : ℕ) (r : ℕ × ℕ)
    → sum < 4294967296
    → to_player < 4294967296
    → check_all a xs seen sum to_player ≡ ok r
    → IsChecked a seen sum to_player xs r
unfolding check_all
check_all_sound a [] seen sum to_player r h k e =
    let q : (sum, to_player) ≡ r = cc e in
    (tt, tt, cc (q, wrap_small sum h, wrap_small to_player k))
check_all_sound a ((to, negsuc n) ∷ xs) seen sum to_player r h k e = cc
check_all_sound a ((object o, pos n) ∷ xs) seen sum to_player r h k e =
    let (b, c, later) =
      passed_guards (contains a.blockers o) (has_seen seen (object o)) (not_blocking o) once_only
        (check_all a xs (object o ∷ seen) ((sum + n) % 4294967296) to_player) r e in
    let (may, once, q) =
      check_all_sound a xs (object o ∷ seen) ((sum + n) % 4294967296) to_player r
        (wrap_lt (sum + n)) k later in
    (
      (b, may),
      (c, once),
      q ∙ ap (λ m. (m, (to_player + hit xs) % 4294967296)) (wrap_add sum n (total xs)),
    )
check_all_sound a ((player s, pos n) ∷ xs) seen sum to_player r h k e =
    let (b, c, later) =
      passed_guards (may_hit a s) (has_seen seen (player s)) only_trample once_only
        (check_all a xs (player s ∷ seen) ((sum + n) % 4294967296) ((to_player + n) % 4294967296)) r
        e in
    let (may, once, q) =
      check_all_sound a xs (player s ∷ seen) ((sum + n) % 4294967296) ((to_player + n) % 4294967296)
        r (wrap_lt (sum + n)) (wrap_lt (to_player + n)) later in
    ((b, may), (c, once), q ∙ cc (wrap_add sum n (total xs), wrap_add to_player n (hit xs)))

pub check_all_complete :
    (a : Attack) (xs : Assignments) (seen : List DamageTarget) (sum to_player : ℕ)
    → sum < 4294967296
    → to_player < 4294967296
    → All (MayTake a) xs
    → NamedOnce seen xs
    → check_all a xs seen sum to_player
      ≡ ok ((sum + total xs) % 4294967296, (to_player + hit xs) % 4294967296)
unfolding check_all
check_all_complete a [] seen sum to_player h k may once =
    cc (wrap_small sum h, wrap_small to_player k)
check_all_complete a ((to, negsuc n) ∷ xs) seen sum to_player h k may once = absurd may.0
check_all_complete a ((object o, pos n) ∷ xs) seen sum to_player h k may once = cc (
  may.0,
  once.0,
  wrap_add sum n (total xs),
  check_all_complete a xs (object o ∷ seen) ((sum + n) % 4294967296) to_player (wrap_lt (sum + n)) k
      may.1 once.1,
)
check_all_complete a ((player s, pos n) ∷ xs) seen sum to_player h k may once = cc (
  may.0,
  once.0,
  wrap_add sum n (total xs),
  wrap_add to_player n (hit xs),
  check_all_complete a xs (player s ∷ seen) ((sum + n) % 4294967296) ((to_player + n) % 4294967296)
      (wrap_lt (sum + n)) (wrap_lt (to_player + n)) may.1 once.1,
)
