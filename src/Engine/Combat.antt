-- ===== src/Engine/Combat.antt =====
-- The division of combat damage: `lethal_for`, `lethal_in_order` and `assignment_is_legal` of
-- crates/engine/src/combat.rs. What they read of the game is an `Attack`.
pub mod Legal
pub mod Division
pub mod InOrder
pub mod Default
mod Examples
use manaline.Prelude.{
  contains, ◌==◌, ◌∷◌, ◌++◌, ◌||◌, ◌&&◌, ◌+◌, ◌-◌, ◌%◌, if◌then◌else◌, [], ℕ, min, max, Bool, true,
  false, not, List, Option, none, some, ltb, leb, Result, ok, err, ◌>>=◌, sum,
}
use manaline.Prelude.Int.{ltb_ℤ, ℤ, pos, negsuc, ◌+ℤ◌, ◌-ℤ◌, pos_part}
use manaline.Engine.Objects.{AttackTarget}
use manaline.Engine.Events.{DamageTarget, player, object}

-- An attacker with its effective power, its live blockers, two of its keywords and what it attacks;
-- the toughness and the damage of each creature.
pub record Attack : Type 0 where
  pub power : ℤ
  pub blockers : List ℕ
  pub trample : Bool
  pub deathtouch : Bool
  pub attacking : Option AttackTarget
  pub toughness : ℕ → ℤ
  pub damage : ℕ → ℤ

pub data Refusal : Type 0 where
  negative : Refusal
  not_blocking : ℕ → Refusal
  only_trample : Refusal
  once_only : Refusal
  wrong_sum : Refusal
  not_lethal : ℕ → Refusal

abbrev pub Assignments : Type 0
Assignments = List (DamageTarget × ℤ)

abbrev pub target_eq : DamageTarget → DamageTarget → Bool
target_eq (player a) (player b) = a == b
target_eq (object a) (object b) = a == b
target_eq (player a) (object b) = false
target_eq (object a) (player b) = false

-- `lethal_for`, at least 1.
unfoldable pub lethal_for : Attack → ℕ → ℕ
unfolding ◌-ℤ◌
lethal_for a b = if a.deathtouch then 1 else max (pos_part (a.toughness b -ℤ a.damage b)) 1

-- The loop of `lethal_in_order`, and what remains.
unfoldable pub give_in_order : Attack → ℕ → List ℕ → Assignments × ℕ
unfolding lethal_for
give_in_order a remaining [] = ([], remaining)
give_in_order a remaining (b ∷ bs) =
    let give = min remaining (lethal_for a b) in
    let rest = give_in_order a (remaining - give) bs in
    if remaining == 0 then ([], remaining) else ((object b, pos give) ∷ rest.0, rest.1)

-- `out.last_mut()`
unfoldable pub add_last : ℕ → Assignments → Assignments
unfolding ◌+ℤ◌
add_last n [] = []
add_last n (x ∷ []) = (x.0, x.1 +ℤ pos n) ∷ []
add_last n (x ∷ y ∷ ys) = x ∷ add_last n (y ∷ ys)

-- The defending player, if a player is attacked.
abbrev pub defending : Option AttackTarget → Option ℕ
defending (some (AttackTarget.player s)) = some s
defending _ = none

-- What remains goes to the player, or to the last blocker.
unfoldable pub give_rest : Attack → ℕ → Assignments → Assignments
unfolding add_last
give_rest a left out =
    if not (ltb 0 left)
    then out
    else if a.trample
    then elim (defending a.attacking) [
      | none ↦ add_last left out
      | some s ↦ out ++ (player s, pos left) ∷ []
    ]
    else add_last left out

-- `lethal_in_order` for the live blockers.
unfoldable pub lethal_in_order : Attack → Assignments
unfolding give_in_order give_rest
lethal_in_order a =
    let given = give_in_order a (pos_part a.power) a.blockers in give_rest a given.1 given.0

abbrev pub has_seen : List DamageTarget → DamageTarget → Bool
has_seen [] t = false
has_seen (s ∷ seen) t = target_eq s t || has_seen seen t

-- `!trample || Some(*s) != defending`, denied.
abbrev pub may_hit : Attack → ℕ → Bool
may_hit a s = elim (defending a.attacking) [ none ↦ false | some d ↦ a.trample && s == d ]

-- The loop of `assignment_is_legal`: the sum and the part for the player are `i32`s, which wrap in a
-- release build and are kept here as the numbers below 2 ^ 32.
unfoldable pub check_all : Attack → Assignments → List DamageTarget → ℕ → ℕ → Result Refusal (ℕ × ℕ)
unfolding contains
check_all a [] seen sum to_player = ok (sum, to_player)
check_all a ((to, negsuc n) ∷ xs) seen sum to_player = err negative
check_all a ((object o, pos n) ∷ xs) seen sum to_player =
    let rest = check_all a xs (object o ∷ seen) ((sum + n) % 4294967296) to_player in
    if not (contains a.blockers o)
    then err (not_blocking o)
    else if has_seen seen (object o)
    then err once_only
    else rest
check_all a ((player s, pos n) ∷ xs) seen sum to_player =
    let rest =
      check_all a xs (player s ∷ seen) ((sum + n) % 4294967296) ((to_player + n) % 4294967296) in
    if not (may_hit a s)
    then err only_trample
    else if has_seen seen (player s)
    then err once_only
    else rest

-- What a blocker is assigned: the first entry for it, or 0.
unfoldable pub got : Assignments → ℕ → ℤ
got [] b = pos 0
got ((to, n) ∷ xs) b = if target_eq to (object b) then n else got xs b

unfoldable pub check_lethal : Attack → List ℕ → Assignments → Result Refusal (Unit {0})
unfolding got lethal_for
check_lethal a [] xs = ok tt
check_lethal a (b ∷ bs) xs =
    let rest = check_lethal a bs xs in
    if ltb_ℤ (got xs b) (pos (lethal_for a b)) then err (not_lethal b) else rest

-- `assignment_is_legal`
unfoldable pub assignment_is_legal : Attack → Assignments → Result Refusal (Unit {0})
unfolding check_all check_lethal
assignment_is_legal a xs = do
  (sum, to_player) ← check_all a xs [] 0 0
  if not (sum == pos_part a.power)
      then err wrong_sum
      else if ltb 0 to_player && ltb to_player 2147483648
      then check_lethal a a.blockers xs
      else ok tt
