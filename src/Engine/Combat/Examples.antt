-- ===== src/Engine/Combat/Examples.antt =====
-- The division of combat damage of crates/engine/src/combat.rs: tests, and the theorems at a creature with
-- trample.
use manaline.Prelude.{◌≡◌, ◌∷◌, ◌↔◌, [], refl, some, ok, true, false, arith, contains}
use manaline.Prelude.Int.{pos}
use manaline.Engine.Objects.{player}
use manaline.Engine.Events.{object, DamageTarget}
use manaline.Engine.Combat.{Attack, Assignments, lethal_in_order, assignment_is_legal}
use manaline.Engine.Combat.Default.{lethal_in_order_legal}
use manaline.Engine.Combat.Division.{IsDivision, assignment_is_legal_iff}

-- A creature with trample and power 5 that attacks seat 3, blocked by three creatures of toughness 1.
abbrev trampler : Attack
trampler = record {
  power = pos 5;
  blockers = 7 ∷ 8 ∷ 9 ∷ [];
  trample = true;
  deathtouch = false;
  attacking = some (player 3);
  toughness = λ b. pos 1;
  damage = λ b. pos 0;
}

-- One for each blocker, two for the player.
abbrev shared_out : Assignments
shared_out =
    (object 7, pos 1) ∷ (object 8, pos 1) ∷ (object 9, pos 1) ∷ (DamageTarget.player 3, pos 2) ∷ []

in_order : lethal_in_order trampler ≡ shared_out
unfolding lethal_in_order
in_order = refl

-- The sum of these amounts is 5 more than 2 ^ 32, and the code takes it for 5.
abbrev overflowing : Assignments
overflowing = (object 7, pos 2147483647) ∷ (object 8, pos 2147483647) ∷ (object 9, pos 7) ∷ []

overflow_accepted : assignment_is_legal trampler overflowing ≡ ok tt
unfolding assignment_is_legal contains
overflow_accepted = refl

assignment_is_legal_iff_example :
    (assignment_is_legal trampler shared_out ≡ ok tt) ↔ IsDivision trampler shared_out
assignment_is_legal_iff_example = assignment_is_legal_iff trampler shared_out (omega arith)

lethal_in_order_legal_example : assignment_is_legal trampler (lethal_in_order trampler) ≡ ok tt
unfolding contains
lethal_in_order_legal_example =
    lethal_in_order_legal trampler (refl, (refl, (refl, tt))) (omega arith) (omega arith)
