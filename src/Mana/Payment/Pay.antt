-- ===== src/Mana/Payment/Pay.antt =====
-- `pay_mana` of crates/engine/src/mana.rs: when it succeeds, and what it changes.
use manaline.Prelude.{
  contains, ◌==◌, ◌≡◌, ◌∷◌, ◌++◌, ◌||◌, ◌+◌, ◌≤◌, if◌then◌else◌, [], ℕ, refl, true, List,
  append-nil, append_assoc, arith, ok, length, count-le-length, >>=-Through, length-append, ◌-◌,
  ◌∙◌, sym, ap,
}
use mathlib.Core.Path.{subst}
use manaline.Mana.Color.{color_eq}
use manaline.Mana.Cost.{ManaCost, pips_of, mana_value}
use manaline.Mana.Pool.{Mana, total}
use manaline.Mana.Pool.Laws.{IsPool}
use manaline.Mana.Payment.{
  Source, ManaPayment, Purse, payment_covers, tapped_units, spend, tap_all, pay_pips, sort_units,
  pop_times, add_all, pay_mana,
}
use manaline.Mana.Payment.Covers.{Covers, offered, payment_covers_iff, covered-in_pool}
use manaline.Mana.Payment.Units.{
  pay_pips-finds, length-sort_units, length-pop_times, total-spend, total-add_all,
}

-- Tapping leaves the pool alone, and taps and reports the listed permanents, in order.
tap_all_lem :
    (ids : List ℕ) (purse : Purse)
    → ((tap_all ids purse).mana_pool ≡ purse.mana_pool)
      × ((tap_all ids purse).events ≡ purse.events ++ ids)
      × ((k : ℕ) → (tap_all ids purse).is_tapped k ≡ (contains ids k || purse.is_tapped k))
unfolding tap_all contains
tap_all_lem [] purse = (refl, rw append-nil, λ k. refl)
tap_all_lem (id ∷ ids) purse =
    let (pool, events, tapped) = tap_all_lem ids (record purse {
      is_tapped = λ k. if k == id then true else purse.is_tapped k;
      events = purse.events ++ id ∷ [];
    }) in
    (pool, rw append_assoc at events, λ k. ground (arith, tapped k))

-- The purse after the payment, when `left` is what the pips leave of the units.
abbrev after_payment : ManaPayment → ManaCost → Purse → List Mana → Purse
after_payment payment cost purse left =
    let spent = record purse { mana_pool = spend payment.from_pool purse.mana_pool } in
    let tapped = tap_all payment.tap spent in
    record tapped {
      mana_pool = add_all (pop_times cost.generic (sort_units left)) tapped.mana_pool;
    }

-- What a payment for `cost` leaves, when everything that it checks has passed.
module _ (sources : List Source) (payment : ManaPayment) (cost : ManaCost) (purse : Purse)
    (w : IsPool purse.mana_pool) (few : length (offered sources payment) ≤ 255)
    (short : length cost.pips ≤ 255)
    (covered : payment_covers sources purse.mana_pool payment cost ≡ ok tt) where
  covers : Covers sources purse.mana_pool payment cost
  covers = (payment_covers_iff sources purse.mana_pool payment cost w few).0 covered

  pips_found :
      (left : List Mana) × (pay_pips cost.pips (offered sources payment) ≡ ok left)
      × (length (offered sources payment) ≡ length cost.pips + length left)
  unfolding pips_of
  pips_found =
      pay_pips-finds cost.pips (offered sources payment)
        (λ c. omega (arith, covers.coloured c, count-le-length (λ d. color_eq d c) cost.pips))

-- A payment that `payment_covers` accepts is carried out, with at most 255 units offered and at most
-- 255 pips: `pay_mana` never stops half way. Exactly the listed permanents become tapped, with one
-- event each, in order.
pub pay_mana-succeeds :
    (sources : List Source) (payment : ManaPayment) (cost : ManaCost) (purse : Purse)
    → IsPool purse.mana_pool
    → length (offered sources payment) ≤ 255
    → length cost.pips ≤ 255
    → payment_covers sources purse.mana_pool payment cost ≡ ok tt
    → (after : Purse) × (pay_mana sources payment cost purse ≡ ok after)
      × (after.events ≡ purse.events ++ payment.tap)
      × ((k : ℕ) → after.is_tapped k ≡ (contains payment.tap k || purse.is_tapped k))
unfolding pay_mana
pay_mana-succeeds sources payment cost purse w few short covered =
    let (left, paid, size) = pips_found sources payment cost purse w few short covered in
    let spent = record purse { mana_pool = spend payment.from_pool purse.mana_pool } in
    let (pool, events, tapped) = tap_all_lem payment.tap spent in
    (after_payment payment cost purse left, rw (covered, paid, after_payment), events, tapped)

-- The steps of a payment that was carried out.
pay_mana-steps :
    (sources : List Source) (payment : ManaPayment) (cost : ManaCost) (purse : Purse)
    {after : Purse}
    → pay_mana sources payment cost purse ≡ ok after
    → (payment_covers sources purse.mana_pool payment cost ≡ ok tt)
      × (left : List Mana) × (pay_pips cost.pips (offered sources payment) ≡ ok left)
      × (after_payment payment cost purse left ≡ after)
unfolding pay_mana
pay_mana-steps sources payment cost purse done =
    let (unit, covered, later) =
      >>=-Through (payment_covers sources purse.mana_pool payment cost) _ done in
    let (left, paid, last) = >>=-Through (pay_pips cost.pips (offered sources payment)) _ later in
    (covered, left, paid, cc)

-- No mana is made or lost: what the pool holds afterwards and the mana value of the cost are what the
-- pool held and what the tapped permanents made, as long as that sum is at most 255.
pub pay_mana-conserves :
    (sources : List Source) (payment : ManaPayment) (cost : ManaCost) (purse : Purse)
    {after : Purse}
    → IsPool purse.mana_pool
    → length cost.pips ≤ 255
    → total purse.mana_pool + length (tapped_units sources payment.tap) ≤ 255
    → pay_mana sources payment cost purse ≡ ok after
    → IsPool after.mana_pool
      × (total after.mana_pool + mana_value cost
          ≡ total purse.mana_pool + length (tapped_units sources payment.tap))
unfolding mana_value
pay_mana-conserves sources payment cost purse {after} w short fits done =
    let (covered, left, paid, same) = pay_mana-steps sources payment cost purse done in
    let in_pool = covered-in_pool sources purse.mana_pool payment cost w covered in
    let (pooled, spent) = total-spend payment.from_pool purse.mana_pool w in_pool in
    let offers = length-append (tapped_units sources payment.tap) payment.from_pool in
    let few : length (offered sources payment) ≤ 255 = omega arith in
    let (left', found, size) = pips_found sources payment cost purse w few short covered in
    let one : left ≡ left' = cc in
    let sizes : length (offered sources payment) ≡ length cost.pips + length left = rw one size in
    let value = (covers sources payment cost purse w few short covered).enough in
    let pool = spend payment.from_pool purse.mana_pool in
    let surplus = pop_times cost.generic (sort_units left) in
    let rest : length surplus ≡ length left - cost.generic =
      length-pop_times cost.generic (sort_units left)
      ∙ ap (λ (n : ℕ). n - cost.generic) (length-sort_units left) in
    let (kept, back) = total-add_all surplus pool pooled (omega arith) in
    let ends : after.mana_pool ≡ add_all surplus pool =
      ap (λ (a : Purse). a.mana_pool) (sym same)
      ∙ ap (add_all surplus) ((tap_all_lem payment.tap (record purse { mana_pool = pool })).0) in
    (subst IsPool (sym ends) kept, omega (arith, ap total ends))
