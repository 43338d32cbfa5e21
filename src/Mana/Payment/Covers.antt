-- ===== src/Mana/Payment/Covers.antt =====
-- `payment_covers` of crates/engine/src/mana.rs against a description that does not run it.
use manaline.Prelude.{
  contains, ◌≡◌, ◌∷◌, ◌++◌, ◌≤◌, [], ℕ, false, List, arith, ok, length, count, All, ◌↔◌, ◌%◌, refl,
  true, count-le-length, >>=-Through,
}
use manaline.Mana.Color.{Color, all}
use manaline.Mana.Cost.{ManaCost, pips_of, mana_value}
use manaline.Mana.Pool.{Mana, colored, mana_eq, ManaPool, get}
use manaline.Mana.Pool.Laws.{IsPool}
use manaline.Mana.Color.{white, blue, black, red, green}
use manaline.Mana.Payment.{
  collect_taps, collect_pool, payment_covers, check_total, covers_pips, Source, ManaPayment,
  collect_taps, collect_pool, tapped_units, covers_pips, payment_covers,
}
use manaline.Mana.Payment.Gather.{
  IsDistinct, AreSources, fresh→distinct, distinct→fresh, collect_taps_complete, collect_taps_sound,
  collect_pool_complete, collect_pool_sound,
}

-- All the units that a payment offers.
abbrev pub offered : List Source → ManaPayment → List Mana
offered sources payment = tapped_units sources payment.tap ++ payment.from_pool

pub record Covers (sources : List Source) (pool : ManaPool) (payment : ManaPayment)
    (cost : ManaCost) : Type 0 where
  pub distinct : IsDistinct payment.tap
  pub sourced : AreSources sources payment.tap
  pub in_pool : (m : Mana) → count (λ n. mana_eq n m) payment.from_pool ≤ get m pool
  pub coloured :
      (c : Color) → pips_of c cost ≤ count (λ n. mana_eq n (colored c)) (offered sources payment)
  pub enough : mana_value cost ≤ length (offered sources payment)

covers_pips_iff :
    (cs : List Color) (paying : List Mana) (cost : ManaCost)
    → length paying ≤ 255
    → (covers_pips cs paying cost ≡ true)
      ↔ All (λ c. pips_of c cost ≤ count (λ m. mana_eq m (colored c)) paying) cs
unfolding covers_pips
covers_pips_iff [] paying cost h = (λ e. tt, λ e. refl)
covers_pips_iff (c ∷ cs) paying cost h =
    let ih = covers_pips_iff cs paying cost h in
    let small = count-le-length (λ m. mana_eq m (colored c)) paying in
    let whole : count (λ m. mana_eq m (colored c)) paying % 256
        ≡ count (λ m. mana_eq m (colored c)) paying =
      omega arith in
    (λ e. (ground arith, ih.0 (ground arith)), λ a. ground (arith, ih.1 a.1))

every_color : (P : Color → Type 0) → All P all → (c : Color) → P c
every_color P h white = h.0
every_color P h blue = h.1.0
every_color P h black = h.1.1.0
every_color P h red = h.1.1.1.0
every_color P h green = h.1.1.1.1.0

unseen_nil : (ids : List ℕ) → All (λ id. contains [] id ≡ false) ids
unfolding contains
unseen_nil [] = tt
unseen_nil (id ∷ ids) = (refl, unseen_nil ids)

check_total_iff :
    (paying : List Mana) (cost : ManaCost)
    → length paying ≤ 255
    → (check_total paying cost ≡ ok tt)
      ↔ ((covers_pips all paying cost ≡ true) × (mana_value cost ≤ length paying))
unfolding check_total
check_total_iff paying cost h = (λ e. ground arith, λ b. ground arith)

module _ (sources : List Source) (pool : ManaPool) (payment : ManaPayment) (cost : ManaCost)
    (w : IsPool pool) (few : length (offered sources payment) ≤ 255) where
  Covers-complete :
      Covers sources pool payment cost → payment_covers sources pool payment cost ≡ ok tt
  unfolding payment_covers
  Covers-complete c =
      let fresh = distinct→fresh [] payment.tap (unseen_nil payment.tap) c.distinct in
      rw
        (
          collect_taps_complete sources payment.tap [] [] fresh c.sourced,
          collect_pool_complete payment.from_pool pool (tapped_units sources payment.tap) w
              c.in_pool,
        )
        ((check_total_iff (offered sources payment) cost few).1 (
          (covers_pips_iff all (offered sources payment) cost few).1 (
            c.coloured white,
            (c.coloured blue, (c.coloured black, (c.coloured red, (c.coloured green, tt)))),
          ),
          c.enough,
        ))

  Covers-sound : payment_covers sources pool payment cost ≡ ok tt → Covers sources pool payment cost
  unfolding payment_covers
  Covers-sound e =
      let (tapped, gathered, later) = >>=-Through (collect_taps sources payment.tap [] []) _ e in
      let (paying, pooled, last) =
        >>=-Through (collect_pool payment.from_pool pool tapped) _ later in
      let (fresh, sourced) = collect_taps_sound sources payment.tap [] [] gathered in
      let same_taps : tapped ≡ tapped_units sources payment.tap =
        cc (gathered, collect_taps_complete sources payment.tap [] [] fresh sourced) in
      let in_pool = collect_pool_sound payment.from_pool pool tapped w pooled in
      let same : paying ≡ offered sources payment =
        cc (pooled, same_taps, collect_pool_complete payment.from_pool pool tapped w in_pool) in
      let checked : check_total (offered sources payment) cost ≡ ok tt = rw (← same) last in
      let (pips, value) = (check_total_iff (offered sources payment) cost few).0 checked in
      record {
        distinct = (fresh→distinct [] payment.tap fresh).1;
        sourced = sourced;
        in_pool = in_pool;
        coloured = every_color _ ((covers_pips_iff all (offered sources payment) cost few).0 pips);
        enough = value;
      }

-- A payment that is accepted spends no more than the pool holds, however many units it offers.
pub covered-in_pool :
    (sources : List Source) (pool : ManaPool) (payment : ManaPayment) (cost : ManaCost)
    → IsPool pool
    → payment_covers sources pool payment cost ≡ ok tt
    → (m : Mana) → count (λ n. mana_eq n m) payment.from_pool ≤ get m pool
unfolding payment_covers
covered-in_pool sources pool payment cost w e =
    let (tapped, gathered, later) = >>=-Through (collect_taps sources payment.tap [] []) _ e in
    let (paying, pooled, last) = >>=-Through (collect_pool payment.from_pool pool tapped) _ later in
    collect_pool_sound payment.from_pool pool tapped w pooled

-- A payment of at most 255 units is accepted exactly when it names each permanent once, all of them
-- sources, spends no more of a kind than the pool holds, and offers the coloured pips and the mana
-- value of the cost.
pub payment_covers_iff :
    (sources : List Source) (pool : ManaPool) (payment : ManaPayment) (cost : ManaCost)
    → IsPool pool
    → length (offered sources payment) ≤ 255
    → (payment_covers sources pool payment cost ≡ ok tt) ↔ Covers sources pool payment cost
payment_covers_iff sources pool payment cost w h =
    (Covers-sound sources pool payment cost w h, Covers-complete sources pool payment cost w h)
