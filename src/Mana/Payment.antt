-- ===== src/Mana/Payment.antt =====
-- Paying a cost (crates/engine/src/mana.rs): `payment_covers` and `pay_mana`.
-- The state is the part of the game that they touch: the pool of the seat that pays, which
-- permanents are tapped, and the `Tapped` events. The sources, as `mana_sources_with_amounts` lists
-- them for the seat, are an argument: that function keeps only amounts above 0.
mod Gather
mod Units
pub mod Covers
pub mod Pay
use manaline.Prelude.{
  contains, ◌==◌, ◌∷◌, ◌++◌, ◌&&◌, ◌||◌, ◌%◌, if◌then◌else◌, ◌>>=◌, [], ℕ, zero, suc, max, Bool,
  true, false, Option, none, some, List, leb, Result, ok, err, length, replicate, count,
}
use manaline.Mana.Color.{Color, all, index}
use manaline.Mana.Cost.{ManaCost, pips_of, mana_value}
use manaline.Mana.Pool.{Mana, colored, colorless, slot, mana_eq, ManaPool, add, remove}

-- An entry of `mana_sources_with_amounts`: the permanent, the kind and the amount that it makes.
pub record Source : Type 0 where
  pub id : ℕ
  pub mana : Mana
  pub amount : ℕ

-- The fields of `ManaPayment` (crates/engine/src/action.rs) that pay mana.
pub record ManaPayment : Type 0 where
  pub tap : List ℕ
  pub from_pool : List Mana

pub record Purse : Type 0 where
  pub mana_pool : ManaPool
  pub is_tapped : ℕ → Bool
  pub events : List ℕ

pub data PayError : Type 0 where
  listed_twice : ℕ → PayError
  no_source : ℕ → PayError
  not_in_pool : Mana → PayError
  not_covered : PayError
  -- `expect("checked above")`
  panicked : PayError

-- `sources.iter().find(..)`
unfoldable pub find : List Source → ℕ → Option Source
find [] id = none
find (s ∷ ss) id = if s.id == id then some s else find ss id

-- The units that a source makes: `repeat_n(*m, (*n).max(1))`.
abbrev pub output : Source → List Mana
output s = replicate (max s.amount 1) s.mana

-- The first loop of `payment_covers`: the units that the tapped permanents make.
unfoldable pub collect_taps :
    List Source → List ℕ → List ℕ → List Mana → Result PayError (List Mana)
unfolding contains find
collect_taps sources [] seen paying = ok paying
collect_taps sources (id ∷ ids) seen paying =
    if contains seen id then err (listed_twice id) else elim (find sources id) [
      | none ↦ err (no_source id)
      | some s ↦ collect_taps sources ids (seen ++ id ∷ []) (paying ++ output s)
    ]

-- The second loop: units out of a copy of the pool.
unfoldable pub collect_pool : List Mana → ManaPool → List Mana → Result PayError (List Mana)
collect_pool [] pool paying = ok paying
collect_pool (m ∷ ms) pool paying =
    let (pool', removed) = remove m 1 pool in
    let rest = collect_pool ms pool' (paying ++ m ∷ []) in
    if removed then rest else err (not_in_pool m)

-- The third loop, with the count cut to a `u8`.
unfoldable pub covers_pips : List Color → List Mana → ManaCost → Bool
covers_pips [] paying cost = true
covers_pips (c ∷ cs) paying cost =
    leb (pips_of c cost) (count (λ m. mana_eq m (colored c)) paying % 256)
    && covers_pips cs paying cost

unfoldable pub check_total : List Mana → ManaCost → Result PayError (Unit {0})
unfolding covers_pips
check_total paying cost =
    if covers_pips all paying cost && leb (mana_value cost) (length paying)
    then ok tt
    else err not_covered

-- `payment_covers`
unfoldable pub payment_covers :
    List Source → ManaPool → ManaPayment → ManaCost → Result PayError (Unit {0})
unfolding collect_taps collect_pool check_total
payment_covers sources pool payment cost = do
  tapped ← collect_taps sources payment.tap [] []
  paying ← collect_pool payment.from_pool pool tapped
  check_total paying cost

-- The units of the payment, as `pay_mana` gathers them once more: what has no source is passed over.
unfoldable pub tapped_units : List Source → List ℕ → List Mana
unfolding find
tapped_units sources [] = []
tapped_units sources (id ∷ ids) =
    elim (find sources id) [ none ↦ [] | some s ↦ output s ] ++ tapped_units sources ids

-- `mana_pool.remove(m, 1)` for each unit, its answer dropped.
unfoldable pub spend : List Mana → ManaPool → ManaPool
spend [] pool = pool
spend (m ∷ ms) pool = spend ms (remove m 1 pool).0

-- Taps each permanent and records the event.
unfoldable pub tap_all : List ℕ → Purse → Purse
tap_all [] purse = purse
tap_all (id ∷ ids) purse = tap_all ids (record purse {
  is_tapped = λ k. if k == id then true else purse.is_tapped k;
  events = purse.events ++ id ∷ [];
})

-- `paying.remove(position of m)`, `none` where there is no such unit.
unfoldable pub take_unit : Mana → List Mana → Option (List Mana)
take_unit m [] = none
take_unit m (n ∷ ns) =
    if mana_eq n m
    then some ns
    else elim (take_unit m ns) [ none ↦ none | some rest ↦ some (n ∷ rest) ]

unfoldable pub pay_pips : List Color → List Mana → Result PayError (List Mana)
unfolding take_unit
pay_pips [] paying = ok paying
pay_pips (c ∷ cs) paying = elim (take_unit (colored c) paying) [
  | none ↦ err panicked
  | some rest ↦ pay_pips cs rest
]

-- `paying.sort()`: by kind, colourless last.
unfoldable pub insert_unit : Mana → List Mana → List Mana
insert_unit m [] = m ∷ []
insert_unit m (n ∷ ns) = if leb (slot m) (slot n) then m ∷ n ∷ ns else n ∷ insert_unit m ns

unfoldable pub sort_units : List Mana → List Mana
unfolding insert_unit
sort_units [] = []
sort_units (m ∷ ms) = insert_unit m (sort_units ms)

-- `Vec::pop`, which does nothing to an empty vector.
unfoldable pub pop : List Mana → List Mana
pop [] = []
pop (m ∷ []) = []
pop (m ∷ n ∷ ns) = m ∷ pop (n ∷ ns)

unfoldable pub pop_times : ℕ → List Mana → List Mana
unfolding pop
pop_times zero paying = paying
pop_times (suc n) paying = pop_times n (pop paying)

-- The surplus goes to the pool.
unfoldable pub add_all : List Mana → ManaPool → ManaPool
add_all [] pool = pool
add_all (m ∷ ms) pool = add_all ms (add m 1 pool)

-- `pay_mana`
unfoldable pub pay_mana : List Source → ManaPayment → ManaCost → Purse → Result PayError Purse
unfolding payment_covers tapped_units spend tap_all pay_pips sort_units pop_times add_all
pay_mana sources payment cost purse = do
  covered ← payment_covers sources purse.mana_pool payment cost
  let paying = tapped_units sources payment.tap ++ payment.from_pool
  let spent = record purse { mana_pool = spend payment.from_pool purse.mana_pool }
  let tapped = tap_all payment.tap spent
  left ← pay_pips cost.pips paying
  let surplus = pop_times cost.generic (sort_units left)
  ok (record tapped { mana_pool = add_all surplus tapped.mana_pool })
