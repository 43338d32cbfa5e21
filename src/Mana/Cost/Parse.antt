-- ===== src/Mana/Cost/Parse.antt =====
-- `ManaCost::parse` (crates/cardir/src/types.rs): the loop ends, and what it returns is well formed.
use manaline.Prelude.{
  ℕ, zero, suc, ◌≤◌, ◌<◌, ◌≡◌, ◌≢◌, some, [], ◌∷◌, arith, length, Result, ok, err, ◌>>=◌,
  Option-cases, >>=-Through, inl, inr, sym,
}
use manaline.Text.{Str, trim}
use manaline.Mana.Cost.{
  ManaCost, CostError, out_of_fuel, split_close, add_symbol, parse_symbols, parse, no_cost, sort,
}
use mathlib.Core.Path.{subst}
use manaline.Mana.Cost.Order.{IsSorted, sort-IsSorted}

-- A cost that the source can hold: its numbers are `u8`s, and its pips are in WUBRG order.
pub record IsWellFormed (cost : ManaCost) : Type 0 where
  pub generic_u8 : cost.generic ≤ 255
  pub x_u8 : cost.x ≤ 255
  pub in_order : IsSorted cost.pips

abbrev IsU8 : ManaCost → Type 0
IsU8 cost = (cost.generic ≤ 255) × (cost.x ≤ 255)

split_close-length :
    (s sym behind : Str) → split_close s ≡ some (sym, behind) → length behind < length s
unfolding split_close
split_close-length [] sym behind h = cc
split_close-length (c ∷ cs) sym behind h = elim (Option-cases (split_close cs)) [
  | inl unclosed ↦ ground arith
  | inr ((before, behind'), e) ↦ ground (arith, split_close-length cs before behind' e)
]

add_symbol-IsU8 :
    (sym : Str) (cost : ManaCost) {cost' : ManaCost}
    → add_symbol sym cost ≡ ok cost'
    → IsU8 cost
    → IsU8 cost'
unfolding add_symbol
add_symbol-IsU8 sym cost h u = ground arith

add_symbol-ne-out_of_fuel : (sym : Str) (cost : ManaCost) → add_symbol sym cost ≢ err out_of_fuel
unfolding add_symbol
add_symbol-ne-out_of_fuel sym cost h = ground arith

bind-ne-out_of_fuel :
    {A : Type 0} {B : Type 0} (m : Result CostError A) (k : A → Result CostError B)
    → m ≢ err out_of_fuel
    → ((a : A) → k a ≢ err out_of_fuel)
    → (m >>= k) ≢ err out_of_fuel
bind-ne-out_of_fuel (ok a) k h g = g a
bind-ne-out_of_fuel (err e) k h g = λ p. h (cc)

parse_symbols-ne-out_of_fuel :
    (f : ℕ) (cost : ManaCost) (rest : Str)
    → length rest < f
    → parse_symbols f cost rest ≢ err out_of_fuel
unfolding parse_symbols
parse_symbols-ne-out_of_fuel zero cost rest h = absurd (omega arith)
parse_symbols-ne-out_of_fuel (suc f) cost [] h = λ e. cc
parse_symbols-ne-out_of_fuel (suc f) cost (c ∷ cs) h = elim (Option-cases (split_close cs)) [
  | inl unclosed ↦ ground arith
  | inr ((sym, behind), e) ↦
      let loop : (add_symbol sym cost >>= λ cost'. parse_symbols f cost' behind) ≢ err out_of_fuel =
        bind-ne-out_of_fuel (add_symbol sym cost) (λ cost'. parse_symbols f cost' behind)
          (add_symbol-ne-out_of_fuel sym cost)
          (λ cost'.
            parse_symbols-ne-out_of_fuel f cost' behind
              (omega (arith, split_close-length cs sym behind e))) in
      ground (arith, e, loop)
]

-- The fuel that `parse` hands out is enough for every text.
pub parse-ne-out_of_fuel : (text : Str) → parse text ≢ err out_of_fuel
unfolding parse
parse-ne-out_of_fuel text =
    bind-ne-out_of_fuel _ _
      (parse_symbols-ne-out_of_fuel (suc (length (trim text))) no_cost (trim text) (omega arith))
      (λ cost e. cc)

parse_symbols-IsU8 :
    (f : ℕ) (cost : ManaCost) (rest : Str) {cost' : ManaCost}
    → parse_symbols f cost rest ≡ ok cost'
    → IsU8 cost
    → IsU8 cost'
unfolding parse_symbols
parse_symbols-IsU8 zero cost rest h u = cc
parse_symbols-IsU8 (suc f) cost [] h u = ground arith
parse_symbols-IsU8 (suc f) cost (c ∷ cs) {cost'} h u = elim (Option-cases (split_close cs)) [
  | inl unclosed ↦ ground arith
  | inr ((sym, behind), e) ↦
      let steps : (add_symbol sym cost >>= λ d. parse_symbols f d behind) ≡ ok cost' =
        ground (arith, e) in
      let (d, one, more) =
        >>=-Through (add_symbol sym cost) (λ d. parse_symbols f d behind) steps in
      parse_symbols-IsU8 f d behind more (add_symbol-IsU8 sym cost one u)
]

sorted-IsWellFormed :
    (d : ManaCost) {cost : ManaCost}
    → IsU8 d
    → ◌≡◌ {A = Result CostError ManaCost} (ok (record d { pips = sort d.pips })) (ok cost)
    → IsWellFormed cost
sorted-IsWellFormed d {cost} u h =
    let same : record d { pips = sort d.pips } ≡ cost = cc in
    subst IsWellFormed same
      (record { generic_u8 = u.0; x_u8 = u.1; in_order = sort-IsSorted d.pips })

-- Whatever text `parse` accepts, the cost is well formed.
pub parse-IsWellFormed : (text : Str) {cost : ManaCost} → parse text ≡ ok cost → IsWellFormed cost
unfolding parse
parse-IsWellFormed text {cost} h =
    let rest = trim text in
    let (d, parsed, sorted) =
      >>=-Through (parse_symbols (suc (length rest)) no_cost rest)
        (λ d. ok (record d { pips = sort d.pips })) h in
    let u = parse_symbols-IsU8 (suc (length rest)) no_cost rest parsed (omega arith) in
    sorted-IsWellFormed d u sorted
