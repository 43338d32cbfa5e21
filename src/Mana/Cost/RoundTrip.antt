-- ===== src/Mana/Cost/RoundTrip.antt =====
-- Parsing a printed `ManaCost` (crates/cardir/src/types.rs) gives the cost back.
use manaline.Prelude.{
  ℕ, suc, ◌≤◌, ◌≡◌, refl, true, false, ◌&&◌, [], ◌∷◌, ◌++◌, arith, ◌==◌, ◌+◌, zero, List,
  append-nil, ok, length, ◌∙◌, ap, ◌||◌, ◌-◌, inl, inr, ltb, Bool-cases, ◌*◌, length-append, All,
  All-append,
}
use mathlib.Core.Path.{subst}
use manaline.Mana.Cost.{
  no_cost, is_empty, print, print_generic, ManaCost, parse_symbols, braced, print_xs, print_pips,
  parse, serialize, deserialize, is_free,
}
use manaline.Mana.Color.{Color, white, symbol}
use manaline.Text.{print_u8, is_whitespace, trim_solid, trim}
use manaline.Mana.Cost.Order.{sort-eq_self}
use manaline.Mana.Cost.Symbols.{
  above, above-eq-add, parse_symbols-xs, parse_symbols-pips, parse_symbols-generic,
}
use manaline.Mana.Cost.Parse.{IsWellFormed}

-- The pips, which stand last, and the end of the text.
parse_symbols-pips_end :
    (cs : List Color) (k : ℕ) (cost : ManaCost)
    → parse_symbols (above (length cs) (suc k)) cost (print_pips cs)
      ≡ ok (record cost { pips = cost.pips ++ cs })
unfolding parse_symbols
parse_symbols-pips_end cs k cost = rw append-nil at (parse_symbols-pips cs (suc k) cost [])

-- `f` units of fuel, as the pips take them and one is left.
above-exact : (p f : ℕ) → p + 1 ≤ f → above p (suc (f - p - 1)) ≡ f
above-exact p f h = omega (arith, above-eq-add p (suc (f - p - 1)))

parse_symbols-pips_fuel :
    (cs : List Color) (f : ℕ) (cost : ManaCost)
    → length cs + 1 ≤ f
    → parse_symbols f cost (print_pips cs) ≡ ok (record cost { pips = cost.pips ++ cs })
parse_symbols-pips_fuel cs f cost h =
    subst (λ m. parse_symbols m cost (print_pips cs) ≡ ok (record cost { pips = cost.pips ++ cs }))
      (above-exact (length cs) f h) (parse_symbols-pips_end cs (f - length cs - 1) cost)

-- The number and the pips: what a printed cost holds behind its `{X}`s.
parse_symbols-number :
    (cost : ManaCost) (f : ℕ)
    → cost.generic ≤ 255
    → length cost.pips + 1 ≤ f
    → parse_symbols
        (suc f)
        (record no_cost { x = cost.x })
        (print_generic cost ++ print_pips cost.pips)
      ≡ ok cost
unfolding is_empty
parse_symbols-number cost f h k =
    elim (Bool-cases (ltb 0 cost.generic || (is_empty cost.pips && cost.x == 0))) [
      | inl printed ↦ rw printed (
          parse_symbols-generic f (record no_cost { x = cost.x }) cost.generic
            (print_pips cost.pips) refl h
          ∙ parse_symbols-pips_fuel cost.pips f
              (record { generic = cost.generic; pips = []; x = cost.x }) k)
      | inr silent ↦
          let zeroed : 0 ≡ cost.generic = ground arith in
          rw silent (
            parse_symbols-pips_fuel cost.pips (suc f) (record no_cost { x = cost.x }) (omega arith)
            ∙ ap (λ (n : ℕ). ok (record cost { generic = n })) zeroed)
    ]

-- A printed cost, with fuel for each of its symbols.
parse_symbols-print :
    (cost : ManaCost) (f : ℕ)
    → cost.generic ≤ 255
    → cost.x ≤ 255
    → length cost.pips + 1 ≤ f
    → parse_symbols (above cost.x (suc f)) no_cost (print cost) ≡ ok cost
unfolding print
parse_symbols-print cost f h k l =
    parse_symbols-xs cost.x (suc f) no_cost (print_generic cost ++ print_pips cost.pips)
      (omega arith)
    ∙ ap
        (λ (n : ℕ).
          parse_symbols (suc f) (record no_cost { x = n })
            (print_generic cost ++ print_pips cost.pips))
        (omega arith)
    ∙ parse_symbols-number cost f h l

-- Every printed symbol has three characters.
length-print_xs : (n : ℕ) → 3 * n ≤ length (print_xs n)
length-print_xs zero = omega arith
length-print_xs (suc n) = omega (arith, length-print_xs n)

length-print_pips : (cs : List Color) → 3 * length cs ≤ length (print_pips cs)
length-print_pips [] = omega arith
length-print_pips (c ∷ cs) = omega (arith, length-print_pips cs)

length-print_generic :
    (cost : ManaCost) → 1 ≤ cost.x + length cost.pips + length (print_generic cost)
unfolding is_empty
length-print_generic cost = ground arith

length-print : (cost : ManaCost) → cost.x + length cost.pips + 1 ≤ length (print cost)
unfolding print
length-print cost = omega (
  arith,
  length-append (print_xs cost.x) (print_generic cost ++ print_pips cost.pips),
  length-append (print_generic cost) (print_pips cost.pips),
  length-print_xs cost.x,
  length-print_pips cost.pips,
  length-print_generic cost,
)

abbrev IsSolid : ℕ → Type 0
IsSolid c = is_whitespace c ≡ false

print_xs-IsSolid : (n : ℕ) → All IsSolid (print_xs n)
unfolding is_whitespace
print_xs-IsSolid zero = tt
print_xs-IsSolid (suc n) = (refl, (refl, (refl, print_xs-IsSolid n)))

symbol-IsSolid : (c : Color) → All IsSolid (braced (symbol c ∷ []))
unfolding symbol is_whitespace
symbol-IsSolid white = (refl, (refl, (refl, tt)))
symbol-IsSolid _ = (refl, (refl, (refl, tt)))

print_pips-IsSolid : (cs : List Color) → All IsSolid (print_pips cs)
print_pips-IsSolid [] = tt
print_pips-IsSolid (c ∷ cs) =
    All-append IsSolid (braced (symbol c ∷ [])) (print_pips cs) (symbol-IsSolid c)
      (print_pips-IsSolid cs)

digits-IsSolid : (n : ℕ) → n ≤ 255 → All IsSolid (print_u8 n)
unfolding print_u8 is_whitespace
digits-IsSolid n h = ground arith

print-IsSolid : (cost : ManaCost) → cost.generic ≤ 255 → All IsSolid (print cost)
unfolding print is_empty is_whitespace
print-IsSolid cost h =
    All-append IsSolid (print_xs cost.x) (print_generic cost ++ print_pips cost.pips)
      (print_xs-IsSolid cost.x)
      (All-append IsSolid (print_generic cost) (print_pips cost.pips) generic
        (print_pips-IsSolid cost.pips))
  where
    generic : All IsSolid (print_generic cost)
    generic = elim (Bool-cases (ltb 0 cost.generic || (is_empty cost.pips && cost.x == 0))) [
      | inl printed ↦ rw printed (
        refl,
        All-append IsSolid (print_u8 cost.generic) (b'}' ∷ []) (digits-IsSolid cost.generic h)
            (refl, tt),
      )
      | inr silent ↦ rw silent tt
    ]

-- A printed cost that the source can hold parses to itself.
pub parse-print : (cost : ManaCost) → IsWellFormed cost → parse (print cost) ≡ ok cost
unfolding parse
parse-print cost w =
    let text = print cost in
    let spare = length text - cost.x in
    let fuel : above cost.x (suc spare) ≡ suc (length text) =
      omega (arith, above-eq-add cost.x (suc spare), length-print cost) in
    let run : parse_symbols (suc (length text)) no_cost text ≡ ok cost =
      subst (λ m. parse_symbols m no_cost text ≡ ok cost) fuel
        (parse_symbols-print cost spare w.generic_u8 w.x_u8 (omega (arith, length-print cost))) in
    rw (trim_solid text (print-IsSolid cost w.generic_u8), run, sort-eq_self cost.pips w.in_order)

free-eq-no_cost : (cost : ManaCost) → is_free cost ≡ true → no_cost ≡ cost
unfolding is_free is_empty
free-eq-no_cost cost h = ground arith

parse-nil : parse [] ≡ ok no_cost
unfolding parse trim
parse-nil = refl

-- What is written to a file comes back, free costs (which are written as no text) included.
pub deserialize-serialize :
    (cost : ManaCost) → IsWellFormed cost → deserialize (serialize cost) ≡ ok cost
unfolding serialize deserialize
deserialize-serialize cost w = elim (Bool-cases (is_free cost)) [
  | inl free ↦ rw free (parse-nil ∙ ap (λ (c : ManaCost). ok c) (free-eq-no_cost cost free))
  | inr costly ↦ rw costly (parse-print cost w)
]
