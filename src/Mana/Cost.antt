-- ===== src/Mana/Cost.antt =====
-- `ManaCost` of crates/cardir/src/types.rs: the cost, its parser over Oracle text and its printer.
-- `u8` fields are numbers with the saturation that the source asks for; `out_of_fuel` has no
-- counterpart in the source, and Cost/Parse.antt proves that it never comes out.
pub mod Order
pub mod Parse
mod Symbols
pub mod RoundTrip
pub mod Measure
use manaline.Prelude.{
  ℕ, zero, suc, ◌+◌, ◌*◌, ◌%◌, ◌^◌, min, Bool, true, false, not, ◌&&◌, ◌||◌, Option, none, some,
  List, [], ◌∷◌, ◌++◌, ltb, leb, ◌==◌, if◌then◌else◌, length, replicate, count, Result, ok, err,
  ◌>>=◌,
}
use manaline.Text.{Str, codes, str_eq, trim, parse_u8, print_u8}
use manaline.Mana.Color.{Color, index, color_eq, symbol, from_symbol}

pub record ManaCost : Type 0 where
  pub generic : ℕ
  pub pips : List Color
  pub x : ℕ

-- `ManaCost::default()`
abbrev pub no_cost : ManaCost
no_cost = record { generic = 0; pips = []; x = 0 }

pub data CostError : Type 0 where
  expected_open : CostError
  unterminated : CostError
  unknown_symbol : Str → CostError
  unsupported_symbol : Str → CostError
  out_of_fuel : CostError

-- `slice::sort` on colours. They are equal as soon as their indices are, so that no two sorts differ.
unfoldable pub insert : Color → List Color → List Color
insert c [] = c ∷ []
insert c (d ∷ ds) = if leb (index c) (index d) then c ∷ d ∷ ds else d ∷ insert c ds

unfoldable pub sort : List Color → List Color
unfolding insert
sort [] = []
sort (c ∷ cs) = insert c (sort cs)

-- `u8::saturating_add`
abbrev pub saturating_add : ℕ → ℕ → ℕ
saturating_add a b = min (a + b) 255

-- `rest.find('}')`: the text before the first `}` and the text behind it.
unfoldable pub split_close : Str → Option (Str × Str)
split_close [] = none
split_close (c ∷ cs) =
    if c == b'}'
    then some ([], cs)
    else elim (split_close cs) [ none ↦ none | some (before, behind) ↦ some (c ∷ before, behind) ]

-- `sym.len() == 1`, a length in bytes: one ASCII character.
unfoldable pub one_byte : Str → Option ℕ
one_byte (c ∷ []) = if ltb c 128 then some c else none
one_byte _ = none

-- The colour branch: one character that names a colour.
unfoldable pub add_pip : Str → ManaCost → Result CostError ManaCost
unfolding one_byte
add_pip sym cost = elim (one_byte sym) [
  | none ↦ err (unsupported_symbol sym)
  | some ch ↦ elim (from_symbol ch) [
    | none ↦ err (unknown_symbol sym)
    | some c ↦ ok (record cost { pips = cost.pips ++ c ∷ [] })
  ]
]

-- One round of the loop, on the symbol between the braces.
unfoldable pub add_symbol : Str → ManaCost → Result CostError ManaCost
unfolding add_pip
add_symbol sym cost = elim (parse_u8 sym) [
  | some n ↦ ok (record cost { generic = saturating_add cost.generic n })
  | none ↦
      if str_eq sym (codes "X")
      then ok (record cost { x = saturating_add cost.x 1 })
      else add_pip sym cost
]

-- `while !rest.is_empty()`
unfoldable pub parse_symbols : ℕ → ManaCost → Str → Result CostError ManaCost
unfolding split_close add_symbol
parse_symbols zero cost rest = err out_of_fuel
parse_symbols (suc f) cost [] = ok cost
parse_symbols (suc f) cost (c ∷ cs) =
    let go_on : Result CostError ManaCost = elim (split_close cs) [
      | none ↦ err unterminated
      | some (sym, behind) ↦ add_symbol sym cost >>= λ cost'. parse_symbols f cost' behind
    ] in
    if c == b'{' then go_on else err expected_open

-- `ManaCost::parse`
unfoldable pub parse : Str → Result CostError ManaCost
unfolding parse_symbols sort
parse text =
    let rest = trim text in
    do
      cost ← parse_symbols (suc (length rest)) no_cost rest
      ok (record cost { pips = sort cost.pips })

unfoldable pub mana_value : ManaCost → ℕ
mana_value cost = cost.generic + length cost.pips

-- `pips_of`: the count, cut to a `u8`.
unfoldable pub pips_of : Color → ManaCost → ℕ
pips_of color cost = count (λ c. color_eq c color) cost.pips % 256

unfoldable pub is_empty {ℓ} : {A : Type ℓ} → List A → Bool
is_empty [] = true
is_empty (x ∷ xs) = false

unfoldable pub is_free : ManaCost → Bool
unfolding is_empty
is_free cost = cost.generic == 0 && is_empty cost.pips && cost.x == 0

unfoldable pub has_x : ManaCost → Bool
has_x cost = ltb 0 cost.x

-- The sum and the product are `u32`s, with their wrap-around.
unfoldable pub with_x : ℕ → ManaCost → ManaCost
with_x value cost = record {
  generic = min ((cost.generic + cost.x * value % 2 ^ 32) % 2 ^ 32) 255;
  pips = cost.pips;
  x = 0;
}

-- `Vec::dedup`: of a run of equal colours, the first.
unfoldable pub dedup : List Color → List Color
dedup [] = []
dedup (c ∷ []) = c ∷ []
dedup (c ∷ d ∷ ds) = let rest = dedup (d ∷ ds) in if color_eq c d then rest else c ∷ rest

unfoldable pub colors : ManaCost → List Color
unfolding sort dedup
colors cost = dedup (sort cost.pips)

-- `{symbol}` in braces.
abbrev pub braced : Str → Str
braced s = b'{' ∷ s ++ b'}' ∷ []

abbrev pub print_xs : ℕ → Str
print_xs zero = []
print_xs (suc n) = braced (codes "X") ++ print_xs n

abbrev pub print_pips : List Color → Str
print_pips [] = []
print_pips (c ∷ cs) = braced (symbol c ∷ []) ++ print_pips cs

abbrev pub print_generic : ManaCost → Str
print_generic cost =
    if ltb 0 cost.generic || (is_empty cost.pips && cost.x == 0)
    then braced (print_u8 cost.generic)
    else []

-- `Display`
unfoldable pub print : ManaCost → Str
unfolding is_empty
print cost = print_xs cost.x ++ (print_generic cost ++ print_pips cost.pips)

-- `Serialize` and `Deserialize`: the text, empty for a free cost.
unfoldable pub serialize : ManaCost → Str
unfolding is_free print
serialize cost = if is_free cost then [] else print cost

unfoldable pub deserialize : Str → Result CostError ManaCost
unfolding parse
deserialize text = parse text
