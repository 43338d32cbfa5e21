-- ===== src/Mana/Examples.antt =====
-- Tests of the mana modules, and their theorems at concrete costs, pools and payments.
use manaline.Prelude.{
  contains, ◌==◌, ◌↔◌, ◌≢◌, ◌≡◌, ◌∷◌, ◌++◌, ◌||◌, ◌+◌, ◌*◌, ◌≤◌, ◌<◌, if◌then◌else◌, [], ℕ, zero,
  suc, refl, true, false, List, arith, ok, err, length, replicate, count, All, get_or, Has,
}
use manaline.Text.{is_whitespace, codes, trim, parse_u8, print_u8}
use manaline.Mana.Color.{from_symbol, Color, red, green, symbol, color_eq}
use manaline.Mana.Cost.{
  ManaCost, unknown_symbol, expected_open, out_of_fuel, parse, print, serialize, deserialize,
  mana_value, with_x, has_x, pips_of, colors,
}
use manaline.Mana.Cost.Order.{IsStrict}
use manaline.Mana.Cost.Parse.{IsWellFormed, parse-IsWellFormed, parse-ne-out_of_fuel}
use manaline.Mana.Cost.RoundTrip.{parse-print, deserialize-serialize}
use manaline.Mana.Cost.Measure.{mana_value-with_x, colors_lem}
use manaline.Mana.Pool.{colored, colorless, ManaPool, get, add, remove, total, units, mana_eq}
use manaline.Mana.Pool.Laws.{IsPool, remove-add, count-units}
use manaline.Mana.Payment.{
  Source, ManaPayment, Purse, payment_covers, pay_mana, tapped_units, listed_twice,
}
use manaline.Mana.Payment.Covers.{Covers, payment_covers_iff}
use manaline.Mana.Payment.Pay.{pay_mana-succeeds, pay_mana-conserves}
use manaline.Mana.Search.{search, solutions}
use manaline.Mana.Search.Solution.{Problem, IsSmall, IsSolution, IsPaid}
use manaline.Mana.Search.Sound.{solutions_sound}
use manaline.Mana.Search.Complete.{solutions_complete}

-- {X}{1}{R}{G}
abbrev blaze : ManaCost
blaze = record { generic = 1; pips = red ∷ green ∷ []; x = 1 }

blaze-IsWellFormed : IsWellFormed blaze
blaze-IsWellFormed = record {
  generic_u8 = omega arith;
  x_u8 = omega arith;
  in_order = ((omega arith, tt), (tt, tt));
}

blaze_text : print blaze ≡ codes "{X}{1}{R}{G}"
unfolding print print_u8 symbol
blaze_text = refl

-- Lower case is accepted, white space around the text is dropped, and pips are sorted.
parse_lower : parse (codes " {g}{X}{1}{r} ") ≡ ok blaze
unfolding parse trim parse_u8 is_whitespace from_symbol
parse_lower = refl

parse_unknown : parse (codes "{Q}") ≡ err (unknown_symbol (codes "Q"))
unfolding parse trim parse_u8 is_whitespace from_symbol
parse_unknown = refl

parse_text : parse (codes "1G") ≡ err expected_open
unfolding parse trim parse_u8 is_whitespace from_symbol
parse_text = refl

parse-print_example : parse (print blaze) ≡ ok blaze
parse-print_example = parse-print blaze blaze-IsWellFormed

deserialize-serialize_example : deserialize (serialize blaze) ≡ ok blaze
deserialize-serialize_example = deserialize-serialize blaze blaze-IsWellFormed

parse-IsWellFormed_example : IsWellFormed blaze
parse-IsWellFormed_example = parse-IsWellFormed (codes " {g}{X}{1}{r} ") parse_lower

parse-ne-out_of_fuel_example : parse (codes "{X}{1}") ≢ err out_of_fuel
parse-ne-out_of_fuel_example = parse-ne-out_of_fuel (codes "{X}{1}")

mana_value-with_x_example :
    (mana_value (with_x 5 blaze) ≡ mana_value blaze + 1 * 5)
    × (has_x (with_x 5 blaze) ≡ false)
    × ((c : Color) → pips_of c (with_x 5 blaze) ≡ pips_of c blaze)
mana_value-with_x_example = mana_value-with_x blaze 5 (omega arith)

colors_lem_example :
    IsStrict (colors blaze)
    × ((k : Color)
        → (0 < count (λ c. color_eq c k) (colors blaze))
          ↔ (0 < count (λ c. color_eq c k) blaze.pips))
colors_lem_example = colors_lem blaze

-- A red unit and a colourless one.
abbrev small_pool : ManaPool
small_pool = record { amounts = 0 ∷ 0 ∷ 0 ∷ 1 ∷ 0 ∷ 1 ∷ [] }

small_pool-IsPool : IsPool small_pool
small_pool-IsPool = record { six = refl; u8 = omega arith }

count-units_example : count (λ m. mana_eq m colorless) (units small_pool) ≡ get colorless small_pool
count-units_example = count-units small_pool colorless

remove-add_example :
    remove (colored green) 2 (add (colored green) 2 small_pool) ≡ (small_pool, true)
remove-add_example =
    remove-add (colored green) 2 small_pool small_pool-IsPool (unfold get in omega arith)

-- A source of two green units, and a permanent that makes one colourless unit.
abbrev table_sources : List Source
table_sources =
    record { id = 7; mana = colored green; amount = 2 }
    ∷ record { id = 9; mana = colorless; amount = 1 }
    ∷ []

abbrev table : Purse
table = record { mana_pool = small_pool; is_tapped = λ k. false; events = [] }

abbrev payment : ManaPayment
payment = record { tap = 7 ∷ []; from_pool = colored red ∷ [] }

-- {R}{G}: a unit of green is left over.
abbrev gruul : ManaCost
gruul = record { generic = 0; pips = red ∷ green ∷ []; x = 0 }

covered : payment_covers table_sources small_pool payment gruul ≡ ok tt
unfolding payment_covers remove pips_of mana_value
covered = refl

abbrev table_after : Purse
table_after = record {
  mana_pool = record { amounts = 0 ∷ 0 ∷ 0 ∷ 0 ∷ 1 ∷ 1 ∷ [] };
  is_tapped = λ k. if k == 7 then true else false;
  events = 7 ∷ [];
}

payment_run : pay_mana table_sources payment gruul table ≡ ok table_after
unfolding pay_mana remove add pips_of mana_value
payment_run = refl

twice_tapped :
    pay_mana table_sources (record payment { tap = 7 ∷ 7 ∷ [] }) gruul table ≡ err (listed_twice 7)
unfolding pay_mana
twice_tapped = refl

payment_covers_iff_example :
    (payment_covers table_sources small_pool payment gruul ≡ ok tt)
    ↔ Covers table_sources small_pool payment gruul
payment_covers_iff_example =
    payment_covers_iff table_sources small_pool payment gruul small_pool-IsPool
      (unfold tapped_units in omega arith)

pay_mana-succeeds_example :
    (after : Purse) × (pay_mana table_sources payment gruul table ≡ ok after)
    × (after.events ≡ table.events ++ payment.tap)
    × ((k : ℕ) → after.is_tapped k ≡ (contains payment.tap k || table.is_tapped k))
pay_mana-succeeds_example =
    pay_mana-succeeds table_sources payment gruul table small_pool-IsPool
      (unfold tapped_units in omega arith) (omega arith) covered

pay_mana-conserves_example :
    IsPool table_after.mana_pool
    × (total table_after.mana_pool + mana_value gruul
        ≡ total table.mana_pool + length (tapped_units table_sources payment.tap))
pay_mana-conserves_example =
    pay_mana-conserves table_sources payment gruul table small_pool-IsPool (omega arith)
      (unfold total tapped_units in omega arith) payment_run

-- {1}{R} with two red sources, a colourless one, and a green unit in the pool.
three_ways :
    solutions (0 ∷ 0 ∷ 0 ∷ 2 ∷ 0 ∷ 1 ∷ []) (0 ∷ 0 ∷ 0 ∷ 0 ∷ 1 ∷ 0 ∷ []) (0 ∷ 0 ∷ 0 ∷ 1 ∷ 0 ∷ []) 1
    ≡ (0 ∷ 0 ∷ 0 ∷ 1 ∷ 0 ∷ 1 ∷ [], replicate 6 0)
      ∷ (0 ∷ 0 ∷ 0 ∷ 1 ∷ 0 ∷ 0 ∷ [], 0 ∷ 0 ∷ 0 ∷ 0 ∷ 1 ∷ 0 ∷ [])
      ∷ (0 ∷ 0 ∷ 0 ∷ 2 ∷ 0 ∷ 0 ∷ [], replicate 6 0)
      ∷ []
unfolding search
three_ways = refl

abbrev problem : Problem
problem = record {
  counts = 0 ∷ 0 ∷ 0 ∷ 2 ∷ 0 ∷ 1 ∷ [];
  pool = 0 ∷ 0 ∷ 0 ∷ 0 ∷ 1 ∷ 0 ∷ [];
  pips = 0 ∷ 0 ∷ 0 ∷ 1 ∷ 0 ∷ [];
  generic = 1;
}

-- Every index below five, one by one.
below_five : (P : ℕ → Type 0) → P 0 → P 1 → P 2 → P 3 → P 4 → (c : ℕ) → c < 5 → P c
below_five P a b c d e zero lt = a
below_five P a b c d e (suc zero) lt = b
below_five P a b c d e (suc (suc zero)) lt = c
below_five P a b c d e (suc (suc (suc zero))) lt = d
below_five P a b c d e (suc (suc (suc (suc zero)))) lt = e
below_five P a b c d e (suc (suc (suc (suc (suc n))))) lt = absurd (omega arith)

problem-IsSmall : IsSmall problem
problem-IsSmall = record {
  units =
      below_five (λ c. get_or problem.counts c 0 + get_or problem.pool c 0 ≤ 255) (omega arith)
        (omega arith) (omega arith) (omega arith) (omega arith);
  generic_u8 = omega arith;
}

abbrev both_red : List ℕ
both_red = 0 ∷ 0 ∷ 0 ∷ 2 ∷ 0 ∷ 0 ∷ []

both_red-IsSolution : IsSolution problem both_red (replicate 6 0)
both_red-IsSolution = record {
  tapped_six = refl;
  pooled_six = refl;
  paid =
      below_five (IsPaid problem both_red (replicate 6 0)) (omega arith) (omega arith) (omega arith)
        (omega arith) (omega arith);
  sources_first = omega arith;
  pooled_le = omega arith;
  exact = omega arith;
}

solutions_sound_example :
    All
      (λ (tp : List ℕ × List ℕ). IsSolution problem tp.0 tp.1)
      (solutions problem.counts problem.pool problem.pips problem.generic)
solutions_sound_example = solutions_sound problem problem-IsSmall

solutions_complete_example :
    Has
      (both_red, replicate 6 0)
      (solutions problem.counts problem.pool problem.pips problem.generic)
solutions_complete_example =
    solutions_complete problem both_red (replicate 6 0) problem-IsSmall both_red-IsSolution
