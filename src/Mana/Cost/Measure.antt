-- ===== src/Mana/Cost/Measure.antt =====
-- `mana_value`, `pips_of`, `with_x` and `colors` of `ManaCost` (crates/cardir/src/types.rs).
use manaline.Prelude.{
  ℕ, ◌+◌, ◌*◌, ◌^◌, ◌≤◌, ◌<◌, ◌≡◌, ◌↔◌, ◌∷◌, [], refl, false, List, arith, length, count,
}
use manaline.Mana.Color.{Color, color_eq, white, blue, black, red, green}
use manaline.Mana.Cost.{ManaCost, mana_value, pips_of, with_x, has_x, colors, sort}
use manaline.Mana.Cost.Order.{IsStrict, sort-IsSorted, dedup-IsStrict, count-dedup_pos, count-sort}

-- Announcing `{X}` as `value` adds `value` for each `{X}` to the mana value, as long as the sum is
-- a `u8`, leaves no `{X}` behind, and keeps the coloured part.
pub mana_value-with_x :
    (cost : ManaCost) (value : ℕ)
    → cost.generic + cost.x * value ≤ 255
    → (mana_value (with_x value cost) ≡ mana_value cost + cost.x * value)
      × (has_x (with_x value cost) ≡ false)
      × ((c : Color) → pips_of c (with_x value cost) ≡ pips_of c cost)
unfolding mana_value with_x has_x pips_of
mana_value-with_x cost value h = (omega arith, refl, λ c. refl)

-- A larger X never costs less, as long as the product is a `u32`.
pub with_x_mono :
    (cost : ManaCost) (v w : ℕ)
    → cost.generic + cost.x * w < 2 ^ 32
    → v ≤ w
    → mana_value (with_x v cost) ≤ mana_value (with_x w cost)
unfolding mana_value with_x
with_x_mono cost v w h k = grind arith

pips_sum :
    (cs : List Color)
    → count (λ c. color_eq c white) cs
        + count (λ c. color_eq c blue) cs
        + count (λ c. color_eq c black) cs
        + count (λ c. color_eq c red) cs
        + count (λ c. color_eq c green) cs
      ≡ length cs
pips_sum [] = omega arith
pips_sum (white ∷ cs) = omega (arith, pips_sum cs)
pips_sum (_ ∷ cs) = omega (arith, pips_sum cs)

-- The mana value is the generic part and the pips of the five colours, as long as the pips are fewer
-- than a `u8` can count.
pub mana_value-eq-sum :
    (cost : ManaCost)
    → length cost.pips ≤ 255
    → mana_value cost
      ≡ cost.generic
        + (pips_of white cost
            + pips_of blue cost
            + pips_of black cost
            + pips_of red cost
            + pips_of green cost)
unfolding mana_value pips_of
mana_value-eq-sum cost h = omega (arith, pips_sum cost.pips)

-- `colors` lists each colour of the cost once, in WUBRG order.
pub colors_lem :
    (cost : ManaCost)
    → IsStrict (colors cost)
      × ((k : Color)
          → (0 < count (λ c. color_eq c k) (colors cost))
            ↔ (0 < count (λ c. color_eq c k) cost.pips))
unfolding colors
colors_lem cost = (
  dedup-IsStrict (sort cost.pips) (sort-IsSorted cost.pips),
  λ k. rw (← count-sort (λ c. color_eq c k) cost.pips) (count-dedup_pos k (sort cost.pips)),
)
