-- ===== src/Mana/Search.antt =====
-- `search` of crates/engine/src/mana.rs: every split of a cost over the kinds of mana. Arrays are
-- lists, written in place as the source does; `out` grows by a pair of arrays for each solution.
-- `generic_left` never becomes negative, since the source passes on only what `extra` leaves of it;
-- `have` is a `u8`, with its wrap-around.
mod Frame
pub mod Solution
mod Grows
pub mod Sound
pub mod Complete
use manaline.Prelude.{
  ◌≡◌, ◌∷◌, ◌++◌, ◌+◌, ◌-◌, ◌%◌, if◌then◌else◌, [], ℕ, zero, suc, min, refl, List, ltb, leb,
  replicate, get_or, set,
}

pub record Search : Type 0 where
  pub tapped : List ℕ
  pub pooled : List ℕ
  pub out : List (List ℕ × List ℕ)

-- `0..=n`, from `from` on for `rounds` numbers.
abbrev pub range_from : ℕ → ℕ → List ℕ
range_from from zero = []
range_from from (suc rounds) = from ∷ range_from (suc from) rounds

abbrev pub range_to : ℕ → List ℕ
range_to n = range_from 0 (suc n)

unfoldable pub for_each : List ℕ → (ℕ → Search → Search) → Search → Search
for_each [] body s = s
for_each (x ∷ xs) body s = for_each xs body (body x s)

-- What the loops at one colour share.
pub record Level : Type 0 where
  pub colour : ℕ
  pub in_counts : ℕ
  pub in_pool : ℕ
  pub wanted : ℕ
  pub generic_left : ℕ

-- The body of the inner loop at colour `c`; `deeper` is the search at the next colour.
unfoldable pub try_split : Level → (ℕ → Search → Search) → ℕ → ℕ → Search → Search
try_split lv deeper t p s =
    let have = (t + p) % 256 in
    let extra = have - lv.wanted in
    if ltb have lv.wanted
    then s
    else if ltb lv.generic_left extra
    then s
    else deeper (lv.generic_left - extra)
        (record s { tapped = set s.tapped lv.colour t; pooled = set s.pooled lv.colour p })

-- The inner loop, over the units from the pool.
unfoldable pub pool_loop : Level → (ℕ → Search → Search) → ℕ → Search → Search
unfolding for_each try_split
pool_loop lv deeper t s = for_each (range_to lv.in_pool) (λ p s'. try_split lv deeper t p s') s

-- The two loops, and the reset behind them.
unfoldable pub colour_loop : Level → (ℕ → Search → Search) → Search → Search
unfolding for_each pool_loop
colour_loop lv deeper s =
    let done = for_each (range_to lv.in_counts) (λ t s'. pool_loop lv deeper t s') s in
    record done { tapped = set done.tapped lv.colour 0; pooled = set done.pooled lv.colour 0 }

-- `c == 5`: what generic remains comes from colourless sources, then from the pool.
unfoldable pub colourless_step : List ℕ → List ℕ → ℕ → Search → Search
colourless_step counts pool generic_left s =
    let need = generic_left % 256 in
    let t = min need (get_or counts 5 0) in
    let p = need - t in
    let tapped = set s.tapped 5 t in
    let pooled = set s.pooled 5 p in
    if leb p (get_or pool 5 0)
    then record {
      tapped = set tapped 5 0;
      pooled = set pooled 5 0;
      out = s.out ++ (tapped, pooled) ∷ [];
    }
    else s

abbrev pub level_at : List ℕ → List ℕ → List ℕ → ℕ → ℕ → Level
level_at counts pool pips c generic_left = record {
  colour = c;
  in_counts = get_or counts c 0;
  in_pool = get_or pool c 0;
  wanted = get_or pips c 0;
  generic_left = generic_left;
}

-- `search` at colour `c`, with `left` colours to go: `c + left` is 5.
unfoldable pub search : ℕ → ℕ → List ℕ → List ℕ → List ℕ → ℕ → Search → Search
unfolding colourless_step colour_loop
search zero c counts pool pips generic_left s = colourless_step counts pool generic_left s
search (suc left) c counts pool pips generic_left s =
    colour_loop (level_at counts pool pips c generic_left)
      (λ g s'. search left (suc c) counts pool pips g s') s

-- The call in `enumerate_payments`.
abbrev pub solutions : List ℕ → List ℕ → List ℕ → ℕ → List (List ℕ × List ℕ)
solutions counts pool pips generic =
    (search 5 0 counts pool pips generic
      (record { tapped = replicate 6 0; pooled = replicate 6 0; out = [] })).out
