-- ===== src/Mana/Search/Grows.antt =====
-- The list of solutions of `search` (crates/engine/src/mana.rs) only grows.
use manaline.Prelude.{
  ◌∷◌, ◌+◌, ◌-◌, ◌%◌, if◌then◌else◌, [], ℕ, zero, suc, Bool, true, false, List, set, Has,
  Has-append_left, ◌++◌, min, ltb, leb, get_or,
}
use manaline.Mana.Search.{
  Search, range_to, for_each, Level, level_at, try_split, pool_loop, colour_loop, colourless_step,
  search,
}

pub record Grows (s s' : Search) : Type 0 where
  pub at : (tp : List ℕ × List ℕ) → Has tp s.out → Has tp s'.out

pub Grows-refl : (s : Search) → Grows s s
Grows-refl s = record { at = λ tp h. h }

pub Grows-trans : (s t u : Search) → Grows s t → Grows t u → Grows s u
Grows-trans s t u g h = record { at = λ tp k. h.at tp (g.at tp k) }

Grows-if :
    (s : Search) (b : Bool) (x y : Search) → Grows s x → Grows s y → Grows s (if b then x else y)
Grows-if s true x y h k = h
Grows-if s false x y h k = k

pub for_each-Grows :
    (xs : List ℕ) (body : ℕ → Search → Search) (s : Search)
    → ((x : ℕ) (t : Search) → Grows t (body x t))
    → Grows s (for_each xs body s)
unfolding for_each
for_each-Grows [] body s h = Grows-refl s
for_each-Grows (x ∷ xs) body s h =
    Grows-trans s (body x s) (for_each xs body (body x s)) (h x s)
      (for_each-Grows xs body (body x s) h)

module _ (lv : Level) (deeper : ℕ → Search → Search)
    (deeper_grows : (g : ℕ) (s : Search) → Grows s (deeper g s)) where
  pub try_split-Grows : (t p : ℕ) (s : Search) → Grows s (try_split lv deeper t p s)
  unfolding try_split
  try_split-Grows t p s =
      let written : Search = record s {
        tapped = set s.tapped lv.colour t;
        pooled = set s.pooled lv.colour p;
      } in
      let g = lv.generic_left - ((t + p) % 256 - lv.wanted) in
      let extra = (t + p) % 256 - lv.wanted in
      Grows-if s (ltb ((t + p) % 256) lv.wanted) s
        (if ltb lv.generic_left extra then s else deeper g written) (Grows-refl s)
        (Grows-if s (ltb lv.generic_left extra) s (deeper g written) (Grows-refl s)
          (record { at = (deeper_grows g written).at }))

  pub pool_loop-Grows : (t : ℕ) (s : Search) → Grows s (pool_loop lv deeper t s)
  unfolding pool_loop
  pool_loop-Grows t s = for_each-Grows (range_to lv.in_pool) _ s (λ p s'. try_split-Grows t p s')

  pub colour_loop-Grows : (s : Search) → Grows s (colour_loop lv deeper s)
  unfolding colour_loop
  colour_loop-Grows s = record {
    at =
        (for_each-Grows (range_to lv.in_counts) (λ t s'. pool_loop lv deeper t s') s
          (λ t s'. pool_loop-Grows t s')).at;
  }

colourless_step-Grows :
    (counts pool : List ℕ) (g : ℕ) (s : Search) → Grows s (colourless_step counts pool g s)
unfolding colourless_step
colourless_step-Grows counts pool g s =
    let t = min (g % 256) (get_or counts 5 0) in
    let tapped = set s.tapped 5 t in
    let pooled = set s.pooled 5 (g % 256 - t) in
    let more : Search = record {
      tapped = set tapped 5 0;
      pooled = set pooled 5 0;
      out = s.out ++ (tapped, pooled) ∷ [];
    } in
    Grows-if s (leb (g % 256 - t) (get_or pool 5 0)) more s
      (record { at = λ tp h. Has-append_left tp s.out ((tapped, pooled) ∷ []) h }) (Grows-refl s)

pub search-Grows :
    (left c : ℕ) (counts pool pips : List ℕ) (g : ℕ) (s : Search)
    → Grows s (search left c counts pool pips g s)
unfolding search
search-Grows zero c counts pool pips g s = colourless_step-Grows counts pool g s
search-Grows (suc left) c counts pool pips g s =
    colour_loop-Grows (level_at counts pool pips c g)
      (λ g' s'. search left (suc c) counts pool pips g' s')
      (λ g' s'. search-Grows left (suc c) counts pool pips g' s') s
