-- ===== src/Mana/Search/Frame.antt =====
-- What `search` (crates/engine/src/mana.rs) leaves alone: the entries of the colours before its own.
use manaline.Prelude.{
  ◌≡◌, ◌∷◌, ◌+◌, ◌≤◌, ◌<◌, ◌∙◌, [], ℕ, zero, suc, refl, sym, List, arith, length, get_or, set,
  length-set, ◌-◌, ◌%◌, if◌then◌else◌, min, Bool, true, false,
}
use manaline.Mana.Search.{
  Search, range_to, for_each, Level, try_split, pool_loop, colour_loop, colourless_step, search,
  level_at,
}

-- Two arrays agree below an index.
abbrev pub Agree : ℕ → List ℕ → List ℕ → Type 0
Agree c xs ys = (length xs ≡ length ys) × ((i : ℕ) → i < c → get_or xs i 0 ≡ get_or ys i 0)

pub Agree-trans : (c : ℕ) (xs ys zs : List ℕ) → Agree c xs ys → Agree c ys zs → Agree c xs zs
Agree-trans c xs ys zs (l, h) (m, k) = (l ∙ m, λ i lt. h i lt ∙ k i lt)

pub Agree-set : (c i v : ℕ) (xs : List ℕ) → c ≤ i → Agree c xs (set xs i v)
Agree-set c i v xs h = (sym (length-set xs i v), λ j lt. unchanged xs i j (omega arith))
  where
    unchanged : (ys : List ℕ) (k j : ℕ) → j < k → get_or ys j 0 ≡ get_or (set ys k v) j 0
    unchanged [] k j lt = refl
    unchanged (y ∷ ys) zero j lt = absurd (omega arith)
    unchanged (y ∷ ys) (suc k) zero lt = refl
    unchanged (y ∷ ys) (suc k) (suc j) lt = unchanged ys k j (omega arith)

pub Agree-below : (c d : ℕ) (xs ys : List ℕ) → c ≤ d → Agree d xs ys → Agree c xs ys
Agree-below c d xs ys h (l, k) = (l, λ i lt. k i (omega arith))

-- A run that starts at `s` and ends at `s'` keeps the entries below `c`.
pub record Keeps (c : ℕ) (s s' : Search) : Type 0 where
  pub tapped : Agree c s.tapped s'.tapped
  pub pooled : Agree c s.pooled s'.pooled

pub Keeps-trans : (c : ℕ) (s t u : Search) → Keeps c s t → Keeps c t u → Keeps c s u
Keeps-trans c s t u h k = record {
  tapped = Agree-trans c s.tapped t.tapped u.tapped h.tapped k.tapped;
  pooled = Agree-trans c s.pooled t.pooled u.pooled h.pooled k.pooled;
}

pub Keeps-refl : (c : ℕ) (s : Search) → Keeps c s s
Keeps-refl c s = record { tapped = (refl, λ i lt. refl); pooled = (refl, λ i lt. refl) }

pub Keeps-below : (c d : ℕ) (s t : Search) → c ≤ d → Keeps d s t → Keeps c s t
Keeps-below c d s t le h = record {
  tapped = Agree-below c d s.tapped t.tapped le h.tapped;
  pooled = Agree-below c d s.pooled t.pooled le h.pooled;
}

-- A loop keeps what each of its rounds keeps.
pub for_each-Keeps :
    (c : ℕ) (xs : List ℕ) (body : ℕ → Search → Search) (s : Search)
    → ((x : ℕ) (t : Search) → Keeps c t (body x t))
    → Keeps c s (for_each xs body s)
unfolding for_each
for_each-Keeps c [] body s h = Keeps-refl c s
for_each-Keeps c (x ∷ xs) body s h =
    Keeps-trans c s (body x s) (for_each xs body (body x s)) (h x s)
      (for_each-Keeps c xs body (body x s) h)

pub Keeps-if :
    (c : ℕ) (s : Search) (b : Bool) (x y : Search)
    → Keeps c s x
    → Keeps c s y
    → Keeps c s (if b then x else y)
Keeps-if c s true x y h k = h
Keeps-if c s false x y h k = k

-- Writing both arrays at `i` keeps what is below.
pub Keeps-write :
    (c i t p : ℕ) (s : Search) (out : List (List ℕ × List ℕ))
    → c ≤ i
    → Keeps c s (record { tapped = set s.tapped i t; pooled = set s.pooled i p; out = out })
Keeps-write c i t p s out h = record {
  tapped = Agree-set c i t s.tapped h;
  pooled = Agree-set c i p s.pooled h;
}

module _ (lv : Level) (deeper : ℕ → Search → Search)
    (deeper_keeps : (g : ℕ) (s : Search) → Keeps (suc lv.colour) s (deeper g s)) where
  pub try_split-Keeps : (t p : ℕ) (s : Search) → Keeps lv.colour s (try_split lv deeper t p s)
  unfolding try_split
  try_split-Keeps t p s =
      let written : Search = record s {
        tapped = set s.tapped lv.colour t;
        pooled = set s.pooled lv.colour p;
      } in
      let g = lv.generic_left - ((t + p) % 256 - lv.wanted) in
      Keeps-if lv.colour s _ s _ (Keeps-refl lv.colour s) (
        Keeps-if lv.colour s _ s _ (Keeps-refl lv.colour s) (
          Keeps-trans lv.colour s written (deeper g written)
            (Keeps-write lv.colour lv.colour t p s s.out (omega arith))
            (Keeps-below lv.colour (suc lv.colour) written (deeper g written) (omega arith)
              (deeper_keeps g written))))

  pub pool_loop-Keeps : (t : ℕ) (s : Search) → Keeps lv.colour s (pool_loop lv deeper t s)
  unfolding pool_loop
  pool_loop-Keeps t s =
      for_each-Keeps lv.colour (range_to lv.in_pool) _ s (λ p s'. try_split-Keeps t p s')

  pub colour_loop-Keeps : (s : Search) → Keeps lv.colour s (colour_loop lv deeper s)
  unfolding colour_loop
  colour_loop-Keeps s =
      let done = for_each (range_to lv.in_counts) (λ t s'. pool_loop lv deeper t s') s in
      Keeps-trans lv.colour s done _
        (for_each-Keeps lv.colour (range_to lv.in_counts) _ s (λ t s'. pool_loop-Keeps t s'))
        (Keeps-write lv.colour lv.colour 0 0 done done.out (omega arith))

colourless_step-Keeps :
    (c : ℕ) (counts pool : List ℕ) (g : ℕ) (s : Search)
    → c ≤ 5
    → Keeps c s (colourless_step counts pool g s)
unfolding colourless_step
colourless_step-Keeps c counts pool g s h =
    let t = min (g % 256) (get_or counts 5 0) in
    let p = g % 256 - t in
    let written : Search = record s { tapped = set s.tapped 5 t; pooled = set s.pooled 5 p } in
    Keeps-if c s _ _ s
      (Keeps-trans c s written _ (Keeps-write c 5 t p s s.out h) (Keeps-write c 5 0 0 written _ h))
      (Keeps-refl c s)

-- The search at colour `c` keeps the entries of the colours before `c`.
pub search-Keeps :
    (left c : ℕ) (counts pool pips : List ℕ) (g : ℕ) (s : Search)
    → c + left ≡ 5
    → Keeps c s (search left c counts pool pips g s)
unfolding search
search-Keeps zero c counts pool pips g s h = colourless_step-Keeps c counts pool g s (omega arith)
search-Keeps (suc left) c counts pool pips g s h =
    colour_loop-Keeps (level_at counts pool pips c g)
      (λ g' s'. search left (suc c) counts pool pips g' s')
      (λ g' s'. search-Keeps left (suc c) counts pool pips g' s' (omega arith)) s
