-- ===== src/Mana/Search/Sound.antt =====
-- Whatever `search` (crates/engine/src/mana.rs) finds pays the cost exactly.
use manaline.Prelude.{
  ◌≡◌, ◌+◌, ◌-◌, ◌%◌, ◌≤◌, ◌<◌, if◌then◌else◌, ℕ, zero, suc, refl, Bool, true, false, List, arith,
  ltb, All, get_or, set, [], min, leb, leb→le, replicate, All-append,
}
use mathlib.Core.Path.{subst}
use manaline.Mana.Search.Solution.{IsReady-le, prefix, written}
use manaline.Mana.Search.{
  Search, range_from, for_each, Level, level_at, try_split, pool_loop, colour_loop, colourless_step,
  search, solutions,
}
use manaline.Mana.Search.Frame.{
  Keeps, Keeps-refl, Keeps-trans, Keeps-below, Keeps-write, search-Keeps,
}
use manaline.Mana.Search.Solution.{
  Problem, IsSmall, IsSolution, IsReady, IsReady-Keeps, IsReady-step,
}

abbrev IsSound : Problem → Search → Type 0
IsSound q s = All (λ (tp : List ℕ × List ℕ). IsSolution q tp.0 tp.1) s.out

-- What a loop keeps: the entries below, and that all that was found is a solution.
record Holds (q : Problem) (c : ℕ) (s s' : Search) : Type 0 where
  keeps : Keeps c s s'
  sound : IsSound q s'

for_each-Holds :
    (q : Problem) (c n : ℕ) (body : ℕ → Search → Search) (s : Search)
    → ((x : ℕ) (t : Search) → x ≤ n → Holds q c s t → Holds q c s (body x t))
    → (rounds from : ℕ) (t : Search) → from + rounds ≤ suc n
    → Holds q c s t
    → Holds q c s (for_each (range_from from rounds) body t)
unfolding for_each
for_each-Holds q c n body s step zero from t le h = h
for_each-Holds q c n body s step (suc rounds) from t le h =
    for_each-Holds q c n body s step rounds (suc from) (body from t) (omega arith)
      (step from t (omega arith) h)

Holds-if :
    (q : Problem) (c : ℕ) (s : Search) (b : Bool) (x y : Search)
    → (b ≡ true → Holds q c s x)
    → (b ≡ false → Holds q c s y)
    → Holds q c s (if b then x else y)
Holds-if q c s true x y h k = h refl
Holds-if q c s false x y h k = k refl

module _ (q : Problem) (small : IsSmall q) (c g : ℕ) (c_lt : c < 5) (deeper : ℕ → Search → Search)
    (deeper_keeps : (g' : ℕ) (s : Search) → Keeps (suc c) s (deeper g' s))
    (deeper_sound : (g' : ℕ) (s : Search)
      → IsReady q (suc c) g' s
      → IsSound q s
      → IsSound q (deeper g' s))
    (s : Search) (ready : IsReady q c g s) where
  abbrev lv : Level
  lv = level_at q.counts q.pool q.pips c g

  try_split-Holds :
      (t p : ℕ) (u : Search)
      → t ≤ get_or q.counts c 0
      → p ≤ get_or q.pool c 0
      → Holds q c s u
      → Holds q c s (try_split lv deeper t p u)
  unfolding try_split
  try_split-Holds t p u ht hp h =
      let fits : (t + p) % 256 ≡ t + p = omega (arith, small.units c c_lt) in
      let now : IsReady q c g u = IsReady-Keeps q c g s u h.keeps ready in
      Holds-if q c s (ltb ((t + p) % 256) (get_or q.pips c 0)) u _ (λ less. h)
        (λ enough.
          Holds-if q c s (ltb g ((t + p) % 256 - get_or q.pips c 0)) u _ (λ too_much. h)
            (λ affordable. rw fits (
              let u' : Search = record u { tapped = set u.tapped c t; pooled = set u.pooled c p } in
              let g' = g - (t + p - get_or q.pips c 0) in
              let next : IsReady q (suc c) g' u' =
                IsReady-step q c g t p u u.out (omega arith) ht hp (ground (arith, fits))
                  (ground (arith, fits)) now in
              record {
                keeps = Keeps-trans c s u (deeper g' u') h.keeps (
                    Keeps-trans c u u' (deeper g' u') (Keeps-write c c t p u u.out (omega arith))
                      (Keeps-below c (suc c) u' (deeper g' u') (omega arith) (deeper_keeps g' u')));
                sound = deeper_sound g' u' next h.sound;
              })))

  pool_loop-Holds :
      (t : ℕ) (u : Search)
      → t ≤ get_or q.counts c 0
      → Holds q c s u
      → Holds q c s (pool_loop lv deeper t u)
  unfolding pool_loop
  pool_loop-Holds t u ht h =
      for_each-Holds q c (get_or q.pool c 0) _ s (λ p v hp k. try_split-Holds t p v ht hp k)
        (suc (get_or q.pool c 0)) 0 u (omega arith) h

  colour_loop-Holds : IsSound q s → IsSound q (colour_loop lv deeper s)
  unfolding colour_loop
  colour_loop-Holds h =
      (for_each-Holds q c (get_or q.counts c 0) _ s (λ t v ht k. pool_loop-Holds t v ht k)
        (suc (get_or q.counts c 0)) 0 s (omega arith)
        (record { keeps = Keeps-refl c s; sound = h })).sound

IsSound-if :
    (q : Problem) (b : Bool) (x y : Search)
    → (b ≡ true → IsSound q x)
    → IsSound q y
    → IsSound q (if b then x else y)
IsSound-if q true x y h k = h refl
IsSound-if q false x y h k = k

-- The arrays that the last step puts out.
colourless-IsSolution :
    (q : Problem) (g : ℕ) (s : Search)
    → g - min g (get_or q.counts 5 0) ≤ get_or q.pool 5 0
    → IsReady q 5 g s
    → IsSolution q
        (set s.tapped 5 (min g (get_or q.counts 5 0)))
        (set s.pooled 5 (g - min g (get_or q.counts 5 0)))
colourless-IsSolution q g s enough r =
    let t = min g (get_or q.counts 5 0) in
    let p = g - t in
    let s' : Search = record s { tapped = set s.tapped 5 t; pooled = set s.pooled 5 p } in
    let k : IsReady q 5 g s' =
      IsReady-Keeps q 5 g s s' (Keeps-write 5 5 t p s s.out (omega arith)) r in
    let now_t : get_or (set s.tapped 5 t) 5 0 ≡ t =
      written s.tapped 5 t (omega (arith, r.tapped_six)) in
    let now_p : get_or (set s.pooled 5 p) 5 0 ≡ p =
      written s.pooled 5 p (omega (arith, r.pooled_six)) in
    let total : prefix 5 s'.tapped + prefix 5 s'.pooled + g ≡ prefix 5 q.pips + q.generic =
      k.exact in
    record {
      tapped_six = k.tapped_six;
      pooled_six = k.pooled_six;
      paid = k.paid;
      sources_first = omega arith;
      pooled_le = omega arith;
      exact = omega arith;
    }

-- The last step, at the colourless kind.
colourless_step-IsSound :
    (q : Problem) (g : ℕ) (s : Search)
    → g ≤ 255
    → IsReady q 5 g s
    → IsSound q s
    → IsSound q (colourless_step q.counts q.pool g s)
unfolding colourless_step
colourless_step-IsSound q g s small r h =
    let whole : g % 256 ≡ g = omega arith in
    rw whole (
      IsSound-if q (leb (g - min g (get_or q.counts 5 0)) (get_or q.pool 5 0)) _ s
        (λ enough.
          All-append (λ (tp : List ℕ × List ℕ). IsSolution q tp.0 tp.1) s.out _ h
            (colourless-IsSolution q g s (leb→le _ _ enough) r, tt))
        h)

search-IsSound :
    (q : Problem) (small : IsSmall q) (left c g : ℕ) (s : Search)
    → c + left ≡ 5
    → IsReady q c g s
    → IsSound q s
    → IsSound q (search left c q.counts q.pool q.pips g s)
unfolding search
search-IsSound q small zero c g s at r h =
    colourless_step-IsSound q g s (omega (arith, small.generic_u8, IsReady-le q c g s r))
      (subst (λ k. IsReady q k g s) (omega arith) r) h
search-IsSound q small (suc left) c g s at r h =
    colour_loop-Holds q small c g (omega arith)
      (λ g' s'. search left (suc c) q.counts q.pool q.pips g' s')
      (λ g' s'. search-Keeps left (suc c) q.counts q.pool q.pips g' s' (omega arith))
      (λ g' s' r' h'. search-IsSound q small left (suc c) g' s' (omega arith) r' h') s r h

start-IsReady :
    (q : Problem)
    → IsReady q 0 q.generic (record { tapped = replicate 6 0; pooled = replicate 6 0; out = [] })
start-IsReady q = record {
  tapped_six = refl;
  pooled_six = refl;
  paid = λ i lt. absurd (omega arith);
  exact = omega arith;
}

-- Every split that the search lists pays the cost: each colour from the sources and the pool, no kind
-- beyond what is there, and not a unit too many, if no colour has more than 255 units in the sources
-- and the pool together.
pub solutions_sound :
    (q : Problem)
    → IsSmall q
    → All
        (λ (tp : List ℕ × List ℕ). IsSolution q tp.0 tp.1)
        (solutions q.counts q.pool q.pips q.generic)
solutions_sound q small = search-IsSound q small 5 0 q.generic _ refl (start-IsReady q) tt
