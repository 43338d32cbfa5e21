-- ===== src/Mana/Search/Complete.antt =====
-- `search` (crates/engine/src/mana.rs) misses no way to pay.
use manaline.Prelude.{
  ◌==◌, ◌≡◌, ◌+◌, ◌≤◌, ◌<◌, ◌∙◌, ℕ, zero, suc, sym, inl, inr, List, arith, ==_iff, Bool-cases,
  length, get_or, set, length-set, get_or-set, Has, ◌-◌, ◌%◌, [], false, ltb, list_ext, min, refl,
  true, leb, Has-append_right,
}
use mathlib.Core.Path.{subst}
use manaline.Mana.Search.{
  search, solutions, colourless_step, colour_loop, pool_loop, try_split, Search, range_from,
  for_each, Level, try_split, pool_loop, colour_loop, colourless_step, level_at,
}
use manaline.Mana.Search.Frame.{
  Agree, Keeps, Keeps-trans, try_split-Keeps, pool_loop-Keeps, search-Keeps,
}
use manaline.Mana.Search.Grows.{
  Grows, for_each-Grows, try_split-Grows, pool_loop-Grows, search-Grows,
}
use manaline.Mana.Search.Solution.{Problem, IsPaid, prefix, written, IsSmall, IsSolution}

-- The arrays at `s` follow the solution `goal` below `c`; a loop whose round at `x` finds the solution
-- finds it, since the other rounds keep the arrays below and drop nothing.
for_each-reaches :
    (goal : Search) (c : ℕ) (body : ℕ → Search → Search) (x : ℕ)
    → ((y : ℕ) (s : Search) → Keeps c s (body y s))
    → ((y : ℕ) (s : Search) → Grows s (body y s))
    → ((s : Search) → Keeps c goal s → Has (goal.tapped, goal.pooled) (body x s).out)
    → (rounds from : ℕ) (s : Search) → from ≤ x
    → x < from + rounds
    → Keeps c goal s
    → Has (goal.tapped, goal.pooled) (for_each (range_from from rounds) body s).out
unfolding for_each
for_each-reaches goal c body x keeps grows hit zero from s le lt k = absurd (omega arith)
for_each-reaches goal c body x keeps grows hit (suc rounds) from s le lt k =
    elim (Bool-cases (from == x)) [
      | inl now ↦
          (for_each-Grows (range_from (suc from) rounds) body (body from s) grows).at
            (goal.tapped, goal.pooled)
            (subst (λ y. Has (goal.tapped, goal.pooled) (body y s).out)
              (sym ((==_iff from x).0 now)) (hit s k))
      | inr later ↦
          for_each-reaches goal c body x keeps grows hit rounds (suc from) (body from s)
            (ground arith) (omega arith) (Keeps-trans c goal s (body from s) k (keeps from s))
    ]

-- What the colours from `c` on take is at least what they are asked for.
suffix-le :
    (q : Problem) (tapped pooled : List ℕ)
    → ((i : ℕ) → i < 5 → IsPaid q tapped pooled i)
    → (left c : ℕ) → c + left ≡ 5
    → prefix c tapped + prefix c pooled + prefix 5 q.pips
      ≤ prefix 5 tapped + prefix 5 pooled + prefix c q.pips
suffix-le q tapped pooled h zero c at =
    let e : 5 ≡ c = omega arith in
    subst
      (λ k.
        prefix k tapped + prefix k pooled + prefix 5 q.pips
        ≤ prefix 5 tapped + prefix 5 pooled + prefix k q.pips)
      e (omega arith)
suffix-le q tapped pooled h (suc left) c at =
    omega
      (arith, suffix-le q tapped pooled h left (suc c) (omega arith), (h c (omega arith)).pips_le)

-- One more entry written as the solution has it.
Agree-write :
    (c : ℕ) (xs ys : List ℕ)
    → c < length ys
    → Agree c xs ys
    → Agree (suc c) xs (set ys c (get_or xs c 0))
Agree-write c xs ys lt (l, h) = (l ∙ sym (length-set ys c _), λ i i_lt. entry i i_lt)
  where
    entry : (i : ℕ) → i < suc c → get_or xs i 0 ≡ get_or (set ys c (get_or xs c 0)) i 0
    entry i i_lt = elim (Bool-cases (c == i)) [
      | inl same ↦
          subst (λ j. get_or xs j 0 ≡ get_or (set ys c (get_or xs c 0)) j 0) ((==_iff c i).0 same)
            (sym (written ys c (get_or xs c 0) lt))
      | inr other ↦ ground (arith, h i, get_or-set ys c i (get_or xs c 0) 0 lt)
    ]

-- What is left of the generic part at colour `c`, on the way to the solution.
record Left (q : Problem) (tapped pooled : List ℕ) (c g : ℕ) : Type 0 where
  exact : prefix c tapped + prefix c pooled + g ≡ prefix c q.pips + q.generic

module _ (q : Problem) (small : IsSmall q) (tapped pooled : List ℕ)
    (sol : IsSolution q tapped pooled) where
  abbrev goal : Search
  goal = record { tapped = tapped; pooled = pooled; out = [] }

  abbrev Found : Search → Type 0
  Found s = Has (tapped, pooled) s.out

  module _ (c g : ℕ) (c_lt : c < 5) (left : Left q tapped pooled c g) (deeper : ℕ → Search → Search)
      (deeper_keeps : (g' : ℕ) (s : Search) → Keeps (suc c) s (deeper g' s))
      (deeper_grows : (g' : ℕ) (s : Search) → Grows s (deeper g' s))
      (deeper_finds : (g' : ℕ) (s : Search)
        → Left q tapped pooled (suc c) g'
        → Keeps (suc c) goal s
        → Found (deeper g' s)) where
    abbrev lv : Level
    lv = level_at q.counts q.pool q.pips c g

    abbrev t : ℕ
    t = get_or tapped c 0

    abbrev p : ℕ
    p = get_or pooled c 0

    try_split-finds : (u : Search) → Keeps c goal u → Found (try_split lv deeper t p u)
    unfolding try_split
    try_split-finds u k =
        let paid = sol.paid c c_lt in
        let fits : (t + p) % 256 ≡ t + p =
          omega (arith, small.units c c_lt, paid.tapped_le, paid.pooled_le) in
        let wanted : ltb (t + p) (get_or q.pips c 0) ≡ false = ground (arith, paid.pips_le) in
        let room : t + p - get_or q.pips c 0 ≤ g = omega (
          arith,
          left.exact,
          sol.exact,
          paid.pips_le,
          suffix-le q tapped pooled sol.paid (4 - c) (suc c) (omega arith),
        ) in
        let affordable : ltb g (t + p - get_or q.pips c 0) ≡ false = ground arith in
        let u' : Search = record u { tapped = set u.tapped c t; pooled = set u.pooled c p } in
        let next : Left q tapped pooled (suc c) (g - (t + p - get_or q.pips c 0)) = record {
          exact = omega (arith, left.exact, paid.pips_le);
        } in
        let follows : Keeps (suc c) goal u' = record {
          tapped =
              Agree-write c tapped u.tapped (omega (arith, k.tapped.0, sol.tapped_six)) k.tapped;
          pooled =
              Agree-write c pooled u.pooled (omega (arith, k.pooled.0, sol.pooled_six)) k.pooled;
        } in
        rw (fits, wanted, affordable) (deeper_finds _ u' next follows)

    pool_loop-finds : (u : Search) → Keeps c goal u → Found (pool_loop lv deeper t u)
    unfolding pool_loop
    pool_loop-finds u k =
        for_each-reaches goal c (λ p' s. try_split lv deeper t p' s) p
          (λ p' s. try_split-Keeps lv deeper deeper_keeps t p' s)
          (λ p' s. try_split-Grows lv deeper deeper_grows t p' s) try_split-finds
          (suc (get_or q.pool c 0)) 0 u (omega arith) (omega (arith, (sol.paid c c_lt).pooled_le)) k

    colour_loop-finds : (u : Search) → Keeps c goal u → Found (colour_loop lv deeper u)
    unfolding colour_loop
    colour_loop-finds u k =
        for_each-reaches goal c (λ t' s. pool_loop lv deeper t' s) t
          (λ t' s. pool_loop-Keeps lv deeper deeper_keeps t' s)
          (λ t' s. pool_loop-Grows lv deeper deeper_grows t' s) pool_loop-finds
          (suc (get_or q.counts c 0)) 0 u (omega arith) (omega (arith, (sol.paid c c_lt).tapped_le))
          k

  -- The arrays put out at the end are the solution's.
  last_entry :
      (xs ys : List ℕ) (v : ℕ) → length xs ≡ 6 → Agree 5 xs ys → v ≡ get_or xs 5 0 → xs ≡ set ys 5 v
  last_entry xs ys v six (l, h) e =
      let whole : Agree 6 xs (set ys 5 (get_or xs 5 0)) =
        Agree-write 5 xs ys (omega arith) (l, h) in
      rw e (list_ext xs (set ys 5 (get_or xs 5 0)) (whole.0) (λ i lt. whole.1 i (omega arith)))

  colourless_step-finds :
      (g : ℕ) (s : Search)
      → Left q tapped pooled 5 g
      → Keeps 5 goal s
      → Found (colourless_step q.counts q.pool g s)
  unfolding colourless_step
  colourless_step-finds g s left k =
      let all_five = suffix-le q tapped pooled sol.paid 5 0 (omega arith) in
      let fits : g % 256 ≡ g = omega (arith, small.generic_u8, left.exact, all_five) in
      let t = min g (get_or q.counts 5 0) in
      let ends_t : t ≡ get_or tapped 5 0 =
        omega (arith, left.exact, sol.exact, sol.sources_first) in
      let ends_p : g - t ≡ get_or pooled 5 0 =
        omega (arith, left.exact, sol.exact, sol.sources_first) in
      let enough : leb (g - t) (get_or q.pool 5 0) ≡ true = ground (arith, sol.pooled_le) in
      let same_t = last_entry tapped s.tapped t sol.tapped_six k.tapped ends_t in
      let same_p = last_entry pooled s.pooled (g - t) sol.pooled_six k.pooled ends_p in
      rw (fits, enough) (Has-append_right (tapped, pooled) s.out _ (inl (cc (same_t, same_p))))

  search-finds :
      (left c g : ℕ) (s : Search)
      → c + left ≡ 5
      → Left q tapped pooled c g
      → Keeps c goal s
      → Found (search left c q.counts q.pool q.pips g s)
  unfolding search
  search-finds zero c g s at l k =
      let five : c ≡ 5 = omega arith in
      colourless_step-finds g s (subst (λ d. Left q tapped pooled d g) five l)
        (subst (λ d. Keeps d goal s) five k)
  search-finds (suc left) c g s at l k =
      colour_loop-finds c g (omega arith) l
        (λ g' s'. search left (suc c) q.counts q.pool q.pips g' s')
        (λ g' s'. search-Keeps left (suc c) q.counts q.pool q.pips g' s' (omega arith))
        (λ g' s'. search-Grows left (suc c) q.counts q.pool q.pips g' s')
        (λ g' s' l' k'. search-finds left (suc c) g' s' (omega arith) l' k') s k

-- Every way to pay is listed, if no colour has more than 255 units: arrays that pay each colour from
-- the sources and the pool, take colourless sources before colourless units of the pool, and hold
-- exactly as many units as the cost asks for.
pub solutions_complete :
    (q : Problem) (tapped pooled : List ℕ)
    → IsSmall q
    → IsSolution q tapped pooled
    → Has (tapped, pooled) (solutions q.counts q.pool q.pips q.generic)
solutions_complete q tapped pooled small sol =
    search-finds q small tapped pooled sol 5 0 q.generic _ refl (record { exact = omega arith })
      (record {
        tapped = (sol.tapped_six, λ i lt. absurd (omega arith));
        pooled = (sol.pooled_six, λ i lt. absurd (omega arith));
      })
