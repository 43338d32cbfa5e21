-- ===== src/Mana/Search/Solution.antt =====
-- What a solution of `search` (crates/engine/src/mana.rs) is, and what holds of the arrays on the way
-- to one.
use manaline.Prelude.{
  ◌≡◌, ◌+◌, ◌-◌, ◌≤◌, ◌<◌, ◌∙◌, ℕ, zero, suc, min, refl, sym, List, arith, length, get_or, set, inl,
  inr, ltb, ltb→lt, Bool-cases, get_or-set,
}
use manaline.Mana.Search.{Search}
use mathlib.Core.Path.{subst}
use manaline.Mana.Search.Frame.{Keeps-write, Agree, Keeps}

-- The sum of the first entries.
abbrev pub prefix : ℕ → List ℕ → ℕ
prefix zero xs = 0
prefix (suc c) xs = prefix c xs + get_or xs c 0

prefix-Agree : (c : ℕ) (xs ys : List ℕ) → Agree c xs ys → prefix c xs ≡ prefix c ys
prefix-Agree zero xs ys h = refl
prefix-Agree (suc c) xs ys (l, h) =
    omega (arith, prefix-Agree c xs ys (l, λ i lt. h i (omega arith)), h c (omega arith))

-- What is to be paid: the sources and the pool by kind, the pips by colour, the generic part.
pub record Problem : Type 0 where
  pub counts : List ℕ
  pub pool : List ℕ
  pub pips : List ℕ
  pub generic : ℕ

-- No colour has more than 255 units, so that `t + p` does not overflow.
pub record IsSmall (q : Problem) : Type 0 where
  pub units : (c : ℕ) → c < 5 → get_or q.counts c 0 + get_or q.pool c 0 ≤ 255
  pub generic_u8 : q.generic ≤ 255

-- The colour `c` is paid from what is there.
pub record IsPaid (q : Problem) (tapped pooled : List ℕ) (c : ℕ) : Type 0 where
  pub tapped_le : get_or tapped c 0 ≤ get_or q.counts c 0
  pub pooled_le : get_or pooled c 0 ≤ get_or q.pool c 0
  pub pips_le : get_or q.pips c 0 ≤ get_or tapped c 0 + get_or pooled c 0

-- A way to pay: every colour is paid, the colourless units are there, sources before the pool, and
-- the units are exactly as many as the cost asks for.
pub record IsSolution (q : Problem) (tapped pooled : List ℕ) : Type 0 where
  pub tapped_six : length tapped ≡ 6
  pub pooled_six : length pooled ≡ 6
  pub paid : (c : ℕ) → c < 5 → IsPaid q tapped pooled c
  pub sources_first :
      get_or tapped 5 0 ≡ min (get_or tapped 5 0 + get_or pooled 5 0) (get_or q.counts 5 0)
  pub pooled_le : get_or pooled 5 0 ≤ get_or q.pool 5 0
  pub exact : prefix 6 tapped + prefix 6 pooled ≡ prefix 5 q.pips + q.generic

-- The colours before `c` are paid, and `g` generic units are left.
pub record IsReady (q : Problem) (c g : ℕ) (s : Search) : Type 0 where
  pub tapped_six : length s.tapped ≡ 6
  pub pooled_six : length s.pooled ≡ 6
  pub paid : (i : ℕ) → i < c → IsPaid q s.tapped s.pooled i
  pub exact : prefix c s.tapped + prefix c s.pooled + g ≡ prefix c q.pips + q.generic

IsPaid-Agree :
    (q : Problem) (c : ℕ) (s s' : Search)
    → Keeps c s s'
    → (i : ℕ) → i < c
    → IsPaid q s.tapped s.pooled i
    → IsPaid q s'.tapped s'.pooled i
IsPaid-Agree q c s s' k i lt h = record {
  tapped_le = omega (arith, h.tapped_le, k.tapped.1 i lt);
  pooled_le = omega (arith, h.pooled_le, k.pooled.1 i lt);
  pips_le = omega (arith, h.pips_le, k.tapped.1 i lt, k.pooled.1 i lt);
}

pub IsReady-Keeps :
    (q : Problem) (c g : ℕ) (s s' : Search) → Keeps c s s' → IsReady q c g s → IsReady q c g s'
IsReady-Keeps q c g s s' k r = record {
  tapped_six = sym (k.tapped.0) ∙ r.tapped_six;
  pooled_six = sym (k.pooled.0) ∙ r.pooled_six;
  paid = λ i lt. IsPaid-Agree q c s s' k i lt (r.paid i lt);
  exact = omega (
    arith,
    r.exact,
    prefix-Agree c s.tapped s'.tapped k.tapped,
    prefix-Agree c s.pooled s'.pooled k.pooled,
  );
}

pub written : (xs : List ℕ) (i v : ℕ) → i < length xs → get_or (set xs i v) i 0 ≡ v
written xs i v h = ground (arith, get_or-set xs i i v 0 h)

up_to :
    (q : Problem) (s : Search) (c : ℕ)
    → ((i : ℕ) → i < c → IsPaid q s.tapped s.pooled i)
    → IsPaid q s.tapped s.pooled c
    → (i : ℕ) → i < suc c
    → IsPaid q s.tapped s.pooled i
up_to q s c below here i lt = elim (Bool-cases (ltb i c)) [
  | inl less ↦ below i (ltb→lt i c less)
  | inr not_less ↦
      let same : c ≡ i = ground arith in subst (λ j. IsPaid q s.tapped s.pooled j) same here
]

prefix-le :
    (q : Problem) (c : ℕ) (tapped pooled : List ℕ)
    → ((i : ℕ) → i < c → IsPaid q tapped pooled i)
    → prefix c q.pips ≤ prefix c tapped + prefix c pooled
prefix-le q zero tapped pooled h = omega arith
prefix-le q (suc c) tapped pooled h =
    omega
      (arith, prefix-le q c tapped pooled (λ i lt. h i (omega arith)), (h c (omega arith)).pips_le)

-- No more generic units are left than the cost has.
pub IsReady-le : (q : Problem) (c g : ℕ) (s : Search) → IsReady q c g s → g ≤ q.generic
IsReady-le q c g s r = omega (arith, r.exact, prefix-le q c s.tapped s.pooled r.paid)

-- One more colour paid.
pub IsReady-step :
    (q : Problem) (c g t p : ℕ) (s : Search) (out : List (List ℕ × List ℕ))
    → c < 6
    → t ≤ get_or q.counts c 0
    → p ≤ get_or q.pool c 0
    → get_or q.pips c 0 ≤ t + p
    → t + p - get_or q.pips c 0 ≤ g
    → IsReady q c g s
    → IsReady q
        (suc c)
        (g - (t + p - get_or q.pips c 0))
        (record { tapped = set s.tapped c t; pooled = set s.pooled c p; out = out })
IsReady-step q c g t p s out lt ht hp hw hg r =
    let s' : Search = record { tapped = set s.tapped c t; pooled = set s.pooled c p; out = out } in
    let k : IsReady q c g s' =
      IsReady-Keeps q c g s s' (Keeps-write c c t p s out (omega arith)) r in
    let now_t : get_or (set s.tapped c t) c 0 ≡ t =
      written s.tapped c t (omega (arith, r.tapped_six)) in
    let now_p : get_or (set s.pooled c p) c 0 ≡ p =
      written s.pooled c p (omega (arith, r.pooled_six)) in
    let here : IsPaid q s'.tapped s'.pooled c = record {
      tapped_le = omega arith;
      pooled_le = omega arith;
      pips_le = omega arith;
    } in
    record {
      tapped_six = k.tapped_six;
      pooled_six = k.pooled_six;
      paid = up_to q s' c k.paid here;
      exact = omega (arith, k.exact);
    }
