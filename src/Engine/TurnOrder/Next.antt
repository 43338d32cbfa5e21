-- ===== src/Engine/TurnOrder/Next.antt =====
-- `next_in_turn_order_after` (crates/engine/src/game.rs) finds the first seat behind that is in the game.
use manaline.Prelude.{
  ◌==◌, ◌≡◌, ◌<◌, ◌≤◌, ◌+◌, ◌-◌, ◌%◌, ltb, if◌then◌else◌, [], ◌∷◌, ℕ, zero, suc, Bool, true, false,
  Option, none, some, List, length, get_or, refl, sym, ap, ◌∙◌, subst, arith, position,
}
use manaline.Prelude.Maybe.{◌>>=◌}
use native.Mathlib.Nat.{mod-eq_of_lt, add-mod_right}
use manaline.Engine.Game.{Game}
use manaline.Engine.TurnOrder.{behind, is_next, find_next, next_in_turn_order_after}

module _ (seating turn_order : List ℕ) (seat pos : ℕ) where
  -- Nobody from place `k` up to place `m` behind is next.
  abbrev pub NobodyIn : ℕ → ℕ → Type 0
  NobodyIn k m = (j : ℕ) → k ≤ j → j < m → is_next turn_order seat (behind seating pos j) ≡ false

  -- What the search among `left` places from the place `k` behind finds.
  abbrev pub FirstFrom : ℕ → ℕ → Option ℕ → Type 0
  FirstFrom k left none = NobodyIn k (k + left)
  FirstFrom k left (some t) =
      (j : ℕ) × (k ≤ j)
      × (j < k + left)
      × (t ≡ behind seating pos j)
      × (is_next turn_order seat t ≡ true)
      × NobodyIn k j

  -- One more place in front, where nobody is.
  nobody_here :
      (k m : ℕ)
      → is_next turn_order seat (behind seating pos k) ≡ false
      → NobodyIn (suc k) m
      → NobodyIn k m
  nobody_here k m here later j low high = by_place (j == k) refl
    where
      by_place : (b : Bool) → (j == k) ≡ b → is_next turn_order seat (behind seating pos j) ≡ false
      by_place true e =
          let q : k ≡ j = ground arith in
          subst (λ i. is_next turn_order seat (behind seating pos i) ≡ false) q here
      by_place false e = later j (ground arith) high

  find_next-FirstFrom :
      (left k : ℕ) → FirstFrom k left (find_next seating turn_order seat pos left k)
  unfolding find_next
  find_next-FirstFrom zero k = λ j low high. absurd (omega arith)
  find_next-FirstFrom (suc left) k =
      by_here (is_next turn_order seat (behind seating pos k)) refl
        (find_next seating turn_order seat pos left (suc k)) (find_next-FirstFrom left (suc k))
    where
      by_here :
          (b : Bool)
          → is_next turn_order seat (behind seating pos k) ≡ b
          → (r : Option ℕ) → FirstFrom (suc k) left r
          → FirstFrom k (suc left) (if b then some (behind seating pos k) else r)
      by_here true e r later =
          (k, omega arith, omega arith, refl, e, λ j low high. absurd (omega arith))
      by_here false e none later =
          nobody_here k (k + suc left) e (λ j low high. later j low (omega arith))
      by_here false e (some t) (j, low, high, same, is, before) =
          (j, omega arith, omega arith, same, is, nobody_here k j e before)

  -- Every place but `pos` is behind `pos` by fewer places than there are.
  place_behind :
      (i : ℕ)
      → pos < length seating
      → i < length seating
      → (j : ℕ) × (1 ≤ j) × (j < 1 + length seating) × (behind seating pos j ≡ get_or seating i 0)
  place_behind i at h = by_side (ltb pos i) refl
    where
      by_side :
          (b : Bool)
          → ltb pos i ≡ b
          → (j : ℕ) × (1 ≤ j)
            × (j < 1 + length seating)
            × (behind seating pos j ≡ get_or seating i 0)
      by_side true e =
          let lt : pos < i = ground arith in
          let there : pos + (i - pos) ≡ i = omega arith in
          (
            i - pos,
            omega arith,
            omega arith,
            ap (λ k. get_or seating k 0) (ap (λ k. k % length seating) there ∙ mod-eq_of_lt h),
          )
      by_side false e =
          let ge : i ≤ pos = ground arith in
          let there : pos + (i + length seating - pos) ≡ i + length seating = omega arith in
          (
            i + length seating - pos,
            omega arith,
            omega arith,
            ap (λ k. get_or seating k 0)
                (ap (λ k. k % length seating) there
                  ∙ add-mod_right i (length seating)
                  ∙ mod-eq_of_lt h),
          )

-- What the seat after `seat`, who sits at the place `pos`, is: the first one behind, at place `j`, who
-- is somebody else and in the game, or nobody, and then nobody else at the table is in the game.
abbrev pub FoundAfter : ℕ → ℕ → Game → Option ℕ → Type 0
FoundAfter seat pos g none =
    (i : ℕ) → i < length g.seating → is_next g.turn_order seat (get_or g.seating i 0) ≡ false
FoundAfter seat pos g (some t) =
    (j : ℕ) × (1 ≤ j)
    × (j < 1 + length g.seating)
    × (t ≡ behind g.seating pos j)
    × (is_next g.turn_order seat t ≡ true)
    × NobodyIn g.seating g.turn_order seat pos 1 j

FoundAfter-find_next :
    (seat pos : ℕ) (g : Game) (r : Option ℕ)
    → pos < length g.seating
    → FirstFrom g.seating g.turn_order seat pos 1 (length g.seating) r
    → FoundAfter seat pos g r
FoundAfter-find_next seat pos g none at h = λ i lt.
    let (j, low, high, same) = place_behind g.seating g.turn_order seat pos i at lt in
    ap (is_next g.turn_order seat) (sym same) ∙ h j low high
FoundAfter-find_next seat pos g (some t) at h = h

pub position-lt : (p : ℕ → Bool) (xs : List ℕ) (i : ℕ) → position p xs ≡ some i → i < length xs
unfolding position
position-lt p [] i h = cc
position-lt p (x ∷ xs) i h = by_rest (p x) (position p xs) (position-lt p xs) h
  where
    by_rest :
        (b : Bool) (r : Option ℕ)
        → ((j : ℕ) → r ≡ some j → j < length xs)
        → (if b then some 0 else elim r [ none ↦ none | some j ↦ some (suc j) ]) ≡ some i
        → i < suc (length xs)
    by_rest true r later e = let q : 0 ≡ i = cc e in omega arith
    by_rest false none later e = cc
    by_rest false (some j) later e = let q : suc j ≡ i = cc e in omega (arith, later j refl)

-- What the search returns, by the tests of the code.
pub next_in_turn_order_after_lem :
    (seat pos : ℕ) (g : Game)
    → position (λ s. s == seat) g.seating ≡ some pos
    → FoundAfter seat pos g (next_in_turn_order_after seat g)
unfolding next_in_turn_order_after
next_in_turn_order_after_lem seat pos g at =
    subst
      (λ r.
        FoundAfter seat pos g
          (r >>= (λ p. find_next g.seating g.turn_order seat p (length g.seating) 1)))
      (sym at)
      (FoundAfter-find_next seat pos g
        (find_next g.seating g.turn_order seat pos (length g.seating) 1)
        (position-lt (λ s. s == seat) g.seating pos at)
        (find_next-FirstFrom g.seating g.turn_order seat pos (length g.seating) 1))
