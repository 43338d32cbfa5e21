-- ===== src/Engine/TurnOrder/Round.antt =====
-- Who is next (crates/engine/src/game.rs), without the tests of the code.
use manaline.Prelude.{
  ◌==◌, ◌≡◌, ◌≢◌, ◌⊎◌, inl, inr, ◌<◌, ◌≤◌, ◌+◌, ◌%◌, ◌&&◌, ◌||◌, [], ◌∷◌, ℕ, Bool, true, false, not,
  Option, none, some, List, length, get_or, refl, sym, arith, position, contains, Has, ◌∙◌,
}
use manaline.Engine.Game.{Game}
use manaline.Engine.TurnOrder.{is_next, next_in_turn_order_after}
use manaline.Engine.TurnOrder.Next.{FoundAfter, next_in_turn_order_after_lem}

contains-Has :
    (xs : List ℕ) (n : ℕ)
    → ((contains xs n ≡ true) × Has n xs) ⊎ ((contains xs n ≡ false) × ¬ Has n xs)
unfolding contains
contains-Has [] n = inr (refl, λ h. h)
contains-Has (x ∷ xs) n = by_head (x == n) refl (contains-Has xs n)
  where
    by_head :
        (b : Bool)
        → (x == n) ≡ b
        → ((contains xs n ≡ true) × Has n xs) ⊎ ((contains xs n ≡ false) × ¬ Has n xs)
        → (((b || contains xs n) ≡ true) × Has n (x ∷ xs))
          ⊎ (((b || contains xs n) ≡ false) × ¬ Has n (x ∷ xs))
    by_head true e later = let same : n ≡ x = ground arith in inl (refl, inl same)
    by_head false e (inl (k, there)) = inl (k, inr there)
    by_head false e (inr (k, nowhere)) = inr (k, λ h. not_there h)
      where
        not_there : (n ≡ x) ⊎ Has n xs → ⊥
        not_there (inl same) = absurd (ground arith)
        not_there (inr there) = nowhere there

-- Somebody else who is in the game, and a seat that is passed over.
abbrev pub IsOther : List ℕ → ℕ → ℕ → Type 0
IsOther turn_order seat s = (s ≢ seat) × Has s turn_order

abbrev pub IsPassedOver : List ℕ → ℕ → ℕ → Type 0
IsPassedOver turn_order seat s = (s ≡ seat) ⊎ (¬ Has s turn_order)

is_next-Bool :
    (turn_order : List ℕ) (seat s : ℕ)
    → ((is_next turn_order seat s ≡ true) × IsOther turn_order seat s)
      ⊎ ((is_next turn_order seat s ≡ false) × IsPassedOver turn_order seat s)
is_next-Bool turn_order seat s = by_seat (s == seat) refl (contains-Has turn_order s)
  where
    by_seat :
        (b : Bool)
        → (s == seat) ≡ b
        → ((contains turn_order s ≡ true) × Has s turn_order)
          ⊎ ((contains turn_order s ≡ false) × ¬ Has s turn_order)
        → (((not b && contains turn_order s) ≡ true) × IsOther turn_order seat s)
          ⊎ (((not b && contains turn_order s) ≡ false) × IsPassedOver turn_order seat s)
    by_seat true e there = let same : s ≡ seat = ground arith in inr (refl, inl same)
    by_seat false e (inl (k, there)) = inl (k, ((λ same. absurd (ground arith)), there))
    by_seat false e (inr (k, nowhere)) = inr (k, inr nowhere)

is_next-IsOther :
    (turn_order : List ℕ) (seat s : ℕ)
    → is_next turn_order seat s ≡ true
    → IsOther turn_order seat s
is_next-IsOther turn_order seat s e = by_test (is_next-Bool turn_order seat s)
  where
    by_test :
        ((is_next turn_order seat s ≡ true) × IsOther turn_order seat s)
          ⊎ ((is_next turn_order seat s ≡ false) × IsPassedOver turn_order seat s)
        → IsOther turn_order seat s
    by_test (inl (k, other)) = other
    by_test (inr (k, passed)) = absurd (clash (sym e ∙ k))
      where
        clash : true ≡ false → ⊥
        clash c = cc c

is_next-IsPassedOver :
    (turn_order : List ℕ) (seat s : ℕ)
    → is_next turn_order seat s ≡ false
    → IsPassedOver turn_order seat s
is_next-IsPassedOver turn_order seat s e = by_test (is_next-Bool turn_order seat s)
  where
    by_test :
        ((is_next turn_order seat s ≡ true) × IsOther turn_order seat s)
          ⊎ ((is_next turn_order seat s ≡ false) × IsPassedOver turn_order seat s)
        → IsPassedOver turn_order seat s
    by_test (inr (k, passed)) = passed
    by_test (inl (k, other)) = absurd (clash (sym k ∙ e))
      where
        clash : true ≡ false → ⊥
        clash c = cc c

-- Who is next after `seat`, who sits at the place `pos`: the one `j` places further round the table, who is
-- somebody else and in the game, while those in between are passed over; or nobody, and then everybody at
-- the table is passed over.
abbrev pub IsNextAfter : ℕ → ℕ → Game → Option ℕ → Type 0
IsNextAfter seat pos g none =
    (i : ℕ) → i < length g.seating → IsPassedOver g.turn_order seat (get_or g.seating i 0)
IsNextAfter seat pos g (some t) =
    (j : ℕ) × (1 ≤ j)
    × (j < 1 + length g.seating)
    × (t ≡ get_or g.seating ((pos + j) % length g.seating) 0)
    × IsOther g.turn_order seat t
    × ((i : ℕ)
        → 1 ≤ i
        → i < j
        → IsPassedOver g.turn_order seat (get_or g.seating ((pos + i) % length g.seating) 0))

FoundAfter-IsNextAfter :
    (seat pos : ℕ) (g : Game) (r : Option ℕ) → FoundAfter seat pos g r → IsNextAfter seat pos g r
FoundAfter-IsNextAfter seat pos g none h =
    λ i lt. is_next-IsPassedOver g.turn_order seat (get_or g.seating i 0) (h i lt)
FoundAfter-IsNextAfter seat pos g (some t) (j, low, high, there, found, between) = (
  j,
  low,
  high,
  there,
  is_next-IsOther g.turn_order seat t found,
  λ i above below.
      is_next-IsPassedOver g.turn_order seat (get_or g.seating ((pos + i) % length g.seating) 0)
        (between i above below),
)

-- The next seat after a seat at the table is the first seat further round the table that is not this seat
-- and is in the turn order: those in between are this seat or not in the turn order. It is nobody only when
-- everybody at the table is this seat or not in the turn order.
pub next_in_turn_order_after-IsNextAfter :
    (seat pos : ℕ) (g : Game)
    → position (λ s. s == seat) g.seating ≡ some pos
    → IsNextAfter seat pos g (next_in_turn_order_after seat g)
next_in_turn_order_after-IsNextAfter seat pos g at =
    FoundAfter-IsNextAfter seat pos g (next_in_turn_order_after seat g)
      (next_in_turn_order_after_lem seat pos g at)
