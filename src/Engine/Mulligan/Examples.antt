-- ===== src/Engine/Mulligan/Examples.antt =====
-- Mulligans of crates/engine/src/mulligan.rs at a small table: tests, and the theorems there.
use manaline.Prelude.{
  ◌==◌, ◌≡◌, ◌∷◌, ◌++◌, ◌∙◌, [], ℕ, suc, refl, true, false, Option, some, List, arith, length,
  get_elem?, length-append, count-append,
}
use manaline.Formats.{london}
use manaline.Engine.Objects.{library, hand}
use manaline.Engine.Game.{Game, PlayerState}
use manaline.Engine.Zones.Safe.{IsOrdered}
use manaline.Engine.Zones.Dealt.{reversed}
use manaline.Engine.Zones.Draws.{size}
use manaline.Engine.Examples.{player_with, table, table-IsOrdered}
use manaline.Engine.Mulligan.{
  mulligan_again, bottom_cards, advance_mulligan, place_of, to_bottom, keep_hand,
}
use manaline.Engine.Mulligan.Keep.{IsKept, IsOwed, keep_hand-IsKept}
use manaline.Engine.Mulligan.Next.{IsFirstIn, IsBehind, asked, advance_mulligan-IsFirstIn}
use manaline.Engine.Mulligan.Bottom.{hand_left, with_under, bottom_cards-IsOrdered}
use manaline.Engine.Mulligan.Again.{Shuffles, mulligan_again-IsOrdered}

-- A shuffle that moves the lowest card to the top.
abbrev turned : List ℕ → List ℕ
turned [] = []
turned (c ∷ cs) = cs ++ c ∷ []

abbrev turn_over : ℕ → List ℕ → List ℕ × ℕ
turn_over rng cards = (turned cards, suc rng)

turn_over-Shuffles : Shuffles turn_over
turn_over-Shuffles rng [] = (λ i. refl, refl)
turn_over-Shuffles rng (c ∷ cs) = (
  λ i. count-append (λ x. x == i) cs (c ∷ []) ∙ ground arith,
  length-append cs (c ∷ []) ∙ omega arith,
)

-- The player with one card in hand, no library, and a land on the battlefield.
abbrev first_player : PlayerState
first_player = player_with [] (1 ∷ []) (3 ∷ [])

after_bottom : (place_of 0 table.seating ≡ 0) × (place_of 7 table.seating ≡ 0)
unfolding place_of
after_bottom = (refl, refl)

counts_to_bottom : (to_bottom (london true) 2 7 ≡ 1) × (to_bottom (london false) 2 1 ≡ 1)
unfolding to_bottom
counts_to_bottom = (refl, refl)

advance_mulligan-IsFirstIn_example :
    (next : Option ℕ) × (later : List ℕ) × (advance_mulligan 0 table
      ≡ some (record table { pending = asked next }))
    × IsBehind 0 table.seating later
    × IsFirstIn table later next
advance_mulligan-IsFirstIn_example =
    advance_mulligan-IsFirstIn 0 table (omega arith) (omega arith, (omega arith, tt))

bottom_cards-IsOrdered_example :
    (g' : Game) × (next : Option ℕ) × (later : List ℕ) × (bottom_cards 0 (1 ∷ []) table ≡ some g')
    × IsOrdered g'
    × (get_elem? g'.players 0
        ≡ some (record first_player {
          hand = hand_left (1 ∷ []) (1 ∷ []);
          library = with_under (1 ∷ []) [];
        }))
    × (g'.pending ≡ asked next)
    × IsBehind 0 table.seating later
    × IsFirstIn g' later next
bottom_cards-IsOrdered_example =
    bottom_cards-IsOrdered 0 (1 ∷ []) first_player table table-IsOrdered (omega arith)
      (omega arith, (omega arith, tt)) refl (omega arith, tt) (tt, tt)

mulligan_again-IsOrdered_example :
    (g' : Game) × (mulligan_again turn_over 0 table ≡ some g')
    × IsOrdered g'
    × (size g' 0 hand ≡ 1)
    × (size g' 0 library ≡ 0)
    × (length g'.players ≡ 2)
    × ((q : PlayerState) × (get_elem? g'.players 0 ≡ some q)
        × (q.library ++ reversed q.hand ≡ (turn_over 0 (1 ∷ [])).0)
        × (q.mulligans ≡ 1)
        × (g'.rng ≡ 1))
mulligan_again-IsOrdered_example =
    mulligan_again-IsOrdered turn_over 0 first_player table turn_over-Shuffles table-IsOrdered refl

keep_hand-IsKept_example :
    (g' : Game) × (n : ℕ) × (keep_hand 0 table ≡ some g')
    × IsOwed (london false) 0 1 n
    × IsKept 0 first_player table g' n
keep_hand-IsKept_example =
    keep_hand-IsKept 0 first_player table (omega arith) (omega arith, (omega arith, tt)) refl
      (omega arith)
