-- ===== src/Engine/TurnOrder.antt =====
-- Turn order: `next_in_turn_order_after`, `apnap` and `give_priority_to_active` of
-- crates/engine/src/game.rs.
pub mod Next
pub mod Round
use manaline.Prelude.{
  contains, position, ◌==◌, ◌&&◌, ◌+◌, ◌%◌, if◌then◌else◌, ℕ, zero, suc, Bool, not, Option, none,
  some, List, length, get_or,
}
use manaline.Prelude.Maybe.{◌>>=◌}
use manaline.Engine.Game.{Game}

-- The seat `k` places behind the place `pos`; a remainder is never out of range.
abbrev pub behind : List ℕ → ℕ → ℕ → ℕ
behind seating pos k = get_or seating ((pos + k) % length seating) 0

-- `*s != seat && self.turn_order.contains(s)`
abbrev pub is_next : List ℕ → ℕ → ℕ → Bool
is_next turn_order seat s = not (s == seat) && contains turn_order s

-- The `find` over `k..=n`, with `left` places to look at.
unfoldable pub find_next : List ℕ → List ℕ → ℕ → ℕ → ℕ → ℕ → Option ℕ
find_next seating turn_order seat pos zero k = none
find_next seating turn_order seat pos (suc left) k =
    let later = find_next seating turn_order seat pos left (suc k) in
    let s = behind seating pos k in if is_next turn_order seat s then some s else later

-- `next_in_turn_order_after`
unfoldable pub next_in_turn_order_after : ℕ → Game → Option ℕ
unfolding position find_next
next_in_turn_order_after seat g = do
  pos ← position (λ s. s == seat) g.seating
  find_next g.seating g.turn_order seat pos (length g.seating) 1

-- `give_priority_to_active`
unfoldable pub give_priority_to_active : Game → Game
unfolding contains next_in_turn_order_after
give_priority_to_active g = record g {
  passed_in_succession = 0;
  priority =
      if contains g.turn_order g.active_player
      then some g.active_player
      else next_in_turn_order_after g.active_player g;
}
