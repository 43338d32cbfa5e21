-- ===== src/Engine/Events.antt =====
-- The events of a game and what a seat sees of them (crates/engine/src/event.rs), with the targets of
-- crates/engine/src/action.rs and the outcomes of crates/engine/src/game.rs.
pub mod View
use manaline.Prelude.{
  ◌==◌, ◌&&◌, ◌%◌, if◌then◌else◌, ℕ, Bool, false, not, Option, none, some, List, length,
}
use manaline.Text.{Str}
use manaline.Prelude.Int.{ℤ}
use manaline.Mana.Pool.{Mana}
use manaline.Engine.Objects.{Zone, AttackTarget}
use manaline.Engine.Phases.{Phase}

pub data DamageTarget : Type 0 where
  player : ℕ → DamageTarget
  object : ℕ → DamageTarget

pub data Target : Type 0 where
  object : ℕ → Target
  player : ℕ → Target

pub data Elimination : Type 0 where
  life_zero poison drew_from_empty_library conceded : Elimination

pub data Outcome : Type 0 where
  winner : ℕ → Outcome
  tie : Outcome

-- `EventBase<D>`: `D` is what is told of the cards that a seat drew.
pub data EventBase (D : Type 0) : Type 0 where
  game_started : ℕ → ℕ → EventBase D
  drew : ℕ → D → EventBase D
  shuffled : ℕ → EventBase D
  mulligan_taken : ℕ → ℕ → EventBase D
  hand_kept : ℕ → ℕ → EventBase D
  bottomed : ℕ → ℕ → EventBase D
  turn_started : ℕ → ℕ → EventBase D
  phase_changed : Phase → EventBase D
  priority_passed : ℕ → EventBase D
  land_played : ℕ → ℕ → EventBase D
  cast : ℕ → ℕ → List Target → EventBase D
  resolved : ℕ → EventBase D
  tapped : ℕ → EventBase D
  untapped : ℕ → EventBase D
  mana_added : ℕ → Mana → ℕ → EventBase D
  attacked : ℕ → List (ℕ × AttackTarget) → EventBase D
  blocked : ℕ → List (ℕ × ℕ) → EventBase D
  damage_assigned : ℕ → List (DamageTarget × ℤ) → EventBase D
  damage : ℕ → DamageTarget → ℤ → Bool → EventBase D
  activated : ℕ → ℕ → ℕ → List Target → EventBase D
  triggered : ℕ → Str → List Target → EventBase D
  countered : ℕ → EventBase D
  sacrificed : ℕ → ℕ → EventBase D
  token_created : ℕ → ℕ → EventBase D
  counters_added : ℕ → Str → ℤ → EventBase D
  attached : ℕ → ℕ → EventBase D
  life_changed : ℕ → ℤ → ℤ → EventBase D
  zone_change : ℕ → Zone → Zone → EventBase D
  discarded : ℕ → List ℕ → EventBase D
  eliminated : ℕ → Elimination → EventBase D
  game_over : Outcome → EventBase D
  chat : ℕ → Option ℕ → Str → EventBase D

abbrev pub Event : Type 0
Event = EventBase (List ℕ)

pub data DrawnCards : Type 0 where
  yours : List ℕ → DrawnCards
  hidden : ℕ → DrawnCards

abbrev pub EventView : Type 0
EventView = EventBase DrawnCards

-- `viewer == Some(seat)`; no viewer is a spectator.
abbrev pub is_seat : Option ℕ → ℕ → Bool
is_seat none seat = false
is_seat (some viewer) seat = viewer == seat

-- `Event::view`; the count is cut to a `u8`.
unfoldable pub view : Option ℕ → Event → Option EventView
view viewer (drew seat cards) =
    some (drew seat (if is_seat viewer seat then yours cards else hidden (length cards % 256)))
view viewer (chat from none text) = some (chat from none text)
view viewer (chat from (some to) text) =
    if not (is_seat viewer from) && not (is_seat viewer to)
    then none
    else some (chat from (some to) text)
view viewer (game_started starting_player seats) = some (game_started starting_player seats)
view viewer (shuffled seat) = some (shuffled seat)
view viewer (mulligan_taken seat to) = some (mulligan_taken seat to)
view viewer (hand_kept seat size) = some (hand_kept seat size)
view viewer (bottomed seat n) = some (bottomed seat n)
view viewer (turn_started turn active) = some (turn_started turn active)
view viewer (phase_changed phase) = some (phase_changed phase)
view viewer (priority_passed seat) = some (priority_passed seat)
view viewer (land_played seat id) = some (land_played seat id)
view viewer (cast seat id targets) = some (cast seat id targets)
view viewer (resolved id) = some (resolved id)
view viewer (tapped id) = some (tapped id)
view viewer (untapped id) = some (untapped id)
view viewer (mana_added seat mana amount) = some (mana_added seat mana amount)
view viewer (attacked seat attackers) = some (attacked seat attackers)
view viewer (blocked seat blocks) = some (blocked seat blocks)
view viewer (damage_assigned attacker assignments) = some (damage_assigned attacker assignments)
view viewer (damage source to amount combat) = some (damage source to amount combat)
view viewer (activated seat id ability targets) = some (activated seat id ability targets)
view viewer (triggered source description targets) = some (triggered source description targets)
view viewer (countered id) = some (countered id)
view viewer (sacrificed seat id) = some (sacrificed seat id)
view viewer (token_created seat id) = some (token_created seat id)
view viewer (counters_added id counter n) = some (counters_added id counter n)
view viewer (attached id to) = some (attached id to)
view viewer (life_changed seat from to) = some (life_changed seat from to)
view viewer (zone_change id from to) = some (zone_change id from to)
view viewer (discarded seat objects) = some (discarded seat objects)
view viewer (eliminated seat reason) = some (eliminated seat reason)
view viewer (game_over outcome) = some (game_over outcome)
