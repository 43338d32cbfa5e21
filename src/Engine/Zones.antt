-- ===== src/Engine/Zones.antt =====
-- The moves between zones: `zone_list_mut`, `move_object`, `draw`, `play_land` and
-- `discard_to_hand_size` of crates/engine/src/game.rs, the mulligan of crates/engine/src/mulligan.rs,
-- and the untap step and the end of cleanup of crates/engine/src/turn.rs. A panic is `none`.
pub mod Lists
pub mod InStep
pub mod Move
pub mod Keeps
pub mod Total
pub mod NewIn
pub mod Safe
pub mod PlayLand
pub mod Send
pub mod Draw
pub mod Draws
pub mod Dealt
use manaline.Prelude.{
  ◌==◌, ◌||◌, ◌+◌, ◌%◌, ◌∷◌, ◌++◌, if◌then◌else◌, [], ℕ, zero, suc, Bool, true, false, not, Option,
  none, some, List, get_elem?, set, retain, pop,
}
use manaline.Prelude.Maybe.{◌>>=◌}
use manaline.Engine.Objects.{
  Zone, library, hand, battlefield, graveyard, exile, stack, command, out_of_game, zone_eq,
  is_public, GameObject, reset_zone_state,
}
use manaline.Engine.Objects.Arena.{get, modify}
use manaline.Engine.Events.{Event, drew, zone_change, land_played}
use manaline.Engine.Game.{Game, PlayerState}

-- The zones that are lists of a player; a move elsewhere edits no list of a player.
abbrev pub has_list : Zone → Bool
has_list stack = false
has_list out_of_game = false
has_list _ = true

abbrev pub zone_list : Zone → PlayerState → List ℕ
zone_list library p = p.library
zone_list hand p = p.hand
zone_list battlefield p = p.battlefield
zone_list graveyard p = p.graveyard
zone_list exile p = p.exile
zone_list command p = p.command
zone_list _ p = []

abbrev pub set_zone_list : Zone → List ℕ → PlayerState → PlayerState
set_zone_list library ids p = record p { library = ids }
set_zone_list hand ids p = record p { hand = ids }
set_zone_list battlefield ids p = record p { battlefield = ids }
set_zone_list graveyard ids p = record p { graveyard = ids }
set_zone_list exile ids p = record p { exile = ids }
set_zone_list command ids p = record p { command = ids }
set_zone_list _ ids p = p

-- Whose list of the zone an object is in: the battlefield is the controller's, the rest the owner's.
abbrev pub holder : Zone → GameObject → ℕ
holder battlefield o = o.controller
holder _ o = o.owner

-- `emit`
abbrev pub emit : Event → Game → Game
emit event g = record g { log = g.log ++ event ∷ [] }

-- A change of `self.players[seat.index()]`.
unfoldable pub with_player : ℕ → (PlayerState → PlayerState) → Game → Option Game
with_player seat f g = do
  p ← get_elem? g.players seat
  some (record g { players = set g.players seat (f p) })

-- A change through `zone_list_mut`.
unfoldable pub with_zone_list : ℕ → Zone → (List ℕ → List ℕ) → Game → Option Game
unfolding with_player
with_zone_list id zone f g = do
  o ← get id g.objects
  if has_list zone
      then with_player (holder zone o) (λ p. set_zone_list zone (f (zone_list zone p)) p) g
      else some g

-- The first part of `move_object`: out of the zone that the object is in.
unfoldable pub leave_zone : ℕ → Zone → Game → Option Game
unfolding retain with_zone_list
leave_zone id stack g = some (record g { stack = retain (λ s. not (s.object == id)) g.stack })
leave_zone id zone g = with_zone_list id zone (retain (λ other. not (other == id))) g

-- The object is a new one, in the zone `to`.
unfoldable pub arrive : Zone → GameObject → GameObject
unfolding reset_zone_state
arrive to o = record (reset_zone_state o) { zone = to }

-- `move_object`
unfoldable pub move_object : ℕ → Zone → Game → Option Game
unfolding leave_zone with_zone_list arrive get modify is_public
move_object id to g = do
  o ← get id g.objects
  if zone_eq o.zone to then some g else do
    left ← leave_zone id o.zone g
    let placed = record left { objects = modify id (arrive to) left.objects }
    entered ← with_zone_list id to (λ ids. ids ++ id ∷ []) placed
    some (
        if is_public o.zone || is_public to
        then emit (zone_change id o.zone to) entered
        else entered)

-- The loop of `draw`, with the cards drawn so far.
unfoldable pub draw_loop : ℕ → ℕ → List ℕ → Game → Option (Game × List ℕ)
unfolding pop modify
draw_loop seat zero drawn g = some (g, drawn)
draw_loop seat (suc n) drawn g = do
  p ← get_elem? g.players seat
  elim (pop p.library) [
    | none ↦ do
      let flagged = record p { drew_from_empty = true }
      draw_loop seat n drawn (record g { players = set g.players seat flagged })
    | some top ↦ do
      o ← get top.1 g.objects
      let q = record p { library = top.0; hand = p.hand ++ top.1 ∷ [] }
      draw_loop seat n (drawn ++ top.1 ∷ []) (record g {
        players = set g.players seat q;
        objects = modify top.1 (λ o. record o { zone = hand }) g.objects;
      })
  ]

-- `draw`
unfoldable pub draw : ℕ → ℕ → Game → Option Game
unfolding draw_loop
draw seat n g = do
  (drawn_game, cards) ← draw_loop seat n [] g
  some (elim cards [ [] ↦ drawn_game | c ∷ cs ↦ emit (drew seat (c ∷ cs)) drawn_game ])

-- `give_priority`
abbrev pub give_priority : ℕ → Game → Game
give_priority seat g = record g { priority = some seat; passed_in_succession = 0 }

-- `play_land`; the count of lands is a `u8`.
unfoldable pub play_land : ℕ → ℕ → Game → Option Game
unfolding move_object with_player modify
play_land seat object g = do
  o ← get object g.objects
  let mine = record g { objects = modify object (λ o. record o { controller = seat }) g.objects }
  moved ← move_object object battlefield mine
  counted ←
      with_player seat
        (λ p. record p { lands_played_this_turn = (p.lands_played_this_turn + 1) % 256 }) moved
  some (give_priority seat (emit (land_played seat object) counted))
