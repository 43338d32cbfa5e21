-- ===== src/Engine/Turn.antt =====
-- The untap step and cleanup of crates/engine/src/turn.rs, and `discard_to_hand_size` of
-- crates/engine/src/game.rs.
pub mod Discard
pub mod Untap
pub mod Untapped
use manaline.Prelude.{
  ◌==◌, ◌&&◌, ◌∷◌, ◌-◌, ◌%◌, if◌then◌else◌, [], ℕ, Bool, true, false, not, List, Option, none, some,
  length, retain, get_elem?, ltb, ◌||◌,
}
use manaline.Prelude.Maybe.{◌>>=◌}
use manaline.Prelude.Int.{pos}
use manaline.Engine.Objects.{
  graveyard, GameObject, Modifier, skip_untap, pt, keyword, restriction, end_of_turn, turn_of,
  next_untap_of, leaves_of,
}
use manaline.Engine.Objects.Arena.{get, modify, modify_all}
use manaline.Engine.Events.{untapped, discarded}
use manaline.Engine.Game.{Game, discard}
use manaline.Engine.Zones.{emit, move_object, with_player}

-- `m.expires == Expiry::EndOfTurn`
abbrev pub ends_now : Modifier → Bool
ends_now m = elim m.expires [
  | end_of_turn ↦ true
  | turn_of s ↦ false
  | next_untap_of s ↦ false
  | leaves_of o ↦ false
]

-- `finish_cleanup` of one object.
abbrev pub clean : GameObject → GameObject
clean o = record o {
  damage = pos 0;
  deathtouch_damaged = false;
  modifiers = retain (λ m. not (ends_now m)) o.modifiers;
}

-- `finish_cleanup`
unfoldable pub finish_cleanup : Game → Game
unfolding modify_all
finish_cleanup g = record g { objects = modify_all clean g.objects }

-- `is_eliminated`
abbrev pub is_eliminated : Game → ℕ → Option Bool
is_eliminated g seat = do
  p ← get_elem? g.players seat
  some (elim p.eliminated [ none ↦ false | some e ↦ true ])

-- `cleanup_step`; the count is cut to a `u8`.
unfoldable pub cleanup_step : Game → Option Game
unfolding finish_cleanup
cleanup_step g = do
  p ← get_elem? g.players g.active_player
  gone ← is_eliminated g g.active_player
  let hand = length p.hand
  let limit = g.format.max_hand_size
  some (
      if ltb limit hand && not gone
      then record g { pending = some (discard g.active_player ((hand - limit) % 256)) }
      else finish_cleanup g)

-- The loop of `discard_to_hand_size`.
unfoldable pub move_all : List ℕ → Game → Option Game
unfolding move_object
move_all [] g = some g
move_all (id ∷ ids) g = do moved ← move_object id graveyard g; move_all ids moved

-- `discard_to_hand_size`
unfoldable pub discard_to_hand_size : ℕ → List ℕ → Game → Option Game
unfolding move_all finish_cleanup
discard_to_hand_size seat ids g = do
  moved ← move_all ids g
  let told = emit (discarded seat ids) moved
  some (finish_cleanup (record told { pending = none }))

-- "Doesn't untap during its controller's next untap step."
abbrev pub holds : ℕ → Modifier → Bool
holds seat m = elim m.kind [
  | pt p t ↦ false
  | keyword k ↦ false
  | restriction r ↦ false
  | skip_untap ↦ elim m.expires [
    | end_of_turn ↦ false
    | turn_of s ↦ false
    | next_untap_of s ↦ s == seat
    | leaves_of o ↦ false
  ]
]

-- `modifiers.iter().any(hold)`
abbrev pub any_holds : ℕ → List Modifier → Bool
any_holds seat [] = false
any_holds seat (m ∷ ms) = holds seat m || any_holds seat ms

-- One permanent in the untap step, and whether it is untapped.
abbrev pub untaps : ℕ → GameObject → Bool
untaps seat o = o.tapped && not (any_holds seat o.modifiers)

abbrev pub untap_one : ℕ → GameObject → GameObject
untap_one seat o = record o {
  summoning_sick = false;
  modifiers = retain (λ m. not (holds seat m)) o.modifiers;
  tapped = if untaps seat o then false else o.tapped;
}

-- The loop of `untap_step`.
unfoldable pub untap_all : ℕ → List ℕ → Game → Option Game
unfolding modify
untap_all seat [] g = some g
untap_all seat (id ∷ ids) g = do
  o ← get id g.objects
  let done = record g { objects = modify id (untap_one seat) g.objects }
  untap_all seat ids (if untaps seat o then emit (untapped id) done else done)

-- `untap_step`
unfoldable pub untap_step : Game → Option Game
unfolding untap_all with_player
untap_step g = do
  p ← get_elem? g.players g.active_player
  done ← untap_all g.active_player p.battlefield g
  with_player g.active_player (λ q. record q { lands_played_this_turn = 0 }) done
