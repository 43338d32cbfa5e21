-- ===== src/Engine/Mulligan.antt =====
-- The London mulligan of crates/engine/src/mulligan.rs, with `shuffle_library` of
-- crates/engine/src/game.rs. The shuffle of the crate `rand`, from the state of the generator and a list
-- to the shuffled list and the next state, is a parameter. A panic is `none`.
pub mod Again
pub mod Bottom
pub mod Keep
pub mod Next
mod Examples
use manaline.Prelude.{
  ◌==◌, ◌∷◌, ◌++◌, ◌+◌, ◌-◌, ◌%◌, if◌then◌else◌, [], ℕ, zero, suc, min, Bool, not, Option, none,
  some, List, ltb, length, get_elem?, set, retain, position,
}
use manaline.Prelude.Maybe.{◌>>=◌}
use manaline.Formats.{MulliganRule, london}
use manaline.Engine.Objects.{library}
use manaline.Engine.Objects.Arena.{get, modify}
use manaline.Engine.Events.{shuffled, mulligan_taken, hand_kept, bottomed}
use manaline.Engine.Game.{Game, PlayerState, mulligan}
use manaline.Engine.Game
use manaline.Engine.Zones.{emit, with_player, draw}
use manaline.Engine.Turn.{is_eliminated}

-- `self.seating[pos + 1..]`: a panic if it starts behind the end.
abbrev pub behind : ℕ → List ℕ → Option (List ℕ)
behind zero seats = some seats
behind (suc n) [] = none
behind (suc n) (s ∷ seats) = behind n seats

-- The first of these seats that is still in the game.
unfoldable pub first_in_game : Game → List ℕ → Option (Option ℕ)
first_in_game g [] = some none
first_in_game g (s ∷ seats) = do
  gone ← is_eliminated g s
  if gone then first_in_game g seats else some (some s)

-- `position(|s| s == seat).unwrap_or(0)`
unfoldable pub place_of : ℕ → List ℕ → ℕ
unfolding position
place_of seat seating = elim (position (λ s. s == seat) seating) [ none ↦ 0 | some pos ↦ pos ]

-- `advance_mulligan`
unfoldable pub advance_mulligan : ℕ → Game → Option Game
unfolding place_of first_in_game
advance_mulligan seat g = do
  later ← behind (suc (place_of seat g.seating)) g.seating
  next ← first_in_game g later
  some (record g { pending = elim next [ none ↦ none | some s ↦ some (mulligan s) ] })

-- The loop that puts the hand on top of the library.
unfoldable pub put_back : ℕ → List ℕ → Game → Option Game
unfolding get modify
put_back seat [] g = some g
put_back seat (id ∷ ids) g = do
  o ← get id g.objects
  p ← get_elem? g.players seat
  put_back seat ids (record g {
    players = set g.players seat (record p { library = p.library ++ id ∷ [] });
    objects = modify id (λ o. record o { zone = library }) g.objects;
  })

-- The loop of `bottom_cards`.
unfoldable pub put_under : ℕ → List ℕ → Game → Option Game
unfolding get modify retain
put_under seat [] g = some g
put_under seat (id ∷ ids) g = do
  p ← get_elem? g.players seat
  o ← get id g.objects
  put_under seat ids (record g {
    players =
        set g.players seat
          (record p { hand = retain (λ h. not (h == id)) p.hand; library = id ∷ p.library });
    objects = modify id (λ o. record o { zone = library }) g.objects;
  })

-- `bottom_cards`
unfoldable pub bottom_cards : ℕ → List ℕ → Game → Option Game
unfolding put_under advance_mulligan
bottom_cards seat ids g = do
  under ← put_under seat ids g
  advance_mulligan seat (emit (bottomed seat (length ids % 256)) under)

-- The cards to put under the library for the mulligans taken; a hand is counted in a `u8`.
unfoldable pub to_bottom : MulliganRule → ℕ → ℕ → ℕ
to_bottom (london free_first) taken held =
    min (if free_first then taken - 1 else taken) (held % 256)

-- `mulligan` with `keep`
unfoldable pub keep_hand : ℕ → Game → Option Game
unfolding to_bottom advance_mulligan
keep_hand seat g = do
  p ← get_elem? g.players seat
  let bottom = to_bottom g.format.mulligan p.mulligans (length p.hand)
  let kept = emit (hand_kept seat (length p.hand % 256)) g
  if ltb 0 bottom
      then some (record kept { pending = some (Game.bottom_cards seat bottom) })
      else advance_mulligan seat kept

module _ (shuffle : ℕ → List ℕ → List ℕ × ℕ) where
  -- `shuffle_library`
  unfoldable pub shuffle_library : ℕ → Game → Option Game
  shuffle_library seat g = do
    p ← get_elem? g.players seat
    let (shuffled_library, rng) = shuffle g.rng p.library
    some (
        emit (shuffled seat) (record g {
          players = set g.players seat (record p { library = shuffled_library });
          rng = rng;
        }))

  -- `mulligan` without `keep`; the count of mulligans is a `u8`.
  unfoldable pub mulligan_again : ℕ → Game → Option Game
  unfolding put_back with_player shuffle_library draw
  mulligan_again seat g = do
    p ← get_elem? g.players seat
    emptied ← with_player seat (λ q. record q { hand = [] }) g
    returned ← put_back seat p.hand emptied
    counted ← with_player seat (λ q. record q { mulligans = (q.mulligans + 1) % 256 }) returned
    mixed ← shuffle_library seat counted
    drawn ← draw seat mixed.format.starting_hand mixed
    q ← get_elem? drawn.players seat
    some (emit (mulligan_taken seat (drawn.format.starting_hand - q.mulligans)) drawn)

  -- `Game::mulligan`
  unfoldable pub decide_mulligan : ℕ → Bool → Game → Option Game
  unfolding keep_hand mulligan_again
  decide_mulligan seat keep g = if keep then keep_hand seat g else mulligan_again seat g
