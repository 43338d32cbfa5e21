-- ===== src/Engine/Examples.antt =====
-- Tests of the engine modules, and their theorems at a small table.
use manaline.Prelude.{
  contains, position, ◌==◌, ◌≡◌, ◌<◌, ◌∷◌, if◌then◌else◌, [], ℕ, zero, suc, refl, subst, true,
  false, none, some, List, arith, length,
}
use manaline.Prelude.Int.{pos}
use manaline.Engine.Objects.{Zone, hand, battlefield, exile, GameObject}
use manaline.Engine.Objects.Arena.{get}
use manaline.Engine.Phases.{main1}
use manaline.Engine.Events.{drew, view}
use manaline.Engine.Events.View.{view-Alike, drawn}
use manaline.Formats.Examples.{cube}
use manaline.Engine.Game.{Game, PlayerState}
use manaline.Engine.Zones.{move_object, play_land}
use manaline.Engine.Zones.Draws.{draw-IsOrdered, size}
use manaline.Engine.Zones.{draw}
use manaline.Engine.Objects.{library}
use manaline.Engine.TurnOrder.{next_in_turn_order_after}
use manaline.Engine.TurnOrder.Round.{IsNextAfter, next_in_turn_order_after-IsNextAfter}
use manaline.Engine.Turn.Untapped.{IsAfterUntap, untap_step-IsOrdered}
use manaline.Engine.Objects.Arena.{insert_with_key, Objects}
use manaline.Engine.Objects.{new_object}
use manaline.Engine.Objects.Arena.Insert.{insert_with_key_lem}
use manaline.Engine.Turn.{untap_step, discard_to_hand_size}
use manaline.Engine.Turn.Discard.{IsBuried, discard_to_hand_size-IsOrdered}
use manaline.Prelude.{All}
use manaline.Engine.Zones.Lists.{by_zone, list_of}
use manaline.Engine.Zones.NewIn.{IsNewIn}
use manaline.Engine.Zones.InStep.{InStep, IsSeated, belongs, occurs}
use manaline.Engine.Zones.Safe.{IsOrdered, IsMovedTo, move_object-IsOrdered}
use manaline.Engine.Zones.PlayLand.{play_land-IsOrdered}

-- Seat 2 sees that seat 0 drew two cards, not which.
view-Alike_example : view (some 2) (drew 0 (7 ∷ 8 ∷ [])) ≡ view (some 2) (drew 0 (3 ∷ 4 ∷ []))
view-Alike_example =
    view-Alike (some 2) (drew 0 (7 ∷ 8 ∷ [])) (drew 0 (3 ∷ 4 ∷ [])) (drawn refl refl)

abbrev pub player_with : List ℕ → List ℕ → List ℕ → PlayerState
player_with deck ids permanents = record {
  name = [];
  life = pos 20;
  eliminated = none;
  library = deck;
  hand = ids;
  graveyard = [];
  exile = [];
  battlefield = permanents;
  command = [];
  commander_damage = [];
  commander_casts = [];
  mana_pool = record { amounts = 0 ∷ 0 ∷ 0 ∷ 0 ∷ 0 ∷ 0 ∷ [] };
  lands_played_this_turn = 0;
  poison = 0;
  mulligans = 0;
  drew_from_empty = false;
}

abbrev land_in_hand : GameObject
land_in_hand = record {
  id = 1;
  card = 4;
  owner = 0;
  controller = 0;
  zone = hand;
  tapped = false;
  summoning_sick = false;
  damage = pos 0;
  counters = record { plus1 = 0; minus1 = 0 };
  attached_to = none;
  attacking = none;
  blocking = [];
  blocked = false;
  blocked_by = [];
  modifiers = [];
  deathtouch_damaged = false;
  exiled_by = none;
  until_source_leaves = false;
}

-- The top card of the other player's library.
abbrev card_in_library : GameObject
card_in_library = record land_in_hand { id = 2; owner = 1; controller = 1; zone = library }

abbrev tapped_land : GameObject
tapped_land = record land_in_hand { id = 3; zone = battlefield; tapped = true }

-- Two players, one with a land in hand and a tapped one, the other with one card in the library.
abbrev pub table : Game
table = record {
  format = cube;
  turn = 1;
  seating = 0 ∷ 1 ∷ [];
  turn_order = 0 ∷ 1 ∷ [];
  active_player = 0;
  phase = main1;
  priority = some 0;
  passed_in_succession = 0;
  stack = [];
  players = player_with [] (1 ∷ []) (3 ∷ []) ∷ player_with (2 ∷ []) [] [] ∷ [];
  objects = record { items = land_in_hand ∷ card_in_library ∷ tapped_land ∷ [] };
  pending = none;
  log = [];
  rng = 0;
}

abbrev Fits : ℕ → ℕ → Zone → Type 0
Fits id seat z =
    occurs id (list_of table seat z) ≡ (if belongs (get id table.objects) seat z then 1 else 0)

table-InStep : InStep table
unfolding get
table-InStep id seat z l = fits id seat
  where
    fits : (id seat : ℕ) → Fits id seat z
    fits zero zero = by_zone (Fits 0 0) refl refl refl refl refl refl refl refl z
    fits zero (suc zero) = by_zone (Fits 0 1) refl refl refl refl refl refl refl refl z
    fits zero (suc (suc s)) = refl
    fits (suc zero) zero = by_zone (Fits 1 0) refl refl refl refl refl refl refl refl z
    fits (suc zero) (suc zero) = by_zone (Fits 1 1) refl refl refl refl refl refl refl refl z
    fits (suc zero) (suc (suc s)) =
        by_zone (Fits 1 (suc (suc s))) refl (ground arith) refl refl refl refl refl refl z
    fits (suc (suc zero)) zero = by_zone (Fits 2 0) refl refl refl refl refl refl refl refl z
    fits (suc (suc zero)) (suc zero) = by_zone (Fits 2 1) refl refl refl refl refl refl refl refl z
    fits (suc (suc zero)) (suc (suc s)) =
        by_zone (Fits 2 (suc (suc s))) (ground arith) refl refl refl refl refl refl refl z
    fits (suc (suc (suc zero))) zero = by_zone (Fits 3 0) refl refl refl refl refl refl refl refl z
    fits (suc (suc (suc zero))) (suc zero) =
        by_zone (Fits 3 1) refl refl refl refl refl refl refl refl z
    fits (suc (suc (suc zero))) (suc (suc s)) =
        by_zone (Fits 3 (suc (suc s))) refl refl (ground arith) refl refl refl refl refl z
    fits (suc (suc (suc (suc i)))) zero =
        by_zone (Fits (suc (suc (suc (suc i)))) 0) refl (ground arith) (ground arith) refl refl refl
          refl refl z
    fits (suc (suc (suc (suc i)))) (suc zero) =
        by_zone (Fits (suc (suc (suc (suc i)))) 1) (ground arith) refl refl refl refl refl refl refl
          z
    fits (suc (suc (suc (suc i)))) (suc (suc s)) = refl

table-IsSeated : IsSeated table
unfolding get
table-IsSeated zero o h = cc
table-IsSeated (suc zero) o h =
    let k : land_in_hand ≡ o = cc h in
    subst (λ (q : GameObject). (q.owner < 2) × (q.controller < 2)) k (omega arith, omega arith)
table-IsSeated (suc (suc zero)) o h =
    let k : card_in_library ≡ o = cc h in
    subst (λ (q : GameObject). (q.owner < 2) × (q.controller < 2)) k (omega arith, omega arith)
table-IsSeated (suc (suc (suc zero))) o h =
    let k : tapped_land ≡ o = cc h in
    subst (λ (q : GameObject). (q.owner < 2) × (q.controller < 2)) k (omega arith, omega arith)
table-IsSeated (suc (suc (suc (suc i)))) o h = cc

pub table-IsOrdered : IsOrdered table
table-IsOrdered = (table-InStep, table-IsSeated)

move_object-IsOrdered_example :
    (g' : Game) × (move_object 1 exile table ≡ some g')
    × IsOrdered g'
    × (length g'.players ≡ 2)
    × IsMovedTo 1 exile land_in_hand table g'
    × ((i : ℕ) → (1 == i) ≡ false → get i g'.objects ≡ get i table.objects)
unfolding get
move_object-IsOrdered_example =
    move_object-IsOrdered 1 exile table land_in_hand table-IsOrdered refl

play_land-IsOrdered_example :
    (g' : Game) × (play_land 0 1 table ≡ some g')
    × IsOrdered g'
    × ((q : GameObject) × (get 1 g'.objects ≡ some q) × IsNewIn battlefield land_in_hand q)
    × (g'.priority ≡ some 0)
unfolding get
play_land-IsOrdered_example =
    play_land-IsOrdered 0 1 table land_in_hand table-IsOrdered refl refl (omega arith)

-- Seat 1 draws two cards from a library of one.
draw-IsOrdered_example :
    (g' : Game) × (draw 1 2 table ≡ some g')
    × IsOrdered g'
    × (size g' 1 library ≡ 0)
    × (size g' 1 hand ≡ 1)
    × (length g'.players ≡ 2)
draw-IsOrdered_example = draw-IsOrdered 1 2 table table-IsOrdered (omega arith)

-- A table of four, where the seats 1 and 2 have left.
abbrev four_seats : Game
four_seats = record table { seating = 0 ∷ 1 ∷ 2 ∷ 3 ∷ []; turn_order = 0 ∷ 3 ∷ [] }

four_seats_next : next_in_turn_order_after 0 four_seats ≡ some 3
unfolding next_in_turn_order_after contains
four_seats_next = refl

next_in_turn_order_after-IsNextAfter_example :
    IsNextAfter 0 0 four_seats (next_in_turn_order_after 0 four_seats)
unfolding position
next_in_turn_order_after-IsNextAfter_example =
    next_in_turn_order_after-IsNextAfter 0 0 four_seats refl

discard_to_hand_size-IsOrdered_example :
    (g' : Game) × (discard_to_hand_size 0 (1 ∷ []) table ≡ some g')
    × IsOrdered g'
    × All (IsBuried g') (1 ∷ [])
    × (g'.pending ≡ none)
    × ((i : ℕ) (o : GameObject) → get i g'.objects ≡ some o → o.damage ≡ pos 0)
unfolding get
discard_to_hand_size-IsOrdered_example =
    discard_to_hand_size-IsOrdered 0 (1 ∷ []) table table-IsOrdered ((land_in_hand, refl), tt)

untap_step-IsOrdered_example :
    (g' : Game) × (untap_step table ≡ some g')
    × IsOrdered g'
    × ((i : ℕ) → IsAfterUntap 0 (occurs i (3 ∷ [])) (get i table.objects) (get i g'.objects))
untap_step-IsOrdered_example = untap_step-IsOrdered table table-IsOrdered (omega arith)

insert_with_key_lem_example :
    (objects' : Objects) × (id : ℕ) × (insert_with_key (λ i. new_object i 9 1) table.objects
      ≡ (objects', id))
    × (id ≡ length objects'.items)
    × (get id table.objects ≡ none)
    × (get id objects' ≡ some (new_object id 9 1))
    × ((i : ℕ) → (id == i) ≡ false → get i objects' ≡ get i table.objects)
insert_with_key_lem_example =
    insert_with_key_lem (λ i. new_object i 9 1) table.objects (omega arith)
