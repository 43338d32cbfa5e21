-- ===== src/Engine/Zones/Draw.antt =====
-- `draw` (crates/engine/src/game.rs): the top of the library to the hand, card by card.
use manaline.Prelude.{
  ◌==◌, ◌≡◌, ◌&&◌, ◌+◌, if◌then◌else◌, [], ◌∷◌, ◌++◌, ℕ, refl, ap, ◌∙◌, Bool, true, false, some,
  List, arith, count-append, get_elem?, set,
}
use manaline.Engine.Objects.{
  Zone, zone_eq, GameObject, battlefield, library, hand, graveyard, exile, stack, command,
  out_of_game,
}
use manaline.Engine.Objects.Arena.{get, modify}
use manaline.Engine.Game.{Game, PlayerState}
use manaline.Engine.Zones.{has_list, zone_list}
use manaline.Engine.Zones.InStep.{InStep, occurs}
use manaline.Engine.Zones.Send.{sent_game, sent_game-InStep, only_in, taken_count, given_count}

-- The game after the top card of a library was drawn.
unfoldable pub drawn_game : ℕ → PlayerState → List ℕ → ℕ → Game → Game
drawn_game seat p rest top g = record g {
  players = set g.players seat (record p { library = rest; hand = p.hand ++ top ∷ [] });
  objects = modify top (λ o. record o { zone = hand }) g.objects;
}

-- The counts in the lists of the player who drew.
drawn_counts :
    (p : PlayerState) (rest : List ℕ) (top i : ℕ) (z : Zone)
    → p.library ≡ rest ++ top ∷ []
    → ((y : Zone)
        → has_list y ≡ true
        → occurs top (zone_list y p) ≡ (if zone_eq library y then 1 else 0))
    → has_list z ≡ true
    → occurs i (zone_list z (record p { library = rest; hand = p.hand ++ top ∷ [] }))
      ≡ (if top == i then 0 else occurs i (zone_list z p))
        + (if zone_eq hand z && (top == i) then 1 else 0)
drawn_counts p rest top i z popped tops l = by_list z l
  where
    same : (top == i) ≡ true → (ids : List ℕ) → occurs i ids ≡ occurs top ids
    same e ids = let k : i ≡ top = ground arith in ap (λ j. occurs j ids) k

    in_library : occurs i p.library ≡ occurs i rest + occurs i (top ∷ [])
    in_library = ap (occurs i) popped ∙ count-append (λ x. x == i) rest (top ∷ [])

    in_hand : occurs i (p.hand ++ top ∷ []) ≡ occurs i p.hand + occurs i (top ∷ [])
    in_hand = count-append (λ x. x == i) p.hand (top ∷ [])

    elsewhere :
        (b : Bool) (ids : List ℕ)
        → (top == i) ≡ b
        → occurs top ids ≡ 0
        → occurs i ids ≡ (if b then 0 else occurs i ids) + 0
    elsewhere true ids e none_there = omega (arith, same e ids)
    elsewhere false ids e none_there = omega arith

    by_list :
        (y : Zone)
        → has_list y ≡ true
        → occurs i (zone_list y (record p { library = rest; hand = p.hand ++ top ∷ [] }))
          ≡ (if top == i then 0 else occurs i (zone_list y p))
            + (if zone_eq hand y && (top == i) then 1 else 0)
    by_list library k =
        taken_count (top == i) (occurs i rest) (occurs i p.library) in_library
          (λ e. same e p.library ∙ tops library refl)
    by_list hand k =
        given_count (top == i) (occurs i p.hand) (occurs i (p.hand ++ top ∷ [])) in_hand
          (λ e. same e p.hand ∙ tops hand refl)
    by_list battlefield k = elsewhere (top == i) p.battlefield refl (tops battlefield refl)
    by_list graveyard k = elsewhere (top == i) p.graveyard refl (tops graveyard refl)
    by_list exile k = elsewhere (top == i) p.exile refl (tops exile refl)
    by_list command k = elsewhere (top == i) p.command refl (tops command refl)
    by_list stack k = cc
    by_list out_of_game k = cc

-- One drawn card keeps the lists and the objects in step.
pub drawn_game-InStep :
    (seat : ℕ) (p : PlayerState) (rest : List ℕ) (top : ℕ) (g : Game) (o : GameObject)
    → InStep g
    → get_elem? g.players seat ≡ some p
    → p.library ≡ rest ++ top ∷ []
    → get top g.objects ≡ some o
    → o.zone ≡ library
    → o.owner ≡ seat
    → InStep (drawn_game seat p rest top g)
unfolding drawn_game sent_game
drawn_game-InStep seat p rest top g o h at popped found zoned owned =
    sent_game-InStep seat top library hand p
      (record p { library = rest; hand = p.hand ++ top ∷ [] }) g o h at found zoned owned owned refl
      (λ i z l.
        drawn_counts p rest top i z popped (only_in seat top library p g o h at found zoned owned)
          l)
