-- ===== src/Engine/Zones/Move.antt =====
-- What `move_object` (crates/engine/src/game.rs) does to the objects and the lists.
use manaline.Engine.Events.{Event}
use manaline.Prelude.{
  ◌==◌, ◌&&◌, ◌≡◌, ◌∷◌, ◌++◌, if◌then◌else◌, [], ℕ, refl, ap, sym, ◌∙◌, Bool, true, false, not,
  Option, some, List, retain, ◌||◌,
}
use manaline.Prelude.Maybe.{◌>>=◌, >>=-eq_some}
use manaline.Engine.Objects.{
  Zone, library, hand, battlefield, graveyard, exile, stack, command, out_of_game, zone_eq,
  GameObject, is_public,
}
use manaline.Engine.Objects.Arena.{get, modify, get-modify_self}
use manaline.Engine.Game.{Game, StackObject}
use manaline.Engine.Zones.{
  has_list, holder, arrive, leave_zone, with_zone_list, move_object, emit, zone_change,
}
use manaline.Engine.Zones.Lists.{
  list_of, list_of-with_zone_list, by_zone, if_never, both_true, zone_eq_sound,
}

-- An object that arrives is held as it was.
pub holder-arrive : (to : Zone) (o : GameObject) → holder to (arrive to o) ≡ holder to o
unfolding arrive
holder-arrive to o =
    by_zone (λ z. holder z (arrive z o) ≡ holder z o) refl refl refl refl refl refl refl refl to

-- What is left of a list once the object is out of its zone.
abbrev pub left_list : Game → ℕ → GameObject → ℕ → Zone → List ℕ
left_list g id o s z =
    if zone_eq o.zone z && (holder o.zone o == s)
    then retain (λ other. not (other == id)) (list_of g s z)
    else list_of g s z

leave_zone-lists :
    (id : ℕ) (y : Zone) (g g' : Game) (o : GameObject)
    → get id g.objects ≡ some o
    → leave_zone id y g ≡ some g'
    → (g'.objects ≡ g.objects)
      × ((s : ℕ) (z : Zone)
          → has_list z ≡ true
          → list_of g' s z ≡ (
              if zone_eq y z && (holder y o == s)
              then retain (λ other. not (other == id)) (list_of g s z)
              else list_of g s z))
unfolding leave_zone
leave_zone-lists id stack g g' o found h =
    let k : record g { stack = retain (λ (s : StackObject). not (s.object == id)) g.stack } ≡ g' =
      cc h in
    (
      ap (λ (x : Game). x.objects) (sym k),
      λ s z l.
          ap (λ x. list_of x s z) (sym k)
          ∙ sym (
              if_never (zone_eq stack z && (o.owner == s))
                (retain (λ other. not (other == id)) (list_of g s z)) (list_of g s z)
                (λ t. cc (
                  ap has_list
                      (zone_eq_sound stack z (both_true (zone_eq stack z) (o.owner == s) t).0),
                  l,
                ))),
    )
leave_zone-lists id library g g' o found h =
    list_of-with_zone_list id library (retain (λ other. not (other == id))) g g' o found h
leave_zone-lists id hand g g' o found h =
    list_of-with_zone_list id hand (retain (λ other. not (other == id))) g g' o found h
leave_zone-lists id battlefield g g' o found h =
    list_of-with_zone_list id battlefield (retain (λ other. not (other == id))) g g' o found h
leave_zone-lists id graveyard g g' o found h =
    list_of-with_zone_list id graveyard (retain (λ other. not (other == id))) g g' o found h
leave_zone-lists id exile g g' o found h =
    list_of-with_zone_list id exile (retain (λ other. not (other == id))) g g' o found h
leave_zone-lists id command g g' o found h =
    list_of-with_zone_list id command (retain (λ other. not (other == id))) g g' o found h
leave_zone-lists id out_of_game g g' o found h =
    list_of-with_zone_list id out_of_game (retain (λ other. not (other == id))) g g' o found h

-- A trace of `move_object` that moved: the object arrived, and each list was left and entered.
unfoldable pub IsMoved : ℕ → Zone → GameObject → Game → Game → Type 0
unfolding modify arrive
IsMoved id to o g g' =
    (g'.objects ≡ modify id (arrive to) g.objects)
    × ((s : ℕ) (z : Zone)
        → has_list z ≡ true
        → list_of g' s z ≡ (
            if zone_eq to z && (holder to o == s)
            then left_list g id o s z ++ id ∷ []
            else left_list g id o s z))

list_of-announced :
    (b : Bool) (e : Event) (x : Game) (s : ℕ) (z : Zone)
    → list_of (if b then emit e x else x) s z ≡ list_of x s z
list_of-announced true e x s z = refl
list_of-announced false e x s z = refl

objects-announced :
    (b : Bool) (e : Event) (x : Game) → (if b then emit e x else x).objects ≡ x.objects
objects-announced true e x = refl
objects-announced false e x = refl

pub move_object-IsMoved :
    (id : ℕ) (to : Zone) (g g' : Game) (o : GameObject)
    → get id g.objects ≡ some o
    → zone_eq o.zone to ≡ false
    → move_object id to g ≡ some g'
    → IsMoved id to o g g'
unfolding move_object IsMoved
move_object-IsMoved id to g g' o found away h =
    let (left, e, h1) = >>=-eq_some (leave_zone id o.zone g) enter steps in
    let (entered, e1, k) =
      >>=-eq_some (with_zone_list id to (λ ids. ids ++ id ∷ []) (placed left))
        (λ x. some (announce x)) h1 in
    let k' : announce entered ≡ g' = cc k in
    let left_facts = leave_zone-lists id o.zone g left o found e in
    let there : get id (placed left).objects ≡ some (arrive to o) =
      get-modify_self id (arrive to) left.objects o (ap (get id) left_facts.0 ∙ found) in
    let facts =
      list_of-with_zone_list id to (λ ids. ids ++ id ∷ []) (placed left) entered (arrive to o) there
        e1 in
    (
      ap (λ (x : Game). x.objects) (sym k')
          ∙ objects-announced (is_public o.zone || is_public to) (zone_change id o.zone to) entered
          ∙ facts.0
          ∙ ap (modify id (arrive to)) left_facts.0,
      λ s z l.
          ap (λ x. list_of x s z) (sym k')
          ∙ list_of-announced (is_public o.zone || is_public to) (zone_change id o.zone to) entered
              s z
          ∙ facts.1 s z l
          ∙ ap
              (λ h.
                if zone_eq to z && (h == s) then list_of left s z ++ id ∷ [] else list_of left s z)
              (holder-arrive to o)
          ∙ ap (λ ys. if zone_eq to z && (holder to o == s) then ys ++ id ∷ [] else ys)
              (left_facts.1 s z l),
    )
  where
    placed : Game → Game
    placed left = record left { objects = modify id (arrive to) left.objects }

    announce : Game → Game
    announce entered =
        if is_public o.zone || is_public to
        then emit (zone_change id o.zone to) entered
        else entered

    enter : Game → Option Game
    enter left = do
      entered ← with_zone_list id to (λ ids. ids ++ id ∷ []) (placed left)
      some (announce entered)

    steps : (leave_zone id o.zone g >>= enter) ≡ some g'
    steps = cc (found, away, h)
