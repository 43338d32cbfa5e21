-- ===== src/Engine/Zones/Total.antt =====
-- A move between zones (crates/engine/src/game.rs) does not panic at a table where everybody sits.
use manaline.Engine.Events.{Event}
use manaline.Prelude.{
  ◌==◌, ◌||◌, ◌≡◌, ◌<◌, ◌∷◌, ◌++◌, if◌then◌else◌, [], ℕ, refl, ap, sym, ◌∙◌, subst, Bool, true,
  false, not, Option, some, List, length, length-set, get_elem?-some, set, retain,
}
use manaline.Prelude.Maybe.{◌>>=◌}
use manaline.Engine.Objects.{
  Zone, library, hand, battlefield, graveyard, exile, stack, command, out_of_game, zone_eq,
  GameObject, is_public,
}
use manaline.Engine.Objects.Arena.{get, modify, get-modify_self}
use manaline.Engine.Game.{Game, PlayerState, StackObject}
use manaline.Engine.Zones.{
  has_list, holder, arrive, with_player, with_zone_list, leave_zone, move_object, emit, zone_change,
  set_zone_list, zone_list,
}
use manaline.Engine.Zones.Lists.{by_zone}
use manaline.Engine.Zones.InStep.{IsSeated}

-- A step that succeeds and keeps the objects and the number of players.
abbrev pub Runs : Option Game → Game → Type 0
Runs r g =
    (g' : Game) × (r ≡ some g') × (g'.objects ≡ g.objects) × (length g'.players ≡ length g.players)

pub with_player-Runs :
    (seat : ℕ) (f : PlayerState → PlayerState) (g : Game)
    → seat < length g.players
    → Runs (with_player seat f g) g
unfolding with_player
with_player-Runs seat f g h =
    let (p, e) = get_elem?-some g.players seat h in
    (record g { players = set g.players seat (f p) }, cc e, refl, length-set g.players seat (f p))

with_zone_list-Runs :
    (id : ℕ) (z : Zone) (f : List ℕ → List ℕ) (g : Game) (o : GameObject)
    → get id g.objects ≡ some o
    → holder z o < length g.players
    → Runs (with_zone_list id z f g) g
unfolding with_zone_list
with_zone_list-Runs id z f g o found h =
    subst (λ r. Runs (r >>= step) g) (sym found) (by_list (has_list z))
  where
    step : GameObject → Option Game
    step q =
        if has_list z
        then with_player (holder z q) (λ p. set_zone_list z (f (zone_list z p)) p) g
        else some g

    by_list :
        (b : Bool)
        → Runs
            (if b
              then with_player (holder z o) (λ p. set_zone_list z (f (zone_list z p)) p) g
              else some g)
            g
    by_list true = with_player-Runs (holder z o) (λ p. set_zone_list z (f (zone_list z p)) p) g h
    by_list false = (g, refl, refl, refl)

leave_zone-Runs :
    (id : ℕ) (z : Zone) (g : Game) (o : GameObject)
    → get id g.objects ≡ some o
    → holder z o < length g.players
    → Runs (leave_zone id z g) g
unfolding leave_zone
leave_zone-Runs id stack g o found h = (
  record g { stack = retain (λ (s : StackObject). not (s.object == id)) g.stack },
  refl,
  refl,
  refl,
)
leave_zone-Runs id library g o found h =
    with_zone_list-Runs id library (retain (λ other. not (other == id))) g o found h
leave_zone-Runs id hand g o found h =
    with_zone_list-Runs id hand (retain (λ other. not (other == id))) g o found h
leave_zone-Runs id battlefield g o found h =
    with_zone_list-Runs id battlefield (retain (λ other. not (other == id))) g o found h
leave_zone-Runs id graveyard g o found h =
    with_zone_list-Runs id graveyard (retain (λ other. not (other == id))) g o found h
leave_zone-Runs id exile g o found h =
    with_zone_list-Runs id exile (retain (λ other. not (other == id))) g o found h
leave_zone-Runs id command g o found h =
    with_zone_list-Runs id command (retain (λ other. not (other == id))) g o found h
leave_zone-Runs id out_of_game g o found h =
    with_zone_list-Runs id out_of_game (retain (λ other. not (other == id))) g o found h

held : (n : ℕ) (o : GameObject) → o.owner < n → o.controller < n → (z : Zone) → holder z o < n
held n o a b = by_zone (λ z. holder z o < n) a a b a a a a a

length-announced :
    (b : Bool) (e : Event) (x : Game)
    → length (if b then emit e x else x).players ≡ length x.players
length-announced true e x = refl
length-announced false e x = refl

-- A move succeeds, and the same players sit at the table.
pub move_object-total :
    (id : ℕ) (to : Zone) (g : Game) (o : GameObject)
    → IsSeated g
    → get id g.objects ≡ some o
    → (g' : Game) × (move_object id to g ≡ some g') × (length g'.players ≡ length g.players)
unfolding move_object arrive
move_object-total id to g o seated found = by_zones (zone_eq o.zone to) refl
  where
    by_zones :
        (b : Bool)
        → zone_eq o.zone to ≡ b
        → (g' : Game) × (move_object id to g ≡ some g') × (length g'.players ≡ length g.players)
    by_zones true e = (g, cc (found, e), refl)
    by_zones false e =
        let (a, b) = seated id o found in
        let (left, e1, objects, n1) =
          leave_zone-Runs id o.zone g o found (held (length g.players) o a b o.zone) in
        let placed : Game = record left { objects = modify id (arrive to) left.objects } in
        let there : get id placed.objects ≡ some (arrive to o) =
          get-modify_self id (arrive to) left.objects o (ap (get id) objects ∙ found) in
        let (entered, e2, _, n2) =
          with_zone_list-Runs id to (λ ids. ids ++ id ∷ []) placed (arrive to o) there
            (subst (λ n. holder to (arrive to o) < n) (sym n1)
              (held (length g.players) (arrive to o) a b to)) in
        let announce = is_public o.zone || is_public to in
        (
          (if announce then emit (zone_change id o.zone to) entered else entered),
          cc (found, e, e1, e2),
          length-announced announce (zone_change id o.zone to) entered ∙ n2 ∙ n1,
        )
