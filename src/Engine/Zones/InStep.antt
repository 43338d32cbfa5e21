-- ===== src/Engine/Zones/InStep.antt =====
-- The invariant that the comment on `move_object` (crates/engine/src/game.rs) names: the zone lists and
-- the zone fields of the objects are in step.
use manaline.Prelude.{
  ◌==◌, ◌&&◌, ◌≡◌, ◌<◌, length, false, if◌then◌else◌, ℕ, Bool, true, Option, none, some, List,
  count,
}
use manaline.Engine.Objects.{Zone, zone_eq, GameObject}
use manaline.Engine.Objects.Arena.{get}
use manaline.Engine.Game.{Game}
use manaline.Engine.Zones.{has_list, holder}
use manaline.Engine.Zones.Lists.{list_of}

abbrev pub occurs : ℕ → List ℕ → ℕ
occurs id ids = count (λ x. x == id) ids

-- Whether an object belongs in the list of a zone that a seat holds.
abbrev pub belongs : Option GameObject → ℕ → Zone → Bool
belongs none seat z = false
belongs (some o) seat z = zone_eq o.zone z && (holder o.zone o == seat)

-- An object is once in the list of its zone that its holder has, and in no other list; an id that
-- is no object is in none.
abbrev pub InStep : Game → Type 0
InStep g =
    (id seat : ℕ) (z : Zone)
    → has_list z ≡ true
    → occurs id (list_of g seat z) ≡ (if belongs (get id g.objects) seat z then 1 else 0)

-- Every object's owner and controller sit at the table.
abbrev pub IsSeated : Game → Type 0
IsSeated g =
    (id : ℕ) (o : GameObject)
    → get id g.objects ≡ some o
    → (o.owner < length g.players) × (o.controller < length g.players)
