-- ===== src/Engine/Zones/Keeps.antt =====
-- `move_object` (crates/engine/src/game.rs) keeps the zone lists and the objects in step.
use manaline.Prelude.{
  ◌==◌, ◌&&◌, ◌≡◌, ◌∷◌, ◌++◌, ◌+◌, if◌then◌else◌, [], ℕ, refl, ap, sym, ◌∙◌, Bool, true, false, not,
  some, List, arith, count-append, count-retain, retain,
}
use manaline.Engine.Objects.{Zone, zone_eq, GameObject}
use manaline.Engine.Objects.Arena.{get, get-modify_self, get-modify_other, modify}
use manaline.Engine.Game.{Game}
use manaline.Engine.Zones.{has_list, holder, arrive, move_object}
use manaline.Engine.Zones.Lists.{list_of, if_cong}
use manaline.Engine.Zones.InStep.{InStep, belongs, occurs}
use manaline.Engine.Zones.Move.{IsMoved, move_object-IsMoved, left_list, holder-arrive}

occurs-cleared :
    (b : Bool) (id i : ℕ) (xs : List ℕ)
    → occurs id xs ≡ (if b then 1 else 0)
    → occurs i (if b then retain (λ other. not (other == id)) xs else xs)
      ≡ (if id == i then 0 else occurs i xs)
occurs-cleared true id i xs h = count-retain id i xs
occurs-cleared false id i xs h =
    sym (if_cong (id == i) 0 (occurs i xs) (occurs i xs) same ∙ if_same (id == i))
  where
    same : (id == i) ≡ true → 0 ≡ occurs i xs
    same e = let q : id ≡ i = ground arith in sym h ∙ ap (λ j. occurs j xs) q

    if_same : (b : Bool) → (if b then occurs i xs else occurs i xs) ≡ occurs i xs
    if_same true = refl
    if_same false = refl

occurs-entered :
    (b : Bool) (id i : ℕ) (ys : List ℕ)
    → occurs i (if b then ys ++ id ∷ [] else ys) ≡ occurs i ys + (if b && (id == i) then 1 else 0)
occurs-entered true id i ys = ground (arith, count-append (λ x. x == i) ys (id ∷ []))
occurs-entered false id i ys = omega arith

-- How often an id is in a list of a game that moved `id`.
occurs-moved :
    (id i : ℕ) (to : Zone) (o : GameObject) (g g' : Game) (s : ℕ) (z : Zone)
    → InStep g
    → has_list z ≡ true
    → get id g.objects ≡ some o
    → IsMoved id to o g g'
    → occurs i (list_of g' s z)
      ≡ (if id == i then 0 else occurs i (list_of g s z))
        + (if (zone_eq to z && (holder to o == s)) && (id == i) then 1 else 0)
unfolding IsMoved
occurs-moved id i to o g g' s z h l found moved =
    ap (occurs i) (moved.1 s z l)
    ∙ occurs-entered (zone_eq to z && (holder to o == s)) id i (left_list g id o s z)
    ∙ ap (λ n. n + (if (zone_eq to z && (holder to o == s)) && (id == i) then 1 else 0))
        (occurs-cleared (zone_eq o.zone z && (holder o.zone o == s)) id i (list_of g s z)
          (h id s z l ∙ ap (λ r. if belongs r s z then 1 else 0) found))

sum_same :
    (c a b : Bool) (n : ℕ)
    → c ≡ true
    → b ≡ a
    → (if c then 0 else n) + (if a && c then 1 else 0) ≡ (if b then 1 else 0)
sum_same true true b n e k = ap (λ x. if x then 1 else 0) (sym k)
sum_same true false b n e k = ap (λ x. if x then 1 else 0) (sym k)
sum_same false a b n e k = cc

sum_other : (c a : Bool) (n : ℕ) → c ≡ false → (if c then 0 else n) + (if a && c then 1 else 0) ≡ n
sum_other true a n e = cc
sum_other false true n e = omega arith
sum_other false false n e = omega arith

-- An object that changes its zone by `change`, and the lists with it, keeps them in step.
pub changed-InStep :
    (change : GameObject → GameObject) (id : ℕ) (to : Zone) (o : GameObject) (g g' : Game)
    → InStep g
    → get id g.objects ≡ some o
    → (change o).zone ≡ to
    → holder to (change o) ≡ holder to o
    → g'.objects ≡ modify id change g.objects
    → ((i s : ℕ) (z : Zone)
        → has_list z ≡ true
        → occurs i (list_of g' s z)
          ≡ (if id == i then 0 else occurs i (list_of g s z))
            + (if (zone_eq to z && (holder to o == s)) && (id == i) then 1 else 0))
    → InStep g'
changed-InStep change id to o g g' h found zoned kept objects counts i s z l = by_id (id == i) refl
  where
    mine : (id == i) ≡ true → belongs (get i g'.objects) s z ≡ (zone_eq to z && (holder to o == s))
    mine e =
        let q : i ≡ id = ground arith in
        ap (λ j. belongs (get j g'.objects) s z) q
        ∙ ap (λ r. belongs r s z)
            (ap (get id) objects ∙ get-modify_self id change g.objects o found)
        ∙ ap (λ x. zone_eq x z && (holder x (change o) == s)) zoned
        ∙ ap (λ n. zone_eq to z && (n == s)) kept

    other : (id == i) ≡ false → get i g'.objects ≡ get i g.objects
    other e = ap (get i) objects ∙ get-modify_other id i change g.objects e

    by_id :
        (b : Bool)
        → (id == i) ≡ b
        → occurs i (list_of g' s z) ≡ (if belongs (get i g'.objects) s z then 1 else 0)
    by_id true e =
        counts i s z l
        ∙ sum_same (id == i) (zone_eq to z && (holder to o == s)) (belongs (get i g'.objects) s z)
            (occurs i (list_of g s z)) e (mine e)
    by_id false e =
        counts i s z l
        ∙ sum_other (id == i) (zone_eq to z && (holder to o == s)) (occurs i (list_of g s z)) e
        ∙ h i s z l
        ∙ ap (λ r. if belongs r s z then 1 else 0) (sym (other e))

IsMoved-InStep :
    (id : ℕ) (to : Zone) (o : GameObject) (g g' : Game)
    → InStep g
    → get id g.objects ≡ some o
    → IsMoved id to o g g'
    → InStep g'
unfolding IsMoved arrive
IsMoved-InStep id to o g g' h found moved =
    changed-InStep (arrive to) id to o g g' h found refl (holder-arrive to o) moved.0
      (λ i s z l. occurs-moved id i to o g g' s z h l found moved)

-- `move_object` keeps the lists and the objects in step.
pub move_object-InStep :
    (id : ℕ) (to : Zone) (g g' : Game) (o : GameObject)
    → get id g.objects ≡ some o
    → move_object id to g ≡ some g'
    → InStep g
    → InStep g'
unfolding move_object
move_object-InStep id to g g' o found h step = by_zones (zone_eq o.zone to) refl
  where
    by_zones : (b : Bool) → zone_eq o.zone to ≡ b → InStep g'
    by_zones true e =
        let k : g ≡ g' = cc (found, e, h) in
        λ i s z l.
          ap (λ x. occurs i (list_of x s z)) (sym k)
          ∙ step i s z l
          ∙ ap (λ x. if belongs (get i x.objects) s z then 1 else 0) k
    by_zones false e =
        IsMoved-InStep id to o g g' step found (move_object-IsMoved id to g g' o found e h)
