-- ===== src/Engine/Zones/Safe.antt =====
-- The contract of `move_object` (crates/engine/src/game.rs), and of a sequence of moves such as
-- `discard_to_hand_size`.
use manaline.Prelude.{
  ◌⊎◌, inl, inr, ◌≢◌, ◌==◌, ◌≡◌, ◌<◌, if◌then◌else◌, ℕ, refl, ap, sym, ◌∙◌, subst, Bool, true,
  false, some, arith, length,
}
use manaline.Engine.Objects.{Zone, zone_eq, GameObject}
use manaline.Engine.Objects.Arena.{get, get-modify_self, get-modify_other}
use manaline.Engine.Game.{Game}
use manaline.Engine.Zones.{arrive, move_object}
use manaline.Engine.Zones.NewIn.{IsNewIn, arrive-IsNewIn, zone_eq-Bool}
use manaline.Engine.Zones.InStep.{InStep, IsSeated}
use manaline.Engine.Zones.Move.{IsMoved, move_object-IsMoved}
use manaline.Engine.Zones.Keeps.{move_object-InStep}
use manaline.Engine.Zones.Total.{move_object-total}

-- The object after a move to `to`.
abbrev pub arrived : Zone → GameObject → GameObject
arrived to o = if zone_eq o.zone to then o else arrive to o

abbrev pub Sits : ℕ → GameObject → Type 0
Sits n o = (o.owner < n) × (o.controller < n)

arrived-Sits :
    (n : ℕ) (to : Zone) (o : GameObject) (b : Bool)
    → Sits n o
    → Sits n (if b then o else arrive to o)
unfolding arrive
arrived-Sits n to o true h = h
arrived-Sits n to o false h = h

-- What a successful move does to the objects.
move_object-objects :
    (id : ℕ) (to : Zone) (g g' : Game) (o : GameObject)
    → get id g.objects ≡ some o
    → move_object id to g ≡ some g'
    → (get id g'.objects ≡ some (arrived to o))
      × ((i : ℕ) → (id == i) ≡ false → get i g'.objects ≡ get i g.objects)
unfolding move_object IsMoved
move_object-objects id to g g' o found h = by_zones (zone_eq o.zone to) refl
  where
    by_zones :
        (b : Bool)
        → zone_eq o.zone to ≡ b
        → (get id g'.objects ≡ some (arrived to o))
          × ((i : ℕ) → (id == i) ≡ false → get i g'.objects ≡ get i g.objects)
    by_zones true e =
        let k : g' ≡ g = cc (found, e, h) in
        (
          ap (λ (x : Game). get id x.objects) k
              ∙ found
              ∙ ap (λ b. some (if b then o else arrive to o)) (sym e),
          λ i _. ap (λ (x : Game). get i x.objects) k,
        )
    by_zones false e =
        let moved = move_object-IsMoved id to g g' o found e h in
        (
          ap (get id) moved.0
              ∙ get-modify_self id (arrive to) g.objects o found
              ∙ ap (λ b. some (if b then o else arrive to o)) (sym e),
          λ i ne. ap (get i) moved.0 ∙ get-modify_other id i (arrive to) g.objects ne,
        )

-- One object changed to one that sits at the table, and the others as before.
pub changed-IsSeated :
    (id : ℕ) (q : GameObject) (g g' : Game)
    → get id g'.objects ≡ some q
    → ((i : ℕ) → (id == i) ≡ false → get i g'.objects ≡ get i g.objects)
    → length g'.players ≡ length g.players
    → Sits (length g.players) q
    → IsSeated g
    → IsSeated g'
changed-IsSeated id q g g' changed others n h seated i p at =
    subst (λ m. Sits m p) (sym n) (by_id (id == i) refl)
  where
    by_id : (b : Bool) → (id == i) ≡ b → Sits (length g.players) p
    by_id true e =
        let k : i ≡ id = ground arith in
        let same : q ≡ p = cc (k, at, changed) in subst (Sits (length g.players)) same h
    by_id false e = seated i p (sym (others i e) ∙ at)

move_object-IsSeated :
    (id : ℕ) (to : Zone) (g g' : Game) (o : GameObject)
    → get id g.objects ≡ some o
    → move_object id to g ≡ some g'
    → length g'.players ≡ length g.players
    → IsSeated g
    → IsSeated g'
move_object-IsSeated id to g g' o found h n seated =
    let (here, others) = move_object-objects id to g g' o found h in
    changed-IsSeated id (arrived to o) g g' here others n
      (arrived-Sits (length g.players) to o (zone_eq o.zone to) (seated id o found)) seated

-- A table in order: the lists and the objects are in step, and everybody sits.
abbrev pub IsOrdered : Game → Type 0
IsOrdered g = InStep g × IsSeated g

-- A move of an object at a table in order, with the object as the code leaves it.
pub move_object_settles :
    (id : ℕ) (to : Zone) (g : Game) (o : GameObject)
    → IsOrdered g
    → get id g.objects ≡ some o
    → (g' : Game) × (move_object id to g ≡ some g')
      × IsOrdered g'
      × (length g'.players ≡ length g.players)
      × (get id g'.objects ≡ some (arrived to o))
      × ((i : ℕ) → (id == i) ≡ false → get i g'.objects ≡ get i g.objects)
move_object_settles id to g o h found =
    let (g', e, n) = move_object-total id to g o h.1 found in
    let facts = move_object-objects id to g g' o found e in
    (
      g',
      e,
      (
        move_object-InStep id to g g' o found e h.0,
        move_object-IsSeated id to g g' o found e n h.1,
      ),
      n,
      facts.0,
      facts.1,
    )

-- A move to the zone where the object is changes nothing; a move to another makes it a new object there.
abbrev pub IsMovedTo : ℕ → Zone → GameObject → Game → Game → Type 0
IsMovedTo id to o g g' =
    ((o.zone ≡ to) × (g' ≡ g))
    ⊎ ((o.zone ≢ to) × (q : GameObject) × (get id g'.objects ≡ some q) × IsNewIn to o q)

-- A move of an object at a table in order succeeds. A move to the zone where the object is changes nothing
-- at all. A move to another zone leaves a new object there: it has the id, the card, the owner and the
-- controller of the old one, it is untapped, not summoning sick, without damage, counters, attachment,
-- modifiers and marks of combat or exile. Every other object is as it was, as many players sit at the
-- table, and it is in order again.
pub move_object-IsOrdered :
    (id : ℕ) (to : Zone) (g : Game) (o : GameObject)
    → IsOrdered g
    → get id g.objects ≡ some o
    → (g' : Game) × (move_object id to g ≡ some g')
      × IsOrdered g'
      × (length g'.players ≡ length g.players)
      × IsMovedTo id to o g g'
      × ((i : ℕ) → (id == i) ≡ false → get i g'.objects ≡ get i g.objects)
unfolding move_object
move_object-IsOrdered id to g o h found =
    let (g', e, ordered, n, here, others) = move_object_settles id to g o h found in
    (g', e, ordered, n, by_zones g' e here (zone_eq-Bool o.zone to), others)
  where
    by_zones :
        (g' : Game)
        → move_object id to g ≡ some g'
        → get id g'.objects ≡ some (arrived to o)
        → ((zone_eq o.zone to ≡ true) × (o.zone ≡ to))
          ⊎ ((zone_eq o.zone to ≡ false) × (o.zone ≢ to))
        → IsMovedTo id to o g g'
    by_zones g' e here (inl same) = inl (same.1, cc (found, same.0, e))
    by_zones g' e here (inr apart) =
        let reset : arrived to o ≡ arrive to o = ap (λ b. if b then o else arrive to o) apart.0 in
        inr (apart.1, arrive to o, here ∙ ap some reset, arrive-IsNewIn to o)
