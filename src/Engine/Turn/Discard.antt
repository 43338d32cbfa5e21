-- ===== src/Engine/Turn/Discard.antt =====
-- `discard_to_hand_size` (crates/engine/src/game.rs) with the end of cleanup.
use manaline.Prelude.{
  ◌==◌, ◌≡◌, ◌&&◌, ◌∷◌, if◌then◌else◌, [], ℕ, Bool, true, false, List, All, Option, none, some,
  length, refl, sym, ap, ◌∙◌, subst, arith,
}
use manaline.Prelude.Int.{pos}
use manaline.Engine.Objects.{graveyard, GameObject, Zone, zone_eq}
use manaline.Engine.Objects.Arena.{get, get-modify_all, map_option}
use manaline.Engine.Events.{discarded}
use manaline.Engine.Game.{Game}
use manaline.Engine.Zones.{emit, holder, arrive}
use manaline.Engine.Zones.Lists.{by_zone, zone_eq_sound}
use manaline.Engine.Zones.InStep.{belongs}
use manaline.Engine.Zones.Safe.{IsOrdered, move_object_settles, arrived, Sits}
use manaline.Engine.Turn.{clean, finish_cleanup, move_all, discard_to_hand_size}

abbrev pub IsThere : Game → ℕ → Type 0
IsThere g id = (o : GameObject) × (get id g.objects ≡ some o)

abbrev pub IsBuried : Game → ℕ → Type 0
IsBuried g id = (o : GameObject) × (get id g.objects ≡ some o) × (o.zone ≡ graveyard)

arrived-zone : (to : Zone) (o : GameObject) → (arrived to o).zone ≡ to
unfolding arrive
arrived-zone to o = by_zones (zone_eq o.zone to) refl
  where
    by_zones : (b : Bool) → zone_eq o.zone to ≡ b → (if b then o else arrive to o).zone ≡ to
    by_zones true e = zone_eq_sound o.zone to e
    by_zones false e = refl

module _ (id : ℕ) (g g' : Game) (o : GameObject)
    (here : get id g'.objects ≡ some (arrived graveyard o))
    (others : (i : ℕ) → (id == i) ≡ false → get i g'.objects ≡ get i g.objects) where
  IsBuried-moved : IsBuried g' id
  IsBuried-moved = (arrived graveyard o, here, arrived-zone graveyard o)

  IsBuried-still : (i : ℕ) → IsBuried g i → IsBuried g' i
  IsBuried-still i (p, e, zoned) = by_id (id == i) refl
    where
      by_id : (b : Bool) → (id == i) ≡ b → IsBuried g' i
      by_id true k = let q : id ≡ i = ground arith in subst (IsBuried g') q IsBuried-moved
      by_id false k = (p, others i k ∙ e, zoned)

  IsThere-still : (i : ℕ) → IsThere g i → IsThere g' i
  IsThere-still i (p, e) = by_id (id == i) refl
    where
      by_id : (b : Bool) → (id == i) ≡ b → IsThere g' i
      by_id true k =
          let q : id ≡ i = ground arith in subst (IsThere g') q (arrived graveyard o, here)
      by_id false k = (p, others i k ∙ e)

All-map : (P Q : ℕ → Type 0) (ids : List ℕ) → ((i : ℕ) → P i → Q i) → All P ids → All Q ids
All-map P Q [] f h = tt
All-map P Q (i ∷ ids) f h = (f i h.0, All-map P Q ids f h.1)

-- The loop succeeds and buries every card.
move_all-IsOrdered :
    (ids : List ℕ) (g : Game)
    → IsOrdered g
    → All (IsThere g) ids
    → (g' : Game) × (move_all ids g ≡ some g')
      × IsOrdered g'
      × All (IsBuried g') ids
      × ((i : ℕ) → IsBuried g i → IsBuried g' i)
unfolding move_all
move_all-IsOrdered [] g h there = (g, refl, h, tt, λ i b. b)
move_all-IsOrdered (id ∷ ids) g h there =
    let (o, found) = there.0 in
    let (moved, e, ordered, _, here, others) = move_object_settles id graveyard g o h found in
    let (g', e', ordered', buried, still) =
      move_all-IsOrdered ids moved ordered (
        All-map (IsThere g) (IsThere moved) ids (IsThere-still id g moved o here others) there.1) in
    (
      g',
      cc (e, e'),
      ordered',
      (still id (IsBuried-moved id g moved o here others), buried),
      λ i b. still i (IsBuried-still id g moved o here others i b),
    )

belongs-clean :
    (r : Option GameObject) (s : ℕ) (z : Zone) → belongs (map_option clean r) s z ≡ belongs r s z
belongs-clean none s z = refl
belongs-clean (some o) s z =
    ap (λ n. zone_eq o.zone z && (n == s))
      (by_zone (λ y. holder y (clean o) ≡ holder y o) refl refl refl refl refl refl refl refl
        o.zone)

Sits-clean :
    (r : Option GameObject) (n : ℕ) (o : GameObject)
    → ((p : GameObject) → r ≡ some p → Sits n p)
    → map_option clean r ≡ some o
    → Sits n o
Sits-clean none n o h e = cc
Sits-clean (some p) n o h e = let q : clean p ≡ o = cc e in subst (Sits n) q (h p refl)

finish_cleanup-IsOrdered : (g : Game) → IsOrdered g → IsOrdered (finish_cleanup g)
unfolding finish_cleanup
finish_cleanup-IsOrdered g h = (
  λ i s z l.
      h.0 i s z l
      ∙ ap (λ b. if b then 1 else 0)
          (sym (
            ap (λ r. belongs r s z) (get-modify_all i clean g.objects)
            ∙ belongs-clean (get i g.objects) s z)),
  λ i o e.
      Sits-clean (get i g.objects) (length g.players) o (h.1 i)
        (sym (get-modify_all i clean g.objects) ∙ e),
)

IsBuried-finish_cleanup : (g : Game) (i : ℕ) → IsBuried g i → IsBuried (finish_cleanup g) i
unfolding finish_cleanup
IsBuried-finish_cleanup g i (o, e, zoned) =
    (clean o, get-modify_all i clean g.objects ∙ ap (map_option clean) e, zoned)

undamaged :
    (r : Option GameObject) (o : GameObject) → map_option clean r ≡ some o → o.damage ≡ pos 0
undamaged none o e = cc
undamaged (some p) o e = let q : clean p ≡ o = cc e in ap (λ (x : GameObject). x.damage) (sym q)

-- Discarding objects at a table in order never fails: all of them are in the graveyard, no choice is
-- open, nothing has damage any more, and the table is in order.
pub discard_to_hand_size-IsOrdered :
    (seat : ℕ) (ids : List ℕ) (g : Game)
    → IsOrdered g
    → All (IsThere g) ids
    → (g' : Game) × (discard_to_hand_size seat ids g ≡ some g')
      × IsOrdered g'
      × All (IsBuried g') ids
      × (g'.pending ≡ none)
      × ((i : ℕ) (o : GameObject) → get i g'.objects ≡ some o → o.damage ≡ pos 0)
unfolding discard_to_hand_size
discard_to_hand_size-IsOrdered seat ids g h there =
    let (moved, e, ordered, buried, _) = move_all-IsOrdered ids g h there in
    let told = record (emit (discarded seat ids) moved) { pending = none } in
    (
      finish_cleanup told,
      cc e,
      finish_cleanup-IsOrdered told ordered,
      All-map (IsBuried told) (IsBuried (finish_cleanup told)) ids (IsBuried-finish_cleanup told)
          buried,
      refl,
      λ i o k. undamaged (get i moved.objects) o (sym (get-modify_all i clean moved.objects) ∙ k),
    )
