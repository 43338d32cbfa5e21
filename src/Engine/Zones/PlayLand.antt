-- ===== src/Engine/Zones/PlayLand.antt =====
-- `play_land` (crates/engine/src/game.rs), which hands the card to its player before it moves.
use manaline.Prelude.{
  ◌==◌, ◌≡◌, ◌&&◌, ◌<◌, if◌then◌else◌, ℕ, refl, ap, sym, ◌∙◌, subst, Bool, true, false, Option,
  some, arith, length,
}
use manaline.Prelude.Maybe.{◌>>=◌}
use manaline.Engine.Objects.{
  Zone, zone_eq, GameObject, battlefield, library, hand, graveyard, exile, stack, command,
  out_of_game,
}
use manaline.Engine.Objects.Arena.{get, modify, get-modify_self, get-modify_other}
use manaline.Engine.Game.{Game, PlayerState}
use manaline.Engine.Zones.{arrive, move_object, play_land, holder}
use manaline.Engine.Zones.NewIn.{IsNewIn, arrive-IsNewIn}
use manaline.Engine.Zones.InStep.{InStep, belongs, occurs}
use manaline.Engine.Zones.Lists.{
  list_of, list_of-set, with_player-eq_some, same_list, if_absorb, by_zone,
}
use manaline.Engine.Zones.Total.{with_player-Runs}
use manaline.Engine.Zones.{with_player, zone_list, emit, give_priority}
use manaline.Engine.Events.{land_played}
use manaline.Prelude.{◌+◌, ◌%◌}
use manaline.Engine.Zones.Safe.{IsOrdered, move_object_settles, changed-IsSeated}

handed : ℕ → GameObject → GameObject
handed seat o = record o { controller = seat }

-- Off the battlefield, who holds an object does not depend on its controller.
belongs-handed :
    (seat s : ℕ) (z : Zone) (o : GameObject)
    → zone_eq o.zone battlefield ≡ false
    → belongs (some (handed seat o)) s z ≡ belongs (some o) s z
unfolding handed
belongs-handed seat s z o away = ap (λ h. zone_eq o.zone z && (h == s)) (same o.zone away)
  where
    same :
        (y : Zone)
        → zone_eq y battlefield ≡ false
        → holder y (record o { controller = seat }) ≡ holder y o
    same library e = refl
    same hand e = refl
    same battlefield e = cc
    same graveyard e = refl
    same exile e = refl
    same stack e = refl
    same command e = refl
    same out_of_game e = refl

handed_game : ℕ → ℕ → Game → Game
handed_game seat object g = record g {
  objects = modify object (λ o. record o { controller = seat }) g.objects;
}

handed-IsOrdered :
    (seat object : ℕ) (g : Game) (o : GameObject)
    → IsOrdered g
    → get object g.objects ≡ some o
    → seat < length g.players
    → zone_eq o.zone battlefield ≡ false
    → IsOrdered (handed_game seat object g)
unfolding handed handed_game
handed-IsOrdered seat object g o h found sits away = (
  in_step,
  changed-IsSeated object (handed seat o) g (handed_game seat object g) here others refl
      ((h.1 object o found).0, sits) h.1,
)
  where
    here : get object (handed_game seat object g).objects ≡ some (handed seat o)
    here = get-modify_self object (λ o. record o { controller = seat }) g.objects o found

    others :
        (i : ℕ)
        → (object == i) ≡ false
        → get i (handed_game seat object g).objects ≡ get i g.objects
    others i e = get-modify_other object i (λ o. record o { controller = seat }) g.objects e

    kept :
        (i s : ℕ) (z : Zone) (b : Bool)
        → (object == i) ≡ b
        → belongs (get i g.objects) s z ≡ belongs (get i (handed_game seat object g).objects) s z
    kept i s z true e =
        let k : i ≡ object = ground arith in
        subst
          (λ j.
            belongs (get j g.objects) s z ≡ belongs (get j (handed_game seat object g).objects) s z)
          (sym k)
          (ap (λ r. belongs r s z) found
            ∙ sym (ap (λ r. belongs r s z) here ∙ belongs-handed seat s z o away))
    kept i s z false e = ap (λ r. belongs r s z) (sym (others i e))

    in_step : InStep (handed_game seat object g)
    in_step i s z l = h.0 i s z l ∙ ap (λ b. if b then 1 else 0) (kept i s z (object == i) refl)

-- A change of a player that leaves the zones alone.
pub with_player-IsOrdered :
    (seat : ℕ) (f : PlayerState → PlayerState) (g : Game)
    → ((z : Zone) (p : PlayerState) → zone_list z (f p) ≡ zone_list z p)
    → seat < length g.players
    → IsOrdered g
    → (g' : Game) × (with_player seat f g ≡ some g') × IsOrdered g' × (g'.objects ≡ g.objects)
with_player-IsOrdered seat f g same sits h =
    let (g', e, objects, n) = with_player-Runs seat f g sits in
    let (p, at, k) = with_player-eq_some seat f g g' e in
    let lists : (s : ℕ) (z : Zone) → list_of g' s z ≡ list_of g s z = λ s z.
      ap (λ x. list_of x s z) k
      ∙ list_of-set g seat s z p (f p) at
      ∙ if_absorb (seat == s) (zone_list z (f p)) (list_of g s z)
          (λ t. same z p ∙ same_list g seat s z p at t) in
    (
      g',
      e,
      (
        λ i s z l.
            ap (occurs i) (lists s z)
            ∙ h.0 i s z l
            ∙ ap (λ x. if belongs (get i x) s z then 1 else 0) (sym objects),
        λ i o found.
            subst (λ m. (o.owner < m) × (o.controller < m)) (sym n)
              (h.1 i o (ap (get i) (sym objects) ∙ found)),
      ),
      objects,
    )

-- `play_land` of a card that is not on the battlefield succeeds. The card is there as a new object, with
-- nothing carried over but the id, the card and the owner: the player controls it, it is untapped, not
-- summoning sick, without damage, counters, attachment, modifiers and marks of combat or exile. The player
-- has priority, and the table is in order.
pub play_land-IsOrdered :
    (seat object : ℕ) (g : Game) (o : GameObject)
    → IsOrdered g
    → get object g.objects ≡ some o
    → zone_eq o.zone battlefield ≡ false
    → seat < length g.players
    → (g' : Game) × (play_land seat object g ≡ some g')
      × IsOrdered g'
      × ((q : GameObject) × (get object g'.objects ≡ some q)
          × IsNewIn battlefield (record o { controller = seat }) q)
      × (g'.priority ≡ some seat)
unfolding play_land handed handed_game
play_land-IsOrdered seat object g o h found away sits =
    let mine = handed_game seat object g in
    let (moved, e, ordered, n, here, _) =
      move_object_settles object battlefield mine (handed seat o)
        (handed-IsOrdered seat object g o h found sits away)
        (get-modify_self object (λ o. record o { controller = seat }) g.objects o found) in
    let (counted, e2, ordered2, objects) =
      with_player-IsOrdered seat count_land moved (λ z p. same p z)
        (subst (λ m. seat < m) (sym n) sits) ordered in
    (
      give_priority seat (emit (land_played seat object) counted),
      ap (λ r. r >>= (λ _. move_object object battlefield mine >>= finish)) found
          ∙ ap (λ r. r >>= finish) e
          ∙ ap (λ r. r >>= announce) e2,
      ordered2,
      (
        arrive battlefield (handed seat o),
        ap (get object) objects
            ∙ here
            ∙ ap (λ b. some (if b then handed seat o else arrive battlefield (handed seat o))) away,
        arrive-IsNewIn battlefield (handed seat o),
      ),
      refl,
    )
  where
    announce : Game → Option Game
    announce counted = some (give_priority seat (emit (land_played seat object) counted))

    count_land : PlayerState → PlayerState
    count_land p = record p { lands_played_this_turn = (p.lands_played_this_turn + 1) % 256 }

    finish : Game → Option Game
    finish moved = with_player seat count_land moved >>= announce

    same : (p : PlayerState) (z : Zone) → zone_list z (count_land p) ≡ zone_list z p
    same p =
        by_zone (λ z. zone_list z (count_land p) ≡ zone_list z p) refl refl refl refl refl refl refl
          refl
