-- ===== src/Engine/Turn/Untap.antt =====
-- The untap step (crates/engine/src/turn.rs).
use manaline.Prelude.{
  ◌==◌, ◌≡◌, ◌&&◌, ◌<◌, ◌≤◌, ◌∷◌, if◌then◌else◌, [], ℕ, suc, Bool, true, false, List, Option, none,
  some, length, refl, sym, ap, ◌∙◌, subst, arith, ltb, get_elem?, get_elem?-some,
}
use manaline.Engine.Objects.{battlefield, GameObject, Zone, zone_eq}
use manaline.Engine.Objects.Arena.{get, modify, get-modify, map_option}
use manaline.Engine.Events.{Event, untapped}
use manaline.Engine.Game.{Game}
use manaline.Engine.Zones.{emit, holder, zone_list}
use manaline.Engine.Zones.Lists.{by_zone, list_of, list_in}
use manaline.Engine.Zones.InStep.{belongs, occurs}
use manaline.Engine.Zones.Safe.{IsOrdered, Sits}
use manaline.Engine.Zones.Send.{found_in}
use manaline.Engine.Zones.PlayLand.{with_player-IsOrdered}
use manaline.Engine.Turn.{untap_one, untap_all, untap_step, untaps}
use manaline.Engine.Turn.Discard.{IsThere}

-- An object after the untap step of a seat, by whether it is in the list that the step goes through.
abbrev pub after_untap : ℕ → Bool → Option GameObject → Option GameObject
after_untap seat b r = if b then map_option (untap_one seat) r else r

belongs-after_untap :
    (seat : ℕ) (b : Bool) (r : Option GameObject) (s : ℕ) (z : Zone)
    → belongs (after_untap seat b r) s z ≡ belongs r s z
belongs-after_untap seat true none s z = refl
belongs-after_untap seat false r s z = refl
belongs-after_untap seat true (some o) s z =
    ap (λ n. zone_eq o.zone z && (n == s))
      (by_zone (λ y. holder y (untap_one seat o) ≡ holder y o) refl refl refl refl refl refl refl
        refl o.zone)

Sits-after_untap :
    (seat n : ℕ) (b : Bool) (r : Option GameObject) (o : GameObject)
    → ((p : GameObject) → r ≡ some p → Sits n p)
    → after_untap seat b r ≡ some o
    → Sits n o
Sits-after_untap seat n true none o h e = cc
Sits-after_untap seat n false r o h e = h o e
Sits-after_untap seat n true (some p) o h e =
    let q : untap_one seat p ≡ o = cc e in subst (Sits n) q (h p refl)

-- What the loop does: the objects of the list, and no others, are changed once.
abbrev Untaps : ℕ → List ℕ → Game → Type 0
Untaps seat ids g =
    (g' : Game) × (untap_all seat ids g ≡ some g')
    × (g'.players ≡ g.players)
    × ((i : ℕ) → get i g'.objects ≡ after_untap seat (ltb 0 (occurs i ids)) (get i g.objects))

told_players : (b : Bool) (e : Event) (x : Game) → (if b then emit e x else x).players ≡ x.players
told_players true e x = refl
told_players false e x = refl

told_objects : (b : Bool) (e : Event) (x : Game) → (if b then emit e x else x).objects ≡ x.objects
told_objects true e x = refl
told_objects false e x = refl

-- One object changed in front of the others.
both_changes :
    (seat id i n : ℕ) (r : Option GameObject)
    → ((id == i) ≡ true → n ≡ 0)
    → after_untap seat (ltb 0 n) (if id == i then map_option (untap_one seat) r else r)
      ≡ after_untap seat (ltb 0 (if id == i then suc n else n)) r
both_changes seat id i n r once = by_id (id == i) refl
  where
    by_id :
        (b : Bool)
        → (id == i) ≡ b
        → after_untap seat (ltb 0 n) (if b then map_option (untap_one seat) r else r)
          ≡ after_untap seat (ltb 0 (if b then suc n else n)) r
    by_id true e =
        let none_left : ltb 0 n ≡ false = ground (arith, once e) in
        let this_one : ltb 0 (suc n) ≡ true = ground arith in cc (none_left, this_one)
    by_id false e = refl

IsThere-modified :
    (seat i : ℕ) (b : Bool) (g told : Game)
    → get i told.objects
      ≡ (if b then map_option (untap_one seat) (get i g.objects) else get i g.objects)
    → IsThere g i
    → IsThere told i
IsThere-modified seat i true g told at (p, e) =
    (untap_one seat p, at ∙ ap (map_option (untap_one seat)) e)
IsThere-modified seat i false g told at (p, e) = (p, at ∙ e)

untap_all-Untaps :
    (seat : ℕ) (ids : List ℕ) (g : Game)
    → ((i : ℕ) → occurs i ids ≤ 1)
    → ((i : ℕ) → 0 < occurs i ids → IsThere g i)
    → Untaps seat ids g
unfolding untap_all
untap_all-Untaps seat [] g once there = (g, refl, refl, λ i. refl)
untap_all-Untaps seat (id ∷ ids) g once there =
    let (o, found) = there id (ground arith) in
    let done : Game = record g { objects = modify id (untap_one seat) g.objects } in
    let told : Game = if untaps seat o then emit (untapped id) done else done in
    let objects = told_objects (untaps seat o) (untapped id) done in
    let at : (i : ℕ)
        → get i told.objects
          ≡ (if id == i then map_option (untap_one seat) (get i g.objects) else get i g.objects) =
      λ i. ap (get i) objects ∙ get-modify id i (untap_one seat) g.objects in
    let (g', e, players, changed) =
      untap_all-Untaps seat ids told (λ i. ground (arith, once i))
        (λ i more.
          IsThere-modified seat i (id == i) g told (at i) (there i (ground (arith, more)))) in
    (
      g',
      cc (found, e),
      players ∙ told_players (untaps seat o) (untapped id) done,
      λ i.
          changed i
          ∙ ap (after_untap seat (ltb 0 (occurs i ids))) (at i)
          ∙ both_changes seat id i (occurs i ids) (get i g.objects)
              (λ same. ground (arith, once i, same)),
    )

after_untap-IsOrdered :
    (seat : ℕ) (ids : List ℕ) (g done : Game)
    → done.players ≡ g.players
    → ((i : ℕ) → get i done.objects ≡ after_untap seat (ltb 0 (occurs i ids)) (get i g.objects))
    → IsOrdered g
    → IsOrdered done
after_untap-IsOrdered seat ids g done players changed h = (
  λ i s z l.
      ap (λ ps. occurs i (list_in (get_elem? ps s) z)) players
      ∙ h.0 i s z l
      ∙ ap (λ b. if b then 1 else 0)
          (sym (
            ap (λ r. belongs r s z) (changed i)
            ∙ belongs-after_untap seat (ltb 0 (occurs i ids)) (get i g.objects) s z)),
  λ i o found.
      subst (λ ps. Sits (length ps) o) (sym players)
        (Sits-after_untap seat (length g.players) (ltb 0 (occurs i ids)) (get i g.objects) o (h.1 i)
          (sym (changed i) ∙ found)),
)

at_most_one : (b : Bool) (n : ℕ) → n ≡ (if b then 1 else 0) → n ≤ 1
at_most_one true n e = omega arith
at_most_one false n e = omega arith

-- The untap step at a table in order, with the objects as the code leaves them.
pub untap_step_settles :
    (g : Game)
    → IsOrdered g
    → g.active_player < length g.players
    → (g' : Game) × (untap_step g ≡ some g')
      × IsOrdered g'
      × ((i : ℕ)
          → get i g'.objects
            ≡ after_untap g.active_player
                (ltb 0 (occurs i (list_of g g.active_player battlefield)))
                (get i g.objects))
unfolding untap_step
untap_step_settles g h sits =
    let seat = g.active_player in
    let (p, at) = get_elem?-some g.players seat sits in
    let mine : list_of g seat battlefield ≡ p.battlefield = ap (λ r. list_in r battlefield) at in
    let (done, e, players, changed) =
      untap_all-Untaps seat p.battlefield g
        (λ i.
          at_most_one (belongs (get i g.objects) seat battlefield) (occurs i p.battlefield)
            (ap (occurs i) (sym mine) ∙ h.0 i seat battlefield refl))
        (λ i more.
          let (o, found, _, _) =
            found_in g i seat battlefield h.0 refl
              (subst (λ ids. 0 < occurs i ids) (sym mine) more) in
          (o, found)) in
    let (g', e', ordered, objects) =
      with_player-IsOrdered seat (λ q. record q { lands_played_this_turn = 0 }) done
        (λ z q.
          by_zone (λ y. zone_list y (record q { lands_played_this_turn = 0 }) ≡ zone_list y q) refl
            refl refl refl refl refl refl refl z)
        (subst (λ ps. g.active_player < length ps) (sym players) sits)
        (after_untap-IsOrdered seat p.battlefield g done players changed h) in
    (
      g',
      cc (at, e, e'),
      ordered,
      λ i.
          ap (get i) objects
          ∙ changed i
          ∙ ap (λ ids. after_untap seat (ltb 0 (occurs i ids)) (get i g.objects)) (sym mine),
    )
