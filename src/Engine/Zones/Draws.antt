-- ===== src/Engine/Zones/Draws.antt =====
-- The loop of `draw` (crates/engine/src/game.rs).
use manaline.Prelude.{
  ◌==◌, ◌≡◌, ◌<◌, ◌+◌, ◌-◌, min, [], ◌∷◌, ◌++◌, ℕ, zero, suc, refl, ap, sym, ◌∙◌, subst, true,
  Option, none, some, List, arith, length, length-set, length-append, get_elem?, get_elem?-some,
  set, pop, pop-Popped, Popped, count-append,
}
use manaline.Engine.Objects.{Zone, GameObject, library, hand}
use manaline.Engine.Objects.Arena.{get, get-modify_self, get-modify_other}
use manaline.Engine.Game.{Game, PlayerState}
use manaline.Engine.Zones.{draw_loop, zone_list}
use manaline.Engine.Zones.{draw, emit}
use manaline.Engine.Events.{drew}
use manaline.Engine.Zones.InStep.{occurs}
use manaline.Engine.Zones.Lists.{
  list_of, list_in, list_of-set, list_of-set_self, by_zone, if_absorb, same_list,
}
use manaline.Engine.Zones.Safe.{IsOrdered, changed-IsSeated}
use manaline.Engine.Zones.Draw.{drawn_game, drawn_game-InStep}
use manaline.Engine.Zones.Send.{found_in}

flagged : PlayerState → PlayerState
flagged p = record p { drew_from_empty = true }

flagged_game : ℕ → PlayerState → Game → Game
flagged_game seat p g = record g {
  players = set g.players seat (record p { drew_from_empty = true });
}

-- The flag of a failed draw changes no list.
list_of-flagged :
    (seat s : ℕ) (z : Zone) (p : PlayerState) (g : Game)
    → get_elem? g.players seat ≡ some p
    → list_of (flagged_game seat p g) s z ≡ list_of g s z
unfolding flagged_game
list_of-flagged seat s z p g at =
    list_of-set g seat s z p (record p { drew_from_empty = true }) at
    ∙ if_absorb (seat == s) (zone_list z (record p { drew_from_empty = true })) (list_of g s z)
        (λ e.
          by_zone (λ y. zone_list y (record p { drew_from_empty = true }) ≡ zone_list y p) refl refl
            refl refl refl refl refl refl z
          ∙ same_list g seat s z p at e)

flagged-IsOrdered :
    (seat : ℕ) (p : PlayerState) (g : Game)
    → get_elem? g.players seat ≡ some p
    → IsOrdered g
    → IsOrdered (flagged_game seat p g)
unfolding flagged_game list_of-flagged
flagged-IsOrdered seat p g at h = (
  λ i s z l. ap (occurs i) (list_of-flagged seat s z p g at) ∙ h.0 i s z l,
  λ i o found.
      subst (λ m. (o.owner < m) × (o.controller < m))
        (sym (length-set g.players seat (record p { drew_from_empty = true }))) (h.1 i o found),
)

drawn-IsOrdered :
    (seat : ℕ) (p : PlayerState) (rest : List ℕ) (top : ℕ) (g : Game)
    → IsOrdered g
    → get_elem? g.players seat ≡ some p
    → p.library ≡ rest ++ top ∷ []
    → (o : GameObject) × (get top g.objects ≡ some o) × IsOrdered (drawn_game seat p rest top g)
unfolding drawn_game
drawn-IsOrdered seat p rest top g h at popped =
    let (o, found, zoned, owned) = found_in g top seat library h.0 refl there in
    (
      o,
      found,
      (
        drawn_game-InStep seat p rest top g o h.0 at popped found zoned owned,
        changed-IsSeated top (record o { zone = hand }) g (drawn_game seat p rest top g)
            (get-modify_self top (λ o. record o { zone = hand }) g.objects o found)
            (λ i e. get-modify_other top i (λ o. record o { zone = hand }) g.objects e)
            (length-set g.players seat (record p { library = rest; hand = p.hand ++ top ∷ [] }))
            (h.1 top o found) h.1,
      ),
    )
  where
    there : 0 < occurs top (list_of g seat library)
    there =
        subst (λ ids. 0 < occurs top ids) (sym (ap (λ r. list_in r library) at ∙ popped))
          (ground (arith, count-append (λ x. x == top) rest (top ∷ [])))

-- How many cards a seat has in a zone.
abbrev pub size : Game → ℕ → Zone → ℕ
size g seat z = length (list_of g seat z)

-- What the loop returns: `n` cards, or as many as the library has, went from the library to the hand.
abbrev pub Draws : ℕ → ℕ → List ℕ → Game → Type 0
Draws seat n drawn g =
    (g' : Game) × (cards : List ℕ) × (draw_loop seat n drawn g ≡ some (g', cards))
    × IsOrdered g'
    × (size g' seat library ≡ size g seat library - n)
    × (size g' seat hand ≡ size g seat hand + min n (size g seat library))
    × (length cards ≡ length drawn + min n (size g seat library))
    × (length g'.players ≡ length g.players)

-- One round of the loop, by what is on top of the library.
step-Draws :
    (seat n : ℕ) (drawn : List ℕ) (g : Game) (p : PlayerState) (r : Option (List ℕ × ℕ))
    → ((more : List ℕ) (next : Game)
        → IsOrdered next
        → seat < length next.players
        → Draws seat n more next)
    → IsOrdered g
    → seat < length g.players
    → get_elem? g.players seat ≡ some p
    → pop p.library ≡ r
    → Popped p.library r
    → Draws seat (suc n) drawn g
unfolding draw_loop flagged_game drawn_game
step-Draws seat n drawn g p none loop h sits at e popped =
    let next = flagged_game seat p g in
    let lists : (z : Zone) → size next seat z ≡ size g seat z =
      λ z. ap length (list_of-flagged seat seat z p g at) in
    let empty : size g seat library ≡ 0 = ap length (ap (λ r. list_in r library) at ∙ popped) in
    let (g', cards, runs, ordered, a, b, c, d) =
      loop drawn next (flagged-IsOrdered seat p g at h)
        (omega (arith, length-set g.players seat (record p { drew_from_empty = true }))) in
    (
      g',
      cards,
      cc (at, e, runs),
      ordered,
      omega (arith, a, lists library, empty),
      omega (arith, b, lists library, lists hand, empty),
      omega (arith, c, lists library, empty),
      d ∙ length-set g.players seat (record p { drew_from_empty = true }),
    )
step-Draws seat n drawn g p (some (rest, top)) loop h sits at e popped =
    let (o, found, ordered1) = drawn-IsOrdered seat p rest top g h at popped in
    let next = drawn_game seat p rest top g in
    let q = record p { library = rest; hand = p.hand ++ top ∷ [] } in
    let before : (z : Zone) → size g seat z ≡ length (zone_list z p) =
      λ z. ap length (ap (λ r. list_in r z) at) in
    let after : (z : Zone) → size next seat z ≡ length (zone_list z q) =
      λ z. ap length (list_of-set_self g seat z p q at) in
    let lib = before library ∙ ap length popped ∙ length-append rest (top ∷ []) in
    let held = after hand ∙ length-append p.hand (top ∷ []) in
    let (g', cards, runs, ordered, a, b, c, d) =
      loop (drawn ++ top ∷ []) next ordered1 (omega (arith, length-set g.players seat q)) in
    (
      g',
      cards,
      cc (at, e, found, runs),
      ordered,
      omega (arith, a, lib, after library),
      omega (arith, b, lib, held, before hand, after library),
      omega (arith, c, lib, after library, length-append drawn (top ∷ [])),
      d ∙ length-set g.players seat q,
    )

pub draw_loop-Draws :
    (seat n : ℕ) (drawn : List ℕ) (g : Game)
    → IsOrdered g
    → seat < length g.players
    → Draws seat n drawn g
unfolding draw_loop
draw_loop-Draws seat zero drawn g h sits =
    (g, drawn, refl, h, omega arith, omega arith, omega arith, refl)
draw_loop-Draws seat (suc n) drawn g h sits =
    let (p, at) = get_elem?-some g.players seat sits in
    step-Draws seat n drawn g p (pop p.library) (λ more next. draw_loop-Draws seat n more next) h
      sits at refl (pop-Popped p.library)

-- `draw` of `n` cards at a table in order never fails: the library of the seat is shorter by `n` cards,
-- or empty, the hand is longer by the cards that were there to draw, the same players sit at the
-- table, and it is in order.
pub draw-IsOrdered :
    (seat n : ℕ) (g : Game)
    → IsOrdered g
    → seat < length g.players
    → (g' : Game) × (draw seat n g ≡ some g')
      × IsOrdered g'
      × (size g' seat library ≡ size g seat library - n)
      × (size g' seat hand ≡ size g seat hand + min n (size g seat library))
      × (length g'.players ≡ length g.players)
unfolding draw
draw-IsOrdered seat n g h sits =
    let (drawn, cards, e, ordered, a, b, _, d) = draw_loop-Draws seat n [] g h sits in
    announced cards drawn e ordered a b d
  where
    announced :
        (cards : List ℕ) (drawn : Game)
        → draw_loop seat n [] g ≡ some (drawn, cards)
        → IsOrdered drawn
        → size drawn seat library ≡ size g seat library - n
        → size drawn seat hand ≡ size g seat hand + min n (size g seat library)
        → length drawn.players ≡ length g.players
        → (g' : Game) × (draw seat n g ≡ some g')
          × IsOrdered g'
          × (size g' seat library ≡ size g seat library - n)
          × (size g' seat hand ≡ size g seat hand + min n (size g seat library))
          × (length g'.players ≡ length g.players)
    announced [] drawn e ordered a b d = (drawn, cc e, ordered, a, b, d)
    announced (c ∷ cs) drawn e ordered a b d =
        (emit (drew seat (c ∷ cs)) drawn, cc e, ordered, a, b, d)
