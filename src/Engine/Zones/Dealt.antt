-- ===== src/Engine/Zones/Dealt.antt =====
-- Which cards `draw` (crates/engine/src/game.rs) takes: those on top of the library, one by one.
use manaline.Prelude.{
  ◌≡◌, ◌∷◌, ◌++◌, ◌∙◌, [], ℕ, zero, suc, refl, sym, ap, Option, none, some, List, get_elem?, set,
  pop, pop-Popped, Popped, append_assoc, Option-cases, subst, inl, inr, true,
}
use manaline.Engine.Objects.{GameObject, hand}
use manaline.Engine.Objects.Arena.{get, modify}
use manaline.Engine.Game.{Game, PlayerState}
use manaline.Engine.Zones.{draw_loop, draw, emit, drew}
use manaline.Engine.Zones.Send.{get_elem?-set_self}

-- The last element first.
abbrev pub reversed : List ℕ → List ℕ
reversed [] = []
reversed (x ∷ xs) = reversed xs ++ x ∷ []

reversed-append : (xs : List ℕ) (y : ℕ) → reversed (xs ++ y ∷ []) ≡ y ∷ reversed xs
reversed-append [] y = refl
reversed-append (x ∷ xs) y = ap (λ zs. zs ++ x ∷ []) (reversed-append xs y)

-- The cards of a player as they would lie if the hand went back on top of the library, the last card of
-- the hand first.
abbrev pub pile : PlayerState → List ℕ
pile p = p.library ++ reversed p.hand

-- The player and the generator after a draw.
abbrev pub IsDealt : ℕ → PlayerState → Game → Game → Type 0
IsDealt seat p g g' =
    (q : PlayerState) × (get_elem? g'.players seat ≡ some q)
    × (pile q ≡ pile p)
    × (q.mulligans ≡ p.mulligans)
    × (g'.rng ≡ g.rng)

pile-drawn :
    (p : PlayerState) (rest : List ℕ) (top : ℕ)
    → p.library ≡ rest ++ top ∷ []
    → rest ++ reversed (p.hand ++ top ∷ []) ≡ pile p
pile-drawn p rest top popped =
    ap (λ cs. rest ++ cs) (reversed-append p.hand top)
    ∙ sym (append_assoc rest (top ∷ []) (reversed p.hand))
    ∙ ap (λ cs. cs ++ reversed p.hand) (sym popped)

draw_loop-IsDealt :
    (seat n : ℕ) (drawn : List ℕ) (g : Game) (p : PlayerState) (r : Game × List ℕ)
    → get_elem? g.players seat ≡ some p
    → draw_loop seat n drawn g ≡ some r
    → IsDealt seat p g r.0
unfolding draw_loop
draw_loop-IsDealt seat zero drawn g p r at e =
    let same : g ≡ r.0 = cc e in
    (
      p,
      ap (λ (x : Game). get_elem? x.players seat) (sym same) ∙ at,
      refl,
      refl,
      ap (λ (x : Game). x.rng) (sym same),
    )
draw_loop-IsDealt seat (suc n) drawn g p r at e =
    by_top (pop p.library) refl (pop-Popped p.library)
      (λ more next q at' e'. draw_loop-IsDealt seat n more next q r at' e')
  where
    by_top :
        (t : Option (List ℕ × ℕ))
        → pop p.library ≡ t
        → Popped p.library t
        → ((more : List ℕ) (next : Game) (q : PlayerState)
            → get_elem? next.players seat ≡ some q
            → draw_loop seat n more next ≡ some r
            → IsDealt seat q next r.0)
        → IsDealt seat p g r.0
    by_top none k popped later =
        let f = record p { drew_from_empty = true } in
        later drawn (record g { players = set g.players seat f }) f
          (get_elem?-set_self g.players seat p f at) (cc (at, k, e))
    by_top (some (rest, top)) k popped later = elim (Option-cases (get top g.objects)) [
      | inl lost ↦ absurd (no_object lost)
      | inr o ↦ with_object o.0 o.1
    ]
      where
        no_object : get top g.objects ≡ none → ⊥
        no_object lost = cc (at, k, lost, e)

        with_object : (o : GameObject) → get top g.objects ≡ some o → IsDealt seat p g r.0
        with_object o found =
            let f = record p { library = rest; hand = p.hand ++ top ∷ [] } in
            let (q, at', piles, taken, rng) =
              later (drawn ++ top ∷ [])
                (record g {
                  players = set g.players seat f;
                  objects = modify top (λ o. record o { zone = hand }) g.objects;
                })
                f (get_elem?-set_self g.players seat p f at) (cc (at, k, found, e)) in
            (q, at', piles ∙ pile-drawn p rest top popped, taken, rng)

pub draw-IsDealt :
    (seat n : ℕ) (g : Game) (p : PlayerState) (g' : Game)
    → get_elem? g.players seat ≡ some p
    → draw seat n g ≡ some g'
    → IsDealt seat p g g'
unfolding draw
draw-IsDealt seat n g p g' at e = elim (Option-cases (draw_loop seat n [] g)) [
  | inl stuck ↦ absurd (not_stuck stuck)
  | inr r ↦ announced r.0.1 r.0.0 r.1
]
  where
    not_stuck : draw_loop seat n [] g ≡ none → ⊥
    not_stuck stuck = cc (stuck, e)

    announced :
        (cards : List ℕ) (drawn : Game)
        → draw_loop seat n [] g ≡ some (drawn, cards)
        → IsDealt seat p g g'
    announced [] drawn runs =
        let same : drawn ≡ g' = cc (runs, e) in
        subst (IsDealt seat p g) same (draw_loop-IsDealt seat n [] g p (drawn, []) at runs)
    announced (c ∷ cs) drawn runs =
        let same : emit (drew seat (c ∷ cs)) drawn ≡ g' = cc (runs, e) in
        subst (IsDealt seat p g) same (draw_loop-IsDealt seat n [] g p (drawn, c ∷ cs) at runs)
