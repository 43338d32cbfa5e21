-- ===== src/Engine/Mulligan/Again.antt =====
-- `mulligan` of crates/engine/src/mulligan.rs for a hand that is not kept: it goes back to the library,
-- which is shuffled, and a new hand is drawn.
use manaline.Prelude.{
  ◌==◌, ◌≡◌, ◌∷◌, ◌++◌, ◌+◌, ◌<◌, ◌∙◌, if◌then◌else◌, [], ℕ, refl, sym, ap, some, List, append-nil,
  arith, length, get_elem?, count-append, set, length-set, subst, true, append_assoc, set-set, ◌-◌,
  ◌%◌, min, get_elem?-some, zero, suc, length-append,
}
use manaline.Engine.Objects.{GameObject, Zone, library, hand}
use manaline.Engine.Objects.Arena.{get, modify}
use manaline.Engine.Events.{shuffled, mulligan_taken}
use manaline.Engine.Game.{Game, PlayerState}
use manaline.Engine.Zones.{zone_list, with_player, emit, draw}
use manaline.Engine.Zones.InStep.{occurs}
use manaline.Engine.Zones.Lists.{by_zone, list_in}
use manaline.Engine.Zones.Safe.{IsOrdered}
use manaline.Engine.Zones.Send.{
  sent_game, sent_game-IsOrdered, hand_to_library, get_elem?-set_self, recounted-IsOrdered,
  taken_count, IsOnlyIn,
}
use manaline.Engine.Zones.Dealt.{draw-IsDealt, reversed}
use manaline.Engine.Zones.Draws.{draw-IsOrdered, size}
use manaline.Engine.Mulligan.{put_back, mulligan_again, shuffle_library}

-- The hand is taken away, before it is put back.
abbrev emptied : ℕ → PlayerState → Game → Game
emptied seat p g = record g { players = set g.players seat (record p { hand = [] }) }

-- What the loop does with a hand that was taken away.
abbrev Returned : ℕ → List ℕ → PlayerState → Game → Type 0
Returned seat ids p g =
    (g' : Game) × (put_back seat ids (emptied seat p g) ≡ some g')
    × IsOrdered g'
    × (get_elem? g'.players seat ≡ some (record p { hand = []; library = p.library ++ ids }))
    × (length g'.players ≡ length g.players)
    × (g'.format ≡ g.format)
    × (g'.rng ≡ g.rng)

put_back-nil :
    (seat : ℕ) (p : PlayerState) (g : Game)
    → IsOrdered g
    → get_elem? g.players seat ≡ some p
    → p.hand ≡ []
    → Returned seat [] p g
unfolding put_back
put_back-nil seat p g h at none_held = (
  emptied seat p g,
  refl,
  recounted-IsOrdered seat p (record p { hand = [] }) g h at
      (λ i.
        by_zone (λ z. occurs i (zone_list z (record p { hand = [] })) ≡ occurs i (zone_list z p))
          refl (ap (occurs i) (sym none_held)) refl refl refl refl refl refl),
  get_elem?-set_self g.players seat p (record p { hand = [] }) at
      ∙ (λ i. some (record p { hand = []; library = sym (append-nil p.library) i })),
  length-set g.players seat (record p { hand = [] }),
  refl,
  refl,
)

-- One round, with the rest of the hand in its place.
put_back-step :
    (seat id : ℕ) (ids : List ℕ) (p : PlayerState) (g : Game) (o : GameObject)
    → get_elem? g.players seat ≡ some p
    → get id g.objects ≡ some o
    → put_back seat (id ∷ ids) (emptied seat p g)
      ≡ put_back seat ids (
          emptied seat
            (record p { hand = ids; library = p.library ++ id ∷ [] })
            (sent_game seat (record p { hand = ids; library = p.library ++ id ∷ [] }) id library g))
unfolding put_back sent_game
put_back-step seat id ids p g o at found =
    let bare = record p { hand = [] } in
    let moved = record p { hand = ids; library = p.library ++ id ∷ [] } in
    let left = record p { hand = []; library = p.library ++ id ∷ [] } in
    let here = get_elem?-set_self g.players seat p bare at in
    let same = set-set g.players seat bare left ∙ sym (set-set g.players seat moved left) in
    cc (found, here)
    ∙ ap (put_back seat ids) (λ i. record g {
      players = same i;
      objects = modify id (λ o. record o { zone = library }) g.objects;
    })

put_back-Returned :
    (seat : ℕ) (ids : List ℕ) (p : PlayerState) (g : Game)
    → IsOrdered g
    → get_elem? g.players seat ≡ some p
    → p.hand ≡ ids
    → Returned seat ids p g
unfolding put_back sent_game
put_back-Returned seat [] p g h at held = put_back-nil seat p g h at held
put_back-Returned seat (id ∷ ids) p g h at held =
    let q = record p { hand = ids; library = p.library ++ id ∷ [] } in
    let (o, found, ordered) =
      sent_game-IsOrdered seat id p q g h at
        (subst (λ hs. 0 < occurs id hs) (sym held) (ground arith))
        (λ only. hand_to_library id p ids (p.library ++ id ∷ []) only (left only) joined) in
    let next = sent_game seat q id library g in
    let (g', runs, ordered', at', sizes, same, rng) =
      put_back-Returned seat ids q next ordered (get_elem?-set_self g.players seat p q at) refl in
    (
      g',
      put_back-step seat id ids p g o at found ∙ runs,
      ordered',
      at' ∙ (λ i. some (record p { hand = []; library = append_assoc p.library (id ∷ []) ids i })),
      sizes ∙ length-set g.players seat q,
      same,
      rng,
    )
  where
    once : IsOnlyIn id hand p → (i : ℕ) → (id == i) ≡ true → occurs i p.hand ≡ 1
    once only i e = let k : i ≡ id = ground arith in ap (λ j. occurs j p.hand) k ∙ only hand refl

    left : IsOnlyIn id hand p → (i : ℕ) → occurs i ids ≡ (if id == i then 0 else occurs i p.hand)
    left only i =
        let split : occurs i p.hand ≡ occurs i ids + (if id == i then 1 else 0) =
          ap (occurs i) held ∙ ground arith in
        omega (arith, taken_count (id == i) (occurs i ids) (occurs i p.hand) split (once only i))

    joined :
        (i : ℕ) → occurs i (p.library ++ id ∷ []) ≡ occurs i p.library + (if id == i then 1 else 0)
    joined i = count-append (λ x. x == i) p.library (id ∷ [])

-- A shuffle keeps how often each card is there, and how many there are.
abbrev pub Shuffles : (ℕ → List ℕ → List ℕ × ℕ) → Type 0
Shuffles shuffle =
    (rng : ℕ) (cards : List ℕ)
    → ((i : ℕ) → occurs i (shuffle rng cards).0 ≡ occurs i cards)
      × (length (shuffle rng cards).0 ≡ length cards)

-- A change of the library by one with the same cards, and of no other list.
library-IsOrdered :
    (seat : ℕ) (p : PlayerState) (cards : List ℕ) (taken : ℕ) (g : Game)
    → IsOrdered g
    → get_elem? g.players seat ≡ some p
    → ((i : ℕ) → occurs i cards ≡ occurs i p.library)
    → IsOrdered (record g {
      players = set g.players seat (record p { library = cards; mulligans = taken });
    })
library-IsOrdered seat p cards taken g h at same =
    let q = record p { library = cards; mulligans = taken } in
    recounted-IsOrdered seat p q g h at (λ i z.
      by_zone (λ y. occurs i (zone_list y q) ≡ occurs i (zone_list y p)) (same i) refl refl refl
        refl refl refl refl z)

get_elem?-lt : {A : Type 0} (xs : List A) (i : ℕ) (x : A) → get_elem? xs i ≡ some x → i < length xs
get_elem?-lt [] i x e = cc
get_elem?-lt (y ∷ xs) zero x e = omega arith
get_elem?-lt (y ∷ xs) (suc i) x e = omega (arith, get_elem?-lt xs i x e)

-- The game whose mulligan is counted, and then the one whose library is shuffled.
abbrev counted : ℕ → PlayerState → Game → Game
counted seat p g = record g {
  players = set g.players seat (record p { mulligans = (p.mulligans + 1) % 256 });
}

abbrev mixed : (ℕ → List ℕ → List ℕ × ℕ) → ℕ → PlayerState → Game → Game
mixed shuffle seat p g = emit (shuffled seat) (record g {
  players = set g.players seat (record p { library = (shuffle g.rng p.library).0 });
  rng = (shuffle g.rng p.library).1;
})

mulligan_again-runs :
    (shuffle : ℕ → List ℕ → List ℕ × ℕ) (seat : ℕ) (p p1 p2 q : PlayerState) (g g1 g4 : Game)
    → get_elem? g.players seat ≡ some p
    → put_back seat p.hand (emptied seat p g) ≡ some g1
    → get_elem? g1.players seat ≡ some p1
    → get_elem? (counted seat p1 g1).players seat ≡ some p2
    → draw seat g1.format.starting_hand (mixed shuffle seat p2 (counted seat p1 g1)) ≡ some g4
    → get_elem? g4.players seat ≡ some q
    → mulligan_again shuffle seat g
      ≡ some (emit (mulligan_taken seat (g4.format.starting_hand - q.mulligans)) g4)
unfolding mulligan_again with_player shuffle_library
mulligan_again-runs shuffle seat p p1 p2 q g g1 g4 at back at1 at2 drawn at4 =
    rw at (rw back (rw at1 (rw at2 (rw drawn (rw at4)))))

-- With a shuffle that keeps how often each card is there and how many there are, a seat at a table in order
-- may always take its mulligan. Its hand goes on top of its library, and the whole is shuffled once, from
-- the state of the generator; of the shuffled cards, as many as a hand starts with, or all that there are,
-- are drawn from the top, one by one, and the others are the library, in their order. The mulligan is
-- counted, as many players sit at the table, and it is in order.
pub mulligan_again-IsOrdered :
    (shuffle : ℕ → List ℕ → List ℕ × ℕ) (seat : ℕ) (p : PlayerState) (g : Game)
    → Shuffles shuffle
    → IsOrdered g
    → get_elem? g.players seat ≡ some p
    → (g' : Game) × (mulligan_again shuffle seat g ≡ some g')
      × IsOrdered g'
      × (size g' seat hand ≡ min g.format.starting_hand (length p.library + length p.hand))
      × (size g' seat library ≡ length p.library + length p.hand - g.format.starting_hand)
      × (length g'.players ≡ length g.players)
      × ((q : PlayerState) × (get_elem? g'.players seat ≡ some q)
          × (q.library ++ reversed q.hand ≡ (shuffle g.rng (p.library ++ p.hand)).0)
          × (q.mulligans ≡ (p.mulligans + 1) % 256)
          × (g'.rng ≡ (shuffle g.rng (p.library ++ p.hand)).1))
unfolding mulligan_again with_player shuffle_library
mulligan_again-IsOrdered shuffle seat p g keeps h at =
    let (g1, back, ordered1, at1, sizes1, format1, rng1) =
      put_back-Returned seat p.hand p g h at refl in
    let p1 = record p { hand = []; library = p.library ++ p.hand } in
    let p2 = record p1 { mulligans = (p.mulligans + 1) % 256 } in
    let g2 = record g1 { players = set g1.players seat p2 } in
    let at2 = get_elem?-set_self g1.players seat p1 p2 at1 in
    let ordered2 = library-IsOrdered seat p1 p1.library p2.mulligans g1 ordered1 at1 (λ i. refl) in
    let p3 = record p2 { library = (shuffle g1.rng (p.library ++ p.hand)).0 } in
    let g3 = emit (shuffled seat) (record g2 {
      players = set g2.players seat p3;
      rng = (shuffle g1.rng (p.library ++ p.hand)).1;
    }) in
    let ordered3 : IsOrdered g3 =
      library-IsOrdered seat p2 p3.library p2.mulligans g2 ordered2 at2
        (keeps g1.rng (p.library ++ p.hand)).0 in
    let at3 = get_elem?-set_self g2.players seat p2 p3 at2 in
    let players3 : length g3.players ≡ length g.players =
      length-set g2.players seat p3 ∙ length-set g1.players seat p2 ∙ sizes1 in
    let sits : seat < length g3.players = get_elem?-lt g3.players seat p3 at3 in
    let (g4, drawn, ordered4, lib, held, sizes4) =
      draw-IsOrdered seat g3.format.starting_hand g3 ordered3 sits in
    let (q, at4) = get_elem?-some g4.players seat (omega (arith, sizes4, sits)) in
    let (q', at', piles, taken, rng4) =
      draw-IsDealt seat g3.format.starting_hand g3 p3 g4 at3 drawn in
    let lists : (z : Zone) → size g3 seat z ≡ length (zone_list z p3) =
      λ z. ap length (ap (λ r. list_in r z) at3) in
    let cards : length p3.library ≡ length p.library + length p.hand =
      (keeps g1.rng (p.library ++ p.hand)).1 ∙ length-append p.library p.hand in
    let start : g3.format.starting_hand ≡ g.format.starting_hand =
      ap (λ f. f.starting_hand) format1 in
    (
      emit (mulligan_taken seat (g4.format.starting_hand - q.mulligans)) g4,
      mulligan_again-runs shuffle seat p p1 p2 q g g1 g4 at back at1 at2 drawn at4,
      ordered4,
      omega (arith, held, lists hand, lists library, cards, start),
      omega (arith, lib, lists library, cards, start),
      sizes4 ∙ players3,
      (
        q',
        at',
        piles ∙ append-nil p3.library ∙ ap (λ n. (shuffle n (p.library ++ p.hand)).0) rng1,
        taken,
        rng4 ∙ ap (λ n. (shuffle n (p.library ++ p.hand)).1) rng1,
      ),
    )
