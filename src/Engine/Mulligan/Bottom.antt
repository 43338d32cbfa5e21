-- ===== src/Engine/Mulligan/Bottom.antt =====
-- `bottom_cards` of crates/engine/src/mulligan.rs: cards of the hand go under the library.
use manaline.Prelude.{
  ◌==◌, ◌≡◌, ◌∷◌, ◌<◌, ◌∙◌, if◌then◌else◌, [], ℕ, refl, sym, ap, false, not, some, List, arith,
  length, get_elem?, All, retain, count-retain, subst, ◌%◌, Option, length-set,
}
use manaline.Engine.Objects.{library}
use manaline.Engine.Events.{bottomed}
use manaline.Engine.Game.{Game, PlayerState}
use manaline.Engine.Zones.{emit}
use manaline.Engine.Zones.InStep.{occurs}
use manaline.Engine.Zones.Safe.{IsOrdered}
use manaline.Engine.Zones.Send.{sent_game, sent_game-IsOrdered, hand_to_library, get_elem?-set_self}
use manaline.Engine.Mulligan.{put_under, bottom_cards}
use manaline.Engine.Mulligan.Next.{
  AllSit, IsFirstIn, asked, advance_mulligan-IsFirstIn, IsFirstIn-pending, IsBehind,
}

-- Different ids.
abbrev pub AllDistinct : List ℕ → Type 0
AllDistinct [] = Unit
AllDistinct (id ∷ ids) = All (λ other. (id == other) ≡ false) ids × AllDistinct ids

-- The ids are in this list.
abbrev pub AllIn : List ℕ → List ℕ → Type 0
AllIn cards ids = All (λ id. 0 < occurs id cards) ids

-- A hand without the cards, and a library with them below, the last at the very bottom.
unfoldable pub hand_left : List ℕ → List ℕ → List ℕ
unfolding retain
hand_left [] cards = cards
hand_left (id ∷ ids) cards = hand_left ids (retain (λ h. not (h == id)) cards)

unfoldable pub with_under : List ℕ → List ℕ → List ℕ
with_under [] cards = cards
with_under (id ∷ ids) cards = with_under ids (id ∷ cards)

AllIn-retain :
    (id : ℕ) (cards ids : List ℕ)
    → All (λ other. (id == other) ≡ false) ids
    → AllIn cards ids
    → AllIn (retain (λ h. not (h == id)) cards) ids
AllIn-retain id cards [] apart there = tt
AllIn-retain id cards (j ∷ ids) apart there =
    let kept = count-retain id j cards ∙ ap (λ b. if b then 0 else occurs j cards) apart.0 in
    (subst (λ n. 0 < n) (sym kept) there.0, AllIn-retain id cards ids apart.1 there.1)

-- What the loop does.
abbrev Placed : ℕ → List ℕ → PlayerState → Game → Type 0
Placed seat ids p g =
    (g' : Game) × (put_under seat ids g ≡ some g')
    × IsOrdered g'
    × (get_elem? g'.players seat
        ≡ some (record p { hand = hand_left ids p.hand; library = with_under ids p.library }))
    × (length g'.players ≡ length g.players)
    × (g'.seating ≡ g.seating)

put_under-Placed :
    (seat : ℕ) (ids : List ℕ) (p : PlayerState) (g : Game)
    → IsOrdered g
    → get_elem? g.players seat ≡ some p
    → AllIn p.hand ids
    → AllDistinct ids
    → Placed seat ids p g
unfolding put_under hand_left with_under sent_game
put_under-Placed seat [] p g h at there apart = (g, refl, h, at, refl, refl)
put_under-Placed seat (id ∷ ids) p g h at there apart =
    let q = record p { hand = retain (λ c. not (c == id)) p.hand; library = id ∷ p.library } in
    let (o, found, ordered) = sent_game-IsOrdered seat id p q g h at there.0 (λ only.
      hand_to_library id p q.hand q.library only (λ i. count-retain id i p.hand)
        (λ i. ground arith)) in
    let next = sent_game seat q id library g in
    let q_at : get_elem? next.players seat ≡ some q = get_elem?-set_self g.players seat p q at in
    let (g', runs, ordered', at', sizes, seats) =
      put_under-Placed seat ids q next ordered q_at (AllIn-retain id p.hand ids apart.0 there.1)
        apart.1 in
    (g', cc (at, found, runs), ordered', at', sizes ∙ length-set g.players seat q, seats)

-- At a table in order where everybody in the seating sits, putting different cards of a hand under the
-- library succeeds. The cards are gone from the hand and lie below the library, the last of them at the
-- bottom; the table is in order; and the first seat behind this one in the seating (behind the first place
-- where it stands, or behind the first seat if it does not stand there) whose player is not eliminated
-- decides on its hand, if there is one.
pub bottom_cards-IsOrdered :
    (seat : ℕ) (ids : List ℕ) (p : PlayerState) (g : Game)
    → IsOrdered g
    → 0 < length g.seating
    → AllSit g g.seating
    → get_elem? g.players seat ≡ some p
    → AllIn p.hand ids
    → AllDistinct ids
    → (g' : Game) × (next : Option ℕ) × (later : List ℕ) × (bottom_cards seat ids g ≡ some g')
      × IsOrdered g'
      × (get_elem? g'.players seat
          ≡ some (record p { hand = hand_left ids p.hand; library = with_under ids p.library }))
      × (g'.pending ≡ asked next)
      × IsBehind seat g.seating later
      × IsFirstIn g' later next
unfolding bottom_cards
bottom_cards-IsOrdered seat ids p g h some_seat sit at there apart =
    let (under, runs, ordered, at', sizes, seats) =
      put_under-Placed seat ids p g h at there apart in
    let told = emit (bottomed seat (length ids % 256)) under in
    let sit' : AllSit told told.seating =
      subst (λ ss. All (λ s. s < length under.players) ss) (sym seats)
        (subst (λ n. All (λ s. s < n) g.seating) (sym sizes) sit) in
    let (next, later, e, there, first) =
      advance_mulligan-IsFirstIn seat told (subst (λ ss. 0 < length ss) (sym seats) some_seat)
        sit' in
    (
      record told { pending = asked next },
      next,
      later,
      cc (runs, e),
      ordered,
      at',
      refl,
      subst (λ ss. IsBehind seat ss later) seats there,
      IsFirstIn-pending told later next (asked next) first,
    )
