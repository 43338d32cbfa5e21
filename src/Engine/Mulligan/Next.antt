-- ===== src/Engine/Mulligan/Next.antt =====
-- `advance_mulligan` of crates/engine/src/mulligan.rs: who decides next.
use manaline.Prelude.{
  ◌≡◌, ◌∷◌, ◌++◌, ◌<◌, [], ℕ, refl, ap, Bool, true, false, Option, none, some, List, length, All,
  get_elem?-some, ◌==◌, suc, arith, position, subst, ◌⊎◌, ◌≢◌, if◌then◌else◌, inl, inr,
  Option-cases, get_elem?,
}
use manaline.Engine.Events.{Elimination}
use manaline.Engine.Game.{Game, PendingChoice, mulligan, PlayerState}
use manaline.Engine.Turn.{is_eliminated}
use manaline.Engine.Mulligan.{behind, first_in_game, place_of, advance_mulligan}

-- The player of this seat has been eliminated, or has not.
abbrev pub IsOut : Game → ℕ → Type 0
IsOut g s =
    (p : PlayerState) × (r : Elimination) × (get_elem? g.players s ≡ some p)
    × (p.eliminated ≡ some r)

abbrev pub IsIn : Game → ℕ → Type 0
IsIn g s = (p : PlayerState) × (get_elem? g.players s ≡ some p) × (p.eliminated ≡ none)

-- The first of the seats that is still in the game, if there is one.
abbrev pub IsFirstIn : Game → List ℕ → Option ℕ → Type 0
IsFirstIn g seats none = All (IsOut g) seats
IsFirstIn g seats (some s) =
    (before : List ℕ) × (after : List ℕ) × (seats ≡ before ++ s ∷ after)
    × All (IsOut g) before
    × IsIn g s

abbrev pub AllSit : Game → List ℕ → Type 0
AllSit g seats = All (λ s. s < length g.players) seats

abbrev Decided : Game → ℕ → Type 0
Decided g s =
    ((is_eliminated g s ≡ some true) × IsOut g s) ⊎ ((is_eliminated g s ≡ some false) × IsIn g s)

decided : (g : Game) (s : ℕ) → s < length g.players → Decided g s
decided g s sits =
    let (p, e) = get_elem?-some g.players s sits in by_player p e (Option-cases p.eliminated)
  where
    by_player :
        (p : PlayerState)
        → get_elem? g.players s ≡ some p
        → (p.eliminated ≡ none) ⊎ ((r : Elimination) × (p.eliminated ≡ some r))
        → Decided g s
    by_player p e (inl still) = inr (cc (e, still), (p, e, still))
    by_player p e (inr (r, gone)) = inl (cc (e, gone), (p, r, e, gone))

pub first_in_game-IsFirstIn :
    (g : Game) (seats : List ℕ)
    → AllSit g seats
    → (next : Option ℕ) × (first_in_game g seats ≡ some next) × IsFirstIn g seats next
unfolding first_in_game
first_in_game-IsFirstIn g [] sit = (none, refl, tt)
first_in_game-IsFirstIn g (s ∷ seats) sit =
    by_gone (decided g s sit.0) (first_in_game-IsFirstIn g seats sit.1)
  where
    by_gone :
        Decided g s
        → (next : Option ℕ) × (first_in_game g seats ≡ some next) × IsFirstIn g seats next
        → (next : Option ℕ) × (first_in_game g (s ∷ seats) ≡ some next)
          × IsFirstIn g (s ∷ seats) next
    by_gone (inr (e, still)) later = (some s, cc e, ([], seats, refl, tt, still))
    by_gone (inl (e, gone)) (none, runs, out) = (none, cc (e, runs), (gone, out))
    by_gone (inl (e, gone)) (some t, runs, (before, after, split, out, still)) =
        (some t, cc (e, runs), (s ∷ before, after, ap (λ ts. s ∷ ts) split, (gone, out), still))

-- The seats behind this one in the seating, behind the first place where it stands; or, if it is not there,
-- those behind the first seat.
abbrev pub IsBehind : ℕ → List ℕ → List ℕ → Type 0
IsBehind seat seating later =
    ((earlier : List ℕ) × (seating ≡ earlier ++ seat ∷ later) × All (λ s. s ≢ seat) earlier)
    ⊎ (All (λ s. s ≢ seat) seating × ((first : ℕ) × (seating ≡ first ∷ later)))

-- Where `position` finds the seat.
abbrev Placed : ℕ → List ℕ → Option ℕ → Type 0
Placed seat seating none = All (λ s. s ≢ seat) seating
Placed seat seating (some i) =
    (earlier : List ℕ) × (later : List ℕ) × (seating ≡ earlier ++ seat ∷ later)
    × All (λ s. s ≢ seat) earlier
    × (behind (suc i) seating ≡ some later)

position-Placed :
    (seat : ℕ) (seating : List ℕ) → Placed seat seating (position (λ s. s == seat) seating)
unfolding position
position-Placed seat [] = tt
position-Placed seat (s ∷ seating) =
    by_head (s == seat) refl (position (λ s. s == seat) seating) (position-Placed seat seating)
  where
    by_head :
        (b : Bool)
        → (s == seat) ≡ b
        → (r : Option ℕ) → Placed seat seating r
        → Placed seat
            (s ∷ seating)
            (if b then some 0 else elim r [ none ↦ none | some i ↦ some (suc i) ])
    by_head true e r later =
        let same : s ≡ seat = ground arith in ([], seating, ap (λ x. x ∷ seating) same, tt, refl)
    by_head false e none apart = ((λ same. absurd (ground arith)), apart)
    by_head false e (some i) (earlier, later, split, apart, runs) = (
      s ∷ earlier,
      later,
      ap (λ xs. s ∷ xs) split,
      ((λ same. absurd (ground arith)), apart),
      runs,
    )

behind-IsBehind :
    (seat : ℕ) (seating : List ℕ)
    → 0 < length seating
    → (later : List ℕ) × (behind (suc (place_of seat seating)) seating ≡ some later)
      × IsBehind seat seating later
unfolding place_of
behind-IsBehind seat seating some_seat =
    by_place seating some_seat (position (λ s. s == seat) seating) (position-Placed seat seating)
  where
    by_place :
        (seats : List ℕ)
        → 0 < length seats
        → (r : Option ℕ) → Placed seat seats r
        → (later : List ℕ) × (behind (suc (elim r [ none ↦ 0 | some pos ↦ pos ])) seats
            ≡ some later)
          × IsBehind seat seats later
    by_place [] lt none apart = absurd (omega arith)
    by_place (s ∷ seats) lt none apart = (seats, refl, inr (apart, (s, refl)))
    by_place seats lt (some i) (earlier, later, split, apart, runs) =
        (later, runs, inl (earlier, split, apart))

AllSit-later : (g : Game) (earlier later : List ℕ) → AllSit g (earlier ++ later) → AllSit g later
AllSit-later g [] later h = h
AllSit-later g (s ∷ earlier) later h = AllSit-later g earlier later h.1

IsBehind-AllSit :
    (g : Game) (seat : ℕ) (seating later : List ℕ)
    → IsBehind seat seating later
    → AllSit g seating
    → AllSit g later
IsBehind-AllSit g seat seating later (inl (earlier, split, apart)) sit =
    (AllSit-later g earlier (seat ∷ later) (subst (AllSit g) split sit)).1
IsBehind-AllSit g seat seating later (inr (apart, (first, split))) sit =
    (subst (AllSit g) split sit).1

-- What `advance_mulligan` makes pending.
abbrev pub asked : Option ℕ → Option PendingChoice
asked none = none
asked (some s) = some (mulligan s)

-- Where the seating is not empty and everybody in it sits, the decision on a hand always passes on: to the
-- first seat behind this one in the seating whose player is not eliminated, and nothing is pending if there
-- is none. The seats behind are those behind the first place where this seat stands, or, if it does not
-- stand in the seating, those behind the first seat.
pub advance_mulligan-IsFirstIn :
    (seat : ℕ) (g : Game)
    → 0 < length g.seating
    → AllSit g g.seating
    → (next : Option ℕ) × (later : List ℕ) × (advance_mulligan seat g
        ≡ some (record g { pending = asked next }))
      × IsBehind seat g.seating later
      × IsFirstIn g later next
unfolding advance_mulligan
advance_mulligan-IsFirstIn seat g some_seat sit =
    let (later, e, there) = behind-IsBehind seat g.seating some_seat in
    let (next, runs, first) =
      first_in_game-IsFirstIn g later (IsBehind-AllSit g seat g.seating later there sit) in
    (next, later, by_next next e runs, there, first)
  where
    by_next :
        {later : List ℕ} (next : Option ℕ)
        → behind (suc (place_of seat g.seating)) g.seating ≡ some later
        → first_in_game g later ≡ some next
        → advance_mulligan seat g ≡ some (record g { pending = asked next })
    by_next none e runs = cc (e, runs)
    by_next (some s) e runs = cc (e, runs)

-- What is pending is no matter.
pub IsFirstIn-pending :
    (g : Game) (seats : List ℕ) (next : Option ℕ) (choice : Option PendingChoice)
    → IsFirstIn g seats next
    → IsFirstIn (record g { pending = choice }) seats next
IsFirstIn-pending g seats none choice h = h
IsFirstIn-pending g seats (some s) choice h = h
