-- ===== src/Engine/Mulligan/Keep.antt =====
-- A hand that is kept, in `mulligan` of crates/engine/src/mulligan.rs.
use manaline.Prelude.{
  leb, subst, sym, ◌≡◌, ◌<◌, ◌≤◌, ◌%◌, ◌⊎◌, inl, inr, ℕ, suc, refl, Bool, true, false, Option, some,
  List, length, get_elem?, ltb, arith, ◌-◌, zero, min,
}
use manaline.Formats.{MulliganRule, london}
use manaline.Engine.Events.{hand_kept}
use manaline.Engine.Game.{Game, PlayerState}
use manaline.Engine.Game
use manaline.Engine.Zones.{emit}
use manaline.Engine.Mulligan.{to_bottom, keep_hand}
use manaline.Engine.Mulligan.Next.{
  AllSit, IsBehind, IsFirstIn, asked, advance_mulligan-IsFirstIn, IsFirstIn-pending,
}

-- As many as are owed, or all that are held.
abbrev pub IsCut : ℕ → ℕ → ℕ → Type 0
IsCut owed held n = ((owed ≤ held) × (n ≡ owed)) ⊎ ((held < owed) × (n ≡ held))

-- How many cards go under the library: one for each mulligan taken, the first one aside where it is free,
-- but not more than are held.
abbrev pub IsOwed : MulliganRule → ℕ → ℕ → ℕ → Type 0
IsOwed (london false) taken held n = IsCut taken held n
IsOwed (london true) zero held n = n ≡ 0
IsOwed (london true) (suc taken) held n = IsCut taken held n

min-IsCut : (owed held : ℕ) → IsCut owed held (min owed held)
min-IsCut owed held = by_order (leb owed held) refl
  where
    by_order : (b : Bool) → leb owed held ≡ b → IsCut owed held (min owed held)
    by_order true e = let le : owed ≤ held = ground arith in inl (le, omega (arith, le))
    by_order false e = let gt : held < owed = ground arith in inr (gt, omega (arith, gt))

to_bottom-IsOwed :
    (rule : MulliganRule) (taken held : ℕ)
    → held < 256
    → IsOwed rule taken held (to_bottom rule taken held)
unfolding to_bottom
to_bottom-IsOwed (london false) taken held few =
    let whole : held % 256 ≡ held = omega (arith, few) in
    subst (λ h. IsCut taken held (min taken h)) (sym whole) (min-IsCut taken held)
to_bottom-IsOwed (london true) zero held few = omega arith
to_bottom-IsOwed (london true) (suc taken) held few =
    let whole : held % 256 ≡ held = omega (arith, few) in
    let one_less : suc taken - 1 ≡ taken = omega arith in
    subst (λ h. IsCut taken held (min (suc taken - 1) h)) (sym whole)
      (subst (λ t. IsCut taken held (min t held)) (sym one_less) (min-IsCut taken held))

-- The game with a hand kept, which is told to everybody.
abbrev told : ℕ → PlayerState → Game → Game
told seat p g = emit (hand_kept seat (length p.hand)) g

-- So many cards are owed: at least one, and they are asked for; or none, and the decision passes on.
abbrev pub IsKept : ℕ → PlayerState → Game → Game → ℕ → Type 0
IsKept seat p g g' n =
    ((0 < n) × (g' ≡ record (told seat p g) { pending = some (Game.bottom_cards seat n) }))
    ⊎ ((n ≡ 0)
        × (next : Option ℕ) × (later : List ℕ) × (g'
            ≡ record (told seat p g) { pending = asked next })
        × IsBehind seat g.seating later
        × IsFirstIn g' later next)

-- Where the seating is not empty and everybody in it sits, a player with at most 255 cards may always keep
-- them. One card is owed for each mulligan taken, the first one aside where the format has it free, but not
-- more than are held. If any is owed, the player is asked for exactly so many; else the decision passes on
-- to the first seat behind this one in the seating (behind the first place where it stands, or behind the
-- first seat if it does not stand there) whose player is not eliminated, and nothing is pending if there is
-- none. The size of the hand is told; nothing else changes.
pub keep_hand-IsKept :
    (seat : ℕ) (p : PlayerState) (g : Game)
    → 0 < length g.seating
    → AllSit g g.seating
    → get_elem? g.players seat ≡ some p
    → length p.hand < 256
    → (g' : Game) × (n : ℕ) × (keep_hand seat g ≡ some g')
      × IsOwed g.format.mulligan p.mulligans (length p.hand) n
      × IsKept seat p g g' n
unfolding keep_hand
keep_hand-IsKept seat p g some_seat sit at few = by_test (ltb 0 bottom) refl
  where
    bottom : ℕ
    bottom = to_bottom g.format.mulligan p.mulligans (length p.hand)

    owed : IsOwed g.format.mulligan p.mulligans (length p.hand) bottom
    owed = to_bottom-IsOwed g.format.mulligan p.mulligans (length p.hand) few

    whole : length p.hand % 256 ≡ length p.hand
    whole = omega (arith, few)

    by_test :
        (t : Bool)
        → ltb 0 bottom ≡ t
        → (g' : Game) × (n : ℕ) × (keep_hand seat g ≡ some g')
          × IsOwed g.format.mulligan p.mulligans (length p.hand) n
          × IsKept seat p g g' n
    by_test true more = (
      record (told seat p g) { pending = some (Game.bottom_cards seat bottom) },
      bottom,
      rw at (rw more (rw whole)),
      owed,
      inl (ground (arith, more), refl),
    )
    by_test false nothing =
        let (next, later, e, there, first) =
          advance_mulligan-IsFirstIn seat (told seat p g) some_seat sit in
        (
          record (told seat p g) { pending = asked next },
          bottom,
          rw at (rw nothing (rw whole e)),
          owed,
          inr (
            ground (arith, nothing),
            next,
            later,
            refl,
            there,
            IsFirstIn-pending (told seat p g) later next (asked next) first,
          ),
        )
