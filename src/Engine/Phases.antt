-- ===== src/Engine/Phases.antt =====
use manaline.Prelude.{
  position, ◌==◌, ◌∷◌, ◌+◌, [], ℕ, Bool, true, false, Option, none, some, List, get_elem?,
}

-- `Phase` of crates/engine/src/types.rs.

pub data Phase : Type 0 where
  untap upkeep draw main1 begin_combat declare_attackers : Phase
  declare_blockers combat_damage end_combat main2 end cleanup : Phase

-- `Phase::ALL`
abbrev pub all_phases : List Phase
all_phases =
    untap ∷ upkeep ∷ draw ∷ main1 ∷ begin_combat ∷ declare_attackers ∷ declare_blockers
    ∷ combat_damage ∷ end_combat ∷ main2 ∷ end ∷ cleanup ∷ []

-- The order of declaration, for the derived equality.
abbrev pub phase_index : Phase → ℕ
phase_index untap = 0
phase_index upkeep = 1
phase_index draw = 2
phase_index main1 = 3
phase_index begin_combat = 4
phase_index declare_attackers = 5
phase_index declare_blockers = 6
phase_index combat_damage = 7
phase_index end_combat = 8
phase_index main2 = 9
phase_index end = 10
phase_index cleanup = 11

abbrev pub phase_eq : Phase → Phase → Bool
phase_eq p q = phase_index p == phase_index q

-- `Phase::next`
unfoldable pub next : Phase → Option Phase
unfolding position
next p = elim (position (λ q. phase_eq q p) all_phases) [
  | none ↦ none
  | some i ↦ get_elem? all_phases (i + 1)
]

unfoldable pub is_main : Phase → Bool
is_main main1 = true
is_main main2 = true
is_main _ = false

unfoldable pub is_combat : Phase → Bool
is_combat begin_combat = true
is_combat declare_attackers = true
is_combat declare_blockers = true
is_combat combat_damage = true
is_combat end_combat = true
is_combat _ = false

unfoldable pub has_priority : Phase → Bool
has_priority untap = false
has_priority cleanup = false
has_priority _ = true
