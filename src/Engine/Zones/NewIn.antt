-- ===== src/Engine/Zones/NewIn.antt =====
-- An object that changes zones is a new object (`reset_zone_state` and `move_object` of
-- crates/engine/src/game.rs), field by field.
use manaline.Prelude.{
  ◌≡◌, ◌≢◌, ◌⊎◌, ◌∙◌, ◌∷◌, inl, inr, [], ℕ, refl, sym, ap, Bool, true, false, none, get_or, arith,
}
use manaline.Prelude.Int.{pos}
use manaline.Engine.Objects.{
  Zone, zone_eq, zone_index, GameObject, library, hand, battlefield, graveyard, exile, stack,
  command, out_of_game, reset_zone_state,
}
use manaline.Engine.Zones.{arrive}

-- Another object in the zone `to`: only the id, the card, the owner and the controller are as before.
-- Nothing else carries over.
abbrev pub IsNewIn : Zone → GameObject → GameObject → Type 0
IsNewIn to o q =
    (q.zone ≡ to)
    × (q.id ≡ o.id)
    × (q.card ≡ o.card)
    × (q.owner ≡ o.owner)
    × (q.controller ≡ o.controller)
    × (q.tapped ≡ false)
    × (q.summoning_sick ≡ false)
    × (q.damage ≡ pos 0)
    × (q.counters ≡ record { plus1 = 0; minus1 = 0 })
    × (q.attached_to ≡ none)
    × (q.attacking ≡ none)
    × (q.blocking ≡ [])
    × (q.blocked ≡ false)
    × (q.blocked_by ≡ [])
    × (q.modifiers ≡ [])
    × (q.deathtouch_damaged ≡ false)
    × (q.exiled_by ≡ none)
    × (q.until_source_leaves ≡ false)

pub arrive-IsNewIn : (to : Zone) (o : GameObject) → IsNewIn to o (arrive to o)
unfolding arrive reset_zone_state
arrive-IsNewIn to o = (
  refl, refl, refl, refl, refl, refl, refl, refl, refl, refl, refl, refl, refl, refl, refl, refl,
  refl, refl,
)

-- The zone of a number, as they are declared.
abbrev zone_of : ℕ → Zone
zone_of n =
    get_or (library ∷ hand ∷ battlefield ∷ graveyard ∷ exile ∷ stack ∷ command ∷ out_of_game ∷ []) n
      library

zone_of-zone_index : (z : Zone) → zone_of (zone_index z) ≡ z
zone_of-zone_index library = refl
zone_of-zone_index hand = refl
zone_of-zone_index battlefield = refl
zone_of-zone_index graveyard = refl
zone_of-zone_index exile = refl
zone_of-zone_index stack = refl
zone_of-zone_index command = refl
zone_of-zone_index out_of_game = refl

-- What `==` on zones says.
pub zone_eq-Bool :
    (a b : Zone) → ((zone_eq a b ≡ true) × (a ≡ b)) ⊎ ((zone_eq a b ≡ false) × (a ≢ b))
zone_eq-Bool a b = by_test (zone_eq a b) refl
  where
    by_test : (t : Bool) → zone_eq a b ≡ t → ((t ≡ true) × (a ≡ b)) ⊎ ((t ≡ false) × (a ≢ b))
    by_test true e =
        let same : zone_index a ≡ zone_index b = ground arith in
        inl (refl, sym (zone_of-zone_index a) ∙ ap zone_of same ∙ zone_of-zone_index b)
    by_test false e = inr (
      refl,
      λ same. let k : zone_index a ≡ zone_index b = ap zone_index same in absurd (ground arith),
    )
