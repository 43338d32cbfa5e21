-- ===== src/Engine/Turn/Untapped.antt =====
-- What the untap step (crates/engine/src/turn.rs) does to each object.
use manaline.Prelude.{
  ◌==◌, ◌≡◌, ◌⊎◌, inl, inr, ◌&&◌, ◌||◌, ◌<◌, ◌∷◌, if◌then◌else◌, [], ℕ, zero, suc, Bool, true,
  false, not, List, Option, none, some, length, refl, sym, ap, ◌∙◌, subst, arith, ltb, All, Has,
  retain,
}
use manaline.Engine.Objects.{
  GameObject, Modifier, ModifierKind, Expiry, skip_untap, pt, keyword, restriction, end_of_turn,
  turn_of, next_untap_of, leaves_of, battlefield,
}
use manaline.Engine.Objects.Arena.{get}
use manaline.Engine.Game.{Game}
use manaline.Engine.Zones.InStep.{occurs}
use manaline.Engine.Zones.Lists.{list_of}
use manaline.Engine.Zones.Safe.{IsOrdered}
use manaline.Engine.Turn.{holds, any_holds, untap_one, untap_step}
use manaline.Engine.Turn.Untap.{after_untap, untap_step_settles}

-- The effect "doesn't untap during its controller's next untap step", for this seat.
abbrev pub IsHold : ℕ → Modifier → Type 0
IsHold seat m = (m.kind ≡ skip_untap) × (m.expires ≡ next_untap_of seat)

abbrev pub IsNoHold : ℕ → Modifier → Type 0
IsNoHold seat m = ¬ IsHold seat m

holds-Bool :
    (seat : ℕ) (m : Modifier)
    → ((holds seat m ≡ true) × IsHold seat m) ⊎ ((holds seat m ≡ false) × IsNoHold seat m)
holds-Bool seat m = by_kind m.kind refl m.expires refl
  where
    by_kind :
        (k : ModifierKind)
        → m.kind ≡ k
        → (x : Expiry) → m.expires ≡ x
        → ((holds seat (record { kind = k; expires = x }) ≡ true) × IsHold seat m)
          ⊎ ((holds seat (record { kind = k; expires = x }) ≡ false) × IsNoHold seat m)
    by_kind (pt a b) k x e = inr (refl, λ h. cc (k, h.0))
    by_kind (keyword a) k x e = inr (refl, λ h. cc (k, h.0))
    by_kind (restriction a) k x e = inr (refl, λ h. cc (k, h.0))
    by_kind skip_untap k end_of_turn e = inr (refl, λ h. cc (e, h.1))
    by_kind skip_untap k (turn_of s) e = inr (refl, λ h. cc (e, h.1))
    by_kind skip_untap k (leaves_of s) e = inr (refl, λ h. cc (e, h.1))
    by_kind skip_untap k (next_untap_of s) e = by_seat (s == seat) refl
      where
        by_seat :
            (b : Bool)
            → (s == seat) ≡ b
            → (((s == seat) ≡ true) × IsHold seat m) ⊎ (((s == seat) ≡ false) × IsNoHold seat m)
        by_seat true same =
            let this : s ≡ seat = ground arith in inl (same, (k, e ∙ ap next_untap_of this))
        by_seat false other = inr (
          other,
          λ h.
              let both : next_untap_of s ≡ next_untap_of seat = sym e ∙ h.1 in
              let this : s ≡ seat = cc both in absurd (ground arith),
        )

any_holds-Bool :
    (seat : ℕ) (ms : List Modifier)
    → ((any_holds seat ms ≡ true) × ((m : Modifier) × Has m ms × IsHold seat m))
      ⊎ ((any_holds seat ms ≡ false) × All (IsNoHold seat) ms)
any_holds-Bool seat [] = inr (refl, tt)
any_holds-Bool seat (m ∷ ms) = both (holds-Bool seat m) (any_holds-Bool seat ms)
  where
    both :
        ((holds seat m ≡ true) × IsHold seat m) ⊎ ((holds seat m ≡ false) × IsNoHold seat m)
        → ((any_holds seat ms ≡ true) × ((n : Modifier) × Has n ms × IsHold seat n))
          ⊎ ((any_holds seat ms ≡ false) × All (IsNoHold seat) ms)
        → ((any_holds seat (m ∷ ms) ≡ true) × ((n : Modifier) × Has n (m ∷ ms) × IsHold seat n))
          ⊎ ((any_holds seat (m ∷ ms) ≡ false) × All (IsNoHold seat) (m ∷ ms))
    both (inl (e, h)) later = inl (ap (λ b. b || any_holds seat ms) e, (m, inl refl, h))
    both (inr (e, free)) (inl (k, (n, there, h))) =
        inl (ap (λ b. b || any_holds seat ms) e ∙ k, (n, inr there, h))
    both (inr (e, free)) (inr (k, all_free)) =
        inr (ap (λ b. b || any_holds seat ms) e ∙ k, (free, all_free))

-- The modifiers without those that hold, in their order.
abbrev pub IsReleased : ℕ → List Modifier → List Modifier → Type 0
IsReleased seat [] left = left ≡ []
IsReleased seat (m ∷ ms) left =
    (IsHold seat m × IsReleased seat ms left)
    ⊎ (IsNoHold seat m × (rest : List Modifier) × (left ≡ m ∷ rest) × IsReleased seat ms rest)

retain-IsReleased :
    (seat : ℕ) (ms : List Modifier) → IsReleased seat ms (retain (λ m. not (holds seat m)) ms)
unfolding retain
retain-IsReleased seat [] = refl
retain-IsReleased seat (m ∷ ms) = by_hold (holds-Bool seat m) (retain-IsReleased seat ms)
  where
    by_hold :
        ((holds seat m ≡ true) × IsHold seat m) ⊎ ((holds seat m ≡ false) × IsNoHold seat m)
        → IsReleased seat ms (retain (λ n. not (holds seat n)) ms)
        → IsReleased seat (m ∷ ms) (retain (λ n. not (holds seat n)) (m ∷ ms))
    by_hold (inl (e, h)) later = inl (
      h,
      subst
          (λ b. IsReleased seat ms (
            if not b
            then m ∷ retain (λ n. not (holds seat n)) ms
            else retain (λ n. not (holds seat n)) ms))
          (sym e) later,
    )
    by_hold (inr (e, free)) later = inr (
      free,
      retain (λ n. not (holds seat n)) ms,
      ap
          (λ b.
            if not b
            then m ∷ retain (λ n. not (holds seat n)) ms
            else retain (λ n. not (holds seat n)) ms)
          e,
      later,
    )

-- A permanent after its controller's untap step: no longer sick, untapped unless an effect holds it, without
-- the effects that held it, and otherwise as before.
abbrev pub IsUntapped : ℕ → GameObject → GameObject → Type 0
IsUntapped seat o q =
    (q.summoning_sick ≡ false)
    × ((((m : Modifier) × Has m o.modifiers × IsHold seat m) × (q.tapped ≡ o.tapped))
        ⊎ (All (IsNoHold seat) o.modifiers × (q.tapped ≡ false)))
    × IsReleased seat o.modifiers q.modifiers
    × (q ≡ record o {
      summoning_sick = q.summoning_sick;
      tapped = q.tapped;
      modifiers = q.modifiers;
    })

untap_one-IsUntapped : (seat : ℕ) (o : GameObject) → IsUntapped seat o (untap_one seat o)
untap_one-IsUntapped seat o =
    (refl, by_holds (any_holds-Bool seat o.modifiers), retain-IsReleased seat o.modifiers, refl)
  where
    held : (b : Bool) → (if b && not true then false else b) ≡ b
    held true = refl
    held false = refl

    freed : (b : Bool) → (if b && not false then false else b) ≡ false
    freed true = refl
    freed false = refl

    by_holds :
        ((any_holds seat o.modifiers ≡ true) × ((m : Modifier) × Has m o.modifiers × IsHold seat m))
          ⊎ ((any_holds seat o.modifiers ≡ false) × All (IsNoHold seat) o.modifiers)
        → (((m : Modifier) × Has m o.modifiers × IsHold seat m)
            × ((untap_one seat o).tapped ≡ o.tapped))
          ⊎ (All (IsNoHold seat) o.modifiers × ((untap_one seat o).tapped ≡ false))
    by_holds (inl (e, some_hold)) =
        inl (some_hold, ap (λ b. if o.tapped && not b then false else o.tapped) e ∙ held o.tapped)
    by_holds (inr (e, free)) =
        inr (free, ap (λ b. if o.tapped && not b then false else o.tapped) e ∙ freed o.tapped)

-- An object before and after, by how often it is in the list of the step.
abbrev pub IsAfterUntap : ℕ → ℕ → Option GameObject → Option GameObject → Type 0
IsAfterUntap seat times none r = r ≡ none
IsAfterUntap seat times (some o) r =
    (q : GameObject) × (r ≡ some q)
    × (((0 < times) × IsUntapped seat o q) ⊎ ((times ≡ 0) × (q ≡ o)))

after_untap-IsAfterUntap :
    (seat times : ℕ) (r : Option GameObject)
    → IsAfterUntap seat times r (after_untap seat (ltb 0 times) r)
after_untap-IsAfterUntap seat zero none = refl
after_untap-IsAfterUntap seat (suc n) none =
    let there : ltb 0 (suc n) ≡ true = ground arith in ap (λ b. after_untap seat b none) there
after_untap-IsAfterUntap seat zero (some o) = (o, refl, inr (refl, refl))
after_untap-IsAfterUntap seat (suc n) (some o) =
    let there : ltb 0 (suc n) ≡ true = ground arith in
    (
      untap_one seat o,
      ap (λ b. after_untap seat b (some o)) there,
      inl (omega arith, untap_one-IsUntapped seat o),
    )

-- The untap step at a table in order, if the active player sits, never fails. Each permanent in the
-- battlefield list of the active player is no longer summoning sick; it is untapped, unless it has an effect
-- that holds it in this untap step, and then stays as it was; it loses exactly the effects that held it, and
-- is otherwise as before. Every other object is as it was, and the table is in order.
pub untap_step-IsOrdered :
    (g : Game)
    → IsOrdered g
    → g.active_player < length g.players
    → (g' : Game) × (untap_step g ≡ some g')
      × IsOrdered g'
      × ((i : ℕ)
          → IsAfterUntap g.active_player
              (occurs i (list_of g g.active_player battlefield))
              (get i g.objects)
              (get i g'.objects))
untap_step-IsOrdered g h sits =
    let seat = g.active_player in
    let (g', e, ordered, changed) = untap_step_settles g h sits in
    (
      g',
      e,
      ordered,
      λ i.
          let times = occurs i (list_of g seat battlefield) in
          subst (IsAfterUntap seat times (get i g.objects)) (sym (changed i))
            (after_untap-IsAfterUntap seat times (get i g.objects)),
    )
