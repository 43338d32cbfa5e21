-- ===== src/Decks/Suggest.antt =====
-- What `suggest` of crates/deckstats/src/parse.rs returns: the nearest name of the database.
use manaline.Prelude.{
  ◌≡◌, ◌∷◌, ◌++◌, ◌/◌, ◌≤◌, ◌∙◌, if◌then◌else◌, [], ℕ, suc, max, refl, sym, ap, Bool, true, false,
  Option, none, some, List, ltb, leb, length, All, All-append, append_assoc, append-nil, arith,
  subst, leb→le,
}
use manaline.Text.{Str}
use manaline.Cards.{CardDef}
use manaline.Cards.Db.{CardDb}
use manaline.Decks.{closest, suggest, is_closer}
use manaline.Decks.Distance.Edits.{Edits, IsDistance}
use manaline.Decks.Distance.Table.{edit_distance-IsDistance}

module _ (to_lowercase : Str → Str) (want : Str) where
  -- It takes at least `k` edits to come to the name of the card.
  abbrev pub Farther : ℕ → CardDef → Type 0
  Farther k c = (n : ℕ) → Edits want (to_lowercase c.name) n → k ≤ n

  -- The first of the nearest of the cards, by its distance and its name.
  abbrev pub IsNearest : List CardDef → ℕ → Str → Type 0
  IsNearest cards d name =
      (before : List CardDef) × (c : CardDef) × (after : List CardDef) × (cards
        ≡ before ++ c ∷ after)
      × (c.name ≡ name)
      × IsDistance want (to_lowercase c.name) d
      × All (Farther (suc d)) before
      × All (Farther d) after

  abbrev Nearest : List CardDef → Option (ℕ × Str) → Type 0
  Nearest cards none = cards ≡ []
  Nearest cards (some b) = IsNearest cards b.0 b.1

  Farther-le :
      (j k : ℕ) (cards : List CardDef) → j ≤ k → All (Farther k) cards → All (Farther j) cards
  Farther-le j k [] le h = tt
  Farther-le j k (c ∷ cards) le h = (λ n e. omega (arith, h.0 n e), Farther-le j k cards le h.1)

  -- All of the cards are at least as far as the nearest.
  IsNearest-Farther :
      (j d : ℕ) (cards : List CardDef) (name : Str)
      → j ≤ d
      → IsNearest cards d name
      → All (Farther j) cards
  IsNearest-Farther j d cards name le (before, c, after, split, named, (way, least), far, near) =
      subst (All (Farther j)) (sym split) (
        All-append (Farther j) before (c ∷ after) (Farther-le j (suc d) before (omega arith) far)
          (λ n e. omega (arith, least n e), Farther-le j d after le near))

  with_card :
      (seen : List CardDef) (best : Option (ℕ × Str)) (c : CardDef) (d : ℕ)
      → Nearest seen best
      → IsDistance want (to_lowercase c.name) d
      → Nearest (seen ++ c ∷ []) (if is_closer d best then some (d, c.name) else best)
  with_card seen none c d empty at = ([], c, [], ap (λ cs. cs ++ c ∷ []) empty, refl, at, tt, tt)
  with_card seen (some (b, name)) c d nearest at = by_test (ltb d b) refl
    where
      by_test :
          (t : Bool)
          → ltb d b ≡ t
          → Nearest (seen ++ c ∷ []) (if t then some (d, c.name) else some (b, name))
      by_test true e = (
        seen,
        c,
        [],
        refl,
        refl,
        at,
        IsNearest-Farther (suc d) b seen name (ground arith) nearest,
        tt,
      )
      by_test false e =
          let (before, o, after, split, named, dist, far, near) = nearest in
          (
            before,
            o,
            after ++ c ∷ [],
            ap (λ cs. cs ++ c ∷ []) split ∙ append_assoc before (o ∷ after) (c ∷ []),
            named,
            dist,
            far,
            All-append (Farther b) after (c ∷ []) near (λ n es. ground (arith, at.1 n es), tt),
          )

  closest-Nearest :
      (seen cards : List CardDef) (best : Option (ℕ × Str))
      → Nearest seen best
      → (best' : Option (ℕ × Str)) × (closest to_lowercase want cards best ≡ some best')
        × Nearest (seen ++ cards) best'
  unfolding closest
  closest-Nearest seen [] best h =
      (best, refl, subst (λ cs. Nearest cs best) (sym (append-nil seen)) h)
  closest-Nearest seen (c ∷ cards) best h =
      let (d, e, at) = edit_distance-IsDistance want (to_lowercase c.name) in
      let next = if is_closer d best then some (d, c.name) else best in
      let (best', runs, nearest) =
        closest-Nearest (seen ++ c ∷ []) cards next (with_card seen best c d h at) in
      (best', rw e runs, subst (λ cs. Nearest cs best') (append_assoc seen (c ∷ []) cards) nearest)

-- The nearest card is near enough, or none is.
abbrev pub IsSuggestion : (Str → Str) → Str → List CardDef → Option Str → Type 0
IsSuggestion to_lowercase want cards none =
    All (Farther to_lowercase want (suc (max (length want / 3) 1))) cards
IsSuggestion to_lowercase want cards (some name) =
    (d : ℕ) × (d ≤ max (length want / 3) 1) × IsNearest to_lowercase want cards d name

-- A suggestion for a name, in lower case, is always computed. It is the name of the first of the nearest
-- cards of the database, by the edit distance of their names in lower case, and as near as a third of
-- the name, or one edit; there is none exactly if every card takes more edits than that.
pub suggest-IsSuggestion :
    (to_lowercase : Str → Str) (name : Str) (db : CardDb)
    → (r : Option Str) × (suggest to_lowercase name db ≡ some r)
      × IsSuggestion to_lowercase (to_lowercase name) db.cards r
unfolding suggest
suggest-IsSuggestion to_lowercase name db =
    let (best, runs, nearest) = closest-Nearest to_lowercase want [] db.cards none refl in
    by_best best runs nearest
  where
    want : Str
    want = to_lowercase name

    near : ℕ
    near = max (length want / 3) 1

    by_best :
        (best : Option (ℕ × Str))
        → closest to_lowercase (to_lowercase name) db.cards none ≡ some best
        → Nearest to_lowercase (to_lowercase name) db.cards best
        → (r : Option Str) × (suggest to_lowercase name db ≡ some r)
          × IsSuggestion to_lowercase (to_lowercase name) db.cards r
    by_best none runs empty =
        (none, rw runs, subst (All (Farther to_lowercase want (suc near))) (sym empty) tt)
    by_best (some (d, s)) runs nearest = by_test (leb d near) refl
      where
        by_test :
            (t : Bool)
            → leb d near ≡ t
            → (r : Option Str) × (suggest to_lowercase name db ≡ some r)
              × IsSuggestion to_lowercase want db.cards r
        by_test true e = (some s, rw runs (rw e), (d, leb→le d near e, nearest))
        by_test false e = (
          none,
          rw runs (rw e),
          IsNearest-Farther to_lowercase want (suc near) d db.cards s (ground arith) nearest,
        )
