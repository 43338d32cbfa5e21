-- ===== src/Formats/Legal/Cards.antt =====
-- One round of the check of a deck in crates/engine/src/format.rs adds nothing exactly if the card
-- conforms.
use manaline.Prelude.{
  ◌↔◌, ◌≡◌, ◌∷◌, ◌&&◌, ◌||◌, if◌then◌else◌, [], ℕ, true, not, Option, arith, ◌++◌, max, refl, Bool,
  none, some, List, set, ap, false,
}
use manaline.Text.{Str, str_eq}
use manaline.Cards.{CardDef}
use manaline.Card.Ir.Queries.{any_where}
use manaline.Formats.{
  Format, DeckSize, CardPool, Violation, exact, at_least, range, builtin, dir, scryfall, sets, all,
  is_legal, size_violations, copy_violations, push_once, pool_violations, card_violations,
  not_in_pool, banned,
}
use manaline.Formats.Legal.{size_ok, copies_ok, pool_ok, listed, card_ok}

-- The deck size.
pub size_violations_iff :
    (size : DeckSize) (n : ℕ) → (size_violations size n ≡ []) ↔ (size_ok size n ≡ true)
unfolding size_violations size_ok
size_violations_iff (exact k) n = ground arith
size_violations_iff (at_least k) n = ground arith
size_violations_iff (range lo hi) n = ground arith

copy_violations_iff :
    (singleton : Bool) (max : Option ℕ) (card : CardDef) (n : ℕ)
    → (copy_violations singleton max card n ≡ []) ↔ (copies_ok singleton max card n ≡ true)
unfolding copy_violations copies_ok
copy_violations_iff singleton none card n = ground arith
copy_violations_iff singleton (some max) card n = ground arith

nil-append : {A : Type 0} (xs ys : List A) → xs ++ ys ≡ [] → (xs ≡ []) × (ys ≡ [])
nil-append [] ys e = (refl, e)
nil-append (x ∷ xs) ys e = cc

kept_or_added :
    (b : Bool) (out : List Violation) (v : Violation)
    → (if b then out else out ++ v ∷ []) ≡ []
    → (out ≡ []) × (b ≡ true)
kept_or_added true out v e = (e, refl)
kept_or_added false out v e = absurd (cons-ne-nil (nil-append out (v ∷ []) e).1)
  where
    cons-ne-nil : v ∷ [] ≡ [] → ⊥
    cons-ne-nil h = cc

push_once-ne-nil :
    (same : Violation → Bool) (v : Violation) (out : List Violation) → push_once same v out ≡ [] → ⊥
unfolding push_once any_where
push_once-ne-nil same v out e =
    let kept = kept_or_added (any_where same out) out v e in
    let none_there = ap (any_where same) kept.0 in cc (none_there, kept.1)

module _ (debug_pool : CardPool → Str) where
  pool_violations_nil :
      (legality : Option (Str → Str → Option Bool)) (pool : CardPool) (card : CardDef)
      (out : List Violation)
      → pool_violations legality debug_pool pool card out ≡ []
      → (out ≡ []) × (pool_ok legality pool card ≡ true)
  unfolding pool_violations pool_ok
  pool_violations_nil legality all card out e = (e, refl)
  pool_violations_nil legality (builtin set) card out e =
      kept_or_added (str_eq card.set set) out (not_in_pool card.name) e
  pool_violations_nil none (scryfall f) card out e = absurd (push_once-ne-nil _ _ out e)
  pool_violations_nil (some legal_in) (scryfall f) card out e =
      kept_or_added (is_legal (legal_in card.name f)) out (not_in_pool card.name) e
  pool_violations_nil legality (dir d) card out e = absurd (push_once-ne-nil _ _ out e)
  pool_violations_nil legality (sets s) card out e = absurd (push_once-ne-nil _ _ out e)

  pool_violations_ok :
      (legality : Option (Str → Str → Option Bool)) (pool : CardPool) (card : CardDef)
      → pool_ok legality pool card ≡ true
      → pool_violations legality debug_pool pool card [] ≡ []
  unfolding pool_violations pool_ok
  pool_violations_ok legality all card e = refl
  pool_violations_ok legality (builtin set) card e = rw e
  pool_violations_ok none (scryfall f) card e = cc
  pool_violations_ok (some legal_in) (scryfall f) card e = rw e
  pool_violations_ok legality (dir d) card e = cc
  pool_violations_ok legality (sets s) card e = cc

  -- By the two lists of names.
  by_names :
      (legality : Option (Str → Str → Option Bool)) (pool : CardPool) (card : CardDef)
      (is_banned is_allowed : Bool) (counted : List Violation)
      → (if is_banned
          then counted ++ banned card.name ∷ []
          else if is_allowed
          then counted
          else pool_violations legality debug_pool pool card counted)
        ≡ []
      → (counted ≡ []) × (is_banned ≡ false) × ((is_allowed || pool_ok legality pool card) ≡ true)
  by_names legality pool card true is_allowed counted e =
      absurd (false≢true (kept_or_added false counted (banned card.name) e).1)
    where
      false≢true : false ≡ true → ⊥
      false≢true h = cc
  by_names legality pool card false true counted e = (e, refl, refl)
  by_names legality pool card false false counted e =
      let fits = pool_violations_nil legality pool card counted e in (fits.0, refl, fits.1)

  module _ (legality : Option (Str → Str → Option Bool)) (f : Format) (card : CardDef) (n : ℕ) where
    pub card_violations_nil :
        (out : List Violation)
        → card_violations legality debug_pool f card n out ≡ []
        → (out ≡ []) × (card_ok legality f card n ≡ true)
    unfolding card_violations card_ok
    card_violations_nil out e =
        let counted = out ++ copy_violations f.deck.singleton f.deck.max_copies card n in
        let names =
          by_names legality f.legality.pool card (listed f.legality.banned card.name)
            (listed f.legality.allowed card.name) counted e in
        let parts =
          nil-append out (copy_violations f.deck.singleton f.deck.max_copies card n) names.0 in
        let copied = (copy_violations_iff f.deck.singleton f.deck.max_copies card n).0 parts.1 in
        (parts.0, rw (copied, names.1) names.2)

    pub card_violations_ok :
        card_ok legality f card n ≡ true → card_violations legality debug_pool f card n [] ≡ []
    unfolding card_violations card_ok
    card_violations_ok e =
        by_tests (copies_ok f.deck.singleton f.deck.max_copies card n)
          (listed f.legality.banned card.name) (listed f.legality.allowed card.name) refl refl refl
          e
      where
        by_tests :
            (copied is_banned is_allowed : Bool)
            → copies_ok f.deck.singleton f.deck.max_copies card n ≡ copied
            → listed f.legality.banned card.name ≡ is_banned
            → listed f.legality.allowed card.name ≡ is_allowed
            → (copied && not is_banned && (is_allowed || pool_ok legality f.legality.pool card))
              ≡ true
            → card_violations legality debug_pool f card n [] ≡ []
        by_tests false b a hc hb ha h = cc
        by_tests true true a hc hb ha h = cc
        by_tests true false true hc hb ha h =
            rw (hb, ha) ((copy_violations_iff f.deck.singleton f.deck.max_copies card n).1 hc)
        by_tests true false false hc hb ha h =
            rw (hb, ha, (copy_violations_iff f.deck.singleton f.deck.max_copies card n).1 hc)
              (pool_violations_ok legality f.legality.pool card h)
