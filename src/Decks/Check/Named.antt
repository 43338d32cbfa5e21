-- ===== src/Decks/Check/Named.antt =====
-- The violations that `check_deck_with` of crates/engine/src/format.rs returns are about cards of the
-- deck, and it returns if the database has these.
use manaline.Prelude.{
  ◌∷◌, ◌&&◌, if◌then◌else◌, [], ℕ, Bool, true, false, not, Option, none, some, List, ltb, All,
  All-append, max, ◌≡◌, refl, length, set, sym, subst,
}
use manaline.Text.{Str, str_eq}
use manaline.Card.Ir.Queries.{any_where}
use manaline.Cards.Db.{CardDb, get}
use manaline.Cards.{CardDef, basic_def}
use manaline.Formats.Legal.Accepts.{All-sorted_ids}
use manaline.Formats.{
  DeckSize, Violation, size_violations, copy_violations, push_once, CardPool, pool_violations,
  card_violations, deck_violations, check_deck_with, Format, eq_ignore_ascii_case, is_legal, copies,
  sorted_ids,
}

module _ (P : Str → Type 0) where
  -- If the violation is about a card, this holds of its name.
  abbrev pub OfName : Violation → Type 0
  OfName (Violation.banned name) = P name
  OfName (Violation.not_in_pool name) = P name
  OfName (Violation.not_singleton name n) = P name
  OfName (Violation.too_many_copies name n max) = P name
  OfName _ = Unit

  -- The id is that of a card, and this holds of its name.
  abbrev pub IdOfName : CardDb → ℕ → Type 0
  IdOfName db id = (card : CardDef) × (get db id ≡ some card) × P card.name

  abbrev Named : List Violation → Type 0
  Named vs = All OfName vs

  Named-if :
      (t : Bool) (xs ys : List Violation) → Named xs → Named ys → Named (if t then xs else ys)
  Named-if true xs ys h k = h
  Named-if false xs ys h k = k

  size_violations-Named : (size : DeckSize) (n : ℕ) → Named (size_violations size n)
  unfolding size_violations
  size_violations-Named (DeckSize.exact k) n =
      Named-if (ltb n k) _ _ (tt, tt) (Named-if (ltb k n) _ _ (tt, tt) tt)
  size_violations-Named (DeckSize.at_least k) n = Named-if (ltb n k) _ _ (tt, tt) tt
  size_violations-Named (DeckSize.range lo hi) n =
      Named-if (ltb n lo) _ _ (tt, tt) (Named-if (ltb hi n) _ _ (tt, tt) tt)

  copy_violations-Named :
      (single : Bool) (max : Option ℕ) (card : CardDef) (n : ℕ)
      → P card.name
      → Named (copy_violations single max card n)
  unfolding copy_violations
  copy_violations-Named single none card n h =
      Named-if (single && ltb 1 n && not (basic_def card)) _ _ (h, tt) tt
  copy_violations-Named single (some max) card n h =
      Named-if (single && ltb 1 n && not (basic_def card)) _ _ (h, tt)
        (Named-if (ltb max n && not (basic_def card)) _ _ (h, tt) tt)

  push_once-Named :
      (same : Violation → Bool) (v : Violation) (out : List Violation)
      → OfName v
      → Named out
      → Named (push_once same v out)
  unfolding push_once
  push_once-Named same v out h k =
      Named-if (any_where same out) _ _ k (All-append OfName out (v ∷ []) k (h, tt))

  module _ (legality : Option (Str → Str → Option Bool)) (debug_pool : CardPool → Str) where
    pool_violations-Named :
        (pool : CardPool) (card : CardDef) (out : List Violation)
        → P card.name
        → Named out
        → Named (pool_violations legality debug_pool pool card out)
    unfolding pool_violations
    pool_violations-Named CardPool.all card out h k = k
    pool_violations-Named (CardPool.builtin set) card out h k =
        Named-if (str_eq card.set set) _ _ k (All-append OfName out _ k (h, tt))
    pool_violations-Named (CardPool.dir d) card out h k = push_once-Named _ _ out tt k
    pool_violations-Named (CardPool.sets s) card out h k = push_once-Named _ _ out tt k
    pool_violations-Named (CardPool.scryfall f) card out h k = by_source legality refl
      where
        by_source :
            (source : Option (Str → Str → Option Bool))
            → legality ≡ source
            → Named (pool_violations legality debug_pool (CardPool.scryfall f) card out)
        by_source none e =
            subst (λ s. Named (pool_violations s debug_pool (CardPool.scryfall f) card out)) (sym e)
              (push_once-Named _ _ out tt k)
        by_source (some legal_in) e =
            subst (λ s. Named (pool_violations s debug_pool (CardPool.scryfall f) card out)) (sym e)
              (Named-if (is_legal (legal_in card.name f)) _ _ k (All-append OfName out _ k (h, tt)))

    card_violations-Named :
        (f : Format) (card : CardDef) (n : ℕ) (out : List Violation)
        → P card.name
        → Named out
        → Named (card_violations legality debug_pool f card n out)
    unfolding card_violations
    card_violations-Named f card n out h k =
        let counted =
          All-append OfName out (copy_violations f.deck.singleton f.deck.max_copies card n) k
            (copy_violations-Named f.deck.singleton f.deck.max_copies card n h) in
        Named-if (any_where (λ b. eq_ignore_ascii_case b card.name) f.legality.banned) _ _
          (All-append OfName _ _ counted (h, tt))
          (Named-if (any_where (λ a. eq_ignore_ascii_case a card.name) f.legality.allowed) _ _
            counted (pool_violations-Named f.legality.pool card _ h counted))

    deck_violations-Named :
        (f : Format) (deck : List ℕ) (db : CardDb) (ids : List ℕ) (out : List Violation)
        → All (IdOfName db) ids
        → Named out
        → (vs : List Violation) × (deck_violations legality debug_pool f deck db ids out ≡ some vs)
          × Named vs
    unfolding deck_violations
    deck_violations-Named f deck db [] out h k = (out, refl, k)
    deck_violations-Named f deck db (id ∷ ids) out ((card, at, named), rest) k =
        let (vs, runs, later) =
          deck_violations-Named f deck db ids
            (card_violations legality debug_pool f card (copies deck id) out) rest
            (card_violations-Named f card (copies deck id) out named k) in
        (vs, rw at runs, later)

    pub check_deck_with-Named :
        (f : Format) (deck : List ℕ) (db : CardDb)
        → All (IdOfName db) deck
        → (vs : List Violation) × (check_deck_with legality debug_pool f deck db ≡ some vs)
          × Named vs
    unfolding check_deck_with
    check_deck_with-Named f deck db h =
        deck_violations-Named f deck db (sorted_ids deck)
          (size_violations f.deck.size (length deck)) ((All-sorted_ids (IdOfName db) deck).1 h)
          (size_violations-Named f.deck.size (length deck))
