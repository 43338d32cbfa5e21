-- ===== src/Formats/Legal/Accepts.antt =====
-- `check_deck_with` of crates/engine/src/format.rs finds no violation exactly in a legal deck.
use manaline.Prelude.{
  ◌==◌, ◌↔◌, ◌≡◌, ◌∷◌, [], ℕ, refl, Bool, true, false, List, ltb, All, ◌∙◌, if◌then◌else◌, sym, ap,
  Option, some, ==_iff, length, subst,
}
use manaline.Text.{Str}
use manaline.Prelude.Maybe.{◌>>=◌, >>=-eq_some}
use manaline.Cards.Db.{CardDb, get}
use manaline.Formats.{
  Format, CardPool, Violation, copies, insert_once, sorted_ids, size_violations, card_violations,
  deck_violations, check_deck_with,
}
use manaline.Formats.Legal.{IdOk, IsLegalDeck}
use manaline.Formats.Legal.Cards.{size_violations_iff, card_violations_nil, card_violations_ok}

module _ (P : ℕ → Type 0) where
  All-insert_once : (n : ℕ) (ms : List ℕ) → All P (insert_once n ms) ↔ (P n × All P ms)
  unfolding insert_once
  All-insert_once n [] = (λ h. h, λ h. h)
  All-insert_once n (m ∷ ms) = by_order (ltb n m) (n == m) (==_iff n m).0 (All-insert_once n ms)
    where
      by_order :
          (below same : Bool)
          → (same ≡ true → n ≡ m)
          → All P (insert_once n ms) ↔ (P n × All P ms)
          → All P (if below then n ∷ m ∷ ms else if same then m ∷ ms else m ∷ insert_once n ms)
            ↔ (P n × All P (m ∷ ms))
      by_order true same equal later = (λ h. h, λ h. h)
      by_order false true equal later = (λ h. (subst P (sym (equal refl)) h.0, h), λ h. h.1)
      by_order false false equal later = (
        λ h. let apart = later.0 h.1 in (apart.0, (h.0, apart.1)),
        λ h. (h.1.0, later.1 (h.0, h.1.1)),
      )

  pub All-sorted_ids : (ns : List ℕ) → All P (sorted_ids ns) ↔ All P ns
  unfolding sorted_ids
  All-sorted_ids [] = (λ h. h, λ h. h)
  All-sorted_ids (n ∷ ns) = (
    λ h.
        let apart = (All-insert_once n (sorted_ids ns)).0 h in
        (apart.0, (All-sorted_ids ns).0 apart.1),
    λ h. (All-insert_once n (sorted_ids ns)).1 (h.0, (All-sorted_ids ns).1 h.1),
  )

module _ (legality : Option (Str → Str → Option Bool)) (debug_pool : CardPool → Str) (f : Format)
    (deck : List ℕ) (db : CardDb) where
  deck_violations_nil :
      (ids : List ℕ) (out : List Violation)
      → deck_violations legality debug_pool f deck db ids out ≡ some []
      → (out ≡ []) × All (IdOk legality f db deck) ids
  unfolding deck_violations
  deck_violations_nil [] out e = (cc, tt)
  deck_violations_nil (id ∷ ids) out e =
      let found =
        >>=-eq_some (get db id)
          (λ card.
            deck_violations legality debug_pool f deck db ids
              (card_violations legality debug_pool f card (copies deck id) out))
          e in
      let rest =
        deck_violations_nil ids (card_violations legality debug_pool f found.0 (copies deck id) out)
          found.2 in
      let first = card_violations_nil debug_pool legality f found.0 (copies deck id) out rest.0 in
      (first.0, ((found.0, found.1, first.1), rest.1))

  deck_violations_ok :
      (ids : List ℕ)
      → All (IdOk legality f db deck) ids
      → deck_violations legality debug_pool f deck db ids [] ≡ some []
  unfolding deck_violations
  deck_violations_ok [] h = refl
  deck_violations_ok (id ∷ ids) h =
      ap
        (λ o. o >>= (λ card.
          deck_violations legality debug_pool f deck db ids
            (card_violations legality debug_pool f card (copies deck id) [])))
        h.0.1
      ∙ ap (deck_violations legality debug_pool f deck db ids)
          (card_violations_ok debug_pool legality f h.0.0 (copies deck id) h.0.2)
      ∙ deck_violations_ok ids h.1

  -- The check ends without a violation exactly if the deck is legal: its size is right, and every card
  -- of it is known, not banned, allowed or in the pool, and not in it too often.
  pub check_deck_with_iff :
      (check_deck_with legality debug_pool f deck db ≡ some []) ↔ IsLegalDeck legality f db deck
  unfolding check_deck_with
  check_deck_with_iff = (
    λ e.
        let parts =
          deck_violations_nil (sorted_ids deck) (size_violations f.deck.size (length deck)) e in
        (
          (size_violations_iff f.deck.size (length deck)).0 parts.0,
          (All-sorted_ids (IdOk legality f db deck) deck).0 parts.1,
        ),
    λ h.
        ap (deck_violations legality debug_pool f deck db (sorted_ids deck))
          ((size_violations_iff f.deck.size (length deck)).1 h.0)
        ∙ deck_violations_ok (sorted_ids deck)
            ((All-sorted_ids (IdOk legality f db deck) deck).1 h.1),
  )
