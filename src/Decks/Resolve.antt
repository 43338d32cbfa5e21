-- ===== src/Decks/Resolve.antt =====
-- What `Decklist::resolve` of crates/deckstats/src/parse.rs makes of a deck list: every copy is a card of
-- the deck or belongs to an entry that is not known.
use manaline.Prelude.{
  ◌==◌, ◌≡◌, ◌∷◌, ◌++◌, ◌+◌, ◌∙◌, if◌then◌else◌, [], ℕ, zero, suc, refl, sym, ap, Option, none,
  some, List, length, map, All, replicate, All-append, count-append, length-append,
  length-replicate, append_assoc, append-nil, arith, Option-cases, inl, inr,
}
use manaline.Text.{Str}
use manaline.Formats.{copies}
use manaline.Cards.Db.{CardDb, lookup}
use manaline.Decks.{Entry, Unresolved, Resolution, main_entries, suggest, resolve, resolve_entries}
use manaline.Decks.Suggest.{suggest-IsSuggestion, IsSuggestion}

-- How many copies these entries list.
abbrev pub listed : List Entry → ℕ
listed [] = 0
listed (e ∷ es) = e.count + listed es

map-append {ℓ κ} :
    {A : Type ℓ} {B : Type κ} (f : A → B) (xs ys : List A) → map f (xs ++ ys) ≡ map f xs ++ map f ys
map-append f [] ys = refl
map-append f (x ∷ xs) ys = ap (λ zs. f x ∷ zs) (map-append f xs ys)

copies-replicate : (n i id : ℕ) → copies (replicate n i) id ≡ (if i == id then n else 0)
copies-replicate zero i id = ground arith
copies-replicate (suc n) i id = ground (arith, copies-replicate n i id)

module _ (to_lowercase : Str → Str) (db : CardDb) where
  -- How many copies of this card they list, and which of them are not known.
  unfoldable pub listed_as : ℕ → List Entry → ℕ
  listed_as id [] = 0
  listed_as id (e ∷ es) = elim (lookup to_lowercase db e.name) [
    | some i ↦ (if i == id then e.count else 0) + listed_as id es
    | none ↦ listed_as id es
  ]

  unfoldable pub unknown_entries : List Entry → List Entry
  unknown_entries [] = []
  unknown_entries (e ∷ es) = elim (lookup to_lowercase db e.name) [
    | some i ↦ unknown_entries es
    | none ↦ e ∷ unknown_entries es
  ]

  -- The suggestion is the one for the name of the entry.
  abbrev pub IsSuggested : Unresolved → Type 0
  IsSuggested u = IsSuggestion to_lowercase (to_lowercase u.entry.name) db.cards u.suggestion

  -- What the entries come to, from what was found before.
  abbrev Adds : List Entry → Resolution → Resolution → Type 0
  Adds es found r =
      ((id : ℕ) → copies r.deck id ≡ copies found.deck id + listed_as id es)
      × (map (λ u. u.entry) r.unresolved
          ≡ map (λ u. u.entry) found.unresolved ++ unknown_entries es)
      × All IsSuggested r.unresolved
      × (length r.deck + listed (unknown_entries es) ≡ length found.deck + listed es)

  abbrev Resolves : List Entry → Resolution → Type 0
  Resolves es found =
      (r : Resolution) × (resolve_entries to_lowercase db es found ≡ some r) × Adds es found r

  known_entry :
      (e : Entry) (es : List Entry) (found : Resolution) (i : ℕ)
      → lookup to_lowercase db e.name ≡ some i
      → Resolves es (record found { deck = found.deck ++ replicate e.count i })
      → Resolves (e ∷ es) found
  unfolding resolve_entries listed_as unknown_entries
  known_entry e es found i at (r, runs, (counts, unknown, suggested, sizes)) =
      let more = replicate e.count i in
      (
        r,
        rw (at, resolve_entries) runs,
        (
          (λ id.
              rw (at, listed_as)
                (omega (
                  arith,
                  counts id,
                  count-append (λ n. n == id) found.deck more,
                  copies-replicate e.count i id,
                ))),
          rw (at, unknown_entries) unknown,
          suggested,
          rw (at, unknown_entries)
              (omega (arith, sizes, length-append found.deck more, length-replicate e.count i)),
        ),
      )

  unknown_entry :
      (e : Entry) (es : List Entry) (found : Resolution) (s : Option Str)
      → lookup to_lowercase db e.name ≡ none
      → suggest to_lowercase e.name db ≡ some s
      → Resolves es (record found {
        unresolved = found.unresolved ++ record { entry = e; suggestion = s } ∷ [];
      })
      → Resolves (e ∷ es) found
  unfolding resolve_entries listed_as unknown_entries
  unknown_entry e es found s at e_s (r, runs, (counts, unknown, suggested, sizes)) =
      let u : Unresolved = record { entry = e; suggestion = s } in
      (
        r,
        rw (at, resolve_entries) (rw e_s runs),
        (
          (λ id. rw (at, listed_as) (counts id)),
          rw (at, unknown_entries)
              (unknown
                ∙ ap (λ us. us ++ unknown_entries es)
                    (map-append (λ u. u.entry) found.unresolved (u ∷ []))
                ∙ append_assoc (map (λ u. u.entry) found.unresolved) (e ∷ []) (unknown_entries es)),
          suggested,
          rw (at, unknown_entries) (omega (arith, sizes)),
        ),
      )

  resolve_entries-Adds :
      (es : List Entry) (found : Resolution) → All IsSuggested found.unresolved → Resolves es found
  unfolding resolve_entries listed_as unknown_entries
  resolve_entries-Adds [] found h =
      (found, refl, ((λ id. omega arith), sym (append-nil _), h, omega arith))
  resolve_entries-Adds (e ∷ es) found h = elim (Option-cases (lookup to_lowercase db e.name)) [
    | inr known ↦ known_entry e es found known.0 known.1 (
        resolve_entries-Adds es (record found { deck = found.deck ++ replicate e.count known.0 }) h)
    | inl unknown ↦
        let (s, e_s, fits) = suggest-IsSuggestion to_lowercase e.name db in
        let u : Unresolved = record { entry = e; suggestion = s } in
        unknown_entry e es found s unknown e_s (
          resolve_entries-Adds es (record found { unresolved = found.unresolved ++ u ∷ [] })
            (All-append IsSuggested found.unresolved (u ∷ []) h (fits, tt)))
  ]

  -- Resolving a deck list always succeeds. Every card of the database is in the deck as often as the
  -- entries of the main deck list it under its name; the entries that stay behind are those whose names
  -- the database does not know, in order, each with the suggestion for its name; and the cards of the deck
  -- and the copies that stayed behind are together the copies listed.
  pub resolve_total :
      (entries : List Entry)
      → (r : Resolution) × (resolve to_lowercase db entries ≡ some r)
        × ((id : ℕ) → copies r.deck id ≡ listed_as id (main_entries entries))
        × (map (λ u. u.entry) r.unresolved ≡ unknown_entries (main_entries entries))
        × All IsSuggested r.unresolved
        × (length r.deck + listed (map (λ u. u.entry) r.unresolved) ≡ listed (main_entries entries))
  unfolding resolve
  resolve_total entries =
      let es = main_entries entries in
      let (r, runs, (counts, unknown, suggested, sizes)) =
        resolve_entries-Adds es (record { deck = []; unresolved = [] }) tt in
      (
        r,
        runs,
        (λ id. omega (arith, counts id)),
        unknown,
        suggested,
        ap (λ us. length r.deck + listed us) unknown ∙ omega (arith, sizes),
      )
