-- ===== src/Decks/Check/Agrees.antt =====
-- What a report of crates/deckstats/src/check.rs says of a deck list.
use manaline.Prelude.{
  ◌==◌, ◌≡◌, ◌∷◌, ◌<◌, ◌↔◌, ◌∙◌, ◌+◌, if◌then◌else◌, [], ℕ, refl, sym, ap, Bool, true, false,
  Option, some, List, map, All, arith, Option-cases, subst, inl, inr,
}
use manaline.Text.{Str}
use manaline.Cards.{CardDef}
use manaline.Cards.Db.{CardDb, get, lookup, key}
use manaline.Cards.Db.Index.{IsIndexed}
use manaline.Formats.{Format, CardPool, Violation, copies, eq_ignore_ascii_case, check_deck_with}
use manaline.Formats.Legal.{IsLegalDeck}
use manaline.Formats.Legal.Accepts.{check_deck_with_iff}
use manaline.Decks.{Entry, Unresolved, Resolution, main_entries, resolve}
use manaline.Decks.Resolve.{listed_as, unknown_entries, resolve_total}
use manaline.Decks.Check.{
  LineReport, CheckReport, KnownCards, is_legal, problems, check, fine_line, legality_of,
  mark_unresolved, mark_violations,
}
use manaline.Decks.Check.Marks.{marked, has_name, is_legal_iff, mark_violations_iff}
use manaline.Decks.Check.Named.{IdOfName, check_deck_with-Named}
use manaline.Decks.Check.Unknown.{has_line, has_name-mark_unresolved, mark_unresolved_iff}

-- The lines of the entries, before any mark.
abbrev fine_lines : List Entry → List LineReport
fine_lines es = map fine_line es

All-weaken {ℓ} :
    {A : Type ℓ} (P Q : A → Type 0) (xs : List A) → ((x : A) → P x → Q x) → All P xs → All Q xs
All-weaken P Q [] f h = tt
All-weaken P Q (x ∷ xs) f h = (f x h.0, All-weaken P Q xs f h.1)

All-both {ℓ} :
    {A : Type ℓ} (P Q R : A → Type 0) (xs : List A)
    → ((x : A) → P x → Q x → R x)
    → All P xs
    → All Q xs
    → All R xs
All-both P Q R [] f h k = tt
All-both P Q R (x ∷ xs) f h k = (f x h.0 k.0, All-both P Q R xs f h.1 k.1)

marked-fine_lines : (es : List Entry) → marked (fine_lines es) ≡ 0
unfolding fine_line
marked-fine_lines [] = refl
marked-fine_lines (e ∷ es) = marked-fine_lines es

names_there :
    (es : List Entry)
    → All
        (λ e.
          (name : Str)
          → eq_ignore_ascii_case e.name name ≡ true
          → has_name name (fine_lines es) ≡ true)
        es
unfolding fine_line
names_there [] = tt
names_there (e ∷ es) = (
  (λ name h. ground (arith, h)),
  All-weaken _ _ es (λ o f name h. ground (arith, f name h)) (names_there es),
)

lines_there : (es : List Entry) → All (λ e. has_line e.line (fine_lines es) ≡ true) es
unfolding fine_line
lines_there [] = tt
lines_there (e ∷ es) = (ground arith, All-weaken _ _ es (λ o h. ground (arith, h)) (lines_there es))

All-entry :
    (P : Entry → Type 0) (us : List Unresolved)
    → All P (map (λ u. u.entry) us)
    → All (λ u. P u.entry) us
All-entry P [] h = tt
All-entry P (u ∷ us) h = (h.0, All-entry P us h.1)

All-copies : (P : ℕ → Type 0) (ids : List ℕ) → ((id : ℕ) → 0 < copies ids id → P id) → All P ids
All-copies P [] h = tt
All-copies P (id ∷ ids) h =
    (h id (ground arith), All-copies P ids (λ i more. h i (ground (arith, more))))

nothing_unresolved : (us : List Unresolved) → (us ≡ []) ↔ (map (λ u. u.entry) us ≡ [])
nothing_unresolved [] = ((λ e. refl), (λ e. refl))
nothing_unresolved (u ∷ us) = ((λ e. cc e), (λ e. cc e))

module _ (to_lowercase : Str → Str) (db : CardDb) where
  All-unknown_entries :
      (P : Entry → Type 0) (es : List Entry) → All P es → All P (unknown_entries to_lowercase db es)
  unfolding unknown_entries
  All-unknown_entries P [] h = tt
  All-unknown_entries P (e ∷ es) h = elim (Option-cases (lookup to_lowercase db e.name)) [
    | inl at ↦ rw (at, unknown_entries) (h.0, All-unknown_entries P es h.1)
    | inr at ↦ rw (at.1, unknown_entries) (All-unknown_entries P es h.1)
  ]

  listed_as-some :
      (P : ℕ → Type 0) (id : ℕ) (es : List Entry)
      → All (λ e. (i : ℕ) → lookup to_lowercase db e.name ≡ some i → P i) es
      → 0 < listed_as to_lowercase db id es
      → P id
  unfolding listed_as
  listed_as-some P id [] h more = absurd (omega arith)
  listed_as-some P id (e ∷ es) h more = elim (Option-cases (lookup to_lowercase db e.name)) [
    | inl at ↦
        let same : listed_as to_lowercase db id (e ∷ es) ≡ listed_as to_lowercase db id es =
          rw (at, listed_as) refl in
        listed_as-some P id es h.1 (subst (λ n. 0 < n) same more)
    | inr at ↦ by_test at.0 at.1 (at.0 == id) refl (listed_as-some P id es h.1)
  ]
    where
      by_test :
          (i : ℕ)
          → lookup to_lowercase db e.name ≡ some i
          → (t : Bool) → (i == id) ≡ t
          → (0 < listed_as to_lowercase db id es → P id)
          → P id
      by_test i at true same later = subst P (ground arith) (h.0 i at)
      by_test i at false other later =
          let listed_here : listed_as to_lowercase db id (e ∷ es)
              ≡ (if i == id then e.count else 0) + listed_as to_lowercase db id es =
            rw (at, listed_as) refl in
          later (ground (arith, listed_here, other))

  -- Where the database has an entry's name, it is the name of the card, upper and lower case of ASCII
  -- being the same.
  abbrev pub IsSpelt : Entry → Type 0
  IsSpelt e =
      (id : ℕ) (c : CardDef)
      → lookup to_lowercase db e.name ≡ some id
      → get db id ≡ some c
      → eq_ignore_ascii_case e.name c.name ≡ true

  -- The id is that of a card with a line.
  abbrev HasCard : List Entry → ℕ → Type 0
  HasCard es id = IdOfName (λ name. has_name name (fine_lines es) ≡ true) db id

  deck-IdOfName :
      (es : List Entry) (deck : List ℕ)
      → IsIndexed to_lowercase db
      → All IsSpelt es
      → ((id : ℕ) → copies deck id ≡ listed_as to_lowercase db id es)
      → All (HasCard es) deck
  unfolding lookup get
  deck-IdOfName es deck indexed spelt counts =
      let leads =
        All-both _ _ (λ e. (i : ℕ) → lookup to_lowercase db e.name ≡ some i → HasCard es i) es
          (λ e named spells i at.
            let (c, found, same) = indexed.0 (key to_lowercase e.name) i at in
            (c, found, named c.name (spells i c at found)))
          (names_there es) spelt in
      All-copies (HasCard es) deck
        (λ id more. listed_as-some (HasCard es) id es leads (subst (λ n. 0 < n) (counts id) more))

  -- With a line for each entry that is not known and for each card of the deck.
  report_iff :
      (debug_pool : CardPool → Str) (f : Format) (known : Option KnownCards) (es : List Entry)
      (res : Resolution)
      → All (λ u. has_line u.entry.line (fine_lines es) ≡ true) res.unresolved
      → All (HasCard es) res.deck
      → (vs : List Violation) × (check_deck_with (legality_of known) debug_pool f res.deck db
          ≡ some vs)
        × ((is_legal (
                mark_violations vs (record {
                  lines = mark_unresolved known res.unresolved (fine_lines es);
                  deck = [];
                }))
              ≡ true)
            ↔ ((res.unresolved ≡ []) × IsLegalDeck (legality_of known) f db res.deck))
  unfolding problems
  report_iff debug_pool f known es res lines cards =
      let ls = mark_unresolved known res.unresolved (fine_lines es) in
      let r : CheckReport = record { lines = ls; deck = [] } in
      let (vs, runs, named) =
        check_deck_with-Named (λ name. has_name name ls ≡ true) (legality_of known) debug_pool f
          res.deck db
          (All-weaken _ _ res.deck
            (λ id h. (
              h.0,
              h.1,
              has_name-mark_unresolved known h.0.name res.unresolved (fine_lines es) ∙ h.2,
            ))
            cards) in
      let counted = is_legal_iff (mark_violations vs r) in
      let marks = mark_violations_iff vs r named in
      let unknown = mark_unresolved_iff known res.unresolved (fine_lines es) lines in
      let accepts = check_deck_with_iff (legality_of known) debug_pool f res.deck db in
      (
        vs,
        runs,
        (
          (λ legal.
              let parts = marks.0 (counted.0 legal) in
              ((unknown.0 (omega (arith, parts.1))).0, accepts.0 (runs ∙ ap some parts.0))),
          (λ h.
              let none_found : vs ≡ [] = cc (runs, accepts.1 h.1) in
              counted.1
                (marks.1 (none_found, omega (arith, unknown.1 (h.0, marked-fine_lines es))))),
        ),
      )

-- Where the index of the database is right and the names in the deck list are spelt as those of the cards
-- they lead to (upper and lower case of ASCII aside), the check of a deck list returns a report. It is
-- legal exactly if the database knows every entry of the main deck and the deck is legal in the format.
pub check-is_legal_iff :
    (to_lowercase : Str → Str) (debug_pool : CardPool → Str) (entries : List Entry) (f : Format)
    (db : CardDb) (known : Option KnownCards)
    → IsIndexed to_lowercase db
    → All (IsSpelt to_lowercase db) (main_entries entries)
    → (res : Resolution) × (r : CheckReport) × (resolve to_lowercase db entries ≡ some res)
      × (check to_lowercase debug_pool entries f db known ≡ some r)
      × ((is_legal r ≡ true) ↔ (
          (unknown_entries to_lowercase db (main_entries entries) ≡ [])
          × IsLegalDeck (legality_of known) f db res.deck))
unfolding check lookup get
check-is_legal_iff to_lowercase debug_pool entries f db known indexed spelt =
    let es = main_entries entries in
    let (res, runs, counts, unknown, suggested, sizes) = resolve_total to_lowercase db entries in
    let lines =
      All-entry (λ e. has_line e.line (fine_lines es) ≡ true) res.unresolved
        (subst (All (λ e. has_line e.line (fine_lines es) ≡ true)) (sym unknown)
          (All-unknown_entries to_lowercase db _ es (lines_there es))) in
    let cards = deck-IdOfName to_lowercase db es res.deck indexed spelt counts in
    let (vs, violations, legal) =
      report_iff to_lowercase db debug_pool f known es res lines cards in
    let empty = nothing_unresolved res.unresolved in
    (
      res,
      mark_violations vs
          (record { lines = mark_unresolved known res.unresolved (fine_lines es); deck = [] }),
      runs,
      rw runs (rw violations),
      (
        (λ h. let parts = legal.0 h in (sym unknown ∙ empty.0 parts.0, parts.1)),
        (λ h. legal.1 (empty.1 (unknown ∙ h.0), h.1)),
      ),
    )
