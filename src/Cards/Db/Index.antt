-- ===== src/Cards/Db/Index.antt =====
-- The index of `CardDb` (crates/engine/src/card.rs): each name leads to its card and each card is found
-- under its name.
use manaline.Prelude.{
  ◌⊎◌, ◌≡◌, ◌∷◌, ◌++◌, [], ℕ, zero, suc, refl, ap, inl, inr, Bool, true, false, some, List, length,
  get_elem?, subst, ◌∙◌, if◌then◌else◌, sym, none, ◌<◌, Option, ok, err, ◌%◌, arith,
}
use manaline.Text.{Str, str_eq, str_eq→eq, str_eq_refl}
use manaline.Card.Ir.Queries.{is_some}
use manaline.Cards.{CardDef}
use manaline.Cards.Db.{
  CardDb, DbError, no_cards, find_name, key, insert, duplicate_name, creature_pt,
}

module _ {ℓ} {A : Type ℓ} where
  get_elem?-append_left :
      (xs ys : List A) (i : ℕ) (x : A) → get_elem? xs i ≡ some x → get_elem? (xs ++ ys) i ≡ some x
  get_elem?-append_left [] ys i x e = cc
  get_elem?-append_left (z ∷ xs) ys zero x e = e
  get_elem?-append_left (z ∷ xs) ys (suc i) x e = get_elem?-append_left xs ys i x e

  get_elem?-append_last : (xs : List A) (x : A) → get_elem? (xs ++ x ∷ []) (length xs) ≡ some x
  get_elem?-append_last [] x = refl
  get_elem?-append_last (z ∷ xs) x = get_elem?-append_last xs x

  get_elem?-append_cases :
      (xs : List A) (y : A) (i : ℕ) (x : A)
      → get_elem? (xs ++ y ∷ []) i ≡ some x
      → (get_elem? xs i ≡ some x) ⊎ ((i ≡ length xs) × (some y ≡ some x))
  get_elem?-append_cases [] y zero x e = inr (refl, e)
  get_elem?-append_cases [] y (suc i) x e = cc
  get_elem?-append_cases (z ∷ xs) y zero x e = inl e
  get_elem?-append_cases (z ∷ xs) y (suc i) x e = elim (get_elem?-append_cases xs y i x e) [
    | inl h ↦ inl h
    | inr h ↦ inr (ap suc h.0, h.1)
  ]

module _ (to_lowercase : Str → Str) where
  abbrev name_of : CardDef → Str
  name_of c = key to_lowercase c.name

  abbrev pub IsIndexed : CardDb → Type 0
  IsIndexed db =
      ((k : Str) (id : ℕ)
        → find_name db.by_name k ≡ some id
        → (c : CardDef) × (get_elem? db.cards id ≡ some c) × (key to_lowercase c.name ≡ k))
      × ((id : ℕ) (c : CardDef)
          → get_elem? db.cards id ≡ some c
          → find_name db.by_name (key to_lowercase c.name) ≡ some id)

  pub no_cards-IsIndexed : IsIndexed no_cards
  unfolding find_name
  no_cards-IsIndexed = (λ k id e. cc, λ id c e. cc)

  -- The database with one more card.
  abbrev with_card : CardDef → CardDb → CardDb
  with_card card db = record {
    cards = db.cards ++ card ∷ [];
    by_name = (key to_lowercase card.name, length db.cards) ∷ db.by_name;
  }

  pub find_name-first :
      (name k : Str) (id : ℕ) (entries : List (Str × ℕ)) (same : Bool)
      → str_eq name k ≡ same
      → find_name ((name, id) ∷ entries) k ≡ (if same then some id else find_name entries k)
  unfolding find_name
  find_name-first name k id entries same s = rw s

  by_name_sound :
      (card : CardDef) (db : CardDb)
      → IsIndexed db
      → (k : Str) (id : ℕ) (same : Bool) → str_eq (key to_lowercase card.name) k ≡ same
      → find_name (with_card card db).by_name k ≡ some id
      → (c : CardDef) × (get_elem? (db.cards ++ card ∷ []) id ≡ some c)
        × (key to_lowercase c.name ≡ k)
  by_name_sound card db indexed k id true s e =
      let first =
        find_name-first (key to_lowercase card.name) k (length db.cards) db.by_name true s in
      let last : length db.cards ≡ id = cc (first, e) in
      (
        card,
        subst (λ j. get_elem? (db.cards ++ card ∷ []) j ≡ some card) last
            (get_elem?-append_last db.cards card),
        str_eq→eq (key to_lowercase card.name) k s,
      )
  by_name_sound card db indexed k id false s e =
      let first =
        find_name-first (key to_lowercase card.name) k (length db.cards) db.by_name false s in
      let old = indexed.0 k id (sym first ∙ e) in
      (old.0, get_elem?-append_left db.cards (card ∷ []) id old.0 old.1, old.2)

  -- A name that is not taken yet differs from every name in the database.
  by_name_complete :
      (card : CardDef) (db : CardDb)
      → IsIndexed db
      → find_name db.by_name (key to_lowercase card.name) ≡ none
      → (id : ℕ) (c : CardDef) → get_elem? (db.cards ++ card ∷ []) id ≡ some c
      → find_name (with_card card db).by_name (key to_lowercase c.name) ≡ some id
  by_name_complete card db indexed fresh id c e =
      elim (get_elem?-append_cases db.cards card id c e) [
        | inl old ↦
            of_old (str_eq (key to_lowercase card.name) (key to_lowercase c.name)) refl
              (indexed.1 id c old)
        | inr new ↦ of_new new.0 (cc new.1)
      ]
    where
      first :
          (b : Bool)
          → str_eq (key to_lowercase card.name) (key to_lowercase c.name) ≡ b
          → find_name (with_card card db).by_name (key to_lowercase c.name)
            ≡ (if b then some (length db.cards) else find_name db.by_name (key to_lowercase c.name))
      first b h =
          find_name-first (key to_lowercase card.name) (key to_lowercase c.name) (length db.cards)
            db.by_name b h

      of_old :
          (b : Bool)
          → str_eq (key to_lowercase card.name) (key to_lowercase c.name) ≡ b
          → find_name db.by_name (key to_lowercase c.name) ≡ some id
          → find_name (with_card card db).by_name (key to_lowercase c.name) ≡ some id
      of_old true h old =
          let taken = str_eq→eq (key to_lowercase card.name) (key to_lowercase c.name) h in
          cc (taken, fresh, old)
      of_old false h old = first false h ∙ old

      of_new :
          id ≡ length db.cards
          → card ≡ c
          → find_name (with_card card db).by_name (key to_lowercase c.name) ≡ some id
      of_new last same =
          let names =
            subst (λ d. str_eq (key to_lowercase card.name) (key to_lowercase d.name) ≡ true) same
              (str_eq_refl (key to_lowercase card.name)) in
          first true names ∙ ap some (sym last)

  -- The two tests of an insertion that went well.
  passed :
      {A : Type 0} (known wrong : Bool) (p q : DbError) (r s : A)
      → (if known then err p else if wrong then err q else ok r) ≡ ok s
      → (known ≡ false) × (wrong ≡ false) × (r ≡ s)
  passed true wrong p q r s e = cc
  passed false true p q r s e = cc
  passed false false p q r s e = (refl, refl, cc)

  not_known : (o : Option ℕ) → is_some o ≡ false → o ≡ none
  not_known none e = refl
  not_known (some i) e = cc

  -- An insertion into an indexed database of fewer than 2 ^ 32 cards, if it goes well, puts the card at
  -- the end, returns its id, and leaves an indexed database.
  pub insert-IsIndexed :
      (card : CardDef) (db : CardDb) (added : ℕ × CardDb)
      → insert to_lowercase card db ≡ ok added
      → length db.cards < 4294967296
      → IsIndexed db
      → (added.0 ≡ length db.cards) × (added.1.cards ≡ db.cards ++ card ∷ []) × IsIndexed added.1
  unfolding insert
  insert-IsIndexed card db added e small indexed =
      let tests = passed _ _ (duplicate_name card.name) (creature_pt card.name) _ added e in
      let known = not_known (find_name db.by_name (key to_lowercase card.name)) tests.0 in
      let id : length db.cards % 4294967296 ≡ length db.cards = omega arith in
      let result : (length db.cards, with_card card db) ≡ added =
        (λ i. (
          sym id i,
          record (with_card card db) {
            by_name = (key to_lowercase card.name, sym id i) ∷ db.by_name;
          },
        ))
        ∙ tests.2 in
      subst (λ r. (r.0 ≡ length db.cards) × (r.1.cards ≡ db.cards ++ card ∷ []) × IsIndexed r.1)
        result
        (
          refl,
          refl,
          (
            (λ k i found.
                by_name_sound card db indexed k i (str_eq (key to_lowercase card.name) k) refl
                  found),
            by_name_complete card db indexed known,
          ),
        )
