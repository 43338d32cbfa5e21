-- ===== src/Cards/Db/Built.antt =====
-- Databases that `CardDb::from_ir` of crates/engine/src/card.rs builds: what is in them, and when one
-- is built.
use manaline.Cards.{from_ir, CardDef, creature_def}
use manaline.Prelude.{
  >>=-Through, ◌>>=◌, ◌≡◌, refl, Result, ok, err, ◌∷◌, ◌++◌, ◌+◌, ◌%◌, ◌≤◌, ◌∙◌, [], ℕ, suc, sym,
  ap, false, none, List, map, append-nil, append_assoc, arith, length, length-append, All, set,
  subst, xor, Bool, true,
}
use manaline.Text.{Str, str_eq}
use manaline.Card.Ir.{Card}
use manaline.Validator.Whole.{validate, ValidationError}
use manaline.Cards.Db.{
  checked, invalid, add_cards, db_from_ir, key, CardDb, find_name, insert, no_cards,
}
use manaline.Cards.Db.Index.{IsIndexed, no_cards-IsIndexed, insert-IsIndexed, find_name-first}
use manaline.Card.Ir.Queries.{is_creature, is_some}
use manaline.Validator.Problems.Fits.Head.{accepted_head}

abbrev pub IsValid : Card → Type 0
IsValid card = validate card ≡ ok tt

checked-IsValid : (card valid : Card) → checked card ≡ ok valid → IsValid card × (card ≡ valid)
unfolding checked
checked-IsValid card valid e = by_result (validate card) refl e
  where
    by_result :
        (r : Result {0, 0} ValidationError Unit)
        → validate card ≡ r
        → (elim r [ ok done ↦ ok card | err p ↦ err (invalid p) ]) ≡ ok valid
        → IsValid card × (card ≡ valid)
    by_result (ok done) v h = (v, cc)
    by_result (err p) v h = cc

module _ (to_lowercase : Str → Str) where
  -- What the loop adds to an indexed database.
  add_cards_sound :
      (set : Str) (cards : List Card) (db built : CardDb)
      → add_cards to_lowercase set cards db ≡ ok built
      → length db.cards + length cards ≤ 4294967296
      → IsIndexed to_lowercase db
      → IsIndexed to_lowercase built
        × (built.cards ≡ db.cards ++ map (λ card. from_ir card set) cards)
        × All IsValid cards
  unfolding add_cards
  add_cards_sound set [] db built e small indexed =
      let same : db ≡ built = cc e in
      (
        subst (IsIndexed to_lowercase) same indexed,
        ap (λ d. d.cards) (sym same) ∙ sym (append-nil db.cards),
        tt,
      )
  add_cards_sound set (card ∷ cards) db built e small indexed =
      let valid =
        >>=-Through (checked card)
          (λ v.
            insert to_lowercase (from_ir v set) db >>= (λ a. add_cards to_lowercase set cards a.1))
          e in
      let added =
        >>=-Through (insert to_lowercase (from_ir valid.0 set) db)
          (λ a. add_cards to_lowercase set cards a.1) valid.2 in
      let first = checked-IsValid card valid.0 valid.1 in
      let one =
        insert-IsIndexed to_lowercase (from_ir valid.0 set) db added.0 added.1 (omega arith)
          indexed in
      let size : length added.0.1.cards ≡ suc (length db.cards) =
        ap length one.1 ∙ length-append db.cards (from_ir valid.0 set ∷ []) ∙ omega arith in
      let rest = add_cards_sound set cards added.0.1 built added.2 (omega arith) one.2 in
      (
        rest.0,
        rest.1
            ∙ ap (λ cs. cs ++ map (λ c. from_ir c set) cards) one.1
            ∙ append_assoc db.cards (from_ir valid.0 set ∷ []) (map (λ c. from_ir c set) cards)
            ∙ ap (λ c. db.cards ++ from_ir c set ∷ map (λ d. from_ir d set) cards) (sym first.1),
        (first.0, rest.2),
      )

  -- A database built from at most 2 ^ 32 cards holds these cards in order, each of them valid, and finds
  -- each under its name and nothing else.
  pub db_from_ir_sound :
      (set : Str) (cards : List Card) (db : CardDb)
      → db_from_ir to_lowercase set cards ≡ ok db
      → length cards ≤ 4294967296
      → (db.cards ≡ map (λ card. from_ir card set) cards)
        × All IsValid cards
        × IsIndexed to_lowercase db
  unfolding db_from_ir
  db_from_ir_sound set cards db e small =
      let built =
        add_cards_sound set cards no_cards db e (omega arith) (no_cards-IsIndexed to_lowercase) in
      (built.1, built.2, built.0)

  abbrev pub DistinctNames : List Card → Type 0
  DistinctNames [] = Unit
  DistinctNames (card ∷ cards) =
      All (λ other. str_eq (key to_lowercase card.name) (key to_lowercase other.name) ≡ false) cards
      × DistinctNames cards

  -- No name of these cards is taken.
  abbrev AllFree : CardDb → List Card → Type 0
  AllFree db cards = All (λ card. find_name db.by_name (key to_lowercase card.name) ≡ none) cards

  AllFree-step :
      (name : Str) (id : ℕ) (db : CardDb) (more : List CardDef) (cards : List Card)
      → All (λ other. str_eq name (key to_lowercase other.name) ≡ false) cards
      → AllFree db cards
      → AllFree (record { cards = more; by_name = (name, id) ∷ db.by_name }) cards
  AllFree-step name id db more [] apart free = tt
  AllFree-step name id db more (card ∷ cards) apart free = (
    find_name-first to_lowercase name (key to_lowercase card.name) id db.by_name false apart.0
        ∙ free.0,
    AllFree-step name id db more cards apart.1 free.1,
  )

  -- The database with one more valid card of a free name.
  abbrev entered : Str → Card → CardDb → CardDb
  unfolding key
  entered set card db = record {
    cards = db.cards ++ from_ir card set ∷ [];
    by_name = (key to_lowercase card.name, length db.cards % 4294967296) ∷ db.by_name;
  }

  xor_self : (b : Bool) → xor b b ≡ false
  unfolding xor
  xor_self true = refl
  xor_self false = refl

  insert_of_free :
      (set : Str) (card : Card) (db : CardDb)
      → IsValid card
      → find_name db.by_name (key to_lowercase card.name) ≡ none
      → insert to_lowercase (from_ir card set) db
        ≡ ok (length db.cards % 4294967296, entered set card db)
  unfolding insert from_ir creature_def is_creature entered
  insert_of_free set card db valid free =
      let agree = (accepted_head card valid).2 in rw (free, agree, xor_self (is_some card.pt))

  checked_valid : (card : Card) → IsValid card → checked card ≡ ok card
  unfolding checked
  checked_valid card valid = ap (λ r. elim r [ ok done ↦ ok card | err e ↦ err (invalid e) ]) valid

  add_cards_total :
      (set : Str) (cards : List Card) (db : CardDb)
      → All IsValid cards
      → DistinctNames cards
      → AllFree db cards
      → (built : CardDb) × (add_cards to_lowercase set cards db ≡ ok built)
  unfolding add_cards entered
  add_cards_total set [] db valid apart free = (db, refl)
  add_cards_total set (card ∷ cards) db valid apart free =
      let later = add_cards_total set cards (entered set card db) valid.1 apart.1 (
        AllFree-step (key to_lowercase card.name) (length db.cards % 4294967296) db
          (db.cards ++ from_ir card set ∷ []) cards apart.0 free.1) in
      (
        later.0,
        ap
              (λ r. r >>= (λ v.
                insert to_lowercase (from_ir v set) db
                >>= (λ a. add_cards to_lowercase set cards a.1)))
              (checked_valid card valid.0)
            ∙ ap (λ r. r >>= (λ a. add_cards to_lowercase set cards a.1))
                (insert_of_free set card db valid.0 free.0)
            ∙ later.1,
      )

  AllFree-no_cards : (cards : List Card) → AllFree no_cards cards
  unfolding find_name
  AllFree-no_cards [] = tt
  AllFree-no_cards (card ∷ cards) = (refl, AllFree-no_cards cards)

  -- A database is built from any list of valid cards whose names differ.
  pub db_from_ir_total :
      (set : Str) (cards : List Card)
      → All IsValid cards
      → DistinctNames cards
      → (db : CardDb) × (db_from_ir to_lowercase set cards ≡ ok db)
  unfolding db_from_ir
  db_from_ir_total set cards valid apart =
      add_cards_total set cards no_cards valid apart (AllFree-no_cards cards)
