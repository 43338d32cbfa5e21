-- ===== src/Cards/Db.antt =====
-- `CardDb` of crates/engine/src/card.rs. The map from names to ids is an association list; Rust's table
-- for lower case, which `str::to_lowercase` reads, is a parameter.
pub mod Index
pub mod Built
use manaline.Prelude.{
  ◌∷◌, ◌++◌, ◌%◌, if◌then◌else◌, ◌>>=◌, [], ℕ, Option, none, some, List, Result, ok, err, length,
  get_elem?, set, xor,
}
use manaline.Text.{Str, str_eq, trim}
use manaline.Card.Ir.{Card}
use manaline.Card.Ir.Queries.{is_some}
use manaline.Validator.Whole.{validate, ValidationError}
use manaline.Cards.{CardDef, from_ir, creature_def}

pub data DbError : Type 0 where
  duplicate_name : Str → DbError
  creature_pt : Str → DbError
  invalid : ValidationError → DbError

pub record CardDb : Type 0 where
  pub cards : List CardDef
  pub by_name : List (Str × ℕ)

abbrev pub no_cards : CardDb
no_cards = record { cards = []; by_name = [] }

-- `HashMap::get`
unfoldable pub find_name : List (Str × ℕ) → Str → Option ℕ
find_name [] name = none
find_name (entry ∷ entries) name =
    let later = find_name entries name in if str_eq entry.0 name then some entry.1 else later

-- `CardDb::get`, a panic if the id is too large, and `try_get`.
unfoldable pub get : CardDb → ℕ → Option CardDef
get db id = get_elem? db.cards id

-- `map_err` on the validator's result.
unfoldable pub checked : Card → Result DbError Card
unfolding validate
checked card = elim (validate card) [ ok done ↦ ok card | err e ↦ err (invalid e) ]

module _ (to_lowercase : Str → Str) where
  unfoldable pub key : Str → Str
  key name = to_lowercase (trim name)

  -- `CardDb::insert`; an id is a `u32`.
  unfoldable pub insert : CardDef → CardDb → Result DbError (ℕ × CardDb)
  unfolding find_name key creature_def
  insert card db =
      let id = length db.cards % 4294967296 in
      if is_some (find_name db.by_name (key card.name))
      then err (duplicate_name card.name)
      else if xor (creature_def card) (is_some card.pt)
      then err (creature_pt card.name)
      else ok
          (id, record { cards = db.cards ++ card ∷ []; by_name = (key card.name, id) ∷ db.by_name })

  -- The loop of `CardDb::new`.
  unfoldable pub insert_all : List CardDef → CardDb → Result DbError CardDb
  unfolding insert
  insert_all [] db = ok db
  insert_all (card ∷ cards) db = do added ← insert card db; insert_all cards added.1

  -- The loop of `CardDb::from_ir`.
  unfoldable pub add_cards : Str → List Card → CardDb → Result DbError CardDb
  unfolding checked insert from_ir
  add_cards set [] db = ok db
  add_cards set (card ∷ cards) db = do
    valid ← checked card
    added ← insert (from_ir valid set) db
    add_cards set cards added.1

  unfoldable pub db_from_ir : Str → List Card → Result DbError CardDb
  unfolding add_cards
  db_from_ir set cards = add_cards set cards no_cards

  unfoldable pub lookup : CardDb → Str → Option ℕ
  unfolding find_name key
  lookup db name = find_name db.by_name (key name)
