-- ===== src/Decks.antt =====
-- Deck lists of crates/deckstats/src/parse.rs, as they are read, and the names that their writer may have
-- meant. Rust's table for lower case is a parameter; a panic is `none`.
pub mod Check
pub mod Distance
pub mod Examples
pub mod Suggest
pub mod Resolve
use manaline.Prelude.{
  ◌∷◌, ◌++◌, ◌+◌, ◌/◌, if◌then◌else◌, [], ℕ, max, Bool, true, false, Option, none, some, List, ltb,
  leb, length, replicate, count, set,
}
use manaline.Prelude.Maybe.{◌>>=◌}
use manaline.Text.{Str}
use manaline.Cards.{CardDef}
use manaline.Cards.Db.{CardDb, lookup}
use manaline.Decks.Distance.{edit_distance}

pub data Section : Type 0 where
  main : Section
  sideboard : Section
  commander : Section

pub record Entry : Type 0 where
  pub count : ℕ
  pub name : Str
  pub set : Option Str
  pub collector_number : Option Str
  pub line : ℕ
  pub section : Section

abbrev pub in_main : Section → Bool
in_main main = true
in_main _ = false

-- `Decklist::main`, of the entries of a deck list.
unfoldable pub main_entries : List Entry → List Entry
main_entries [] = []
main_entries (e ∷ es) =
    let later = main_entries es in if in_main e.section then e ∷ later else later

pub record Unresolved : Type 0 where
  pub entry : Entry
  pub suggestion : Option Str

pub record Resolution : Type 0 where
  pub deck : List ℕ
  pub unresolved : List Unresolved

abbrev pub is_closer : ℕ → Option (ℕ × Str) → Bool
is_closer d none = true
is_closer d (some b) = ltb d b.0

module _ (to_lowercase : Str → Str) where
  -- The loop of `suggest`: the first of the nearest cards, with its distance.
  unfoldable pub closest : Str → List CardDef → Option (ℕ × Str) → Option (Option (ℕ × Str))
  unfolding edit_distance
  closest want [] best = some best
  closest want (c ∷ cs) best = do
    d ← edit_distance want (to_lowercase c.name)
    closest want cs (if is_closer d best then some (d, c.name) else best)

  -- `suggest`
  unfoldable pub suggest : Str → CardDb → Option (Option Str)
  unfolding closest
  suggest name db = do
    let want = to_lowercase name
    best ← closest want db.cards none
    some (elim best [
      | none ↦ none
      | some b ↦ if leb b.0 (max (length want / 3) 1) then some b.1 else none
    ])

  -- The loop of `Decklist::resolve`.
  unfoldable pub resolve_entries : CardDb → List Entry → Resolution → Option Resolution
  unfolding lookup suggest
  resolve_entries db [] found = some found
  resolve_entries db (e ∷ es) found = elim (lookup to_lowercase db e.name) [
    | some id ↦ resolve_entries db es (record found { deck = found.deck ++ replicate e.count id })
    | none ↦ do
      suggestion ← suggest e.name db
      resolve_entries db es (record found {
        unresolved = found.unresolved ++ record { entry = e; suggestion = suggestion } ∷ [];
      })
  ]

  -- `Decklist::resolve`
  unfoldable pub resolve : CardDb → List Entry → Option Resolution
  unfolding resolve_entries main_entries
  resolve db entries =
      resolve_entries db (main_entries entries) (record { deck = []; unresolved = [] })
