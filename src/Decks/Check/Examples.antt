-- ===== src/Decks/Check/Examples.antt =====
-- Reports on a small deck list, of crates/deckstats/src/check.rs: tests, and the theorem at a concrete list.
use manaline.Prelude.{
  ◌≡◌, ◌∷◌, ◌==◌, ◌↔◌, [], ℕ, if◌then◌else◌, refl, true, none, some, All, arith, subst,
}
use manaline.Text.{Str, codes, trim, is_whitespace}
use manaline.Cards.{CardDef, from_ir}
use manaline.Cards.Db.{CardDb, get, lookup}
use manaline.Cards.Db.Index.{IsIndexed}
use manaline.Cards.Db.Built.{db_from_ir_sound}
use manaline.Cards.Examples.{two_cards, two_cards_built, lower, core}
use manaline.Validator.Examples.{elder, fork}
use manaline.Formats.{Format, eq_ignore_ascii_case, range}
use manaline.Formats.Examples.{cube, pool_name}
use manaline.Formats.Legal.{IsLegalDeck}
use manaline.Decks.{Entry, Resolution, main_entries, resolve}
use manaline.Decks.Examples.{elders, entry}
use manaline.Decks.Resolve.{unknown_entries}
use manaline.Decks.Check.{CardStatus, CheckReport, check, is_legal, legality_of}
use manaline.Decks.Check.Agrees.{IsSpelt, check-is_legal_iff}

abbrev small : Format
small = record cube { deck = record cube.deck { size = range 1 4; max_copies = some 2 } }

-- Three of a card where two are allowed, and a name that is not known.
elders_report :
    check lower pool_name elders small two_cards none
    ≡ some (record {
      lines =
          record {
            line = 1;
            count = 3;
            name = codes "ELDER";
            status = CardStatus.too_many_copies 3 2;
          }
          ∷ record {
            line = 3;
            count = 2;
            name = codes "Eldr";
            status = CardStatus.unknown (some (codes "Elder"));
          }
          ∷ [];
      deck = [];
    })
unfolding check trim is_whitespace from_ir
elders_report = refl

entry-IsSpelt :
    (e : Entry) (at : ℕ) (card : CardDef)
    → lookup lower two_cards e.name ≡ some at
    → get two_cards at ≡ some card
    → eq_ignore_ascii_case e.name card.name ≡ true
    → IsSpelt lower two_cards e
entry-IsSpelt e at card leads there same id c f g =
    let this : card ≡ c = cc (leads, there, f, g) in
    subst (λ k. eq_ignore_ascii_case e.name k.name ≡ true) this same

elders-IsSpelt : All (IsSpelt lower two_cards) (main_entries elders)
unfolding lookup trim is_whitespace get from_ir main_entries eq_ignore_ascii_case
elders-IsSpelt = (
  entry-IsSpelt (entry 3 (codes "ELDER") 1) 0 (from_ir elder core) refl refl refl,
  (λ id c f g. absurd (no_elder id f), tt),
)
  where
    no_elder : (id : ℕ) → lookup lower two_cards (codes "Eldr") ≡ some id → ⊥
    no_elder id f = cc f

two_cards-IsIndexed : IsIndexed lower two_cards
two_cards-IsIndexed =
    (db_from_ir_sound lower core (elder ∷ fork ∷ []) two_cards two_cards_built (omega arith)).2

check-is_legal_iff_example :
    (res : Resolution) × (r : CheckReport) × (resolve lower two_cards elders ≡ some res)
    × (check lower pool_name elders small two_cards none ≡ some r)
    × ((is_legal r ≡ true) ↔ (
        (unknown_entries lower two_cards (main_entries elders) ≡ [])
        × IsLegalDeck (legality_of none) small two_cards res.deck))
check-is_legal_iff_example =
    check-is_legal_iff lower pool_name elders small two_cards none two_cards-IsIndexed
      elders-IsSpelt

-- Lower case for ASCII and for É. A banned card is not marked in a list that spells É in lower case.
abbrev lower_acute : Str → Str
lower_acute [] = []
lower_acute (c ∷ cs) = (if c == 201 then 233 else c) ∷ lower_acute cs

abbrev elan : CardDef
elan = record (from_ir elder core) { name = 201 ∷ codes "lan" }

abbrev one_card : CardDb
one_card = record { cards = elan ∷ []; by_name = (233 ∷ codes "lan", 0) ∷ [] }

abbrev no_elan : Format
no_elan = record small { legality = record small.legality { banned = elan.name ∷ [] } }

banned_and_legal :
    check lower_acute pool_name (entry 1 (233 ∷ codes "lan") 1 ∷ []) no_elan one_card none
    ≡ some (record {
      lines =
          record { line = 1; count = 1; name = 233 ∷ codes "lan"; status = CardStatus.fine } ∷ [];
      deck = [];
    })
unfolding check trim is_whitespace from_ir
banned_and_legal = refl
