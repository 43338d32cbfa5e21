-- ===== src/Cards/Examples.antt =====
-- A small card database, of crates/engine/src/card.rs: tests, and the theorems at concrete cards.
use manaline.Prelude.{
  ◌≡◌, ◌∷◌, ◌&&◌, ◌+◌, if◌then◌else◌, [], refl, none, some, map, arith, leb, ok, err, All, ◌++◌,
  length, xor,
}
use manaline.Prelude.Int.{pos}
use manaline.Text.{Str, codes, trim, is_whitespace}
use manaline.Mana.Color.{green}
use manaline.Card.Types.{permanent_type}
use manaline.Validator.Examples.{elder, fork, elder_accepted, fork_accepted}
use manaline.Validator.{check_target, is_bound, bind_option}
use manaline.Cards.{CardDef, from_ir, produces, mana_made}
use manaline.Cards.Db.{CardDb, no_cards, key, insert, db_from_ir, lookup, duplicate_name}
use manaline.Cards.Db.Index.{IsIndexed, insert-IsIndexed, no_cards-IsIndexed}
use manaline.Cards.Db.Built.{IsValid, DistinctNames, db_from_ir_sound, db_from_ir_total}

-- Lower case for ASCII.
abbrev pub lower : Str → Str
lower [] = []
lower (c ∷ cs) = (if leb b'A' c && leb c b'Z' then c + 32 else c) ∷ lower cs

abbrev pub core : Str
core = codes "core"

abbrev pub two_cards : CardDb
two_cards = record {
  cards = from_ir elder core ∷ from_ir fork core ∷ [];
  by_name = (codes "blank", 1) ∷ (codes "elder", 0) ∷ [];
}

pub two_cards_built : db_from_ir lower core (elder ∷ fork ∷ []) ≡ ok two_cards
unfolding db_from_ir check_target is_bound bind_option trim is_whitespace xor permanent_type
two_cards_built = refl

lookups :
    (lookup lower two_cards (codes " ELDER ") ≡ some 0)
    × (lookup lower two_cards (codes "elf") ≡ none)
    × (insert lower (from_ir elder core) two_cards ≡ err (duplicate_name (codes "Elder")))
unfolding lookup insert trim is_whitespace from_ir
lookups = (refl, refl, refl)

mana_test :
    (produces (from_ir elder core) ≡ green ∷ [])
    × (mana_made (from_ir elder core) ≡ (some green, some (pos 1), 0) ∷ [])
unfolding produces mana_made from_ir
mana_test = (refl, refl)

db_from_ir_sound_example :
    (two_cards.cards ≡ map (λ card. from_ir card core) (elder ∷ fork ∷ []))
    × All IsValid (elder ∷ fork ∷ [])
    × IsIndexed lower two_cards
db_from_ir_sound_example =
    db_from_ir_sound lower core (elder ∷ fork ∷ []) two_cards two_cards_built (omega arith)

names_differ : DistinctNames lower (elder ∷ fork ∷ [])
unfolding key trim is_whitespace
names_differ = ((refl, tt), (tt, tt))

db_from_ir_total_example : (db : CardDb) × (db_from_ir lower core (elder ∷ fork ∷ []) ≡ ok db)
db_from_ir_total_example =
    db_from_ir_total lower core (elder ∷ fork ∷ []) (elder_accepted, (fork_accepted, tt))
      names_differ

abbrev one_card : CardDb
one_card = record { cards = from_ir elder core ∷ []; by_name = (codes "elder", 0) ∷ [] }

one_card_inserted : insert lower (from_ir elder core) no_cards ≡ ok (0, one_card)
unfolding insert trim is_whitespace from_ir xor
one_card_inserted = refl

insert-IsIndexed_example :
    (0 ≡ length {A = CardDef} [])
    × (one_card.cards ≡ [] ++ from_ir elder core ∷ [])
    × IsIndexed lower one_card
insert-IsIndexed_example =
    insert-IsIndexed lower (from_ir elder core) no_cards (0, one_card) one_card_inserted
      (omega arith) (no_cards-IsIndexed lower)
