-- ===== src/Formats/Legal.antt =====
-- What `check_deck_with` of crates/engine/src/format.rs accepts: the rules of a format in one test, and
-- that a deck has no violation exactly if it passes.
pub mod Cards
pub mod Accepts
use manaline.Prelude.{
  ◌==◌, ◌≡◌, ◌&&◌, ◌||◌, ℕ, max, Bool, true, false, not, Option, none, some, List, leb, length, All,
  set,
}
use manaline.Text.{Str, str_eq}
use manaline.Card.Ir.Queries.{any_where}
use manaline.Cards.{CardDef, basic_def}
use manaline.Cards.Db.{CardDb, get}
use manaline.Formats.{
  Format, Deck, DeckSize, CardPool, exact, at_least, range, builtin, dir, scryfall, sets, all,
  copies, eq_ignore_ascii_case, is_legal,
}

unfoldable pub size_ok : DeckSize → ℕ → Bool
size_ok (exact k) n = n == k
size_ok (at_least k) n = leb k n
size_ok (range lo hi) n = leb lo n && leb n hi

abbrev pub max_ok : Option ℕ → ℕ → Bool
max_ok none n = true
max_ok (some max) n = leb n max

-- Any number of a basic land; one of each card in a singleton format; else up to the limit.
unfoldable pub copies_ok : Bool → Option ℕ → CardDef → ℕ → Bool
copies_ok singleton max card n = basic_def card || ((not singleton || leb n 1) && max_ok max n)

-- A source of legality that says so, for a Scryfall pool.
unfoldable pub pool_ok : Option (Str → Str → Option Bool) → CardPool → CardDef → Bool
pool_ok legality all card = true
pool_ok legality (builtin set) card = str_eq card.set set
pool_ok (some legal_in) (scryfall f) card = is_legal (legal_in card.name f)
pool_ok none (scryfall f) card = false
pool_ok legality (dir d) card = false
pool_ok legality (sets s) card = false

-- Whether a name is in a list, upper and lower case being the same.
unfoldable pub listed : List Str → Str → Bool
unfolding any_where eq_ignore_ascii_case
listed names name = any_where (λ n. eq_ignore_ascii_case n name) names

unfoldable pub card_ok : Option (Str → Str → Option Bool) → Format → CardDef → ℕ → Bool
unfolding copies_ok pool_ok listed
card_ok legality f card n =
    copies_ok f.deck.singleton f.deck.max_copies card n
    && not (listed f.legality.banned card.name)
    && (listed f.legality.allowed card.name || pool_ok legality f.legality.pool card)

-- A card of the deck is known and conforms to the format.
abbrev pub IdOk : Option (Str → Str → Option Bool) → Format → CardDb → List ℕ → ℕ → Type 0
IdOk legality f db deck id =
    (card : CardDef) × (get db id ≡ some card) × (card_ok legality f card (copies deck id) ≡ true)

-- The deck has a right size, and every card in it conforms to the format.
abbrev pub IsLegalDeck : Option (Str → Str → Option Bool) → Format → CardDb → List ℕ → Type 0
IsLegalDeck legality f db deck =
    (size_ok f.deck.size (length deck) ≡ true) × All (IdOk legality f db deck) deck
