-- ===== src/Formats.antt =====
-- Formats of crates/engine/src/format.rs: the settings of a format and the check of a deck against
-- them. Where per-format legality comes from, a trait in the code, is a parameter, and so is the text of
-- a value for debugging.
pub mod Legal
pub mod Examples
use manaline.Prelude.{
  ◌==◌, ◌∷◌, ◌++◌, ◌&&◌, ◌+◌, if◌then◌else◌, [], ℕ, min, max, Bool, true, false, not, Option, none,
  some, List, map, ltb, leb, length, count, set,
}
use manaline.Prelude.Int.{ℤ}
use manaline.Text.{Str, str_eq}
use manaline.Card.Ir.Queries.{any_where}
use manaline.Cards.{CardDef, basic_def}
use manaline.Cards.Db.{CardDb, get}
use manaline.Prelude.Maybe.{◌>>=◌}

pub record PlayerRange : Type 0 where
  pub min : ℕ
  pub max : ℕ

pub data MulliganRule : Type 0 where
  london : (free_first : Bool) → MulliganRule

pub data DeckSize : Type 0 where
  exact : ℕ → DeckSize
  at_least : ℕ → DeckSize
  range : ℕ → ℕ → DeckSize

pub record Deck : Type 0 where
  pub size : DeckSize
  pub singleton : Bool
  pub includes_commander : Bool
  pub max_copies : Option ℕ

pub data FormatRule : Type 0 where
  commander : FormatRule
  commander_damage : ℤ → FormatRule
  color_identity : FormatRule
  poison : ℕ → FormatRule

-- A path is its text.
pub data CardPool : Type 0 where
  builtin : Str → CardPool
  dir : Str → CardPool
  scryfall : Str → CardPool
  sets : List Str → CardPool
  all : CardPool

pub record Legality : Type 0 where
  pub pool : CardPool
  pub banned : List Str
  pub allowed : List Str

pub record Format : Type 0 where
  pub name : Str
  pub players : PlayerRange
  pub starting_life : ℤ
  pub starting_hand : ℕ
  pub max_hand_size : ℕ
  pub mulligan : MulliganRule
  pub deck : Deck
  pub rules : List FormatRule
  pub legality : Legality

-- `format_deck_any`
unfoldable pub format_deck_any : Deck
format_deck_any = record {
  size = at_least 0;
  singleton = false;
  includes_commander = false;
  max_copies = none;
}

pub data Violation : Type 0 where
  too_few_cards : (have need : ℕ) → Violation
  too_many_cards : (have max : ℕ) → Violation
  not_singleton : (name : Str) (count : ℕ) → Violation
  too_many_copies : (name : Str) (count max : ℕ) → Violation
  banned : (name : Str) → Violation
  not_in_pool : (name : Str) → Violation
  unsupported_pool : (pool : Str) → Violation
  unsupported_rule : (rule : Str) → Violation
  unparsable : (reason : Str) → Violation
  needs_card_data : (format : Str) → Violation

unfoldable pub allows_player_count : Format → ℕ → Bool
allows_player_count f n = leb f.players.min n && leb n f.players.max

-- `{r:?}` is `debug_rule r`.
unfoldable pub unsupported_rules : (FormatRule → Str) → Format → List Violation
unsupported_rules debug_rule f = map (λ r. unsupported_rule (debug_rule r)) f.rules

unfoldable pub size_violations : DeckSize → ℕ → List Violation
size_violations (exact k) n =
    if ltb n k then too_few_cards n k ∷ [] else if ltb k n then too_many_cards n k ∷ [] else []
size_violations (at_least k) n = if ltb n k then too_few_cards n k ∷ [] else []
size_violations (range lo hi) n =
    if ltb n lo then too_few_cards n lo ∷ [] else if ltb hi n then too_many_cards n hi ∷ [] else []

-- `u8::to_ascii_lowercase`, on characters
unfoldable pub ascii_lowercase : ℕ → ℕ
ascii_lowercase c = if leb b'A' c && leb c b'Z' then c + 32 else c

-- `str::eq_ignore_ascii_case`
unfoldable pub eq_ignore_ascii_case : Str → Str → Bool
unfolding ascii_lowercase
eq_ignore_ascii_case [] [] = true
eq_ignore_ascii_case (c ∷ cs) (d ∷ ds) =
    ascii_lowercase c == ascii_lowercase d && eq_ignore_ascii_case cs ds
eq_ignore_ascii_case _ _ = false

-- The ids of the deck in order, each once: the sorted keys of the counts.
unfoldable pub insert_once : ℕ → List ℕ → List ℕ
insert_once n [] = n ∷ []
insert_once n (m ∷ ms) =
    let later = insert_once n ms in
    if ltb n m then n ∷ m ∷ ms else if n == m then m ∷ ms else m ∷ later

unfoldable pub sorted_ids : List ℕ → List ℕ
unfolding insert_once
sorted_ids [] = []
sorted_ids (n ∷ ns) = insert_once n (sorted_ids ns)

-- How often a card stands in the deck.
abbrev pub copies : List ℕ → ℕ → ℕ
copies deck id = count (λ n. n == id) deck

abbrev copies_over : CardDef → ℕ → Option ℕ → List Violation
copies_over card n none = []
copies_over card n (some max) =
    if ltb max n && not (basic_def card) then too_many_copies card.name n max ∷ [] else []

-- The copies of a card in a deck with these two settings.
unfoldable pub copy_violations : Bool → Option ℕ → CardDef → ℕ → List Violation
unfolding basic_def
copy_violations singleton max card n =
    if singleton && ltb 1 n && not (basic_def card)
    then not_singleton card.name n ∷ []
    else copies_over card n max

abbrev is_needs_card_data : Violation → Bool
is_needs_card_data (needs_card_data f) = true
is_needs_card_data v = false

abbrev is_unsupported_pool : Str → Violation → Bool
is_unsupported_pool pool (unsupported_pool p) = str_eq p pool
is_unsupported_pool pool v = false

-- One violation of its kind is enough.
unfoldable pub push_once : (Violation → Bool) → Violation → List Violation → List Violation
unfolding any_where
push_once same v out = if any_where same out then out else out ++ v ∷ []

-- What a source of legality answers, `Some(true)`.
abbrev pub is_legal : Option Bool → Bool
is_legal (some true) = true
is_legal _ = false

-- `LegalitySource`, and the debug text of a pool.
module _ (legality : Option (Str → Str → Option Bool)) (debug_pool : CardPool → Str) where
  abbrev scryfall_violations : CardDef → Str → List Violation → List Violation
  scryfall_violations card f out = elim legality [
    | none ↦ push_once is_needs_card_data (needs_card_data f) out
    | some legal_in ↦
        if is_legal (legal_in card.name f) then out else out ++ not_in_pool card.name ∷ []
  ]

  unfoldable pub pool_violations : CardPool → CardDef → List Violation → List Violation
  unfolding push_once
  pool_violations all card out = out
  pool_violations (builtin set) card out =
      if str_eq card.set set then out else out ++ not_in_pool card.name ∷ []
  pool_violations (scryfall f) card out = scryfall_violations card f out
  pool_violations pool card out =
      push_once (is_unsupported_pool (debug_pool pool)) (unsupported_pool (debug_pool pool)) out

  -- One round of the loop, for a card that stands `n` times in the deck.
  unfoldable pub card_violations : Format → CardDef → ℕ → List Violation → List Violation
  unfolding copy_violations eq_ignore_ascii_case pool_violations any_where
  card_violations f card n out =
      let counted = out ++ copy_violations f.deck.singleton f.deck.max_copies card n in
      if any_where (λ b. eq_ignore_ascii_case b card.name) f.legality.banned
      then counted ++ banned card.name ∷ []
      else if any_where (λ a. eq_ignore_ascii_case a card.name) f.legality.allowed
      then counted
      else pool_violations f.legality.pool card counted

  -- The loop; a card that is not in the database is a panic.
  unfoldable pub deck_violations :
      Format → List ℕ → CardDb → List ℕ → List Violation → Option (List Violation)
  unfolding get card_violations
  deck_violations f deck db [] out = some out
  deck_violations f deck db (id ∷ ids) out = do
    card ← get db id
    deck_violations f deck db ids (card_violations f card (copies deck id) out)

  -- `Format::check_deck_with`
  unfoldable pub check_deck_with : Format → List ℕ → CardDb → Option (List Violation)
  unfolding deck_violations sorted_ids size_violations
  check_deck_with f deck db =
      deck_violations f deck db (sorted_ids deck) (size_violations f.deck.size (length deck))

-- `Format::check_deck`
unfoldable pub check_deck : (CardPool → Str) → Format → List ℕ → CardDb → Option (List Violation)
unfolding check_deck_with
check_deck debug_pool f deck db = check_deck_with none debug_pool f deck db
