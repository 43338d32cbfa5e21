-- ===== src/Formats/Examples.antt =====
-- The formats of formats/cube.ron and formats/commander.ron, and checks of small decks against them,
-- as crates/engine/src/format.rs makes them.
use manaline.Prelude.{◌↔◌, ◌≡◌, ◌∷◌, [], refl, Bool, true, false, Option, none, some}
use manaline.Prelude.Int.{pos}
use manaline.Text.{Str, codes}
use manaline.Cards.{from_ir}
use manaline.Cards.Examples.{two_cards, core}
use manaline.Formats.{
  Format, FormatRule, CardPool, london, exact, range, builtin, scryfall, commander,
  commander_damage, color_identity, too_few_cards, too_many_copies, not_singleton, needs_card_data,
  not_in_pool, unsupported_rule, allows_player_count, unsupported_rules, check_deck,
  check_deck_with, format_deck_any,
}
use manaline.Formats.Legal.{IsLegalDeck}
use manaline.Formats.Legal.Accepts.{check_deck_with_iff}

abbrev pub cube : Format
cube = record {
  name = codes "Starter Cube";
  players = record { min = 2; max = 2 };
  starting_life = pos 20;
  starting_hand = 7;
  max_hand_size = 7;
  mulligan = london false;
  deck = record {
    size = range 40 60;
    singleton = false;
    includes_commander = false;
    max_copies = some 4;
  };
  rules = [];
  legality = record { pool = builtin core; banned = []; allowed = [] };
}

abbrev edh : Format
edh = record {
  name = codes "Commander";
  players = record { min = 2; max = 6 };
  starting_life = pos 40;
  starting_hand = 7;
  max_hand_size = 7;
  mulligan = london true;
  deck = record {
    size = exact 100;
    singleton = true;
    includes_commander = true;
    max_copies = none;
  };
  rules = commander ∷ commander_damage (pos 21) ∷ color_identity ∷ [];
  legality = record { pool = scryfall (codes "commander"); banned = []; allowed = [] };
}

-- The names of the pools and rules, as far as they are used.
abbrev pub pool_name : CardPool → Str
pool_name pool = []

abbrev rule_name : FormatRule → Str
rule_name commander = codes "Commander"
rule_name (commander_damage n) = codes "CommanderDamage(21)"
rule_name _ = codes "ColorIdentity"

abbrev elder_only : Str → Str → Option Bool
elder_only name f = none

deck_tests :
    (check_deck pool_name cube (0 ∷ 0 ∷ 1 ∷ 0 ∷ 0 ∷ 0 ∷ []) two_cards
      ≡ some (too_few_cards 6 40 ∷ too_many_copies (codes "Elder") 5 4 ∷ []))
    × (check_deck pool_name edh (1 ∷ 0 ∷ 1 ∷ []) two_cards
        ≡ some (
            too_few_cards 3 100
            ∷ needs_card_data (codes "commander")
            ∷ not_singleton (codes "Blank") 2
            ∷ []))
    × (check_deck_with (some elder_only) pool_name edh (0 ∷ []) two_cards
        ≡ some (too_few_cards 1 100 ∷ not_in_pool (codes "Elder") ∷ []))
    × (check_deck pool_name (record cube { deck = format_deck_any }) (1 ∷ 0 ∷ []) two_cards
        ≡ some [])
    × (check_deck pool_name cube (2 ∷ []) two_cards ≡ none)
unfolding check_deck format_deck_any from_ir
deck_tests = (refl, refl, refl, refl, refl)

rules_tests :
    (allows_player_count edh 7 ≡ false)
    × (unsupported_rules rule_name edh
        ≡ unsupported_rule (codes "Commander")
          ∷ unsupported_rule (codes "CommanderDamage(21)")
          ∷ unsupported_rule (codes "ColorIdentity")
          ∷ [])
unfolding allows_player_count unsupported_rules
rules_tests = (refl, refl)

check_deck_with_iff_example :
    (check_deck_with none pool_name cube (0 ∷ 1 ∷ 0 ∷ []) two_cards ≡ some [])
    ↔ IsLegalDeck none cube two_cards (0 ∷ 1 ∷ 0 ∷ [])
check_deck_with_iff_example = check_deck_with_iff none pool_name cube (0 ∷ 1 ∷ 0 ∷ []) two_cards
