-- ===== src/Decks/Examples.antt =====
-- A small deck list, of crates/deckstats: tests, and the theorems at concrete inputs.
use manaline.Prelude.{◌≡◌, ◌∷◌, ◌+◌, [], ℕ, refl, Option, none, some, List, length, map, All, count}
use manaline.Text.{Str, codes, trim, is_whitespace}
use manaline.Formats.{copies}
use manaline.Cards.{from_ir}
use manaline.Cards.Examples.{two_cards, lower}
use manaline.Decks.{Entry, Resolution, main, sideboard, main_entries, suggest, resolve}
use manaline.Decks.Distance.{edit_distance}
use manaline.Decks.Distance.Edits.{IsDistance}
use manaline.Decks.Distance.Table.{edit_distance-IsDistance}
use manaline.Decks.Suggest.{IsSuggestion, suggest-IsSuggestion}
use manaline.Decks.Resolve.{listed, listed_as, unknown_entries, IsSuggested, resolve_total}

distances :
    (edit_distance (codes "kitten") (codes "sitting") ≡ some 3)
    × (edit_distance (codes "Shock") [] ≡ some 5)
unfolding edit_distance
distances = (refl, refl)

edit_distance_example :
    (d : ℕ) × (edit_distance (codes "elder") (codes "eldr") ≡ some d)
    × IsDistance (codes "elder") (codes "eldr") d
edit_distance_example = edit_distance-IsDistance (codes "elder") (codes "eldr")

suggestions :
    (suggest lower (codes "Eldr") two_cards ≡ some (some (codes "Elder")))
    × (suggest lower (codes "Mountain") two_cards ≡ some none)
unfolding suggest from_ir
suggestions = (refl, refl)

suggest-IsSuggestion_example :
    (r : Option Str) × (suggest lower (codes "Eldr") two_cards ≡ some r)
    × IsSuggestion lower (lower (codes "Eldr")) two_cards.cards r
suggest-IsSuggestion_example = suggest-IsSuggestion lower (codes "Eldr") two_cards

abbrev pub entry : ℕ → Str → ℕ → Entry
entry count name line = record {
  count = count;
  name = name;
  set = none;
  collector_number = none;
  line = line;
  section = main;
}

abbrev pub misspelt : Entry
misspelt = entry 2 (codes "Eldr") 3

abbrev pub elders : List Entry
elders =
    entry 3 (codes "ELDER") 1
    ∷ record (entry 1 (codes "Elder") 2) { section = sideboard }
    ∷ misspelt
    ∷ []

elders_resolved :
    resolve lower two_cards elders
    ≡ some (record {
      deck = 0 ∷ 0 ∷ 0 ∷ [];
      unresolved = record { entry = misspelt; suggestion = some (codes "Elder") } ∷ [];
    })
unfolding resolve trim is_whitespace from_ir
elders_resolved = refl

resolve_total_example :
    (r : Resolution) × (resolve lower two_cards elders ≡ some r)
    × ((id : ℕ) → copies r.deck id ≡ listed_as lower two_cards id (main_entries elders))
    × (map (λ u. u.entry) r.unresolved ≡ unknown_entries lower two_cards (main_entries elders))
    × All (IsSuggested lower two_cards) r.unresolved
    × (length r.deck + listed (map (λ u. u.entry) r.unresolved) ≡ listed (main_entries elders))
resolve_total_example = resolve_total lower two_cards elders
