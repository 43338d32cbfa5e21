-- ===== src/Lib.antt =====
-- manaline, a rules engine for Magic: The Gathering with a daemon, a terminal client and an MCP
-- server. The program is a set of crates: cardir (the card representation and its checks), cards and
-- carddb (card data), cardsearch and deckstats (queries and deck checks), engine (the rules), protocol
-- and daemon (the tables that clients connect to), and the clients tui, mcp and cli. The clients send
-- actions to the daemon, the daemon hands them to the engine, and the engine's events come back, each
-- seat seeing its view of them. The engine reads the mana costs of cardir.
--
-- This library models the card representation of cardir with its validator, the card database and the
-- formats of engine, the deck lists of deckstats, the mana part of cardir and
-- engine, and the objects, events, zones, turn
-- order, mulligan, untap step, cleanup and division of combat damage of engine.
--
--   * Prelude (Tests, Lists, Outcome, Maybe, Int): Boolean tests, lists over the native numbers, results
--     and options with `do`, integers. `none` of an `Option` step is a panic of the code.
--   * Text: strings as lists of code points, with the functions of the Rust library that the cost parser
--     calls (trim, to_ascii_uppercase, parse::<u8>, Display of u8).
--   * Mana.Color, Mana.Cost: `Color` and `ManaCost` of crates/cardir/src/types.rs; `parse` and `print` are
--     `ManaCost::parse` and its Display, `serialize` and `deserialize` what serde writes and reads.
--     Mana.Cost.Order, Symbols, Parse, RoundTrip and Measure hold the proofs.
--   * Card.Types, Card.Ir (and Queries): `CardType`, `Supertype` and `Keyword` of crates/cardir/src/types.rs,
--     and the representation of a card of crates/cardir/src/ir.rs, with the questions it answers.
--   * Validator (and Effects, Whole): the validator of crates/cardir/src/validate.rs. Its context is
--     passed from check to check; a problem is a constructor with the values that its text prints.
--     Validator.Occurrences (and Parts, Faults, Judged) lists what there is to judge in a part of a
--     card, Validator.Problems (and Exact, Fits) is the specification without a context, with the
--     proofs.
--   * Cards (and Db, Db.Index, Db.Built): `CardDef` and `CardDb` of crates/engine/src/card.rs. The map of
--     names is an association list; the table of lower case of the Rust library is a parameter.
--   * Decks (and Distance, Suggest, Resolve, Check): the entries of a deck list with their resolution and
--     suggestions (crates/deckstats/src/parse.rs), and the check of a deck list
--     (crates/deckstats/src/check.rs). Decks.Distance.Edits says what an edit distance is, and
--     Decks.Distance.Table that the table of the code computes it. Decks.Check.Marks, Unknown and Named
--     follow the marks on the lines, and Decks.Check.Agrees says when a report is legal.
--   * Formats (and Legal, Legal.Cards, Legal.Accepts): the formats of crates/engine/src/format.rs and the
--     check of a deck. A legality source is a function, as the trait has it; the printed form of a pool
--     or a rule is a parameter.
--   * Mana.Pool (and Laws): `Mana` and `ManaPool` of crates/engine/src/types.rs, six counts by slot.
--   * Mana.Payment (and Gather, Covers, Units, Pay): `payment_covers` and `pay_mana` of
--     crates/engine/src/mana.rs. The part of the game that a payment reads and changes is a `Purse`: the
--     pool of the seat, which permanents are tapped, and the events. The list of mana sources, which the
--     code computes from the battlefield, is an argument.
--   * Mana.Search (and Frame, Solution, Sound, Grows, Complete): the recursive `search` behind
--     `enumerate_payments` of crates/engine/src/mana.rs, with the arrays and the result as its state.
--   * Engine.Objects, Engine.Objects.Arena (and Insert): `GameObject` and what it is made of
--     (crates/engine/src/game.rs), and the arena of crates/engine/src/objects.rs.
--   * Engine.Phases: `Phase` of crates/engine/src/types.rs.
--   * Engine.Events (and View): the events of crates/engine/src/event.rs and `Event::view`.
--   * Engine.Game, Engine.Zones: the state of a game and the moves between zones
--     (crates/engine/src/game.rs). A step is a function from a game to an optional game. The children
--     state the invariant (InStep) and what a move does (Lists, Move, Keeps, Total, NewIn, Safe, PlayLand,
--     Send, Draw, Draws, Dealt).
--   * Engine.Mulligan (and Next, Bottom, Keep, Again): crates/engine/src/mulligan.rs and `shuffle_library`. The
--     shuffle is a parameter. Engine.Zones.Send has the rules for an object that changes its list without
--     becoming a new object, for the draw and for the mulligan.
--   * Engine.TurnOrder (and Next, Round): the seat after a seat, of crates/engine/src/game.rs.
--   * Engine.Combat (and Legal, Division, InOrder, Default): the division of combat damage, of
--     crates/engine/src/combat.rs. What it reads of the game (power, live blockers, keywords, toughness and damage) is an `Attack`.
--   * Engine.Turn (and Discard, Untap, Untapped): the untap step and cleanup of crates/engine/src/turn.rs, and
--     `discard_to_hand_size` of crates/engine/src/game.rs.
--
-- Mana.Examples, Validator.Examples, Cards.Examples, Decks.Examples, Decks.Check.Examples, Formats.Examples, Engine.Examples, Engine.Combat.Examples and Engine.Mulligan.Examples hold tests and the theorems at concrete inputs.
--
-- Numbers. Every u8 and usize is a native number; a sum that the code keeps in a u8 is written with its
-- remainder (`% 256`), which is what a release build computes; the theorems say below which bounds nothing
-- is cut. Damage and life are integers; the sums of a division of damage, which are i32s, are kept
-- below 2 ^ 32 and wrap as in a release build. Ids, cards and seats are numbers; the ids that the arena and
-- the card database give out are cut to a u32, and wrap.
--
-- Fuel. The parser of costs runs on one unit for each character and one more; each symbol takes at least
-- two characters. `search` counts the colours that are left, five at the call.
--
-- Not modelled: the rendering of cards, card data and its sources, the parser of deck lists, deck search and
-- statistics, the protocol, the daemon and the clients; of the engine, the rest of combat, state-based
-- actions, the rest of the turn structure, the stack, casting, triggers and the interpreter of effects;
-- of `Game`, the fields that only these read; the random generator, whose state is a number; serialization other than that of costs.
pub mod Prelude
pub mod Text
pub mod Mana
pub mod Card
pub mod Validator
pub mod Cards
pub mod Formats
pub mod Decks
pub mod Engine
