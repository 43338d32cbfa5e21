-- ===== src/Engine/Game.antt =====
-- `Game`, `PlayerState`, `StackObject` and `PendingChoice` of crates/engine/src/game.rs, less the parts
-- that no modelled operation reads: the card data, the triggers, the history and the damage rounds.
-- The state of the random generator is a number.
use manaline.Prelude.{ℕ, Bool, Option, List}
use manaline.Prelude.Int.{ℤ}
use manaline.Text.{Str}
use manaline.Mana.Pool.{ManaPool}
use manaline.Formats.{Format}
use manaline.Engine.Objects.Arena.{Objects}
use manaline.Engine.Phases.{Phase}
use manaline.Engine.Events.{Event, Target, Elimination}

-- The choices that the turn structure asks for; those of triggers, resolution and casting are not
-- modelled.
pub data PendingChoice : Type 0 where
  mulligan : ℕ → PendingChoice
  bottom_cards : ℕ → ℕ → PendingChoice
  declare_attackers : ℕ → PendingChoice
  declare_blockers : ℕ → List ℕ → PendingChoice
  assign_damage : ℕ → ℕ → List ℕ → PendingChoice
  discard : ℕ → ℕ → PendingChoice

-- Without `kind`, which no modelled operation reads.
pub record StackObject : Type 0 where
  pub object : ℕ
  pub controller : ℕ
  pub targets : List Target
  pub modes : List ℕ
  pub x : ℕ
  pub division : List ℤ

pub record PlayerState : Type 0 where
  pub name : Str
  pub life : ℤ
  pub eliminated : Option Elimination
  pub library : List ℕ
  pub hand : List ℕ
  pub graveyard : List ℕ
  pub exile : List ℕ
  pub battlefield : List ℕ
  pub command : List ℕ
  pub commander_damage : List (ℕ × ℤ)
  pub commander_casts : List (ℕ × ℕ)
  pub mana_pool : ManaPool
  pub lands_played_this_turn : ℕ
  pub poison : ℕ
  pub mulligans : ℕ
  pub drew_from_empty : Bool

pub record Game : Type 0 where
  pub format : Format
  pub turn : ℕ
  pub seating : List ℕ
  pub turn_order : List ℕ
  pub active_player : ℕ
  pub phase : Phase
  pub priority : Option ℕ
  pub passed_in_succession : ℕ
  pub stack : List StackObject
  pub players : List PlayerState
  pub objects : Objects
  pub pending : Option PendingChoice
  pub log : List Event
  pub rng : ℕ
