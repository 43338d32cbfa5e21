-- ===== src/Card/Ir.antt =====
-- The card representation of crates/cardir/src/ir.rs: one data type for each of the source's, with its
-- constructors. A list or an option of a type inside that type is a data type of the same block, since
-- a type cannot hold itself within another. The attributes for RON and the schema are not modelled.
pub mod Queries
use manaline.Prelude.{ℕ, Bool, Option, List, [], ◌∷◌}
use manaline.Prelude.Int.{ℤ}
use manaline.Text.{Str}
use manaline.Mana.Color.{Color}
use manaline.Mana.Cost.{ManaCost}
use manaline.Card.Types.{CardType, Supertype, Keyword}

-- How many things a `Chosen` or a target spec picks.
pub data Quantity : Type 0 where
  exactly : ℤ → Quantity
  up_to : ℤ → Quantity
  any_number : Quantity

-- `Ref`, `PlayerRef` and `Filter` hold each other. `triggering_player`, `each_player` and the names in
-- `_filter` are `Triggering`, `EachPlayer`, and constructors that `Ref` has as well.
mutual
  pub data Ref : Type 0 where
    target : ℕ → Ref
    this : Ref
    triggering : Ref
    each : Filter → Ref
    player : PlayerRef → Ref
    attached : Ref
    chosen : PlayerRef → Filter → Quantity → Option Str → Ref
    named : Str → Ref
    exiled_with_this : Ref

  pub data PlayerRef : Type 0 where
    you : PlayerRef
    target_player : ℕ → PlayerRef
    target_opponent : ℕ → PlayerRef
    each_opponent : PlayerRef
    each_player : PlayerRef
    triggering_player : PlayerRef
    controller : Ref → PlayerRef
    owner : Ref → PlayerRef

  pub data Filter : Type 0 where
    targets : Quantity → Filter → Filter
    any creature land artifact enchantment instant sorcery permanent : Filter
    player_filter opponent spell other this_filter attached_filter : Filter
    in_graveyard : PlayerRef → Filter
    token : Filter
    subtype : Str → Filter
    color : Color → Filter
    controlled_by : PlayerRef → Filter
    tapped untapped attacking blocking : Filter
    power_at_least power_at_most mana_value_at_most : ℤ → Filter
    has_keyword : Keyword → Filter
    and_of or_of : Filters → Filter
    not_of : Filter → Filter

  pub data Filters : Type 0 where
    no_filters : Filters
    and_filter : Filter → Filters → Filters

abbrev pub filter_list : Filters → List Filter
filter_list no_filters = []
filter_list (and_filter f fs) = f ∷ filter_list fs

pub data Amount : Type 0 where
  const : ℤ → Amount
  count : Filter → Amount
  life_of : PlayerRef → Amount
  power_of : Ref → Amount
  x : Amount
  neg : Amount → Amount

pub data Duration : Type 0 where
  end_of_turn until_your_next_turn until_this_leaves : Duration

pub data Restriction : Type 0 where
  cant_attack cant_block cant_attack_or_block : Restriction

pub data DelayedAt : Type 0 where
  next_end_step : DelayedAt

pub data ReturnZone : Type 0 where
  hand battlefield : ReturnZone

pub data CounterKind : Type 0 where
  plus1_plus1 minus1_minus1 : CounterKind

pub record TokenSpec : Type 0 where
  pub name : Str
  pub colors : List Color
  pub types : List CardType
  pub subtypes : List Str
  pub pt : Option (ℤ × ℤ)
  pub keywords : List Keyword

pub data Condition : Type 0 where
  controls : PlayerRef → Filter → ℤ → Condition
  life_at_least : PlayerRef → ℤ → Condition
  life_at_most : PlayerRef → ℤ → Condition

pub data Cost : Type 0 where
  mana : ManaCost → Cost
  tap_this : Cost
  sacrifice_this : Cost
  sacrifice_one : Filter → Cost
  life : ℤ → Cost
  discard_cards : ℤ → Cost

-- The arguments of a constructor are the fields of the source's variant, in its order.
mutual
  pub data Effect : Type 0 where
    deal_damage : Amount → Ref → Bool → Effect
    destroy : Ref → Effect
    exile : Ref → Option Duration → Effect
    draw : PlayerRef → Amount → Effect
    discard : PlayerRef → Amount → Bool → Effect
    gain_life : PlayerRef → Amount → Effect
    lose_life : PlayerRef → Amount → Effect
    modify_pt : Ref → Amount → Amount → List Keyword → Duration → Effect
    grant_keyword : Ref → Keyword → Duration → Effect
    create_token : TokenSpec → Amount → Effect
    add_counters : Ref → CounterKind → Amount → Effect
    add_mana : Option Color → Amount → Effect
    tap : Ref → Effect
    untap : Ref → Effect
    return_to_hand : Ref → Effect
    counter_spell : Ref → Effect
    sacrifice : PlayerRef → Filter → Amount → Effect
    mill : PlayerRef → Amount → Effect
    return_from_graveyard : Ref → ReturnZone → Effect
    sequence : Effects → Effect
    conditional : Condition → Effect → Else → Effect
    return_exiled : Ref → ReturnZone → Effect
    skip_untap : Ref → Effect
    restrict : Ref → Restriction → Duration → Effect
    delayed : DelayedAt → Effects → Effect
    may : PlayerRef → Effect → (then_ otherwise : Effects) → (unless : Bool) → Effect
    pay_mana : PlayerRef → ManaCost → Effect
    pay_life : PlayerRef → Amount → Effect
    unsupported : Str → Effect

  pub data Effects : Type 0 where
    no_effects : Effects
    effect_then : Effect → Effects → Effects

  -- `Option<Box<Effect>>`
  pub data Else : Type 0 where
    no_else : Else
    else_do : Effect → Else

abbrev pub effect_list : Effects → List Effect
effect_list no_effects = []
effect_list (effect_then e es) = e ∷ effect_list es

mutual
  pub data EventPattern : Type 0 where
    this_enters this_dies this_leaves this_attacks this_blocks this_becomes_blocked : EventPattern
    this_deals_combat_damage_to_player this_becomes_tapped : EventPattern
    enters dies : Filter → EventPattern
    upkeep end_step begin_combat : PlayerRef → EventPattern
    cast : PlayerRef → Filter → EventPattern
    gains_life discards : PlayerRef → EventPattern
    any_of : EventPatterns → EventPattern

  pub data EventPatterns : Type 0 where
    no_events : EventPatterns
    or_event : EventPattern → EventPatterns → EventPatterns

pub data Static : Type 0 where
  pt_boost : Filter → Amount → Amount → List Keyword → Static
  keyword_grant : Filter → Keyword → Static
  cost_reduction : Filter → Amount → Static
  as_long_as : Condition → Static → Bool → Static

pub data ModeChoice : Type 0 where
  one two one_or_both : ModeChoice

pub record Mode : Type 0 where
  pub targets : List Filter
  pub effects : Effects

pub record Spell : Type 0 where
  pub targets : List Filter
  pub effects : Effects
  pub modes : List Mode
  pub choose : ModeChoice

pub record Ability : Type 0 where
  pub cost : List Cost
  pub targets : List Filter
  pub effects : Effects
  pub sorcery_speed : Bool
  pub from_graveyard : Bool

pub record Trigger : Type 0 where
  pub event : EventPattern
  pub condition : Option Condition
  pub targets : List Filter
  pub effects : Effects

pub record Card : Type 0 where
  pub name : Str
  pub cost : ManaCost
  pub types : List CardType
  pub supertypes : List Supertype
  pub subtypes : List Str
  pub pt : Option (ℤ × ℤ)
  pub text : Str
  pub keywords : List Keyword
  pub spell : Option Spell
  pub enchant : Option Filter
  pub equip : Option ManaCost
  pub statics : List Static
  pub triggers : List Trigger
  pub activated : List Ability
