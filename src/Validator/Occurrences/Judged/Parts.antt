-- ===== src/Validator/Occurrences/Judged/Parts.antt =====
-- The checks of declared targets, statics, events and costs of crates/cardir/src/validate.rs judge the
-- occurrences in them.
use manaline.Prelude.{◌∷◌, [], false, Option, none, some, List, ltb, count}
use manaline.Card.Ir.{
  Filter, Quantity, Static, EventPattern, EventPatterns, Cost, Condition, Effects, any, creature,
  land, artifact, enchantment, instant, sorcery, permanent, player_filter, opponent, spell, other,
  this_filter, attached_filter, in_graveyard, token, subtype, color, controlled_by, tapped,
  untapped, attacking, blocking, power_at_least, power_at_most, mana_value_at_most, has_keyword,
  and_of, or_of, not_of, targets, pt_boost, keyword_grant, cost_reduction, as_long_as, enters, dies,
  upkeep, end_step, begin_combat, cast, gains_life, discards, any_of, no_events, or_event,
  sacrifice_one, life, discard_cards, mana, tap_this, sacrifice_this, this_enters, this_dies,
  this_leaves, this_attacks, this_blocks, this_becomes_blocked, this_deals_combat_damage_to_player,
  this_becomes_tapped,
}
use manaline.Card.Ir.Queries.{is_variable, no_effect}
use manaline.Validator.{Problem, err_if}
use manaline.Validator.Effects.{
  target_spec, target_specs, is_targets, static, static_condition, event, events, cost, effects,
  condition_reads_stats, is_as_long_as, is_no_event, not_positive,
}
use manaline.Validator.Whole.{check_condition, check_costs}
use manaline.Validator.Occurrences.{in_filter, in_spec, in_specs, in_amount, in_effects, always_if}
use manaline.Validator.Occurrences.Judged.{
  Judged, Judged-skip, Judged-then, Judged-err_if, Judged-at_least_one,
}
use manaline.Validator.Occurrences.Judged.References.{Judged-player, Judged-filter}
use manaline.Validator.Occurrences.Judged.Effects.{Judged-amount, Judged-condition, Judged-effects}
use manaline.Validator.Occurrences.Parts.{
  in_static, in_event, in_events, in_cost, in_costs, in_if, in_declared, in_body,
}

Judged-targets :
    (n : Quantity) (inner : Filter)
    → Judged false (target_spec (targets n inner)) (in_spec (targets n inner))
unfolding target_spec in_spec
Judged-targets n inner =
    Judged-then _ (in_filter false inner)
      (Judged-then _ (always_if (is_targets inner) Problem.nested_targets)
        (Judged-at_least_one false Problem.target_count n)
        (Judged-err_if false (is_targets inner) Problem.nested_targets))
      (Judged-filter false inner)

Judged-spec : (f : Filter) → Judged false (target_spec f) (in_spec f)
unfolding target_spec in_spec
Judged-spec (targets n inner) = Judged-targets n inner
Judged-spec any = Judged-filter false any
Judged-spec creature = Judged-filter false creature
Judged-spec land = Judged-filter false land
Judged-spec artifact = Judged-filter false artifact
Judged-spec enchantment = Judged-filter false enchantment
Judged-spec instant = Judged-filter false instant
Judged-spec sorcery = Judged-filter false sorcery
Judged-spec permanent = Judged-filter false permanent
Judged-spec player_filter = Judged-filter false player_filter
Judged-spec opponent = Judged-filter false opponent
Judged-spec spell = Judged-filter false spell
Judged-spec other = Judged-filter false other
Judged-spec this_filter = Judged-filter false this_filter
Judged-spec attached_filter = Judged-filter false attached_filter
Judged-spec (in_graveyard p) = Judged-filter false (in_graveyard p)
Judged-spec token = Judged-filter false token
Judged-spec (subtype s) = Judged-filter false (subtype s)
Judged-spec (color c) = Judged-filter false (color c)
Judged-spec (controlled_by p) = Judged-filter false (controlled_by p)
Judged-spec tapped = Judged-filter false tapped
Judged-spec untapped = Judged-filter false untapped
Judged-spec attacking = Judged-filter false attacking
Judged-spec blocking = Judged-filter false blocking
Judged-spec (power_at_least n) = Judged-filter false (power_at_least n)
Judged-spec (power_at_most n) = Judged-filter false (power_at_most n)
Judged-spec (mana_value_at_most n) = Judged-filter false (mana_value_at_most n)
Judged-spec (has_keyword k) = Judged-filter false (has_keyword k)
Judged-spec (and_of fs) = Judged-filter false (and_of fs)
Judged-spec (or_of fs) = Judged-filter false (or_of fs)
Judged-spec (not_of f) = Judged-filter false (not_of f)

Judged-specs : (fs : List Filter) → Judged false (target_specs fs) (in_specs fs)
unfolding target_specs in_specs
Judged-specs [] = Judged-skip false
Judged-specs (f ∷ fs) = Judged-then _ (in_specs fs) (Judged-spec f) (Judged-specs fs)

pub Judged-declared :
    (fs : List Filter)
    → Judged false
        (λ c. err_if (ltb 1 (count is_variable fs)) Problem.many_variable (target_specs fs c))
        (in_declared fs)
unfolding in_declared
Judged-declared fs =
    Judged-then _ (always_if (ltb 1 (count is_variable fs)) Problem.many_variable) (Judged-specs fs)
      (Judged-err_if false (ltb 1 (count is_variable fs)) Problem.many_variable)

pub Judged-static : (s : Static) → Judged false (static s) (in_static s)
unfolding static in_static static_condition
Judged-static (pt_boost f power toughness keywords) =
    Judged-then _ (in_amount toughness)
      (Judged-then _ (in_amount power) (Judged-filter false f) (Judged-amount power))
      (Judged-amount toughness)
Judged-static (keyword_grant f k) = Judged-filter false f
Judged-static (cost_reduction f n) =
    Judged-then _ (in_amount n) (Judged-filter false f) (Judged-amount n)
Judged-static (as_long_as if_ s leading) =
    Judged-then _ (in_static s)
      (Judged-then _ (always_if (is_as_long_as s) Problem.nested_as_long_as)
        (Judged-then _ (always_if (condition_reads_stats if_) Problem.stats_condition)
          (Judged-condition if_)
          (Judged-err_if false (condition_reads_stats if_) Problem.stats_condition))
        (Judged-err_if false (is_as_long_as s) Problem.nested_as_long_as))
      (Judged-static s)

mutual
  unfolding event in_event

  pub Judged-event : (e : EventPattern) → Judged false (event e) (in_event e)
  Judged-event (enters f) = Judged-filter false f
  Judged-event (dies f) = Judged-filter false f
  Judged-event (upkeep p) = Judged-player false p
  Judged-event (end_step p) = Judged-player false p
  Judged-event (begin_combat p) = Judged-player false p
  Judged-event (gains_life p) = Judged-player false p
  Judged-event (discards p) = Judged-player false p
  Judged-event (cast who f) =
      Judged-then _ (in_filter false f) (Judged-player false who) (Judged-filter false f)
  Judged-event (any_of es) =
      Judged-then _ (in_events es) (Judged-err_if false (is_no_event es) Problem.empty_any)
        (Judged-events es)
  Judged-event this_enters = Judged-skip false
  Judged-event this_dies = Judged-skip false
  Judged-event this_leaves = Judged-skip false
  Judged-event this_attacks = Judged-skip false
  Judged-event this_blocks = Judged-skip false
  Judged-event this_becomes_blocked = Judged-skip false
  Judged-event this_deals_combat_damage_to_player = Judged-skip false
  Judged-event this_becomes_tapped = Judged-skip false

  pub Judged-events : (es : EventPatterns) → Judged false (events es) (in_events es)
  Judged-events no_events = Judged-skip false
  Judged-events (or_event e es) = Judged-then _ (in_events es) (Judged-event e) (Judged-events es)

pub Judged-cost : (k : Cost) → Judged false (cost k) (in_cost k)
unfolding cost in_cost
Judged-cost (sacrifice_one f) = Judged-filter false f
Judged-cost (life n) = Judged-err_if false (not_positive n) Problem.cost_amount
Judged-cost (discard_cards n) = Judged-err_if false (not_positive n) Problem.cost_amount
Judged-cost (mana m) = Judged-skip false
Judged-cost tap_this = Judged-skip false
Judged-cost sacrifice_this = Judged-skip false

pub Judged-costs : (ks : List Cost) → Judged false (check_costs ks) (in_costs ks)
unfolding check_costs in_costs
Judged-costs [] = Judged-skip false
Judged-costs (k ∷ ks) = Judged-then _ (in_costs ks) (Judged-cost k) (Judged-costs ks)

pub Judged-if : (if_ : Option Condition) → Judged false (check_condition if_) (in_if if_)
unfolding check_condition in_if
Judged-if none = Judged-skip false
Judged-if (some if_) = Judged-condition if_

pub Judged-body :
    (p : Problem) (es : Effects)
    → Judged false (λ c. effects es (err_if (no_effect es) p c)) (in_body p es)
unfolding in_body
Judged-body p es =
    Judged-then _ (in_effects es) (Judged-err_if false (no_effect es) p) (Judged-effects es)
