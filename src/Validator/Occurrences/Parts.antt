-- ===== src/Validator/Occurrences/Parts.antt =====
-- The occurrences in the parts of a card: declared targets, statics, events, costs, triggers and
-- activated abilities.
use manaline.Prelude.{◌∷◌, ◌++◌, [], false, Option, none, some, List, ltb, count}
use manaline.Card.Ir.{
  Filter, Static, EventPattern, EventPatterns, Cost, Condition, Trigger, Ability, Effects, pt_boost,
  keyword_grant, cost_reduction, as_long_as, enters, dies, upkeep, end_step, begin_combat, cast,
  gains_life, discards, any_of, no_events, or_event, sacrifice_one, life, discard_cards,
}
use manaline.Card.Ir.Queries.{is_variable, no_effect, is_empty}
use manaline.Validator.{Problem}
use manaline.Validator.Effects.{condition_reads_stats, is_as_long_as, is_no_event, not_positive}
use manaline.Validator.Occurrences.{
  Occurrence, in_player, in_filter, in_specs, in_amount, in_condition, in_effects, always_if,
}

unfoldable pub in_static : Static → List Occurrence
unfolding in_filter in_amount in_condition always_if
in_static (pt_boost f power toughness keywords) =
    in_filter false f ++ in_amount power ++ in_amount toughness
in_static (keyword_grant f k) = in_filter false f
in_static (cost_reduction f n) = in_filter false f ++ in_amount n
in_static (as_long_as if_ s leading) =
    in_condition if_
    ++ always_if (condition_reads_stats if_) Problem.stats_condition
    ++ always_if (is_as_long_as s) Problem.nested_as_long_as
    ++ in_static s

unfoldable mutual
  unfolding in_filter always_if

  pub in_event : EventPattern → List Occurrence
  in_event (enters f) = in_filter false f
  in_event (dies f) = in_filter false f
  in_event (upkeep p) = in_player false p
  in_event (end_step p) = in_player false p
  in_event (begin_combat p) = in_player false p
  in_event (gains_life p) = in_player false p
  in_event (discards p) = in_player false p
  in_event (cast who f) = in_player false who ++ in_filter false f
  in_event (any_of es) = always_if (is_no_event es) Problem.empty_any ++ in_events es
  in_event _ = []

  pub in_events : EventPatterns → List Occurrence
  in_events no_events = []
  in_events (or_event e es) = in_event e ++ in_events es

unfoldable pub in_cost : Cost → List Occurrence
unfolding in_filter always_if not_positive
in_cost (sacrifice_one f) = in_filter false f
in_cost (life n) = always_if (not_positive n) Problem.cost_amount
in_cost (discard_cards n) = always_if (not_positive n) Problem.cost_amount
in_cost _ = []

unfoldable pub in_costs : List Cost → List Occurrence
unfolding in_cost
in_costs [] = []
in_costs (k ∷ ks) = in_cost k ++ in_costs ks

unfoldable pub in_if : Option Condition → List Occurrence
unfolding in_condition
in_if none = []
in_if (some if_) = in_condition if_

-- The entries of a `targets` list, and that several of them vary.
unfoldable pub in_declared : List Filter → List Occurrence
unfolding in_specs always_if is_variable
in_declared specs =
    in_specs specs ++ always_if (ltb 1 (count is_variable specs)) Problem.many_variable

-- Effects of which there has to be one.
unfoldable pub in_body : Problem → Effects → List Occurrence
unfolding in_effects always_if
in_body p es = always_if (no_effect es) p ++ in_effects es

unfoldable pub in_trigger : Trigger → List Occurrence
unfolding in_declared in_event in_if in_body
in_trigger t =
    in_declared t.targets
    ++ in_event t.event
    ++ in_if t.condition
    ++ in_body Problem.empty_trigger t.effects

unfoldable pub in_ability : Ability → List Occurrence
unfolding in_declared in_costs in_body always_if
in_ability a =
    in_declared a.targets
    ++ always_if (is_empty a.cost) Problem.empty_cost
    ++ in_costs a.cost
    ++ in_body Problem.empty_ability a.effects
