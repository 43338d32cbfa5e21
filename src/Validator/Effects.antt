-- ===== src/Validator/Effects.antt =====
-- crates/cardir/src/validate.rs: target specs, amounts, conditions, effects, statics, events and costs.
use manaline.Prelude.{
  ◌∷◌, ◌||◌, [], Bool, true, false, not, Option, none, some, List, map, ltb, length, count, get_or,
  xor,
}
use manaline.Prelude.Int.{pos, ltb_ℤ, ℤ}
use manaline.Mana.Cost.{is_free, has_x}
use manaline.Card.Types.{CardType, type_eq}
use manaline.Card.Ir.{
  Filter, Ref, Amount, Duration, TokenSpec, Condition, Effect, Effects, Else, Static, EventPattern,
  EventPatterns, Cost, targets, target, until_this_leaves, const, life_of, power_of, neg, controls,
  life_at_least, life_at_most, deal_damage, destroy, exile, draw, discard, gain_life, lose_life,
  modify_pt, grant_keyword, create_token, add_counters, add_mana, tap, untap, return_to_hand,
  counter_spell, sacrifice, mill, return_from_graveyard, sequence, conditional, return_exiled,
  skip_untap, restrict, delayed, may, pay_mana, pay_life, unsupported, no_effects, effect_then,
  no_else, else_do, or_of, and_of, not_of, power_at_least, power_at_most, has_keyword, pt_boost,
  keyword_grant, cost_reduction, as_long_as, enters, dies, upkeep, end_step, begin_combat, cast,
  gains_life, discards, any_of, no_events, or_event, sacrifice_one, life, discard_cards, Filters,
  no_filters, and_filter,
}
use manaline.Card.Ir.Queries.{is_variable, is_some, any_where, no_effect}
use manaline.Validator.{
  Ctx, Problem, err_if, at_least_one, filter, player_ref, reference, direct_ref, duration,
}

abbrev pub is_targets : Filter → Bool
is_targets (targets n f) = true
is_targets _ = false

-- One entry of a `targets` list.
unfoldable pub target_spec : Filter → Ctx → Ctx
unfolding filter err_if at_least_one
target_spec (targets n inner) c =
    filter inner
      (err_if (is_targets inner) Problem.nested_targets (at_least_one Problem.target_count n c))
target_spec f c = filter f c

unfoldable pub target_specs : List Filter → Ctx → Ctx
unfolding target_spec
target_specs [] c = c
target_specs (f ∷ fs) c = target_specs fs (target_spec f c)

-- `Ctx::targets`
unfoldable pub declare_targets : List Filter → Ctx → Ctx
unfolding target_specs is_variable err_if
declare_targets specs c = err_if (ltb 1 (count is_variable specs)) Problem.many_variable (
    target_specs specs
      (record c { targets = length specs; variable_specs = map is_variable specs; bound = [] }))

unfoldable pub amount : Amount → Ctx → Ctx
unfolding filter err_if
amount (const n) c = c
amount (Amount.count f) c = filter f c
amount (life_of p) c = player_ref p c
amount (power_of r) c = reference r c
amount (neg a) c = amount a c
amount Amount.x c = err_if (not c.has_x) Problem.x_without_cost c

unfoldable pub condition : Condition → Ctx → Ctx
unfolding filter
condition (controls p f n) c = filter f (player_ref p c)
condition (life_at_least p n) c = player_ref p c
condition (life_at_most p n) c = player_ref p c

-- `self.variable_specs.get(i).copied().unwrap_or(false)`, for a reference to a target.
unfoldable pub goes_to_variable : List Bool → Ref → Bool
goes_to_variable specs (target i) = get_or specs i false
goes_to_variable specs _ = false

-- What `DealDamage` asks of divided damage.
unfoldable pub check_divided : Bool → Ref → Ctx → Ctx
unfolding err_if goes_to_variable
check_divided false to c = c
check_divided true to c =
    let checked = err_if (not (goes_to_variable c.variable_specs to)) Problem.divided_target c in
    err_if (not checked.in_spell) Problem.divided_outside checked

abbrev pub leaves_with_this : Duration → Bool
leaves_with_this until_this_leaves = true
leaves_with_this _ = false

unfoldable pub exile_duration : Option Duration → Ctx → Ctx
unfolding err_if duration
exile_duration none c = c
exile_duration (some d) c = duration d (err_if (not (leaves_with_this d)) Problem.exile_duration c)

-- `spec.types.contains(&CardType::Creature) != spec.pt.is_some()`
unfoldable pub token_pt_wrong : TokenSpec → Bool
unfolding any_where
token_pt_wrong spec = xor (any_where (type_eq CardType.creature) spec.types) (is_some spec.pt)

abbrev pub is_payment : Effect → Bool
is_payment (pay_mana p m) = true
is_payment (pay_life p n) = true
is_payment _ = false

-- Fewer than two effects.
abbrev pub is_short : Effects → Bool
is_short (effect_then e (effect_then f es)) = false
is_short _ = true

-- What `May` asks of `unless`.
unfoldable pub check_unless : Bool → Effect → Effects → Effects → Ctx → Ctx
unfolding err_if
check_unless false e done otherwise c = c
check_unless true e done otherwise c =
    err_if (not (no_effect done) || no_effect otherwise) Problem.unless_branches
      (err_if (not (is_payment e)) Problem.unless_effect c)

unfoldable mutual
  unfolding err_if direct_ref filter duration amount condition check_divided is_free has_x

  pub effect : Effect → Ctx → Ctx
  effect (deal_damage n to divided) c = check_divided divided to (direct_ref to (amount n c))
  effect (destroy r) c = direct_ref r c
  effect (exile r until) c = exile_duration until (direct_ref r c)
  effect (draw p n) c = amount n (player_ref p c)
  effect (discard p n random) c = amount n (player_ref p c)
  effect (gain_life p n) c = amount n (player_ref p c)
  effect (lose_life p n) c = amount n (player_ref p c)
  effect (modify_pt r power toughness keywords until) c =
      duration until (amount toughness (amount power (direct_ref r c)))
  effect (grant_keyword r k until) c = duration until (direct_ref r c)
  effect (create_token spec n) c = err_if (token_pt_wrong spec) Problem.token_pt (amount n c)
  effect (add_counters r kind n) c = amount n (direct_ref r c)
  effect (add_mana colour n) c = amount n c
  effect (tap r) c = direct_ref r c
  effect (untap r) c = direct_ref r c
  effect (return_to_hand r) c = direct_ref r c
  effect (counter_spell r) c = direct_ref r c
  effect (sacrifice p f n) c = amount n (filter f (player_ref p c))
  effect (mill p n) c = amount n (player_ref p c)
  effect (return_from_graveyard r zone) c = direct_ref r c
  effect (sequence es) c = effects es (err_if (is_short es) Problem.short_sequence c)
  effect (conditional if_ then_ else_) c = else_effect else_ (effect then_ (condition if_ c))
  effect (return_exiled r zone) c = direct_ref r c
  effect (skip_untap r) c = direct_ref r c
  effect (restrict r restriction until) c = duration until (direct_ref r c)
  effect (delayed at es) c = effects es (err_if (no_effect es) Problem.empty_delayed c)
  effect (may who e done otherwise unless) c =
      effects otherwise
        (effects done (effect e (check_unless unless e done otherwise (player_ref who c))))
  effect (pay_mana p m) c = err_if (is_free m || has_x m) Problem.pay_cost (player_ref p c)
  effect (pay_life p n) c = amount n (player_ref p c)
  effect (unsupported reason) c = err_if true (Problem.unsupported_effect reason) c

  pub effects : Effects → Ctx → Ctx
  effects no_effects c = c
  effects (effect_then e es) c = effects es (effect e c)

  pub else_effect : Else → Ctx → Ctx
  else_effect no_else c = c
  else_effect (else_do e) c = effect e c

unfoldable mutual
  pub reads_stats : Filter → Bool
  reads_stats (power_at_least n) = true
  reads_stats (power_at_most n) = true
  reads_stats (has_keyword k) = true
  reads_stats (and_of fs) = any_reads_stats fs
  reads_stats (or_of fs) = any_reads_stats fs
  reads_stats (not_of f) = reads_stats f
  reads_stats (targets n f) = reads_stats f
  reads_stats _ = false

  pub any_reads_stats : Filters → Bool
  any_reads_stats no_filters = false
  any_reads_stats (and_filter f fs) = reads_stats f || any_reads_stats fs

abbrev pub condition_reads_stats : Condition → Bool
unfolding reads_stats
condition_reads_stats (controls p f n) = reads_stats f
condition_reads_stats _ = false

unfoldable pub static_condition : Condition → Ctx → Ctx
unfolding condition err_if reads_stats
static_condition if_ c =
    err_if (condition_reads_stats if_) Problem.stats_condition (condition if_ c)

abbrev pub is_as_long_as : Static → Bool
is_as_long_as (as_long_as if_ s leading) = true
is_as_long_as _ = false

unfoldable pub static : Static → Ctx → Ctx
unfolding filter amount static_condition err_if
static (pt_boost f power toughness keywords) c = amount toughness (amount power (filter f c))
static (keyword_grant f k) c = filter f c
static (cost_reduction f n) c = amount n (filter f c)
static (as_long_as if_ s leading) c =
    static s (err_if (is_as_long_as s) Problem.nested_as_long_as (static_condition if_ c))

abbrev pub is_no_event : EventPatterns → Bool
is_no_event no_events = true
is_no_event (or_event e es) = false

unfoldable mutual
  unfolding filter err_if

  pub event : EventPattern → Ctx → Ctx
  event (enters f) c = filter f c
  event (dies f) c = filter f c
  event (upkeep p) c = player_ref p c
  event (end_step p) c = player_ref p c
  event (begin_combat p) c = player_ref p c
  event (gains_life p) c = player_ref p c
  event (discards p) c = player_ref p c
  event (cast who f) c = filter f (player_ref who c)
  event (any_of es) c = events es (err_if (is_no_event es) Problem.empty_any c)
  event _ c = c

  pub events : EventPatterns → Ctx → Ctx
  events no_events c = c
  events (or_event e es) c = events es (event e c)

-- `if *n <= 0`
unfoldable pub not_positive : ℤ → Bool
not_positive n = not (ltb_ℤ (pos 0) n)

unfoldable pub cost : Cost → Ctx → Ctx
unfolding filter err_if not_positive
cost (sacrifice_one f) c = filter f c
cost (life n) c = err_if (not_positive n) Problem.cost_amount c
cost (discard_cards n) c = err_if (not_positive n) Problem.cost_amount c
cost _ c = c
