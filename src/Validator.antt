-- ===== src/Validator.antt =====
-- crates/cardir/src/validate.rs: the validator's context and its checks of references, players and
-- filters. A method of the context is a function from the context before it to the one behind it. The
-- text of an error is not modelled: `Problem` has a constructor for each text, with the values that
-- are printed in it.
pub mod Effects
pub mod Whole
pub mod Occurrences
pub mod Problems
pub mod Examples
use manaline.Prelude.{
  ◌∷◌, ◌++◌, ◌||◌, if◌then◌else◌, [], ℕ, Bool, true, false, not, Option, none, some, List, leb,
  count,
}
use manaline.Prelude.Int.{ℤ, pos, ltb_ℤ}
use manaline.Text.{Str, str_eq, trim}
use manaline.Card.Ir.{
  Card, Ref, PlayerRef, Filter, Filters, Quantity, Duration, target, this, triggering, each, player,
  attached, chosen, named, exiled_with_this, you, target_player, target_opponent, each_opponent,
  each_player, triggering_player, controller, owner, exactly, up_to, any_number, no_filters,
  and_filter, until_this_leaves, targets, in_graveyard, subtype, controlled_by, and_of, or_of,
  not_of, attached_filter,
}
use manaline.Card.Ir.Queries.{is_permanent, is_aura, is_equipment, any_where, is_empty}

pub data Problem : Type 0 where
  target_undeclared : ℕ → ℕ → Problem
  triggering_player_outside triggering_outside : Problem
  never_leaves never_exiles : Problem
  attached_alone filter_attached_alone : Problem
  chosen_indirect chosen_count : Problem
  empty_bind : Problem
  bound_twice unbound : Str → Problem
  empty_filter empty_subtype targets_inside target_count nested_targets many_variable : Problem
  x_without_cost : Problem
  divided_target divided_outside exile_duration token_pt : Problem
  empty_delayed short_sequence unless_effect unless_branches pay_cost : Problem
  unsupported_effect : Str → Problem
  stats_condition nested_as_long_as empty_any cost_amount : Problem
  missing_name no_types creature_pt spell_missing spell_permanent : Problem
  enchant_type aura_enchant equipment_equip land_cost flying_reach : Problem
  duplicate_keyword : Str → Problem
  empty_spell modal_effects few_modes few_to_choose empty_mode : Problem
  empty_trigger empty_cost empty_ability : Problem

pub record Ctx : Type 0 where
  pub card : Card
  pub targets : ℕ
  pub in_trigger : Bool
  pub direct : Bool
  pub bound : List Str
  pub has_x : Bool
  pub variable_specs : List Bool
  pub in_spell : Bool
  pub errors : List Problem

unfoldable pub error : Problem → Ctx → Ctx
error p c = record c { errors = c.errors ++ p ∷ [] }

-- `if b { self.err(p) }`
unfoldable pub err_if : Bool → Problem → Ctx → Ctx
unfolding error
err_if true p c = error p c
err_if false p c = c

unfoldable pub check_target : ℕ → Ctx → Ctx
unfolding err_if
check_target i c = err_if (leb c.targets i) (target_undeclared i c.targets) c

unfoldable pub attachable : Card → Bool
attachable card = is_aura card || is_equipment card

unfoldable pub duration : Duration → Ctx → Ctx
unfolding err_if
duration until_this_leaves c = err_if (not (is_permanent c.card)) never_leaves c
duration _ c = c

-- The match on a count that asks for at least one.
unfoldable pub at_least_one : Problem → Quantity → Ctx → Ctx
unfolding err_if
at_least_one p (exactly n) c = err_if (ltb_ℤ n (pos 1)) p c
at_least_one p (up_to n) c = err_if (ltb_ℤ n (pos 1)) p c
at_least_one p any_number c = c

-- `self.bound.contains(name)`
unfoldable pub is_bound : List Str → Str → Bool
unfolding any_where
is_bound names name = any_where (str_eq name) names

-- `name.trim().is_empty()`
unfoldable pub is_blank : Str → Bool
is_blank name = is_empty (trim name)

unfoldable pub bind_name : Str → Ctx → Ctx
unfolding error
bind_name name c =
    if is_blank name
    then error empty_bind c
    else if is_bound c.bound name
    then error (bound_twice name) c
    else record c { bound = c.bound ++ name ∷ [] }

unfoldable pub bind_option : Option Str → Ctx → Ctx
unfolding bind_name
bind_option none c = c
bind_option (some name) c = bind_name name c

abbrev pub is_none_filter : Filters → Bool
is_none_filter no_filters = true
is_none_filter (and_filter f fs) = false

unfoldable mutual
  unfolding err_if

  pub player_ref : PlayerRef → Ctx → Ctx
  player_ref you c = c
  player_ref each_opponent c = c
  player_ref each_player c = c
  player_ref (target_player i) c = check_target i c
  player_ref (target_opponent i) c = check_target i c
  player_ref triggering_player c = err_if (not c.in_trigger) triggering_player_outside c
  player_ref (controller r) c = reference r c
  player_ref (owner r) c = reference r c

  pub reference : Ref → Ctx → Ctx
  reference (target i) c = check_target i c
  reference this c = c
  reference triggering c = err_if (not c.in_trigger) triggering_outside c
  reference (each f) c = filter f c
  reference (player p) c = player_ref p c
  reference attached c = err_if (not (attachable c.card)) attached_alone c
  reference (chosen who f count bind) c = bind_option bind (
      at_least_one chosen_count count
        (filter f (player_ref who (err_if (not c.direct) chosen_indirect c))))
  reference (named name) c = err_if (not (is_bound c.bound name)) (unbound name) c
  reference exiled_with_this c = err_if (not (is_permanent c.card)) never_exiles c

  pub filter : Filter → Ctx → Ctx
  filter (controlled_by p) c = player_ref p c
  filter (in_graveyard p) c = player_ref p c
  filter (and_of fs) c = filters fs (err_if (is_none_filter fs) empty_filter c)
  filter (or_of fs) c = filters fs (err_if (is_none_filter fs) empty_filter c)
  filter (not_of f) c = filter f c
  filter attached_filter c = err_if (not (attachable c.card)) filter_attached_alone c
  filter (subtype s) c = err_if (is_blank s) empty_subtype c
  filter (targets count f) c = err_if true targets_inside c
  filter _ c = c

  -- The loop over the operands of `And` and `Or`.
  pub filters : Filters → Ctx → Ctx
  filters no_filters c = c
  filters (and_filter f fs) c = filters fs (filter f c)

-- An effect's own target: the one position where `Chosen` is allowed.
unfoldable pub direct_ref : Ref → Ctx → Ctx
unfolding reference
direct_ref r c = record (reference r (record c { direct = true })) { direct = false }
