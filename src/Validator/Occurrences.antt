-- ===== src/Validator/Occurrences.antt =====
-- What the validator of crates/cardir/src/validate.rs has to judge, without its context: the
-- occurrences in a reference, a filter, an amount and an effect, in the order of the text.
pub mod Faults
pub mod Parts
pub mod Judged
use manaline.Prelude.{
  ◌∷◌, ◌++◌, ◌||◌, [], ℕ, Bool, true, false, not, Option, none, some, List, count,
}
use manaline.Prelude.Int.{pos, ltb_ℤ}
use manaline.Text.{Str}
use manaline.Mana.Cost.{is_free, has_x}
use manaline.Card.Ir.{
  Ref, PlayerRef, Filter, Filters, Quantity, Amount, Duration, Condition, Effect, Effects, Else,
  target, this, triggering, each, player, attached, chosen, named, exiled_with_this, you,
  target_player, target_opponent, each_opponent, each_player, triggering_player, controller, owner,
  exactly, up_to, any_number, no_filters, and_filter, until_this_leaves, targets, in_graveyard,
  subtype, controlled_by, and_of, or_of, not_of, attached_filter, const, life_of, power_of, neg,
  controls, life_at_least, life_at_most, deal_damage, destroy, exile, draw, discard, gain_life,
  lose_life, modify_pt, grant_keyword, create_token, add_counters, add_mana, tap, untap,
  return_to_hand, counter_spell, sacrifice, mill, return_from_graveyard, sequence, conditional,
  return_exiled, skip_untap, restrict, delayed, may, pay_mana, pay_life, unsupported, no_effects,
  effect_then, no_else, else_do,
}
use manaline.Card.Ir.Queries.{no_effect}
use manaline.Validator.{Problem, is_blank, is_none_filter}
use manaline.Validator.Effects.{is_targets, leaves_with_this, token_pt_wrong, is_short, is_payment}

-- `always` is wrong wherever it stands; the others are wrong in some places.
pub data Occurrence : Type 0 where
  target_at : ℕ → Occurrence
  in_trigger_only permanent_only attachable_only : Problem → Occurrence
  x_at : Occurrence
  chosen_at : (direct : Bool) → Occurrence
  binds : Str → Occurrence
  uses : Str → Occurrence
  divided_over : Ref → Occurrence
  divided_here : Occurrence
  always : Problem → Occurrence

unfoldable pub always_if : Bool → Problem → List Occurrence
always_if true p = always p ∷ []
always_if false p = []

unfoldable pub in_count : Problem → Quantity → List Occurrence
unfolding always_if
in_count p (exactly n) = always_if (ltb_ℤ n (pos 1)) p
in_count p (up_to n) = always_if (ltb_ℤ n (pos 1)) p
in_count p any_number = []

unfoldable pub in_bind : Option Str → List Occurrence
in_bind none = []
in_bind (some name) = binds name ∷ []

-- `d` is whether a reference here counts as an effect's direct target.
unfoldable mutual
  unfolding always_if in_count in_bind

  pub in_player : Bool → PlayerRef → List Occurrence
  in_player d you = []
  in_player d each_opponent = []
  in_player d each_player = []
  in_player d (target_player i) = target_at i ∷ []
  in_player d (target_opponent i) = target_at i ∷ []
  in_player d triggering_player = in_trigger_only Problem.triggering_player_outside ∷ []
  in_player d (controller r) = in_reference d r
  in_player d (owner r) = in_reference d r

  pub in_reference : Bool → Ref → List Occurrence
  in_reference d (target i) = target_at i ∷ []
  in_reference d this = []
  in_reference d triggering = in_trigger_only Problem.triggering_outside ∷ []
  in_reference d (each f) = in_filter d f
  in_reference d (player p) = in_player d p
  in_reference d attached = attachable_only Problem.attached_alone ∷ []
  in_reference d (chosen who f n bind) =
      (chosen_at d ∷ [])
      ++ in_player d who
      ++ in_filter d f
      ++ in_count Problem.chosen_count n
      ++ in_bind bind
  in_reference d (named name) = uses name ∷ []
  in_reference d exiled_with_this = permanent_only Problem.never_exiles ∷ []

  pub in_filter : Bool → Filter → List Occurrence
  in_filter d (controlled_by p) = in_player d p
  in_filter d (in_graveyard p) = in_player d p
  in_filter d (and_of fs) = always_if (is_none_filter fs) Problem.empty_filter ++ in_filters d fs
  in_filter d (or_of fs) = always_if (is_none_filter fs) Problem.empty_filter ++ in_filters d fs
  in_filter d (not_of f) = in_filter d f
  in_filter d attached_filter = attachable_only Problem.filter_attached_alone ∷ []
  in_filter d (subtype s) = always_if (is_blank s) Problem.empty_subtype
  in_filter d (targets n f) = always Problem.targets_inside ∷ []
  in_filter d _ = []

  pub in_filters : Bool → Filters → List Occurrence
  in_filters d no_filters = []
  in_filters d (and_filter f fs) = in_filter d f ++ in_filters d fs

unfoldable pub in_spec : Filter → List Occurrence
unfolding in_filter in_count always_if
in_spec (targets n inner) =
    in_count Problem.target_count n
    ++ always_if (is_targets inner) Problem.nested_targets
    ++ in_filter false inner
in_spec f = in_filter false f

unfoldable pub in_specs : List Filter → List Occurrence
unfolding in_spec
in_specs [] = []
in_specs (f ∷ fs) = in_spec f ++ in_specs fs

unfoldable pub in_amount : Amount → List Occurrence
unfolding in_filter
in_amount (const n) = []
in_amount (Amount.count f) = in_filter false f
in_amount (life_of p) = in_player false p
in_amount (power_of r) = in_reference false r
in_amount (neg a) = in_amount a
in_amount Amount.x = x_at ∷ []

unfoldable pub in_condition : Condition → List Occurrence
unfolding in_filter
in_condition (controls p f n) = in_player false p ++ in_filter false f
in_condition (life_at_least p n) = in_player false p
in_condition (life_at_most p n) = in_player false p

unfoldable pub in_duration : Duration → List Occurrence
in_duration until_this_leaves = permanent_only Problem.never_leaves ∷ []
in_duration _ = []

unfoldable pub in_exile : Option Duration → List Occurrence
unfolding in_duration always_if
in_exile none = []
in_exile (some d) = always_if (not (leaves_with_this d)) Problem.exile_duration ++ in_duration d

unfoldable pub in_division : Bool → Ref → List Occurrence
in_division false to = []
in_division true to = divided_over to ∷ divided_here ∷ []

unfoldable pub in_unless : Bool → Effect → Effects → Effects → List Occurrence
unfolding always_if
in_unless false e done otherwise = []
in_unless true e done otherwise =
    always_if (not (is_payment e)) Problem.unless_effect
    ++ always_if (not (no_effect done) || no_effect otherwise) Problem.unless_branches

unfoldable mutual
  unfolding always_if in_filter in_amount in_condition in_duration in_exile in_division in_unless
      token_pt_wrong is_free has_x

  pub in_effect : Effect → List Occurrence
  in_effect (deal_damage n to divided) =
      in_amount n ++ in_reference true to ++ in_division divided to
  in_effect (destroy r) = in_reference true r
  in_effect (exile r until) = in_reference true r ++ in_exile until
  in_effect (draw p n) = in_player false p ++ in_amount n
  in_effect (discard p n random) = in_player false p ++ in_amount n
  in_effect (gain_life p n) = in_player false p ++ in_amount n
  in_effect (lose_life p n) = in_player false p ++ in_amount n
  in_effect (modify_pt r power toughness keywords until) =
      in_reference true r ++ in_amount power ++ in_amount toughness ++ in_duration until
  in_effect (grant_keyword r k until) = in_reference true r ++ in_duration until
  in_effect (create_token spec n) = in_amount n ++ always_if (token_pt_wrong spec) Problem.token_pt
  in_effect (add_counters r kind n) = in_reference true r ++ in_amount n
  in_effect (add_mana colour n) = in_amount n
  in_effect (tap r) = in_reference true r
  in_effect (untap r) = in_reference true r
  in_effect (return_to_hand r) = in_reference true r
  in_effect (counter_spell r) = in_reference true r
  in_effect (sacrifice p f n) = in_player false p ++ in_filter false f ++ in_amount n
  in_effect (mill p n) = in_player false p ++ in_amount n
  in_effect (return_from_graveyard r zone) = in_reference true r
  in_effect (sequence es) = always_if (is_short es) Problem.short_sequence ++ in_effects es
  in_effect (conditional if_ then_ else_) = in_condition if_ ++ in_effect then_ ++ in_else else_
  in_effect (return_exiled r zone) = in_reference true r
  in_effect (skip_untap r) = in_reference true r
  in_effect (restrict r restriction until) = in_reference true r ++ in_duration until
  in_effect (delayed at es) = always_if (no_effect es) Problem.empty_delayed ++ in_effects es
  in_effect (may who e done otherwise unless) =
      in_player false who
      ++ in_unless unless e done otherwise
      ++ in_effect e
      ++ in_effects done
      ++ in_effects otherwise
  in_effect (pay_mana p m) = in_player false p ++ always_if (is_free m || has_x m) Problem.pay_cost
  in_effect (pay_life p n) = in_player false p ++ in_amount n
  in_effect (unsupported reason) = always (Problem.unsupported_effect reason) ∷ []

  pub in_effects : Effects → List Occurrence
  in_effects no_effects = []
  in_effects (effect_then e es) = in_effect e ++ in_effects es

  pub in_else : Else → List Occurrence
  in_else no_else = []
  in_else (else_do e) = in_effect e
