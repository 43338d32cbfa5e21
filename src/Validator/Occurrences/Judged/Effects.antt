-- ===== src/Validator/Occurrences/Judged/Effects.antt =====
-- The checks of target specs, amounts, conditions and effects of crates/cardir/src/validate.rs judge
-- the occurrences in them.
use manaline.Prelude.{◌∷◌, ◌++◌, ◌||◌, [], refl, Bool, true, false, not, Option, none, some}
use manaline.Mana.Cost.{is_free, has_x}
use manaline.Card.Ir.{
  Amount, Duration, Condition, Effect, Effects, Else, Ref, until_this_leaves, const, life_of,
  power_of, neg, controls, life_at_least, life_at_most, deal_damage, destroy, exile, draw, discard,
  gain_life, lose_life, modify_pt, grant_keyword, create_token, add_counters, add_mana, tap, untap,
  return_to_hand, counter_spell, sacrifice, mill, return_from_graveyard, sequence, conditional,
  return_exiled, skip_untap, restrict, delayed, may, pay_mana, pay_life, unsupported, no_effects,
  effect_then, no_else, else_do, end_of_turn, until_your_next_turn, PlayerRef,
}
use manaline.Card.Ir.Queries.{no_effect}
use manaline.Validator.{Problem, duration, direct_ref, player_ref}
use manaline.Validator.Effects.{
  amount, condition, effect, effects, else_effect, exile_duration, check_divided, check_unless,
  leaves_with_this, token_pt_wrong, is_short, is_payment, goes_to_variable,
}
use manaline.Validator.Occurrences.{
  in_player, in_reference, in_filter, in_amount, in_condition, in_duration, in_exile, in_division,
  in_unless, in_effect, in_effects, in_else, always_if, x_at, divided_over, divided_here,
}
use manaline.Validator.Occurrences.Faults.{fault, names_behind, scope_of}
use manaline.Validator.Occurrences.Judged.{
  Judged, Judged-skip, Judged-then, Judged-err_if, Judged-one,
}
use manaline.Validator.Occurrences.Judged.References.{
  Judged-player, Judged-reference, Judged-filter, Judged-direct_ref, Judged-permanent,
}

pub Judged-amount : (n : Amount) → Judged false (amount n) (in_amount n)
unfolding amount in_amount fault scope_of names_behind
Judged-amount (const n) = Judged-skip false
Judged-amount (Amount.count f) = Judged-filter false f
Judged-amount (life_of p) = Judged-player false p
Judged-amount (power_of r) = Judged-reference false r
Judged-amount (neg a) = Judged-amount a
Judged-amount Amount.x =
    Judged-one false x_at (λ c. not c.has_x) (λ c. Problem.x_without_cost) (λ c e. refl) (λ c. refl)

pub Judged-condition : (if_ : Condition) → Judged false (condition if_) (in_condition if_)
unfolding condition in_condition
Judged-condition (controls p f n) =
    Judged-then _ (in_filter false f) (Judged-player false p) (Judged-filter false f)
Judged-condition (life_at_least p n) = Judged-player false p
Judged-condition (life_at_most p n) = Judged-player false p

Judged-duration : (d : Duration) → Judged false (duration d) (in_duration d)
unfolding duration in_duration
Judged-duration until_this_leaves = Judged-permanent false Problem.never_leaves
Judged-duration end_of_turn = Judged-skip false
Judged-duration until_your_next_turn = Judged-skip false

Judged-exile : (until : Option Duration) → Judged false (exile_duration until) (in_exile until)
unfolding exile_duration in_exile
Judged-exile none = Judged-skip false
Judged-exile (some d) =
    Judged-then _ (in_duration d)
      (Judged-err_if false (not (leaves_with_this d)) Problem.exile_duration) (Judged-duration d)

Judged-divided : (b : Bool) (to : Ref) → Judged false (check_divided b to) (in_division b to)
unfolding check_divided in_division fault scope_of names_behind
Judged-divided false to = Judged-skip false
Judged-divided true to =
    Judged-then (divided_over to ∷ []) (divided_here ∷ [])
      (Judged-one false (divided_over to) (λ c. not (goes_to_variable c.variable_specs to))
        (λ c. Problem.divided_target) (λ c e. refl) (λ c. refl))
      (Judged-one false divided_here (λ c. not c.in_spell) (λ c. Problem.divided_outside)
        (λ c e. refl) (λ c. refl))

Judged-unless :
    (b : Bool) (e : Effect) (done otherwise : Effects)
    → Judged false (check_unless b e done otherwise) (in_unless b e done otherwise)
unfolding check_unless in_unless
Judged-unless false e done otherwise = Judged-skip false
Judged-unless true e done otherwise =
    Judged-then _ (always_if (not (no_effect done) || no_effect otherwise) Problem.unless_branches)
      (Judged-err_if false (not (is_payment e)) Problem.unless_effect)
      (Judged-err_if false (not (no_effect done) || no_effect otherwise) Problem.unless_branches)

-- A player and an amount.
Judged-player_amount :
    (p : PlayerRef) (n : Amount)
    → Judged false (λ c. amount n (player_ref p c)) (in_player false p ++ in_amount n)
Judged-player_amount p n = Judged-then _ (in_amount n) (Judged-player false p) (Judged-amount n)

-- A direct target and a duration.
Judged-target_duration :
    (r : Ref) (d : Duration)
    → Judged false (λ c. duration d (direct_ref r c)) (in_reference true r ++ in_duration d)
Judged-target_duration r d = Judged-then _ (in_duration d) (Judged-direct_ref r) (Judged-duration d)

mutual
  unfolding effect in_effect

  pub Judged-effect : (e : Effect) → Judged false (effect e) (in_effect e)
  Judged-effect (deal_damage n to divided) =
      Judged-then _ (in_division divided to)
        (Judged-then _ (in_reference true to) (Judged-amount n) (Judged-direct_ref to))
        (Judged-divided divided to)
  Judged-effect (destroy r) = Judged-direct_ref r
  Judged-effect (exile r until) =
      Judged-then _ (in_exile until) (Judged-direct_ref r) (Judged-exile until)
  Judged-effect (draw p n) = Judged-player_amount p n
  Judged-effect (discard p n random) = Judged-player_amount p n
  Judged-effect (gain_life p n) = Judged-player_amount p n
  Judged-effect (lose_life p n) = Judged-player_amount p n
  Judged-effect (modify_pt r power toughness keywords until) =
      Judged-then _ (in_duration until)
        (Judged-then _ (in_amount toughness)
          (Judged-then _ (in_amount power) (Judged-direct_ref r) (Judged-amount power))
          (Judged-amount toughness))
        (Judged-duration until)
  Judged-effect (grant_keyword r k until) = Judged-target_duration r until
  Judged-effect (create_token spec n) =
      Judged-then _ (always_if (token_pt_wrong spec) Problem.token_pt) (Judged-amount n)
        (Judged-err_if false (token_pt_wrong spec) Problem.token_pt)
  Judged-effect (add_counters r kind n) =
      Judged-then _ (in_amount n) (Judged-direct_ref r) (Judged-amount n)
  Judged-effect (add_mana colour n) = Judged-amount n
  Judged-effect (tap r) = Judged-direct_ref r
  Judged-effect (untap r) = Judged-direct_ref r
  Judged-effect (return_to_hand r) = Judged-direct_ref r
  Judged-effect (counter_spell r) = Judged-direct_ref r
  Judged-effect (sacrifice p f n) =
      Judged-then _ (in_amount n)
        (Judged-then _ (in_filter false f) (Judged-player false p) (Judged-filter false f))
        (Judged-amount n)
  Judged-effect (mill p n) = Judged-player_amount p n
  Judged-effect (return_from_graveyard r zone) = Judged-direct_ref r
  Judged-effect (sequence es) =
      Judged-then _ (in_effects es) (Judged-err_if false (is_short es) Problem.short_sequence)
        (Judged-effects es)
  Judged-effect (conditional if_ then_ else_) =
      Judged-then _ (in_else else_)
        (Judged-then _ (in_effect then_) (Judged-condition if_) (Judged-effect then_))
        (Judged-else else_)
  Judged-effect (return_exiled r zone) = Judged-direct_ref r
  Judged-effect (skip_untap r) = Judged-direct_ref r
  Judged-effect (restrict r restriction until) = Judged-target_duration r until
  Judged-effect (delayed at es) =
      Judged-then _ (in_effects es) (Judged-err_if false (no_effect es) Problem.empty_delayed)
        (Judged-effects es)
  Judged-effect (may who e done otherwise unless) =
      Judged-then _ (in_effects otherwise)
        (Judged-then _ (in_effects done)
          (Judged-then _ (in_effect e)
            (Judged-then _ (in_unless unless e done otherwise) (Judged-player false who)
              (Judged-unless unless e done otherwise))
            (Judged-effect e))
          (Judged-effects done))
        (Judged-effects otherwise)
  Judged-effect (pay_mana p m) =
      Judged-then _ (always_if (is_free m || has_x m) Problem.pay_cost) (Judged-player false p)
        (Judged-err_if false (is_free m || has_x m) Problem.pay_cost)
  Judged-effect (pay_life p n) = Judged-player_amount p n
  Judged-effect (unsupported reason) = Judged-err_if false true (Problem.unsupported_effect reason)

  pub Judged-effects : (es : Effects) → Judged false (effects es) (in_effects es)
  Judged-effects no_effects = Judged-skip false
  Judged-effects (effect_then e es) =
      Judged-then _ (in_effects es) (Judged-effect e) (Judged-effects es)

  pub Judged-else : (e : Else) → Judged false (else_effect e) (in_else e)
  Judged-else no_else = Judged-skip false
  Judged-else (else_do e) = Judged-effect e
