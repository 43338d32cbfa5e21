-- ===== src/Validator/Occurrences/Judged/References.antt =====
-- The checks of references, players and filters of crates/cardir/src/validate.rs judge the
-- occurrences in them.
use manaline.Prelude.{
  ◌≡◌, ◌∷◌, ◌∙◌, [], ℕ, refl, sym, ap, Bool, true, false, not, Option, none, some, leb, ◌++◌,
  append-nil,
}
use manaline.Text.{Str}
use manaline.Card.Ir.{
  Ref, PlayerRef, Filter, Filters, target, this, triggering, each, player, attached, chosen, named,
  exiled_with_this, you, target_player, target_opponent, each_opponent, each_player,
  triggering_player, controller, owner, no_filters, and_filter, targets, in_graveyard, subtype,
  controlled_by, and_of, or_of, not_of, attached_filter, any, creature, land, artifact, enchantment,
  instant, sorcery, permanent, player_filter, opponent, spell, other, this_filter, token, color,
  tapped, untapped, attacking, blocking, power_at_least, power_at_most, mana_value_at_most,
  has_keyword,
}
use manaline.Card.Ir.Queries.{is_permanent}
use manaline.Validator.{
  Ctx, Problem, err_if, check_target, bind_option, bind_name, is_bound, is_blank, attachable, error,
  player_ref, reference, filter, filters, is_none_filter, direct_ref,
}
use manaline.Validator.Occurrences.{
  in_player, in_reference, in_filter, in_filters, in_bind, in_count, target_at, binds, uses,
  in_trigger_only, permanent_only, attachable_only, chosen_at,
}
use manaline.Validator.Occurrences.Faults.{
  with_faults, fault, names_behind, names_after, faults, scope_of, bind_fault, problem_if,
}
use manaline.Validator.Occurrences.Judged.{
  Judged, Judged-skip, Judged-then, Judged-err_if, Judged-at_least_one, Judged-one,
}

pub Judged-check_target : (d : Bool) (i : ℕ) → Judged d (check_target i) (target_at i ∷ [])
unfolding check_target fault scope_of names_behind
Judged-check_target d i =
    Judged-one d (target_at i) (λ c. leb c.targets i) (λ c. Problem.target_undeclared i c.targets)
      (λ c e. refl) (λ c. refl)

pub Judged-in_trigger :
    (d : Bool) (p : Problem)
    → Judged d (λ c. err_if (not c.in_trigger) p c) (in_trigger_only p ∷ [])
unfolding fault scope_of names_behind
Judged-in_trigger d p =
    Judged-one d (in_trigger_only p) (λ c. not c.in_trigger) (λ c. p) (λ c e. refl) (λ c. refl)

pub Judged-permanent :
    (d : Bool) (p : Problem)
    → Judged d (λ c. err_if (not (is_permanent c.card)) p c) (permanent_only p ∷ [])
unfolding fault scope_of names_behind
Judged-permanent d p =
    Judged-one d (permanent_only p) (λ c. not (is_permanent c.card)) (λ c. p) (λ c e. refl)
      (λ c. refl)

Judged-attachable :
    (d : Bool) (p : Problem)
    → Judged d (λ c. err_if (not (attachable c.card)) p c) (attachable_only p ∷ [])
unfolding fault scope_of names_behind
Judged-attachable d p =
    Judged-one d (attachable_only p) (λ c. not (attachable c.card)) (λ c. p) (λ c e. refl)
      (λ c. refl)

Judged-chosen :
    (d : Bool) → Judged d (λ c. err_if (not c.direct) Problem.chosen_indirect c) (chosen_at d ∷ [])
unfolding fault names_behind
Judged-chosen d =
    Judged-one d (chosen_at d) (λ c. not c.direct) (λ c. Problem.chosen_indirect)
      (λ c e. ap (λ b. problem_if (not b) Problem.chosen_indirect) (sym e)) (λ c. refl)

Judged-named :
    (d : Bool) (name : Str)
    → Judged d (λ c. err_if (not (is_bound c.bound name)) (Problem.unbound name) c) (uses name ∷ [])
unfolding fault names_behind
Judged-named d name =
    Judged-one d (uses name) (λ c. not (is_bound c.bound name)) (λ c. Problem.unbound name)
      (λ c e. refl) (λ c. refl)

-- By the two tests of a name, whether it is blank and whether it is bound already.
bind_name-by_tests :
    (blank known : Bool) (name : Str) (c : Ctx)
    → is_blank name ≡ blank
    → is_bound c.bound name ≡ known
    → bind_name name c ≡ with_faults (binds name ∷ []) c
unfolding bind_name with_faults names_after faults fault names_behind bind_fault error
bind_name-by_tests true known name c b k = rw b
bind_name-by_tests false true name c b k = rw (b, k)
bind_name-by_tests false false name c b k =
    rw (b, k) (λ i. record c { bound = c.bound ++ name ∷ []; errors = sym (append-nil c.errors) i })

Judged-bind : (d : Bool) (bind : Option Str) → Judged d (bind_option bind) (in_bind bind)
unfolding bind_option in_bind
Judged-bind d none = Judged-skip d
Judged-bind d (some name) =
    λ c e. bind_name-by_tests (is_blank name) (is_bound c.bound name) name c refl refl

mutual
  unfolding player_ref in_player

  pub Judged-player : (d : Bool) (p : PlayerRef) → Judged d (player_ref p) (in_player d p)
  Judged-player d you = Judged-skip d
  Judged-player d each_opponent = Judged-skip d
  Judged-player d each_player = Judged-skip d
  Judged-player d (target_player i) = Judged-check_target d i
  Judged-player d (target_opponent i) = Judged-check_target d i
  Judged-player d triggering_player = Judged-in_trigger d Problem.triggering_player_outside
  Judged-player d (controller r) = Judged-reference d r
  Judged-player d (owner r) = Judged-reference d r

  pub Judged-reference : (d : Bool) (r : Ref) → Judged d (reference r) (in_reference d r)
  Judged-reference d (target i) = Judged-check_target d i
  Judged-reference d this = Judged-skip d
  Judged-reference d triggering = Judged-in_trigger d Problem.triggering_outside
  Judged-reference d (each f) = Judged-filter d f
  Judged-reference d (player p) = Judged-player d p
  Judged-reference d attached = Judged-attachable d Problem.attached_alone
  Judged-reference d (chosen who f n bind) =
      Judged-then _ (in_bind bind)
        (Judged-then _ (in_count Problem.chosen_count n)
          (Judged-then _ (in_filter d f)
            (Judged-then _ (in_player d who) (Judged-chosen d) (Judged-player d who))
            (Judged-filter d f))
          (Judged-at_least_one d Problem.chosen_count n))
        (Judged-bind d bind)
  Judged-reference d (named name) = Judged-named d name
  Judged-reference d exiled_with_this = Judged-permanent d Problem.never_exiles

  pub Judged-filter : (d : Bool) (f : Filter) → Judged d (filter f) (in_filter d f)
  Judged-filter d (controlled_by p) = Judged-player d p
  Judged-filter d (in_graveyard p) = Judged-player d p
  Judged-filter d (and_of fs) =
      Judged-then _ (in_filters d fs) (Judged-err_if d (is_none_filter fs) Problem.empty_filter)
        (Judged-filters d fs)
  Judged-filter d (or_of fs) =
      Judged-then _ (in_filters d fs) (Judged-err_if d (is_none_filter fs) Problem.empty_filter)
        (Judged-filters d fs)
  Judged-filter d (not_of f) = Judged-filter d f
  Judged-filter d attached_filter = Judged-attachable d Problem.filter_attached_alone
  Judged-filter d (subtype s) = Judged-err_if d (is_blank s) Problem.empty_subtype
  Judged-filter d (targets n f) = Judged-err_if d true Problem.targets_inside
  Judged-filter d any = Judged-skip d
  Judged-filter d creature = Judged-skip d
  Judged-filter d land = Judged-skip d
  Judged-filter d artifact = Judged-skip d
  Judged-filter d enchantment = Judged-skip d
  Judged-filter d instant = Judged-skip d
  Judged-filter d sorcery = Judged-skip d
  Judged-filter d permanent = Judged-skip d
  Judged-filter d player_filter = Judged-skip d
  Judged-filter d opponent = Judged-skip d
  Judged-filter d spell = Judged-skip d
  Judged-filter d other = Judged-skip d
  Judged-filter d this_filter = Judged-skip d
  Judged-filter d token = Judged-skip d
  Judged-filter d (color c) = Judged-skip d
  Judged-filter d tapped = Judged-skip d
  Judged-filter d untapped = Judged-skip d
  Judged-filter d attacking = Judged-skip d
  Judged-filter d blocking = Judged-skip d
  Judged-filter d (power_at_least n) = Judged-skip d
  Judged-filter d (power_at_most n) = Judged-skip d
  Judged-filter d (mana_value_at_most n) = Judged-skip d
  Judged-filter d (has_keyword k) = Judged-skip d

  pub Judged-filters : (d : Bool) (fs : Filters) → Judged d (filters fs) (in_filters d fs)
  Judged-filters d no_filters = Judged-skip d
  Judged-filters d (and_filter f fs) =
      Judged-then _ (in_filters d fs) (Judged-filter d f) (Judged-filters d fs)

-- A direct reference is judged as direct, and whatever follows it is not.
pub Judged-direct_ref : (r : Ref) → Judged false (direct_ref r) (in_reference true r)
unfolding direct_ref with_faults scope_of
Judged-direct_ref r c e =
    ap {A = Ctx} (λ a. record a { direct = false })
      (Judged-reference true r (record c { direct = true }) refl)
    ∙ (λ i. record (with_faults (in_reference true r) c) { direct = sym e i })
