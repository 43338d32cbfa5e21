-- ===== src/Engine/Zones/Send.antt =====
-- An object that goes from one list of its player to another without becoming a new object, as in `draw`
-- (crates/engine/src/game.rs) and in crates/engine/src/mulligan.rs.
use manaline.Prelude.{
  ◌==◌, ◌≡◌, ◌&&◌, ◌<◌, ◌+◌, if◌then◌else◌, ℕ, refl, ap, sym, ◌∙◌, Bool, true, false, Option, none,
  some, arith, get_elem?, set, List, subst, get_elem?-set,
}
use manaline.Engine.Objects.{
  Zone, zone_eq, GameObject, battlefield, library, hand, graveyard, exile, stack, command,
  out_of_game,
}
use manaline.Engine.Objects.Arena.{get, modify}
use manaline.Engine.Game.{Game, PlayerState}
use manaline.Engine.Zones.{holder, has_list, zone_list}
use manaline.Engine.Zones.InStep.{InStep, belongs, occurs}
use manaline.Engine.Zones.Lists.{
  list_in, list_of-set, list_of, list_of-set, zone_eq_sound, both_true,
}
use manaline.Engine.Zones.Keeps.{changed-InStep}
use manaline.Engine.Zones.Lists.{same_list}
use manaline.Engine.Zones.Safe.{IsOrdered, changed-IsSeated, Sits}
use manaline.Engine.Objects.Arena.{get-modify_self, get-modify_other}
use manaline.Prelude.{length-set}

-- The game after a player's lists were changed and the object was put into the zone.
unfoldable pub sent_game : ℕ → PlayerState → ℕ → Zone → Game → Game
sent_game seat q id to g = record g {
  players = set g.players seat q;
  objects = modify id (λ o. record o { zone = to }) g.objects;
}

counted_true : (b : Bool) (n : ℕ) → 0 < n → n ≡ (if b then 1 else 0) → b ≡ true
counted_true true n there e = refl
counted_true false n there e = absurd (omega arith)

-- An id that is in a list of somebody's is an object that belongs there.
pub found_in :
    (g : Game) (id seat : ℕ) (z : Zone)
    → InStep g
    → has_list z ≡ true
    → 0 < occurs id (list_of g seat z)
    → (o : GameObject) × (get id g.objects ≡ some o) × (o.zone ≡ z) × (holder z o ≡ seat)
found_in g id seat z h l there = by_object (get id g.objects) refl
  where
    counted :
        (r : Option GameObject)
        → get id g.objects ≡ r
        → occurs id (list_of g seat z) ≡ (if belongs r seat z then 1 else 0)
    counted r e = h id seat z l ∙ ap (λ q. if belongs q seat z then 1 else 0) e

    by_object :
        (r : Option GameObject)
        → get id g.objects ≡ r
        → (o : GameObject) × (get id g.objects ≡ some o) × (o.zone ≡ z) × (holder z o ≡ seat)
    by_object none e = absurd (omega (arith, counted none e))
    by_object (some o) e =
        let (a, b) = both_true (zone_eq o.zone z) (holder o.zone o == seat) (
          counted_true (zone_eq o.zone z && (holder o.zone o == seat))
            (occurs id (list_of g seat z)) there (counted (some o) e)) in
        let zoned = zone_eq_sound o.zone z a in
        let held : holder o.zone o ≡ seat = ground arith in
        (o, e, zoned, ap (λ y. holder y o) (sym zoned) ∙ held)

pub taken_count :
    (b : Bool) (n m : ℕ)
    → m ≡ n + (if b then 1 else 0)
    → (b ≡ true → m ≡ 1)
    → n ≡ (if b then 0 else m) + 0
taken_count true n m e h = omega (arith, h refl)
taken_count false n m e h = omega arith

pub given_count :
    (b : Bool) (n m : ℕ)
    → m ≡ n + (if b then 1 else 0)
    → (b ≡ true → n ≡ 0)
    → m ≡ (if b then 0 else n) + (if b then 1 else 0)
given_count true n m e h = omega (arith, h refl)
given_count false n m e h = omega arith

elsewhere_count :
    (a b c : Bool) (n : ℕ)
    → b ≡ false
    → (c ≡ true → n ≡ 0)
    → n ≡ (if c then 0 else n) + (if (a && b) && c then 1 else 0)
elsewhere_count a true c n e h = cc
elsewhere_count true false true n e h = omega (arith, h refl)
elsewhere_count false false true n e h = omega (arith, h refl)
elsewhere_count true false false n e h = omega arith
elsewhere_count false false false n e h = omega arith

and_false : (a b : Bool) → b ≡ false → (a && b) ≡ false
and_false a true e = cc
and_false true false e = refl
and_false false false e = refl

and_true : (a b : Bool) → b ≡ true → (a && b) ≡ a
and_true true true e = refl
and_true false true e = refl
and_true a false e = cc

-- The lists of the player: the object leaves the one that it was in and joins the other.
abbrev pub Moves : ℕ → Zone → PlayerState → PlayerState → Type 0
Moves id to p q =
    (i : ℕ) (z : Zone)
    → has_list z ≡ true
    → occurs i (zone_list z q)
      ≡ (if id == i then 0 else occurs i (zone_list z p))
        + (if zone_eq to z && (id == i) then 1 else 0)

-- The object is once in the list of its zone, and in no other.
abbrev pub IsOnlyIn : ℕ → Zone → PlayerState → Type 0
IsOnlyIn id from p =
    (y : Zone) → has_list y ≡ true → occurs id (zone_list y p) ≡ (if zone_eq from y then 1 else 0)

pub only_in :
    (seat id : ℕ) (from : Zone) (p : PlayerState) (g : Game) (o : GameObject)
    → InStep g
    → get_elem? g.players seat ≡ some p
    → get id g.objects ≡ some o
    → o.zone ≡ from
    → holder from o ≡ seat
    → IsOnlyIn id from p
only_in seat id from p g o h at found zoned held z l =
    ap (occurs id) (sym (ap (λ r. list_in r z) at))
    ∙ h id seat z l
    ∙ ap (λ r. if belongs r seat z then 1 else 0) found
    ∙ ap (λ y. if zone_eq y z && (holder y o == seat) then 1 else 0) zoned
    ∙ ap (λ n. if zone_eq from z && (n == seat) then 1 else 0) held
    ∙ ap (λ b. if b then 1 else 0) (and_true (zone_eq from z) (seat == seat) (ground arith))

-- A sent object keeps the lists and the objects in step.
pub sent_game-InStep :
    (seat id : ℕ) (from to : Zone) (p q : PlayerState) (g : Game) (o : GameObject)
    → InStep g
    → get_elem? g.players seat ≡ some p
    → get id g.objects ≡ some o
    → o.zone ≡ from
    → holder from o ≡ seat
    → holder to o ≡ seat
    → holder to (record o { zone = to }) ≡ holder to o
    → Moves id to p q
    → InStep (sent_game seat q id to g)
unfolding sent_game
sent_game-InStep seat id from to p q g o h at found zoned held holds same moves =
    changed-InStep (λ x. record x { zone = to }) id to o g (sent_game seat q id to g) h found refl
      same refl counts
  where
    at_others :
        (s : ℕ) (z : Zone)
        → has_list z ≡ true
        → occurs id (list_of g s z) ≡ (if zone_eq from z && (seat == s) then 1 else 0)
    at_others s z l =
        h id s z l
        ∙ ap (λ r. if belongs r s z then 1 else 0) found
        ∙ ap (λ y. if zone_eq y z && (holder y o == s) then 1 else 0) zoned
        ∙ ap (λ n. if zone_eq from z && (n == s) then 1 else 0) held

    by_seat :
        (b : Bool) (s : ℕ)
        → (seat == s) ≡ b
        → (i : ℕ) (z : Zone) → has_list z ≡ true
        → occurs i (if b then zone_list z q else list_of g s z)
          ≡ (if id == i then 0 else occurs i (list_of g s z))
            + (if (zone_eq to z && (holder to o == s)) && (id == i) then 1 else 0)
    by_seat true s e i z l =
        let k : seat ≡ s = ground arith in
        moves i z l
        ∙ ap
            (λ ids.
              (if id == i then 0 else occurs i ids) + (if zone_eq to z && (id == i) then 1 else 0))
            (sym (ap (λ r. list_in r z) at) ∙ ap (λ n. list_of g n z) k)
        ∙ ap
            (λ b.
              (if id == i then 0 else occurs i (list_of g s z)) + (if b && (id == i) then 1 else 0))
            (sym (and_true (zone_eq to z) (holder to o == s) (ground arith)))
    by_seat false s e i z l =
        elsewhere_count (zone_eq to z) (holder to o == s) (id == i) (occurs i (list_of g s z))
          (ground arith)
          (λ t.
            let k : i ≡ id = ground arith in
            ap (λ j. occurs j (list_of g s z)) k
            ∙ at_others s z l
            ∙ ap (λ b. if b then 1 else 0) (and_false (zone_eq from z) (seat == s) e))

    counts :
        (i s : ℕ) (z : Zone)
        → has_list z ≡ true
        → occurs i (list_of (sent_game seat q id to g) s z)
          ≡ (if id == i then 0 else occurs i (list_of g s z))
            + (if (zone_eq to z && (holder to o == s)) && (id == i) then 1 else 0)
    counts i s z l =
        ap (occurs i) (list_of-set g seat s z p q at) ∙ by_seat (seat == s) s refl i z l

kept_count : (b : Bool) (n : ℕ) → (b ≡ true → n ≡ 0) → n ≡ (if b then 0 else n) + 0
kept_count true n h = omega (arith, h refl)
kept_count false n h = omega arith

-- From the hand to the library.
pub hand_to_library :
    (id : ℕ) (p : PlayerState) (hs ls : List ℕ)
    → IsOnlyIn id hand p
    → ((i : ℕ) → occurs i hs ≡ (if id == i then 0 else occurs i p.hand))
    → ((i : ℕ) → occurs i ls ≡ occurs i p.library + (if id == i then 1 else 0))
    → Moves id library p (record p { hand = hs; library = ls })
hand_to_library id p hs ls only left joined i z l = by_list z l
  where
    same : (id == i) ≡ true → (ids : List ℕ) → occurs i ids ≡ occurs id ids
    same e ids = let k : i ≡ id = ground arith in ap (λ j. occurs j ids) k

    by_list :
        (y : Zone)
        → has_list y ≡ true
        → occurs i (zone_list y (record p { hand = hs; library = ls }))
          ≡ (if id == i then 0 else occurs i (zone_list y p))
            + (if zone_eq library y && (id == i) then 1 else 0)
    by_list library k =
        given_count (id == i) (occurs i p.library) (occurs i ls) (joined i)
          (λ e. same e p.library ∙ only library refl)
    by_list hand k = omega (arith, left i)
    by_list battlefield k =
        kept_count (id == i) (occurs i p.battlefield)
          (λ e. same e p.battlefield ∙ only battlefield refl)
    by_list graveyard k =
        kept_count (id == i) (occurs i p.graveyard) (λ e. same e p.graveyard ∙ only graveyard refl)
    by_list exile k =
        kept_count (id == i) (occurs i p.exile) (λ e. same e p.exile ∙ only exile refl)
    by_list command k =
        kept_count (id == i) (occurs i p.command) (λ e. same e p.command ∙ only command refl)
    by_list stack k = cc
    by_list out_of_game k = cc

-- A sent object keeps a table in order.
pub sent_game-IsOrdered :
    (seat id : ℕ) (p q : PlayerState) (g : Game)
    → IsOrdered g
    → get_elem? g.players seat ≡ some p
    → 0 < occurs id p.hand
    → (IsOnlyIn id hand p → Moves id library p q)
    → (o : GameObject) × (get id g.objects ≡ some o) × IsOrdered (sent_game seat q id library g)
unfolding sent_game
sent_game-IsOrdered seat id p q g h at there moves =
    let (o, found, zoned, held) =
      found_in g id seat hand h.0 refl
        (subst (λ r. 0 < occurs id (list_in r hand)) (sym at) there) in
    (
      o,
      found,
      (
        sent_game-InStep seat id hand library p q g o h.0 at found zoned held held refl
            (moves (only_in seat id hand p g o h.0 at found zoned held)),
        changed-IsSeated id (record o { zone = library }) g (sent_game seat q id library g)
            (get-modify_self id (λ o. record o { zone = library }) g.objects o found)
            (λ i e. get-modify_other id i (λ o. record o { zone = library }) g.objects e)
            (length-set g.players seat q) (h.1 id o found) h.1,
      ),
    )

-- A change of a player that keeps the counts in every list keeps a table in order.
pub recounted-IsOrdered :
    (seat : ℕ) (p q : PlayerState) (g : Game)
    → IsOrdered g
    → get_elem? g.players seat ≡ some p
    → ((i : ℕ) (z : Zone) → occurs i (zone_list z q) ≡ occurs i (zone_list z p))
    → IsOrdered (record g { players = set g.players seat q })
recounted-IsOrdered seat p q g h at same = (
  λ i s z l.
      ap (occurs i) (list_of-set g seat s z p q at) ∙ by_seat (seat == s) i s z refl ∙ h.0 i s z l,
  λ i o found. subst (λ m. Sits m o) (sym (length-set g.players seat q)) (h.1 i o found),
)
  where
    by_seat :
        (b : Bool) (i s : ℕ) (z : Zone)
        → (seat == s) ≡ b
        → occurs i (if b then zone_list z q else list_of g s z) ≡ occurs i (list_of g s z)
    by_seat true i s z e = same i z ∙ ap (occurs i) (same_list g seat s z p at e)
    by_seat false i s z e = refl

pub get_elem?-set_self :
    {A : Type 0} (xs : List A) (i : ℕ) (u v : A)
    → get_elem? xs i ≡ some u
    → get_elem? (set xs i v) i ≡ some v
get_elem?-set_self xs i u v e = get_elem?-set xs i i u v e ∙ ground arith
