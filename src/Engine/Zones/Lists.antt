-- ===== src/Engine/Zones/Lists.antt =====
-- What the steps of a move (crates/engine/src/game.rs) do to the lists of the players.
use manaline.Prelude.{
  ◌==◌, ◌&&◌, ◌≡◌, if◌then◌else◌, [], ℕ, refl, ap, sym, ◌∙◌, Bool, true, false, Option, none, some,
  List, arith, get_elem?, get_elem?-set, set,
}
use manaline.Prelude.Maybe.{◌>>=◌, >>=-eq_some}
use manaline.Engine.Objects.{
  Zone, library, hand, battlefield, graveyard, exile, stack, command, out_of_game, zone_eq,
  zone_index, GameObject,
}
use manaline.Engine.Objects.Arena.{get}
use manaline.Engine.Game.{Game, PlayerState}
use manaline.Engine.Zones.{has_list, zone_list, set_zone_list, holder, with_player, with_zone_list}

-- The list of a zone that a seat holds; a seat that nobody has holds nothing.
abbrev pub list_in : Option PlayerState → Zone → List ℕ
list_in none z = []
list_in (some p) z = zone_list z p

abbrev pub list_of : Game → ℕ → Zone → List ℕ
list_of g seat z = list_in (get_elem? g.players seat) z

zone_at : ℕ → Zone
zone_at n =
    if n == 0
    then library
    else if n == 1
    then hand
    else if n == 2
    then battlefield
    else if n == 3
    then graveyard
    else if n == 4
    then exile
    else if n == 5
    then stack
    else if n == 6
    then command
    else out_of_game

zone_at-index : (z : Zone) → zone_at (zone_index z) ≡ z
unfolding zone_at
zone_at-index library = refl
zone_at-index hand = refl
zone_at-index battlefield = refl
zone_at-index graveyard = refl
zone_at-index exile = refl
zone_at-index stack = refl
zone_at-index command = refl
zone_at-index out_of_game = refl

pub zone_eq_sound : (y z : Zone) → zone_eq y z ≡ true → y ≡ z
zone_eq_sound y z h = sym (zone_at-index y) ∙ ap zone_at (ground arith) ∙ zone_at-index z

pub zone_eq_refl : (z : Zone) → zone_eq z z ≡ true
zone_eq_refl z = ground arith

pub by_zone :
    (P : Zone → Type 0)
    → P library
    → P hand
    → P battlefield
    → P graveyard
    → P exile
    → P stack
    → P command
    → P out_of_game
    → (z : Zone) → P z
by_zone P l h b g e s c o library = l
by_zone P l h b g e s c o hand = h
by_zone P l h b g e s c o battlefield = b
by_zone P l h b g e s c o graveyard = g
by_zone P l h b g e s c o exile = e
by_zone P l h b g e s c o stack = s
by_zone P l h b g e s c o command = c
by_zone P l h b g e s c o out_of_game = o

abbrev Reads : Zone → List ℕ → PlayerState → Zone → Type 0
Reads y ids p z = zone_list z (set_zone_list y ids p) ≡ (if zone_eq y z then ids else zone_list z p)

-- A write to one list of a player is read there and nowhere else.
zone_list-set_zone_list :
    (y z : Zone) (ids : List ℕ) (p : PlayerState) → has_list y ≡ true → Reads y ids p z
zone_list-set_zone_list library z ids p h =
    by_zone (Reads library ids p) refl refl refl refl refl refl refl refl z
zone_list-set_zone_list hand z ids p h =
    by_zone (Reads hand ids p) refl refl refl refl refl refl refl refl z
zone_list-set_zone_list battlefield z ids p h =
    by_zone (Reads battlefield ids p) refl refl refl refl refl refl refl refl z
zone_list-set_zone_list graveyard z ids p h =
    by_zone (Reads graveyard ids p) refl refl refl refl refl refl refl refl z
zone_list-set_zone_list exile z ids p h =
    by_zone (Reads exile ids p) refl refl refl refl refl refl refl refl z
zone_list-set_zone_list command z ids p h =
    by_zone (Reads command ids p) refl refl refl refl refl refl refl refl z
zone_list-set_zone_list stack z ids p h = cc
zone_list-set_zone_list out_of_game z ids p h = cc

list_in-if :
    (b : Bool) (q : PlayerState) (r : Option PlayerState) (z : Zone)
    → list_in (if b then some q else r) z ≡ (if b then zone_list z q else list_in r z)
list_in-if true q r z = refl
list_in-if false q r z = refl

-- A change of one player is seen in the lists of that player only.
pub list_of-set :
    (g : Game) (seat s : ℕ) (z : Zone) (p q : PlayerState)
    → get_elem? g.players seat ≡ some p
    → list_of (record g { players = set g.players seat q }) s z
      ≡ (if seat == s then zone_list z q else list_of g s z)
list_of-set g seat s z p q e =
    ap (λ r. list_in r z) (get_elem?-set g.players seat s p q e)
    ∙ list_in-if (seat == s) q (get_elem? g.players s) z

pub list_of-set_self :
    (g : Game) (seat : ℕ) (z : Zone) (p q : PlayerState)
    → get_elem? g.players seat ≡ some p
    → list_of (record g { players = set g.players seat q }) seat z ≡ zone_list z q
list_of-set_self g seat z p q e =
    let same : (seat == seat) ≡ true = ground arith in
    list_of-set g seat seat z p q e ∙ ap (λ b. if b then zone_list z q else list_of g seat z) same

-- What a change of a player that succeeded found and left.
pub with_player-eq_some :
    (seat : ℕ) (f : PlayerState → PlayerState) (g g' : Game)
    → with_player seat f g ≡ some g'
    → (p : PlayerState) × (get_elem? g.players seat ≡ some p)
      × (g' ≡ record g { players = set g.players seat (f p) })
unfolding with_player
with_player-eq_some seat f g g' h =
    let (p, e, k) =
      >>=-eq_some (get_elem? g.players seat)
        (λ p. some (record g { players = set g.players seat (f p) })) h in
    (p, e, cc)

pub same_list :
    (g : Game) (h s : ℕ) (z : Zone) (p : PlayerState)
    → get_elem? g.players h ≡ some p
    → (h == s) ≡ true
    → zone_list z p ≡ list_of g s z
same_list g h s z p e same =
    let q : h ≡ s = ground arith in sym (ap (λ r. list_in r z) e) ∙ ap (λ i. list_of g i z) q

pub if_cong :
    {A : Type 0}
    → (b : Bool) (u v w : A) → (b ≡ true → u ≡ v)
    → (if b then u else w) ≡ (if b then v else w)
if_cong true u v w h = h refl
if_cong false u v w h = refl

pub if_absorb : {A : Type 0} → (b : Bool) (u w : A) → (b ≡ true → u ≡ w) → (if b then u else w) ≡ w
if_absorb true u w h = h refl
if_absorb false u w h = refl

pub if_never : {A : Type 0} → (b : Bool) (u w : A) → ¬ (b ≡ true) → (if b then u else w) ≡ w
if_never true u w h = absurd (h refl)
if_never false u w h = refl

pub both_true : (a b : Bool) → (a && b) ≡ true → (a ≡ true) × (b ≡ true)
both_true true b h = (refl, h)
both_true false b h = cc

join_tests :
    (a b : Bool) (ids kept old : List ℕ)
    → (b ≡ true → kept ≡ old)
    → (if b then (if a then ids else kept) else old) ≡ (if a && b then ids else old)
join_tests true true ids kept old h = refl
join_tests true false ids kept old h = refl
join_tests false true ids kept old h = h refl
join_tests false false ids kept old h = refl

-- What a change of one list of a player makes of the lists.
list_of-set_zone_list :
    (g : Game) (y z : Zone) (h s : ℕ) (p : PlayerState) (ids : List ℕ)
    → has_list y ≡ true
    → get_elem? g.players h ≡ some p
    → list_of (record g { players = set g.players h (set_zone_list y ids p) }) s z
      ≡ (if zone_eq y z && (h == s) then ids else list_of g s z)
list_of-set_zone_list g y z h s p ids listed e =
    list_of-set g h s z p (set_zone_list y ids p) e
    ∙ ap (λ l. if h == s then l else list_of g s z) (zone_list-set_zone_list y z ids p listed)
    ∙ join_tests (zone_eq y z) (h == s) ids (zone_list z p) (list_of g s z) (same_list g h s z p e)

-- The lists after a change through `zone_list_mut`, which leaves the objects alone.
pub list_of-with_zone_list :
    (id : ℕ) (y : Zone) (f : List ℕ → List ℕ) (g g' : Game) (o : GameObject)
    → get id g.objects ≡ some o
    → with_zone_list id y f g ≡ some g'
    → (g'.objects ≡ g.objects)
      × ((s : ℕ) (z : Zone)
          → has_list z ≡ true
          → list_of g' s z
            ≡ (if zone_eq y z && (holder y o == s) then f (list_of g s z) else list_of g s z))
unfolding with_zone_list
list_of-with_zone_list id y f g g' o found h = by_list (has_list y) refl
  where
    edit : PlayerState → PlayerState
    edit p = set_zone_list y (f (zone_list y p)) p

    step : GameObject → Option Game
    step q =
        if has_list y
        then with_player (holder y q) (λ p. set_zone_list y (f (zone_list y p)) p) g
        else some g

    opened : step o ≡ some g'
    opened = sym (ap (λ r. r >>= step) found) ∙ h

    unlisted : has_list y ≡ false → g ≡ g'
    unlisted e = cc (opened, e)

    changed : has_list y ≡ true → with_player (holder y o) edit g ≡ some g'
    changed e = cc (opened, e)

    same_zone : (z : Zone) (b : Bool) → (zone_eq y z && b) ≡ true → has_list y ≡ has_list z
    same_zone z b t = ap has_list (zone_eq_sound y z (both_true (zone_eq y z) b t).0)

    chosen : (s : ℕ) (z : Zone) → Bool
    chosen s z = zone_eq y z && (holder y o == s)

    by_list :
        (b : Bool)
        → has_list y ≡ b
        → (g'.objects ≡ g.objects)
          × ((s : ℕ) (z : Zone)
              → has_list z ≡ true
              → list_of g' s z ≡ (if chosen s z then f (list_of g s z) else list_of g s z))
    by_list false e =
        let k = sym (unlisted e) in
        (
          ap (λ (x : Game). x.objects) k,
          λ s z l.
              ap (λ x. list_of x s z) k
              ∙ sym (
                  if_never (chosen s z) (f (list_of g s z)) (list_of g s z)
                    (λ t. cc (same_zone z (holder y o == s) t, e, l))),
        )
    by_list true e =
        let (p, player, k) = with_player-eq_some (holder y o) edit g g' (changed e) in
        (
          ap (λ (x : Game). x.objects) k,
          λ s z l.
              ap (λ x. list_of x s z) k
              ∙ list_of-set_zone_list g y z (holder y o) s p (f (zone_list y p)) e player
              ∙ if_cong (chosen s z) (f (zone_list y p)) (f (list_of g s z)) (list_of g s z) (λ t.
                let (a, b) = both_true (zone_eq y z) (holder y o == s) t in
                ap f (
                  ap (λ x. zone_list x p) (zone_eq_sound y z a)
                  ∙ same_list g (holder y o) s z p player b)),
        )
