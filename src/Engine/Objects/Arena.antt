-- ===== src/Engine/Objects/Arena.antt =====
-- The arena `Objects` of crates/engine/src/objects.rs: ids start at 1 and are never reused.
pub mod Insert
use manaline.Prelude.{
  ◌==◌, ◌%◌, ◌≡◌, ◌∷◌, ◌++◌, ◌+◌, if◌then◌else◌, [], ℕ, zero, suc, refl, Option, none, some, List,
  map, arith, length, get_elem?, false,
}
use manaline.Engine.Objects.{GameObject}

pub record Objects : Type 0 where
  pub items : List GameObject

-- `Objects::new`
abbrev pub empty : Objects
empty = record { items = [] }

-- `ObjectId(i as u32 + 1)`: cut to a `u32`, and a sum that wraps.
unfoldable pub id_at : ℕ → ℕ
id_at i = (i % 4294967296 + 1) % 4294967296

-- `insert_with_key`: the next id, and the object built with it.
unfoldable pub insert_with_key : (ℕ → GameObject) → Objects → Objects × ℕ
unfolding id_at
insert_with_key f objects =
    let id = id_at (length objects.items) in (record { items = objects.items ++ f id ∷ [] }, id)

-- `get`: `checked_sub(1)` makes id 0 no object.
unfoldable pub get : ℕ → Objects → Option GameObject
get zero objects = none
get (suc i) objects = get_elem? objects.items i

-- A change through `get_mut`.
unfoldable pub modify_at : ℕ → (GameObject → GameObject) → List GameObject → List GameObject
modify_at i f [] = []
modify_at zero f (o ∷ os) = f o ∷ os
modify_at (suc i) f (o ∷ os) = o ∷ modify_at i f os

unfoldable pub modify : ℕ → (GameObject → GameObject) → Objects → Objects
unfolding modify_at
modify zero f objects = objects
modify (suc i) f objects = record { items = modify_at i f objects.items }

-- A change of every object, through `iter_mut`.
unfoldable pub modify_all : (GameObject → GameObject) → Objects → Objects
modify_all f objects = record { items = map f objects.items }

-- `iter`, which pairs each object with its id.
unfoldable pub enumerate_from : ℕ → List GameObject → List (ℕ × GameObject)
unfolding id_at
enumerate_from i [] = []
enumerate_from i (o ∷ os) = (id_at i, o) ∷ enumerate_from (suc i) os

unfoldable pub iter : Objects → List (ℕ × GameObject)
unfolding enumerate_from
iter objects = enumerate_from 0 objects.items

abbrev pub map_option {ℓ κ} : {A : Type ℓ} {B : Type κ} → (A → B) → Option A → Option B
map_option f none = none
map_option f (some a) = some (f a)

get_elem?-modify_at :
    (i j : ℕ) (f : GameObject → GameObject) (os : List GameObject)
    → get_elem? (modify_at i f os) j
      ≡ (if i == j then map_option f (get_elem? os j) else get_elem? os j)
unfolding modify_at
get_elem?-modify_at i j f [] = ground arith
get_elem?-modify_at zero zero f (o ∷ os) = refl
get_elem?-modify_at zero (suc j) f (o ∷ os) = ground arith
get_elem?-modify_at (suc i) zero f (o ∷ os) = ground arith
get_elem?-modify_at (suc i) (suc j) f (o ∷ os) = ground (arith, get_elem?-modify_at i j f os)

pub get-modify :
    (id j : ℕ) (f : GameObject → GameObject) (objects : Objects)
    → get j (modify id f objects)
      ≡ (if id == j then map_option f (get j objects) else get j objects)
unfolding get modify
get-modify zero zero f objects = refl
get-modify zero (suc j) f objects = ground arith
get-modify (suc i) zero f objects = ground arith
get-modify (suc i) (suc j) f objects = ground (arith, get_elem?-modify_at i j f objects.items)

-- The changed object, and any other.
pub get-modify_self :
    (id : ℕ) (f : GameObject → GameObject) (objects : Objects) (o : GameObject)
    → get id objects ≡ some o
    → get id (modify id f objects) ≡ some (f o)
get-modify_self id f objects o e = ground (arith, get-modify id id f objects)

pub get-modify_other :
    (id j : ℕ) (f : GameObject → GameObject) (objects : Objects)
    → (id == j) ≡ false
    → get j (modify id f objects) ≡ get j objects
get-modify_other id j f objects e = ground (arith, get-modify id j f objects)

get_elem?-map :
    (f : GameObject → GameObject) (os : List GameObject) (i : ℕ)
    → get_elem? (map f os) i ≡ map_option f (get_elem? os i)
get_elem?-map f [] i = refl
get_elem?-map f (o ∷ os) zero = refl
get_elem?-map f (o ∷ os) (suc i) = get_elem?-map f os i

pub get-modify_all :
    (j : ℕ) (f : GameObject → GameObject) (objects : Objects)
    → get j (modify_all f objects) ≡ map_option f (get j objects)
unfolding get modify_all
get-modify_all zero f objects = refl
get-modify_all (suc j) f objects = get_elem?-map f objects.items j
