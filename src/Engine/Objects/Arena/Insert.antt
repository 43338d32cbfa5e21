-- ===== src/Engine/Objects/Arena/Insert.antt =====
-- `insert_with_key` of crates/engine/src/objects.rs gives an id that was never used.
use manaline.Prelude.{
  ◌==◌, ◌≡◌, ◌∷◌, ◌++◌, ◌+◌, if◌then◌else◌, [], ℕ, zero, suc, refl, ap, ◌∙◌, true, false, none,
  some, List, arith, length, get_elem?, ◌%◌, ◌<◌, sym, length-append,
}
use manaline.Engine.Objects.{GameObject}
use manaline.Engine.Objects.Arena.{Objects, get, insert_with_key, id_at}

-- Behind a list of objects, one more.
get_elem?-append_one :
    (os : List GameObject) (o : GameObject) (i : ℕ)
    → get_elem? (os ++ o ∷ []) i ≡ (if length os == i then some o else get_elem? os i)
get_elem?-append_one [] o zero = refl
get_elem?-append_one [] o (suc i) = ground arith
get_elem?-append_one (p ∷ os) o zero = ground arith
get_elem?-append_one (p ∷ os) o (suc i) = ground (arith, get_elem?-append_one os o i)

get_elem?-length : (os : List GameObject) → get_elem? os (length os) ≡ none
get_elem?-length [] = refl
get_elem?-length (o ∷ os) = get_elem?-length os

-- With fewer than 2 ^ 32 - 1 objects, the id of an inserted object is the number of objects then. It was no
-- object before, it is the object built with that id now, and every other id is what it was.
pub insert_with_key_lem :
    (f : ℕ → GameObject) (objects : Objects)
    → length objects.items + 1 < 4294967296
    → (objects' : Objects) × (id : ℕ) × (insert_with_key f objects ≡ (objects', id))
      × (id ≡ length objects'.items)
      × (get id objects ≡ none)
      × (get id objects' ≡ some (f id))
      × ((i : ℕ) → (id == i) ≡ false → get i objects' ≡ get i objects)
unfolding insert_with_key get id_at
insert_with_key_lem f objects few =
    let os = objects.items in
    let id = suc (length os) in
    let next : (length os % 4294967296 + 1) % 4294967296 ≡ id = omega (arith, few) in
    let same : (length os == length os) ≡ true = ground arith in
    (
      record { items = os ++ f id ∷ [] },
      id,
      ap (λ n. (record { items = os ++ f n ∷ [] }, n)) next,
      sym (length_one_more os (f id)),
      get_elem?-length os,
      get_elem?-append_one os (f id) (length os)
          ∙ ap (λ b. if b then some (f id) else get_elem? os (length os)) same,
      others id,
    )
  where
    length_one_more :
        (os : List GameObject) (o : GameObject) → length (os ++ o ∷ []) ≡ suc (length os)
    length_one_more os o = omega (arith, length-append os (o ∷ []))

    others :
        (id i : ℕ)
        → (suc (length objects.items) == i) ≡ false
        → get i (record { items = objects.items ++ f id ∷ [] }) ≡ get i objects
    others id zero e = refl
    others id (suc i) e =
        let os = objects.items in
        let apart : (length os == i) ≡ false = ground arith in
        get_elem?-append_one os (f id) i ∙ ap (λ b. if b then some (f id) else get_elem? os i) apart
