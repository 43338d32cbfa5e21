-- ===== src/Mana/Pool.antt =====
-- `Mana` and `ManaPool` of crates/engine/src/types.rs: one count, a `u8`, for each kind of mana.
pub mod Laws
use manaline.Prelude.{
  ◌==◌, ◌∷◌, ◌++◌, ◌+◌, ◌-◌, if◌then◌else◌, [], ℕ, min, Bool, true, false, List, ltb, replicate,
  get_or, set, sum,
}
use manaline.Mana.Color.{Color, white, blue, black, red, green, index}

pub data Mana : Type 0 where
  colored : Color → Mana
  colorless : Mana

-- `Mana::ALL`
abbrev pub all_mana : List Mana
all_mana =
    colored white ∷ colored blue ∷ colored black ∷ colored red ∷ colored green ∷ colorless ∷ []

abbrev pub slot : Mana → ℕ
slot (colored c) = index c
slot colorless = 5

-- The derived equality and order are those of the slots.
abbrev pub mana_eq : Mana → Mana → Bool
mana_eq m n = slot m == slot n

-- `amounts: [u8; 6]`
pub record ManaPool : Type 0 where
  pub amounts : List ℕ

-- `ManaPool::default()`, and the pool after `clear`.
abbrev pub empty_pool : ManaPool
empty_pool = record { amounts = replicate 6 0 }

unfoldable pub get : Mana → ManaPool → ℕ
get m p = get_or p.amounts (slot m) 0

unfoldable pub add : Mana → ℕ → ManaPool → ManaPool
unfolding get
add m n p = record { amounts = set p.amounts (slot m) (min (get m p + n) 255) }

unfoldable pub remove : Mana → ℕ → ManaPool → ManaPool × Bool
unfolding get
remove m n p =
    if ltb (get m p) n
    then (p, false)
    else (record { amounts = set p.amounts (slot m) (get m p - n) }, true)

unfoldable pub total : ManaPool → ℕ
total p = sum p.amounts

unfoldable pub is_empty : ManaPool → Bool
unfolding total
is_empty p = total p == 0

unfoldable pub clear : ManaPool → ManaPool
clear p = record p { amounts = replicate 6 0 }

-- The inner loop of `units`, for each kind in `ms`.
unfoldable pub units_of : List Mana → ManaPool → List Mana
units_of [] p = []
units_of (m ∷ ms) p = replicate (get m p) m ++ units_of ms p

unfoldable pub units : ManaPool → List Mana
unfolding units_of
units p = units_of all_mana p
