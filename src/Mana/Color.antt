-- ===== src/Mana/Color.antt =====
-- `Color` of crates/cardir/src/types.rs, with the derived order.
use manaline.Prelude.{
  ℕ, ◌≡◌, refl, Bool, true, Option, none, some, List, [], ◌∷◌, arith, ◌==◌, if◌then◌else◌,
}
use manaline.Text.{to_ascii_uppercase}

pub data Color : Type 0 where
  white blue black red green : Color

-- `Color::ALL`
abbrev pub all : List Color
all = white ∷ blue ∷ black ∷ red ∷ green ∷ []

-- `self as usize`, which is also the derived order.
abbrev pub index : Color → ℕ
index white = 0
index blue = 1
index black = 2
index red = 3
index green = 4

-- The derived equality.
abbrev pub color_eq : Color → Color → Bool
color_eq a b = index a == index b

unfoldable pub symbol : Color → ℕ
symbol white = b'W'
symbol blue = b'U'
symbol black = b'B'
symbol red = b'R'
symbol green = b'G'

unfoldable pub from_symbol : ℕ → Option Color
unfolding to_ascii_uppercase
from_symbol ch =
    let c = to_ascii_uppercase ch in
    if c == b'W'
    then some white
    else if c == b'U'
    then some blue
    else if c == b'B'
    then some black
    else if c == b'R'
    then some red
    else if c == b'G'
    then some green
    else none

pub from_symbol-symbol : (c : Color) → from_symbol (symbol c) ≡ some c
unfolding from_symbol symbol
from_symbol-symbol white = refl
from_symbol-symbol _ = refl

pub color_eq→eq : (a b : Color) → color_eq a b ≡ true → a ≡ b
color_eq→eq a b h = ground arith
