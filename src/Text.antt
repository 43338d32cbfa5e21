-- ===== src/Text.antt =====
-- Text as the list of its code points, and the methods of Rust's `str` and `char` that the crates
-- call on it.
use Prim.Native.Char.{code}
use Prim.Native.String.{String}
use manaline.Prelude.{
  ℕ, ◌+◌, ◌-◌, ◌*◌, ◌/◌, ◌%◌, ◌≡◌, refl, Bool, true, false, ◌&&◌, ◌||◌, Option, none, some, List,
  [], ◌∷◌, arith, ltb, leb, ◌==◌, if◌then◌else◌, All,
}

abbrev pub Str : Type 0
Str = List ℕ

-- A literal of the source.
abbrev pub codes : String → Str
codes String.[] = []
codes (String.◌∷◌ c s) = code c ∷ codes s

abbrev pub str_eq : Str → Str → Bool
str_eq [] [] = true
str_eq (x ∷ xs) (y ∷ ys) = x == y && str_eq xs ys
str_eq _ _ = false

pub str_eq→eq : (xs ys : Str) → str_eq xs ys ≡ true → xs ≡ ys
str_eq→eq [] [] h = refl
str_eq→eq [] (y ∷ ys) h = cc
str_eq→eq (x ∷ xs) [] h = cc
str_eq→eq (x ∷ xs) (y ∷ ys) h = ground (arith, str_eq→eq xs ys)

pub str_eq_refl : (xs : Str) → str_eq xs xs ≡ true
str_eq_refl [] = refl
str_eq_refl (x ∷ xs) = ground (arith, str_eq_refl xs)

-- `char::is_ascii_digit`
abbrev pub is_digit : ℕ → Bool
is_digit c = leb b'0' c && leb c b'9'

-- `char::is_whitespace`: the code points with the property White_Space.
unfoldable pub is_whitespace : ℕ → Bool
is_whitespace c =
    (leb 9 c && leb c 13)
    || c == 32
    || c == 133
    || c == 160
    || c == 5760
    || (leb 8192 c && leb c 8202)
    || c == 8232
    || c == 8233
    || c == 8239
    || c == 8287
    || c == 12288

-- `char::to_ascii_uppercase`
unfoldable pub to_ascii_uppercase : ℕ → ℕ
to_ascii_uppercase c = if leb b'a' c && leb c b'z' then c - 32 else c

abbrev pub trim_start : Str → Str
trim_start [] = []
trim_start (c ∷ cs) = if is_whitespace c then trim_start cs else c ∷ cs

-- A character goes if it is white space and nothing is left behind it.
abbrev cons_end : ℕ → Str → Str
cons_end c [] = if is_whitespace c then [] else c ∷ []
cons_end c (d ∷ ds) = c ∷ d ∷ ds

abbrev pub trim_end : Str → Str
trim_end [] = []
trim_end (c ∷ cs) = cons_end c (trim_end cs)

-- `str::trim`
unfoldable pub trim : Str → Str
trim s = trim_end (trim_start s)

-- `u8::from_str` after the sign: at least one digit, all digits, at most 255.
abbrev digits_u8 : ℕ → Str → Option ℕ
digits_u8 acc [] = some acc
digits_u8 acc (c ∷ cs) =
    let acc' = acc * 10 + (c - b'0') in
    let rest = digits_u8 acc' cs in
    if is_digit c then (if leb acc' 255 then rest else none) else none

abbrev unsigned : Str → Option ℕ
unsigned [] = none
unsigned (c ∷ cs) = digits_u8 0 (c ∷ cs)

abbrev sign_dropped : Str → Str
sign_dropped [] = []
sign_dropped (c ∷ cs) = if c == b'+' then cs else c ∷ cs

-- `str::parse::<u8>`, `none` for its error.
unfoldable pub parse_u8 : Str → Option ℕ
parse_u8 s = unsigned (sign_dropped s)

-- `{}` of a `u8`.
unfoldable pub print_u8 : ℕ → Str
print_u8 n =
    if ltb n 10
    then (b'0' + n) ∷ []
    else if ltb n 100
    then (b'0' + n / 10) ∷ (b'0' + n % 10) ∷ []
    else (b'0' + n / 100) ∷ (b'0' + n / 10 % 10) ∷ (b'0' + n % 10) ∷ []

abbrev IsSolid : ℕ → Type 0
IsSolid c = is_whitespace c ≡ false

-- Text without white space is left alone by `trim`.
trim_start_solid : (s : Str) → All IsSolid s → trim_start s ≡ s
trim_start_solid [] h = refl
trim_start_solid (c ∷ cs) h = rw h.0

trim_end_solid : (s : Str) → All IsSolid s → trim_end s ≡ s
trim_end_solid [] h = refl
trim_end_solid (c ∷ []) h = rw h.0
trim_end_solid (c ∷ d ∷ cs) h = rw (trim_end_solid (d ∷ cs) h.1)

pub trim_solid : (s : Str) → All IsSolid s → trim s ≡ s
unfolding trim
trim_solid s h = rw (trim_start_solid s h) (trim_end_solid s h)
