-- ===== src/Mana/Cost/Symbols.antt =====
-- The loop of `ManaCost::parse` (crates/cardir/src/types.rs) on the symbols that a cost prints.
use manaline.Prelude.{
  ℕ, suc, ◌≤◌, ◌≡◌, refl, Bool, true, false, ◌&&◌, Option, none, some, [], ◌∷◌, ◌++◌, arith, table,
  table_sound, ◌==◌, ◌>>=◌, append_assoc, ◌+◌, ◌<◌, zero, List, append-nil, ok, length, ◌∙◌, ap,
  sym, not,
}
use manaline.Mana.Cost.{
  ManaCost, split_close, add_symbol, parse_symbols, braced, add_pip, print_xs, print_pips,
}
use manaline.Mana.Color.{Color, white, symbol, from_symbol}
use manaline.Text.{codes, Str, parse_u8, print_u8}

-- No `}` inside, so that the first `}` behind the text closes it.
abbrev is_open : Str → Bool
is_open [] = true
is_open (c ∷ cs) = not (c == b'}') && is_open cs

split_close-append :
    (sym behind : Str)
    → is_open sym ≡ true
    → split_close (sym ++ b'}' ∷ behind) ≡ some (sym, behind)
unfolding split_close
split_close-append [] behind h = refl
split_close-append (c ∷ cs) behind h = ground (arith, split_close-append cs behind)

-- One printed symbol is one round of the loop.
parse_symbols-braced :
    (f : ℕ) (cost : ManaCost) (sym behind : Str)
    → is_open sym ≡ true
    → parse_symbols (suc f) cost (braced sym ++ behind)
      ≡ (add_symbol sym cost >>= λ cost'. parse_symbols f cost' behind)
unfolding parse_symbols
parse_symbols-braced f cost sym behind h = rw (append_assoc, split_close-append sym behind h)

-- Whether a parser's answer is `n`.
abbrev is_some_of : Option ℕ → ℕ → Bool
is_some_of none n = false
is_some_of (some m) n = m == n

u8_table : table (λ n. is_open (print_u8 n) && is_some_of (parse_u8 (print_u8 n)) n) 256 ≡ true
unfolding table print_u8 parse_u8
u8_table = refl

u8-parsed : (n : ℕ) → n ≤ 255 → (is_open (print_u8 n) ≡ true) × (parse_u8 (print_u8 n) ≡ some n)
u8-parsed n h = let found = table_sound _ 256 n (omega arith) u8_table in ground arith

-- `n` units of fuel on top of `f`.
abbrev pub above : ℕ → ℕ → ℕ
above zero f = f
above (suc n) f = suc (above n f)

pub above-eq-add : (n f : ℕ) → above n f ≡ n + f
above-eq-add zero f = omega arith
above-eq-add (suc n) f = omega (arith, above-eq-add n f)

add_symbol-x :
    (cost : ManaCost)
    → cost.x < 255
    → add_symbol (codes "X") cost ≡ ok (record cost { x = cost.x + 1 })
unfolding add_symbol parse_u8
add_symbol-x cost h = ground arith

add_symbol-symbol :
    (c : Color) (cost : ManaCost)
    → add_symbol (symbol c ∷ []) cost ≡ ok (record cost { pips = cost.pips ++ c ∷ [] })
unfolding add_symbol add_pip parse_u8 symbol from_symbol
add_symbol-symbol white cost = refl
add_symbol-symbol _ cost = refl

symbol-is_open : (c : Color) → is_open (symbol c ∷ []) ≡ true
unfolding symbol
symbol-is_open white = refl
symbol-is_open _ = refl

pub parse_symbols-xs :
    (n f : ℕ) (cost : ManaCost) (behind : Str)
    → cost.x + n ≤ 255
    → parse_symbols (above n f) cost (print_xs n ++ behind)
      ≡ parse_symbols f (record cost { x = cost.x + n }) behind
parse_symbols-xs zero f cost behind h =
    ap (λ (k : ℕ). parse_symbols f (record cost { x = k }) behind) (omega arith)
parse_symbols-xs (suc n) f cost behind h =
    parse_symbols-braced (above n f) cost (codes "X") (print_xs n ++ behind) refl
    ∙ rw (add_symbol-x cost (omega arith)) (
        parse_symbols-xs n f (record cost { x = cost.x + 1 }) behind (omega arith)
        ∙ ap (λ (k : ℕ). parse_symbols f (record cost { x = k }) behind) (omega arith))

pub parse_symbols-pips :
    (cs : List Color) (f : ℕ) (cost : ManaCost) (behind : Str)
    → parse_symbols (above (length cs) f) cost (print_pips cs ++ behind)
      ≡ parse_symbols f (record cost { pips = cost.pips ++ cs }) behind
parse_symbols-pips [] f cost behind = rw append-nil
parse_symbols-pips (c ∷ cs) f cost behind =
    parse_symbols-braced (above (length cs) f) cost (symbol c ∷ []) (print_pips cs ++ behind)
      (symbol-is_open c)
    ∙ rw (add_symbol-symbol c cost) (
        parse_symbols-pips cs f (record cost { pips = cost.pips ++ c ∷ [] }) behind
        ∙ ap (λ (ps : List Color). parse_symbols f (record cost { pips = ps }) behind)
            (append_assoc cost.pips (c ∷ []) cs))

add_symbol-generic :
    (cost : ManaCost) (n : ℕ)
    → cost.generic ≡ 0
    → n ≤ 255
    → add_symbol (print_u8 n) cost ≡ ok (record cost { generic = n })
unfolding add_symbol
add_symbol-generic cost n zeroed h = ground (arith, u8-parsed n h)

pub parse_symbols-generic :
    (f : ℕ) (cost : ManaCost) (n : ℕ) (behind : Str)
    → cost.generic ≡ 0
    → n ≤ 255
    → parse_symbols (suc f) cost (braced (print_u8 n) ++ behind)
      ≡ parse_symbols f (record cost { generic = n }) behind
parse_symbols-generic f cost n behind zeroed h =
    parse_symbols-braced f cost (print_u8 n) behind (u8-parsed n h).0
    ∙ rw (add_symbol-generic cost n zeroed h)
