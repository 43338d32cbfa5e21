-- ===== src/Card/Types.antt =====
-- `CardType`, `Supertype` and `Keyword` of crates/cardir/src/types.rs.
use manaline.Prelude.{ℕ, Bool, true, false, ◌==◌}
use manaline.Text.{Str, codes}

pub data CardType : Type 0 where
  creature land instant sorcery artifact enchantment planeswalker : CardType

-- The order of declaration, for the derived equality.
abbrev type_index : CardType → ℕ
type_index creature = 0
type_index land = 1
type_index instant = 2
type_index sorcery = 3
type_index artifact = 4
type_index enchantment = 5
type_index planeswalker = 6

abbrev pub type_eq : CardType → CardType → Bool
type_eq a b = type_index a == type_index b

-- `CardType::is_permanent`
unfoldable pub permanent_type : CardType → Bool
permanent_type instant = false
permanent_type sorcery = false
permanent_type _ = true

pub data Supertype : Type 0 where
  basic legendary snow : Supertype

abbrev supertype_index : Supertype → ℕ
supertype_index basic = 0
supertype_index legendary = 1
supertype_index snow = 2

abbrev pub supertype_eq : Supertype → Supertype → Bool
supertype_eq a b = supertype_index a == supertype_index b

pub data Keyword : Type 0 where
  flying first_strike double_strike deathtouch lifelink trample vigilance haste : Keyword
  reach menace defender flash hexproof indestructible prowess : Keyword

abbrev keyword_index : Keyword → ℕ
keyword_index flying = 0
keyword_index first_strike = 1
keyword_index double_strike = 2
keyword_index deathtouch = 3
keyword_index lifelink = 4
keyword_index trample = 5
keyword_index vigilance = 6
keyword_index haste = 7
keyword_index reach = 8
keyword_index menace = 9
keyword_index defender = 10
keyword_index flash = 11
keyword_index hexproof = 12
keyword_index indestructible = 13
keyword_index prowess = 14

abbrev pub keyword_eq : Keyword → Keyword → Bool
keyword_eq a b = keyword_index a == keyword_index b

-- `Keyword::word`
unfoldable pub word : Keyword → Str
word flying = codes "flying"
word first_strike = codes "first strike"
word double_strike = codes "double strike"
word deathtouch = codes "deathtouch"
word lifelink = codes "lifelink"
word trample = codes "trample"
word vigilance = codes "vigilance"
word haste = codes "haste"
word reach = codes "reach"
word menace = codes "menace"
word defender = codes "defender"
word flash = codes "flash"
word hexproof = codes "hexproof"
word indestructible = codes "indestructible"
word prowess = codes "prowess"
