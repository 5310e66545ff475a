-- ===== src/Server/Text.antt =====
-- What nteedb-server uses of package strings and of strconv, on byte strings.
use Prim.Native.Char.{code}
use Prim.Native.String.{String}
use mathlib.Core.List.{reverse}
use ntee_db.Base.{
  ℕ, zero, suc, ◌+◌, ◌-◌, ◌*◌, ◌^◌, Bool, true, false, ◌&&◌, ◌||◌, Option, none, some, List, [],
  ◌∷◌, ◌++◌, map, take, ltb, leb, ◌==◌, if◌then◌else◌,
}
use ntee_db.Base.Int.{ℤ, pos, sub_ℕ}
use ntee_db.Bytes.{Bytes, has_prefix}

-- The bytes of an ASCII text.
abbrev pub codes : String → Bytes
codes String.[] = []
codes (String.◌∷◌ c s) = code c ∷ codes s

-- unicode.IsSpace at the head of a string: how many bytes the white space there takes. The lead
-- byte of a character is no continuation byte, so that a scan by bytes finds the same characters.
abbrev wide_spaces : List Bytes
wide_spaces =
    (0xE1 ∷ 0x9A ∷ 0x80 ∷ [])
    ∷ (0xE2 ∷ 0x80 ∷ 0xA8 ∷ [])
    ∷ (0xE2 ∷ 0x80 ∷ 0xA9 ∷ [])
    ∷ (0xE2 ∷ 0x80 ∷ 0xAF ∷ [])
    ∷ (0xE2 ∷ 0x81 ∷ 0x9F ∷ [])
    ∷ (0xE3 ∷ 0x80 ∷ 0x80 ∷ [])
    ∷ []

unfoldable pub starts_any : List Bytes → Bytes → Bool
starts_any [] s = false
starts_any (p ∷ ps) s = has_prefix s p || starts_any ps s

-- U+2000 to U+200A
abbrev is_quad : Bytes → Bool
is_quad (a ∷ b ∷ c ∷ rest) = a == 0xE2 && b == 0x80 && leb 0x80 c && leb c 0x8A
is_quad _ = false

abbrev pub is_ascii_space : ℕ → Bool
is_ascii_space c = c == b' ' || (leb 9 c && leb c 13)

unfoldable pub space_width : Bytes → ℕ
unfolding starts_any
space_width [] = 0
space_width (c ∷ cs) =
    if ltb c 0x80
    then (if is_ascii_space c then 1 else 0)
    else if has_prefix (c ∷ cs) (0xC2 ∷ 0x85 ∷ []) || has_prefix (c ∷ cs) (0xC2 ∷ 0xA0 ∷ [])
    then 2
    else if starts_any wide_spaces (c ∷ cs) || is_quad (c ∷ cs)
    then 3
    else 0

abbrev pub emit : Bytes → List Bytes → List Bytes
emit [] words = words
emit (c ∷ cs) words = (c ∷ cs) ∷ words

-- The scan of strings.Fields: `k` bytes of a white space are left, and `acc` is the word so far.
unfoldable pub fields_from : ℕ → Bytes → Bytes → List Bytes
fields_from k acc [] = emit acc []
fields_from (suc k) acc (c ∷ cs) = fields_from k acc cs
fields_from zero acc (c ∷ cs) = elim (space_width (c ∷ cs)) [
  | zero ↦ fields_from 0 (acc ++ c ∷ []) cs
  | suc w ↦ emit acc (fields_from w [] cs)
]

unfoldable pub fields : Bytes → List Bytes
unfolding fields_from
fields s = fields_from 0 [] s

-- The first letter in lower case, and how many more bytes it takes. The Kelvin sign and the capital
-- I with a dot have ASCII letters in lower case; other letters beyond ASCII are left as they are, and
-- stay beyond it.
abbrev lowered : Bytes → ℕ × ℕ
lowered [] = (0, 0)
lowered (c ∷ cs) =
    if has_prefix (c ∷ cs) (0xC4 ∷ 0xB0 ∷ [])
    then (b'i', 1)
    else if has_prefix (c ∷ cs) (0xE2 ∷ 0x84 ∷ 0xAA ∷ [])
    then (b'k', 2)
    else if leb b'A' c && leb c b'Z'
    then (c + 32, 0)
    else (c, 0)

unfoldable pub lower_from : ℕ → Bytes → Bytes
lower_from k [] = []
lower_from (suc k) (c ∷ cs) = lower_from k cs
lower_from zero (c ∷ cs) = let (b, k) = lowered (c ∷ cs) in b ∷ lower_from k cs

-- strings.ToLower
unfoldable pub to_lower : Bytes → Bytes
unfolding lower_from
to_lower s = lower_from 0 s

-- The white space at the end, given the string from its end.
unfoldable pub last_width : Bytes → ℕ
unfolding starts_any
last_width [] = 0
last_width (c ∷ cs) =
    if ltb c 0x80
    then (if is_ascii_space c then 1 else 0)
    else if has_prefix (c ∷ cs) (0x85 ∷ 0xC2 ∷ []) || has_prefix (c ∷ cs) (0xA0 ∷ 0xC2 ∷ [])
    then 2
    else if starts_any (map reverse wide_spaces) (c ∷ cs) || is_quad (reverse (take 3 (c ∷ cs)))
    then 3
    else 0

unfoldable pub trim_by : (Bytes → ℕ) → ℕ → Bytes → Bytes
trim_by width k [] = []
trim_by width (suc k) (c ∷ cs) = trim_by width k cs
trim_by width zero (c ∷ cs) = elim (width (c ∷ cs)) [ zero ↦ c ∷ cs | suc w ↦ trim_by width w cs ]

-- strings.TrimSpace
unfoldable pub trim_space : Bytes → Bytes
unfolding space_width last_width trim_by
trim_space s = reverse (trim_by last_width 0 (reverse (trim_by space_width 0 s)))

-- The part before the first byte `sep`, and the part behind it if there is one.
unfoldable pub cut : ℕ → Bytes → Bytes × Option Bytes
cut sep [] = ([], none)
cut sep (c ∷ cs) =
    let (before, after) = cut sep cs in if c == sep then ([], some cs) else (c ∷ before, after)

-- strings.SplitN(s, sep, n + 1)
unfoldable pub split_n : ℕ → ℕ → Bytes → List Bytes
unfolding cut
split_n sep zero s = s ∷ []
split_n sep (suc n) s =
    let (before, after) = cut sep s in
    before ∷ (elim after [ none ↦ [] | some rest ↦ split_n sep n rest ])

-- strings.Split(s, sep)
unfoldable pub split : ℕ → Bytes → Bytes → List Bytes
split sep acc [] = acc ∷ []
split sep acc (c ∷ cs) = elim (c == sep) [
  | true ↦ acc ∷ split sep [] cs
  | false ↦ split sep (acc ++ c ∷ []) cs
]

unfoldable pub read_decimal : ℕ → Bytes → Option ℕ
read_decimal mag [] = some mag
read_decimal mag (c ∷ cs) =
    if ltb c b'0' || ltb b'9' c then none else read_decimal (mag * 10 + (c - b'0')) cs

-- strconv.ParseUint(s, 10, 64) before its bound
abbrev digits_of : Bytes → Option ℕ
digits_of [] = none
digits_of (c ∷ cs) = read_decimal 0 (c ∷ cs)

abbrev positive : Option ℕ → Option ℤ
positive none = none
positive (some n) = if ltb n (2 ^ 63) then some (pos n) else none

abbrev negative : Option ℕ → Option ℤ
negative none = none
negative (some n) = if leb n (2 ^ 63) then some (sub_ℕ 0 n) else none

-- strconv.ParseInt(s, 10, 64), and strconv.Atoi where an int has 64 bits.
unfoldable pub parse_int : Bytes → Option ℤ
unfolding read_decimal
parse_int [] = none
parse_int (c ∷ cs) =
    if c == b'-'
    then negative (digits_of cs)
    else if c == b'+'
    then positive (digits_of cs)
    else positive (digits_of (c ∷ cs))
