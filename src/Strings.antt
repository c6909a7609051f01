-- ===== src/Strings.antt =====
-- What the sources use of Rust's strings: a `String` as its code points, `trim`, `as_bytes`
-- (UTF-8), the decimal notation that `format!` gives an integer, and `parse` for an unsigned
-- integer.
use Prim.Native.Char.{code}
use Prim.Native.String.{String}
use amunchain.Base.{
  ◌≡◌, refl, ==_iff, ℕ, zero, suc, ◌+◌, ◌-◌, ◌*◌, ◌/◌, ◌%◌, Bytes, Bool, not, ◌||◌, ◌&&◌, List, [],
  ◌∷◌, ◌++◌, ltb, leb, ◌==◌, if◌then◌else◌, Option, none, some, is_some,
}

abbrev pub Text : Type 0
Text = List ℕ

-- An ASCII literal, as a string or its bytes.
abbrev pub ascii : String → Text
ascii String.[] = []
ascii (String.◌∷◌ c s) = code c ∷ ascii s

-- `char::is_whitespace`
abbrev pub is_whitespace : ℕ → Bool
is_whitespace c =
    (leb 9 c && leb c 13)
    || (c == 32
        || (c == 0x85
            || (c == 0xA0
                || (c == 0x1680
                    || ((leb 0x2000 c && leb c 0x200A)
                        || (c == 0x2028
                            || (c == 0x2029 || (c == 0x202F || (c == 0x205F || c == 0x3000)))))))))

abbrev trim_start : Text → Text
trim_start [] = []
trim_start (c ∷ cs) = let rest = trim_start cs in if is_whitespace c then rest else c ∷ cs

abbrev trim_end : Text → Text
trim_end [] = []
trim_end (c ∷ cs) = elim (trim_end cs) [
  | [] ↦ if is_whitespace c then [] else c ∷ []
  | d ∷ ds ↦ c ∷ d ∷ ds
]

unfoldable pub trim : Text → Text
trim s = trim_start (trim_end s)

-- The UTF-8 bytes of a code point.
abbrev pub utf8_char : ℕ → Bytes
utf8_char c =
    if ltb c 0x80
    then c ∷ []
    else if ltb c 0x800
    then (0xC0 + c / 64) ∷ (0x80 + c % 64) ∷ []
    else if ltb c 0x10000
    then (0xE0 + c / 4096) ∷ (0x80 + c / 64 % 64) ∷ (0x80 + c % 64) ∷ []
    else (0xF0 + c / 262144) ∷ (0x80 + c / 4096 % 64) ∷ (0x80 + c / 64 % 64) ∷ (0x80 + c % 64) ∷ []

unfoldable pub as_bytes : Text → Bytes
as_bytes [] = []
as_bytes (c ∷ cs) = utf8_char c ++ as_bytes cs

-- The last `fuel` decimal digits at most, without leading zeros; twenty suffice for a `u64`.
abbrev digits : ℕ → ℕ → Text
digits zero n = []
digits (suc fuel) n =
    let rest = digits fuel (n / 10) in
    if ltb n 10 then (48 + n) ∷ [] else rest ++ ((48 + n % 10) ∷ [])

unfoldable pub decimal : ℕ → Text
decimal n = digits 20 n

-- The digits of `str::parse`, with the value so far; past the type's maximum it fails.
unfoldable pub parse_digits : ℕ → ℕ → Text → Option ℕ
parse_digits top acc [] = some acc
parse_digits top acc (c ∷ cs) =
    let next = acc * 10 + (c - 48) in
    let rest = parse_digits top next cs in
    if not (leb 48 c && leb c 57) then none else if ltb top next then none else rest

-- `str::parse` at an unsigned type with the maximum `top`: a plus sign may come first.
unfoldable pub parse_unsigned : ℕ → Text → Option ℕ
unfolding parse_digits
parse_unsigned top [] = none
parse_unsigned top (c ∷ cs) =
    if c == 43
    then elim cs [ [] ↦ none | d ∷ ds ↦ parse_digits top 0 (d ∷ ds) ]
    else parse_digits top 0 (c ∷ cs)

-- `strip_prefix`
unfoldable pub strip_prefix : Text → Text → Option Text
strip_prefix [] s = some s
strip_prefix (p ∷ ps) [] = none
strip_prefix (p ∷ ps) (c ∷ cs) = let rest = strip_prefix ps cs in if p == c then rest else none

-- `starts_with`
abbrev pub starts_with : Text → Text → Bool
starts_with p s = is_some (strip_prefix p s)

pub strip_prefix-append : (p s : Text) → strip_prefix p (p ++ s) ≡ some s
unfolding strip_prefix
strip_prefix-append [] s = refl
strip_prefix-append (c ∷ p) s = rw ((==_iff c c).1 refl, strip_prefix-append p s)
