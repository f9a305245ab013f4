-- ===== src/Base/Text.antt =====
-- Texts as the standard library's strings and strconv treat them, on ASCII bytes.
use mpfpv.Base.{
  ℕ, zero, suc, ◌+◌, ◌-◌, ◌*◌, ◌/◌, ◌%◌, Bool, ◌==◌, ◌&&◌, ◌||◌, ltb, leb, if◌then◌else◌, [], ◌∷◌,
  ◌++◌, Option, none, some, length, drop,
}
use mpfpv.Base.Bytes.{Bytes, has_prefix}

abbrev pub is_space : ℕ → Bool
is_space b = b == b' ' || (leb 9 b && leb b 13)

abbrev pub trim_left : Bytes → Bytes
trim_left [] = []
trim_left (b ∷ s) = let rest = trim_left s in if is_space b then rest else b ∷ s

-- Trims the end: a byte is dropped if it is a space and nothing is left behind it.
abbrev pub keep_byte : ℕ → Bytes → Bytes
keep_byte b [] = if is_space b then [] else b ∷ []
keep_byte b (x ∷ s) = b ∷ x ∷ s

abbrev pub trim_right : Bytes → Bytes
trim_right [] = []
trim_right (b ∷ s) = keep_byte b (trim_right s)

unfoldable pub trim_space : Bytes → Bytes
trim_space s = trim_right (trim_left s)

-- `strconv.ParseUint(s, 10, 16)`; `none` is an error.
unfoldable pub parse_digits : Bytes → ℕ → Option ℕ
parse_digits [] n = some n
parse_digits (b ∷ s) n =
    let rest = parse_digits s (n * 10 + (b - b'0')) in
    if ltb b b'0' || ltb b'9' b
    then none
    else if ltb 65535 (n * 10 + (b - b'0'))
    then none
    else rest

abbrev pub parse_uint16 : Bytes → Option ℕ
parse_uint16 [] = none
parse_uint16 (b ∷ s) = parse_digits (b ∷ s) 0

-- `%d`, for numbers of at most `rounds + 1` digits.
unfoldable pub decimal : ℕ → ℕ → Bytes
decimal zero n = (b'0' + n % 10) ∷ []
decimal (suc rounds) n =
    let front = decimal rounds (n / 10) in
    if ltb n 10 then (b'0' + n) ∷ [] else front ++ ((b'0' + n % 10) ∷ [])

-- `strings.TrimPrefix(s, prefix)`.
abbrev pub trim_prefix : Bytes → Bytes → Bytes
trim_prefix s prefix = if has_prefix s prefix then drop (length prefix) s else s

-- `strings.TrimSuffix(s, "/")`.
unfoldable pub trim_slash : Bytes → Bytes
trim_slash [] = []
trim_slash (b ∷ []) = if b == b'/' then [] else b ∷ []
trim_slash (b ∷ c ∷ s) = b ∷ trim_slash (c ∷ s)
