-- ===== src/Nas/Rate.antt =====
-- internal/nas/common.go: `parseRateLimitString` and `uint32BE`. Texts are ASCII. An error is
-- `none`: its text only names the token.
pub mod Tokens
use isp.Common.{
  ℕ, ◌+◌, ◌-◌, ◌*◌, ◌/◌, ◌%◌, ◌^◌, Bool, true, false, ◌&&◌, ◌||◌, Option, none, some, List, [], ◌∷◌,
  ltb, leb, ◌==◌, if◌then◌else◌,
}
use isp.Common.Bytes.{Bytes, is_digit, trim_space}

infixl 5 ◌>>=◌
abbrev pub ◌>>=◌ {ℓ κ} : {A : Type ℓ} {B : Type κ} → Option A → (A → Option B) → Option B
none >>= f = none
some a >>= f = f a

abbrev pub max_uint32 : ℕ
max_uint32 = 4294967295

-- The digits of a base-10 text, with the value so far; `none` at any other byte.
abbrev pub digits_from : ℕ → Bytes → Option ℕ
digits_from acc [] = some acc
digits_from acc (c ∷ s) =
    let rest = digits_from (acc * 10 + (c - b'0')) s in if is_digit c then rest else none

-- `strconv.ParseUint(s, 10, 32)`: an empty text, a byte that is no digit and a value that does not
-- fit 32 bits are errors.
unfoldable pub parse_uint32 : Bytes → Option ℕ
parse_uint32 [] = none
parse_uint32 (c ∷ s) = do n ← digits_from 0 (c ∷ s); if leb n max_uint32 then some n else none

-- The last byte and what stands before it.
abbrev pub unsnoc : Bytes → Option (Bytes × ℕ)
unsnoc [] = none
unsnoc (c ∷ s) = elim (unsnoc s) [ none ↦ some ([], c) | some (init, last) ↦ some (c ∷ init, last) ]

-- The `switch` on the token's last byte: the multiplier and the part that is the number.
abbrev pub suffix : Bytes → Bytes → ℕ → ℕ × Bytes
suffix tok init c =
    if c == b'k' || c == b'K'
    then (1000, init)
    else if c == b'm' || c == b'M'
    then (1000000, init)
    else if c == b'g' || c == b'G'
    then (1000000000, init)
    else (1, tok)

-- `n * mult` is below 2^62, so the 64-bit product does not wrap.
abbrev pub scale : ℕ → ℕ → Option ℕ
scale mult n = if ltb max_uint32 (n * mult) then none else some (n * mult)

unfoldable pub parse_rate_token : Bytes → Option ℕ
parse_rate_token tok = do
  let t = trim_space tok
  (init, last) ← unsnoc t
  let (mult, num) = suffix t init last
  n ← parse_uint32 num
  scale mult n

-- `strings.SplitN(s, "/", 2)`, where it gives two parts.
abbrev pub split_slash : Bytes → Option (Bytes × Bytes)
split_slash [] = none
split_slash (c ∷ s) =
    let rest = split_slash s in
    if c == b'/' then some ([], s) else elim rest [ none ↦ none | some (a, b) ↦ some (c ∷ a, b) ]

unfoldable pub parse_rate_limit_string : Bytes → Option (ℕ × ℕ)
parse_rate_limit_string s = do
  (a, b) ← split_slash s
  first ← parse_rate_token a
  second ← parse_rate_token b
  some (first, second)

-- `byte(v >> 24)` and so on.
unfoldable pub uint32_be : ℕ → Bytes
uint32_be v = (v / 2 ^ 24 % 256) ∷ (v / 2 ^ 16 % 256) ∷ (v / 2 ^ 8 % 256) ∷ (v % 256) ∷ []
