-- ===== src/Nas/Rate/Tokens.antt =====
-- common.go: which rate tokens parse, to which numbers.
use isp.Common.{
  ℕ, ◌+◌, ◌-◌, ◌*◌, ◌≤◌, ◌<◌, ◌≡◌, refl, sym, ap, ◌∙◌, true, false, Option, none, some, [], ◌∷◌,
  ◌++◌, arith, leb, if◌then◌else◌,
}
use isp.Common.Bytes.{from_be, Bytes, is_digit, is_space, trim_right, trim_space}
use mathlib.Core.Path.{subst}
use mathlib.Core.List.{append-nil}
use isp.Nas.Rate.{
  ◌>>=◌, max_uint32, digits_from, parse_uint32, unsnoc, suffix, scale, parse_rate_token,
  split_slash, parse_rate_limit_string, uint32_be,
}

abbrev pub AllDigits : Bytes → Type 0
AllDigits [] = Unit
AllDigits (c ∷ s) = (is_digit c ≡ true) × AllDigits s

abbrev pub value_from : ℕ → Bytes → ℕ
value_from acc [] = acc
value_from acc (c ∷ s) = value_from (acc * 10 + (c - b'0')) s

-- The number that decimal digits denote.
abbrev pub value : Bytes → ℕ
value = value_from 0

-- A unit as it is written, and its multiplier.
pub data RateUnit : Type 0 where
  bits lower_kilo upper_kilo lower_mega upper_mega lower_giga upper_giga : RateUnit

abbrev pub unit_text : RateUnit → Bytes
unit_text bits = []
unit_text lower_kilo = b'k' ∷ []
unit_text upper_kilo = b'K' ∷ []
unit_text lower_mega = b'm' ∷ []
unit_text upper_mega = b'M' ∷ []
unit_text lower_giga = b'g' ∷ []
unit_text upper_giga = b'G' ∷ []

abbrev pub multiplier : RateUnit → ℕ
multiplier bits = 1
multiplier lower_kilo = 1000
multiplier upper_kilo = 1000
multiplier lower_mega = 1000000
multiplier upper_mega = 1000000
multiplier lower_giga = 1000000000
multiplier upper_giga = 1000000000

digits_from-value :
    (acc : ℕ) (s : Bytes) → AllDigits s → digits_from acc s ≡ some (value_from acc s)
digits_from-value acc [] h = refl
digits_from-value acc (c ∷ s) h = ground (arith, digits_from-value (acc * 10 + (c - b'0')) s h.1)

parse_uint32-value :
    (c : ℕ) (s : Bytes)
    → AllDigits (c ∷ s)
    → parse_uint32 (c ∷ s) ≡ (if leb (value (c ∷ s)) max_uint32 then some (value (c ∷ s)) else none)
unfolding parse_uint32
parse_uint32-value c s h = rw (digits_from-value 0 (c ∷ s) h)

abbrev NoSpace : Bytes → Type 0
NoSpace [] = Unit
NoSpace (c ∷ s) = (is_space c ≡ false) × NoSpace s

trim_right-NoSpace : (s : Bytes) → NoSpace s → trim_right s ≡ s
trim_right-NoSpace [] h = refl
trim_right-NoSpace (c ∷ []) h = ground arith
trim_right-NoSpace (c ∷ d ∷ s) h = rw (trim_right-NoSpace (d ∷ s) h.1)

trim_space-NoSpace : (s : Bytes) → NoSpace s → trim_space s ≡ s
unfolding trim_space
trim_space-NoSpace [] h = refl
trim_space-NoSpace (c ∷ s) h = rw h.0 (trim_right-NoSpace (c ∷ s) h)

unsnoc-append : (s : Bytes) (c : ℕ) → unsnoc (s ++ c ∷ []) ≡ some (s, c)
unsnoc-append [] c = refl
unsnoc-append (d ∷ s) c = rw (unsnoc-append s c)

NoSpace-append : (s : Bytes) (c : ℕ) → AllDigits s → is_space c ≡ false → NoSpace (s ++ c ∷ [])
NoSpace-append [] c h e = (e, tt)
NoSpace-append (d ∷ s) c h e = (ground arith, NoSpace-append s c h.1 e)

-- A list that ends in a byte, by the byte it ends in.
snoc_of :
    (c : ℕ) (s : Bytes)
    → AllDigits (c ∷ s)
    → (i : Bytes) × (d : ℕ) × (c ∷ s ≡ i ++ d ∷ []) × AllDigits i × (is_digit d ≡ true)
snoc_of c [] h = ([], c, refl, tt, h.0)
snoc_of c (b ∷ s) h =
    let (i, d, e, hi, hd) = snoc_of b s h.1 in (c ∷ i, d, ap (◌∷◌ c) e, (h.0, hi), hd)

NoSpace-digits : (s : Bytes) → AllDigits s → NoSpace s
NoSpace-digits [] h = tt
NoSpace-digits (c ∷ s) h = (ground arith, NoSpace-digits s h.1)

parse_rate_token-append :
    (i : Bytes) (x : ℕ)
    → NoSpace (i ++ x ∷ [])
    → parse_rate_token (i ++ x ∷ [])
      ≡ (let (mult, num) = suffix (i ++ x ∷ []) i x in parse_uint32 num >>= scale mult)
unfolding parse_rate_token
parse_rate_token-append i x h = rw (trim_space-NoSpace (i ++ x ∷ []) h, unsnoc-append i x)

suffix_digit : (t i : Bytes) (d : ℕ) → is_digit d ≡ true → suffix t i d ≡ (1, t)
suffix_digit t i d h = ground arith

-- The value of a token, where it fits 32 bits after scaling.
abbrev pub fitting : ℕ → Option ℕ
fitting n = if leb n max_uint32 then some n else none

scaled :
    (c : ℕ) (s : Bytes) (m : ℕ)
    → AllDigits (c ∷ s)
    → 0 < m
    → (parse_uint32 (c ∷ s) >>= scale m) ≡ fitting (value (c ∷ s) * m)
scaled c s m h pos = rw (parse_uint32-value c s h) (grind arith)

token_bits :
    (c : ℕ) (s : Bytes) → AllDigits (c ∷ s) → parse_rate_token (c ∷ s) ≡ fitting (value (c ∷ s) * 1)
token_bits c s h =
    let (i, d, e, hi, hd) = snoc_of c s h in
    ap parse_rate_token e
    ∙ parse_rate_token-append i d (subst NoSpace e (NoSpace-digits (c ∷ s) h))
    ∙ ap (λ (p : ℕ × Bytes). parse_uint32 p.1 >>= scale p.0) (suffix_digit (i ++ d ∷ []) i d hd)
    ∙ ap (λ t. parse_uint32 t >>= scale 1) (sym e)
    ∙ scaled c s 1 h (omega arith)

token_unit :
    (c : ℕ) (s : Bytes) (x m : ℕ)
    → AllDigits (c ∷ s)
    → 0 < m
    → is_space x ≡ false
    → suffix (c ∷ s ++ x ∷ []) (c ∷ s) x ≡ (m, c ∷ s)
    → parse_rate_token (c ∷ s ++ x ∷ []) ≡ fitting (value (c ∷ s) * m)
token_unit c s x m h pos ns e =
    parse_rate_token-append (c ∷ s) x (NoSpace-append (c ∷ s) x h ns)
    ∙ ap (λ (p : ℕ × Bytes). parse_uint32 p.1 >>= scale p.0) e
    ∙ scaled c s m h pos

-- A token of decimal digits and an optional unit letter, in either case, parses to its number of
-- bits per second if that fits 32 bits, and is an error if not.
pub parse_rate_token-digits :
    (c : ℕ) (s : Bytes) (u : RateUnit)
    → AllDigits (c ∷ s)
    → parse_rate_token ((c ∷ s) ++ unit_text u) ≡ fitting (value (c ∷ s) * multiplier u)
parse_rate_token-digits c s bits h = rw append-nil (token_bits c s h)
parse_rate_token-digits c s lower_kilo h = token_unit c s b'k' 1000 h (omega arith) refl refl
parse_rate_token-digits c s upper_kilo h = token_unit c s b'K' 1000 h (omega arith) refl refl
parse_rate_token-digits c s lower_mega h = token_unit c s b'm' 1000000 h (omega arith) refl refl
parse_rate_token-digits c s upper_mega h = token_unit c s b'M' 1000000 h (omega arith) refl refl
parse_rate_token-digits c s lower_giga h = token_unit c s b'g' 1000000000 h (omega arith) refl refl
parse_rate_token-digits c s upper_giga h = token_unit c s b'G' 1000000000 h (omega arith) refl refl

scale_bound : (m n : ℕ) {v : ℕ} → scale m n ≡ some v → v ≤ max_uint32
scale_bound m n h = ground arith

pub >>=-eq-some {ℓ κ} :
    {A : Type ℓ} {B : Type κ} (m : Option A) (f : A → Option B) {b : B}
    → (m >>= f) ≡ some b
    → (a : A) × (m ≡ some a) × (f a ≡ some b)
>>=-eq-some none f h = cc
>>=-eq-some (some a) f h = (a, refl, h)

-- Every rate that parses fits the 32 bits that its attribute has.
pub parse_rate_token_bound : (tok : Bytes) {v : ℕ} → parse_rate_token tok ≡ some v → v ≤ max_uint32
unfolding parse_rate_token
parse_rate_token_bound tok h =
    let (p, e, h1) = >>=-eq-some (unsnoc (trim_space tok)) _ h in
    let (n, e2, h2) = >>=-eq-some (parse_uint32 (suffix (trim_space tok) p.0 p.1).1) _ h1 in
    scale_bound (suffix (trim_space tok) p.0 p.1).0 n h2

abbrev pub AllBytes : Bytes → Type 0
AllBytes [] = Unit
AllBytes (b ∷ bs) = (b < 256) × AllBytes bs

-- The four bytes of a 32-bit value are bytes, and read back as the value.
pub from_be-uint32_be :
    (v : ℕ) → v ≤ max_uint32 → AllBytes (uint32_be v) × (from_be 0 (uint32_be v) ≡ v)
unfolding uint32_be
from_be-uint32_be v h = (omega arith, omega arith)

-- Both halves of a rate that parses fit 32 bits.
pub parse_rate_limit_string_bound :
    (s : Bytes) {a b : ℕ}
    → parse_rate_limit_string s ≡ some (a, b)
    → (a ≤ max_uint32) × (b ≤ max_uint32)
unfolding parse_rate_limit_string
parse_rate_limit_string_bound s h =
    let (p, e, h1) = >>=-eq-some (split_slash s) _ h in
    let (x, ex, h2) = >>=-eq-some (parse_rate_token p.0) _ h1 in
    let (y, ey, h3) = >>=-eq-some (parse_rate_token p.1) _ h2 in
    let bx = parse_rate_token_bound p.0 ex in
    let b_y = parse_rate_token_bound p.1 ey in (ground (arith, h3, bx), ground (arith, h3, b_y))
