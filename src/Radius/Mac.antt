-- ===== src/Radius/Mac.antt =====
-- internal/radius/mab.go: `NormaliseMAC` and `looksLikeMAB`. A text is the list of its code points,
-- over which Go's loop ranges; what passes the loop is ASCII.
pub mod Canonical
use isp.Common.{
  ℕ, ◌+◌, ◌-◌, Bool, true, false, ◌&&◌, ◌||◌, Option, none, some, List, [], ◌∷◌, leb, ◌==◌,
  if◌then◌else◌,
}
use isp.Common.Bytes.{Bytes, length, bytes_eq}

-- What the loop does with one character.
pub data HexStep : Type 0 where
  write : ℕ → HexStep
  skip refuse : HexStep

abbrev pub hex_step : ℕ → HexStep
hex_step c =
    if (leb b'0' c && leb c b'9') || (leb b'A' c && leb c b'F')
    then write c
    else if leb b'a' c && leb c b'f'
    then write (c - 32)
    else if c == b':' || c == b'-' || c == b'.' || c == b' '
    then skip
    else refuse

-- The text that the loop builds, or `none` where it returns false.
abbrev pub hex_of : Bytes → Option Bytes
hex_of [] = some []
hex_of (c ∷ s) = elim (hex_step c) [
  | write d ↦ elim (hex_of s) [ none ↦ none | some h ↦ some (d ∷ h) ]
  | skip ↦ hex_of s
  | refuse ↦ none
]

-- The second loop, past its first round: a colon before each pair.
abbrev pub colon_pairs : Bytes → Bytes
colon_pairs [] = []
colon_pairs (a ∷ []) = b':' ∷ a ∷ []
colon_pairs (a ∷ b ∷ h) = b':' ∷ a ∷ b ∷ colon_pairs h

abbrev pub pairs : Bytes → Bytes
pairs [] = []
pairs (a ∷ []) = a ∷ []
pairs (a ∷ b ∷ h) = a ∷ b ∷ colon_pairs h

unfoldable pub normalise_mac : Bytes → Option Bytes
normalise_mac s = elim (hex_of s) [
  | none ↦ none
  | some h ↦ if length h == 12 then some (pairs h) else none
]

unfoldable pub looks_like_mab : Bytes → Bytes → Bool
looks_like_mab username password = elim (normalise_mac username) [
  | none ↦ false
  | some mac ↦
      if bytes_eq password []
      then true
      else elim (normalise_mac password) [ none ↦ false | some pw ↦ bytes_eq pw mac ]
]
