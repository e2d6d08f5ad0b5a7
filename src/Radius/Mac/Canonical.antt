-- ===== src/Radius/Mac/Canonical.antt =====
-- mab.go: the canonical form of a MAC address.
use isp.Common.{
  ℕ, ◌+◌, ◌≡◌, refl, ap, sym, ◌∙◌, ◌↔◌, Bool, true, ◌&&◌, ◌||◌, Option, none, some, [], ◌∷◌, inl,
  inr, arith, leb, Option-cases,
}
use mathlib.Core.Path.{subst}
use mathlib.Core.Logic.{◌⊎◌}
use Prim.Native.Nat.{◌/◌}
use isp.Common.Bytes.{Bytes, length, bytes_eq_refl, eq_of-bytes_eq}
use isp.Radius.Mac.{write, hex_step, hex_of, colon_pairs, pairs, normalise_mac, looks_like_mab}

abbrev is_upper_hex : ℕ → Bool
is_upper_hex c = (leb b'0' c && leb c b'9') || (leb b'A' c && leb c b'F')

abbrev pub AllHex : Bytes → Type 0
AllHex [] = Unit
AllHex (c ∷ s) = (is_upper_hex c ≡ true) × AllHex s

hex_step-AllHex : (c d : ℕ) → hex_step c ≡ write d → is_upper_hex d ≡ true
hex_step-AllHex c d h = ground arith

abbrev AllHexOf : Option Bytes → Type 0
AllHexOf none = Unit
AllHexOf (some h) = AllHex h

hex_of-AllHex : (s : Bytes) → AllHexOf (hex_of s)
hex_of-AllHex [] = tt
hex_of-AllHex (c ∷ s) = ground (arith, hex_of-AllHex s)

hex_step_upper : (c : ℕ) → is_upper_hex c ≡ true → hex_step c ≡ write c
hex_step_upper c h = ground arith

-- Reading the canonical form gives its digits back.
hex_of-colon_pairs : (h : Bytes) → AllHex h → hex_of (colon_pairs h) ≡ some h
hex_of-colon_pairs [] a = refl
hex_of-colon_pairs (c ∷ []) a = ground (arith, hex_step_upper c a.0)
hex_of-colon_pairs (c ∷ d ∷ h) a =
    ground (arith, hex_step_upper c a.0, hex_step_upper d a.1.0, hex_of-colon_pairs h a.1.1)

hex_of-pairs : (h : Bytes) → AllHex h → hex_of (pairs h) ≡ some h
hex_of-pairs [] a = refl
hex_of-pairs (c ∷ []) a = ground (arith, hex_step_upper c a.0)
hex_of-pairs (c ∷ d ∷ h) a =
    ground (arith, hex_step_upper c a.0, hex_step_upper d a.1.0, hex_of-colon_pairs h a.1.1)

length-colon_pairs : (h : Bytes) → length (colon_pairs h) ≡ length h + (length h + 1) / 2
length-colon_pairs [] = omega arith
length-colon_pairs (c ∷ []) = omega arith
length-colon_pairs (c ∷ d ∷ h) = omega (arith, length-colon_pairs h)

length-pairs : (h : Bytes) → length h ≡ 12 → length (pairs h) ≡ 17
length-pairs [] e = absurd (omega arith)
length-pairs (c ∷ []) e = absurd (omega arith)
length-pairs (c ∷ d ∷ h) e = omega (arith, length-colon_pairs h)

normalise_mac-eq-some :
    (s : Bytes) {m : Bytes}
    → normalise_mac s ≡ some m
    → (h : Bytes) × (hex_of s ≡ some h) × (length h ≡ 12) × (m ≡ pairs h)
unfolding normalise_mac
normalise_mac-eq-some s e = elim (Option-cases (hex_of s)) [
  | inl fails ↦ cc
  | inr (h, reads) ↦ (h, reads, ground arith, ground arith)
]

-- The canonical form has 17 characters and is its own canonical form.
pub normalise_mac_canonical :
    (s : Bytes) {m : Bytes}
    → normalise_mac s ≡ some m
    → (length m ≡ 17) × (normalise_mac m ≡ some m)
unfolding normalise_mac
normalise_mac_canonical s e =
    let (h, reads, long, form) = normalise_mac-eq-some s e in
    let hex : AllHex h = subst AllHexOf reads (hex_of-AllHex s) in
    rw form (length-pairs h long, rw (hex_of-pairs h hex, normalise_mac) (ground arith))

-- Two spellings have one canonical form exactly when they spell the same twelve digits: separators
-- and case make no difference, and nothing else is confused.
pub normalise_mac-eq_iff :
    (s t : Bytes) {m : Bytes}
    → normalise_mac s ≡ some m
    → (normalise_mac t ≡ some m) ↔ (hex_of t ≡ hex_of s)
unfolding normalise_mac
normalise_mac-eq_iff s t {m} e =
    let (h, reads, long, form) = normalise_mac-eq-some s e in
    let hex : AllHex h = subst AllHexOf reads (hex_of-AllHex s) in
    (
      λ f.
          let (h', reads', long', form') = normalise_mac-eq-some t f in
          let hex' : AllHex h' = subst AllHexOf reads' (hex_of-AllHex t) in
          reads'
          ∙ sym (hex_of-pairs h' hex')
          ∙ ap hex_of (sym form' ∙ form)
          ∙ hex_of-pairs h hex
          ∙ sym reads,
      λ f. rw (f, normalise_mac) e,
    )

-- A request counts as MAC authentication exactly when its user name is a MAC address and its
-- password is empty or spells the same address.
pub looks_like_mab_iff :
    (username password mac : Bytes)
    → normalise_mac username ≡ some mac
    → (looks_like_mab username password ≡ true)
      ↔ ((password ≡ []) ⊎ (normalise_mac password ≡ some mac))
unfolding looks_like_mab
looks_like_mab_iff username [] mac e = rw (e, looks_like_mab) (λ _. inl refl, λ _. refl)
looks_like_mab_iff username (c ∷ p) mac e =
    rw (e, looks_like_mab)
      (elim (Option-cases (normalise_mac (c ∷ p))) [
        | inl fails ↦ ground arith
        | inr (pw, reads) ↦ ground (arith, eq_of-bytes_eq pw mac, bytes_eq_refl mac)
      ])
