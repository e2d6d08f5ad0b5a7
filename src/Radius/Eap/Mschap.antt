-- ===== src/Radius/Eap/Mschap.antt =====
-- internal/radius/mschapv2.go: MS-CHAPv2 (RFC 2759). MD4, SHA-1 and DES are not part of the
-- repository: they are the fields of `Primitives`. A password is the list of its runes; a user's name
-- is its bytes.
use isp.Common.{
  ℕ, ◌+◌, ◌-◌, ◌*◌, ◌/◌, ◌%◌, not, ◌&&◌, Option, none, some, List, [], ◌∷◌, ◌++◌, ltb, ◌==◌,
  if◌then◌else◌,
}
use isp.Common.Bytes.{Bytes, length, take, drop, bytes_eq, text, upper}

pub record Primitives : Type 0 where
  pub md4 : Bytes → Bytes
  pub sha1 : Bytes → Bytes
  -- one block under a key; `none` where `des.NewCipher` refuses the key
  pub des : Bytes → Bytes → Option Bytes

-- `utf16.Encode`: a rune outside the basic plane is a surrogate pair.
abbrev pub utf16_encode : List ℕ → List ℕ
utf16_encode [] = []
utf16_encode (r ∷ rs) =
    let rest = utf16_encode rs in
    if ltb r 65536
    then r ∷ rest
    else (55296 + (r - 65536) / 1024) ∷ (56320 + (r - 65536) % 1024) ∷ rest

-- The low byte of each unit, then the high one.
abbrev pub little_endian : List ℕ → Bytes
little_endian [] = []
little_endian (u ∷ us) = (u % 256) ∷ (u / 256 % 256) ∷ little_endian us

-- Seven bytes to eight, seven bits in each. The two halves of a byte share no bit, so `|` is `+`.
-- The caller hands over seven bytes.
unfoldable pub des_key_from_seven : Bytes → Bytes
des_key_from_seven (a ∷ b ∷ c ∷ d ∷ e ∷ f ∷ g ∷ []) =
    a
    ∷ (a * 128 % 256 + b / 2)
    ∷ (b * 64 % 256 + c / 4)
    ∷ (c * 32 % 256 + d / 8)
    ∷ (d * 16 % 256 + e / 16)
    ∷ (e * 8 % 256 + f / 32)
    ∷ (f * 4 % 256 + g / 64)
    ∷ (g * 2 % 256)
    ∷ []
des_key_from_seven _ = []

abbrev pub magic1 : Bytes
magic1 = text "Magic server to client signing constant"

abbrev pub magic2 : Bytes
magic2 = text "Pad to make it do more than one iteration"

abbrev pub hex_digit : ℕ → ℕ
hex_digit n = if ltb n 10 then b'0' + n else b'a' + (n - 10)

-- `hex.EncodeToString`
abbrev pub hex_encode : Bytes → Bytes
hex_encode [] = []
hex_encode (b ∷ bs) = hex_digit (b / 16) ∷ hex_digit (b % 16) ∷ hex_encode bs

-- `strings.ToUpper`, on ASCII.
abbrev pub to_upper : Bytes → Bytes
to_upper [] = []
to_upper (c ∷ cs) = upper c ∷ to_upper cs

-- What `VerifyMSCHAPv2` returns: an authenticator response or an error. `cannot_hash` stands for the
-- errors on lengths and from DES.
pub data Verified : Type 0 where
  verified : Bytes → Verified
  no_nt_hash bad_nt_response cannot_hash : Verified

-- After the last `\`.
abbrev pub after_last_backslash : Bytes → Option Bytes
after_last_backslash [] = none
after_last_backslash (c ∷ s) =
    let rest = after_last_backslash s in
    elim rest [ some t ↦ some t | none ↦ if c == 92 then some s else none ]

unfoldable pub strip_domain : Bytes → Bytes
strip_domain username = elim (after_last_backslash username) [ none ↦ username | some t ↦ t ]

module _ (p : Primitives) where
  unfoldable pub nt_password_hash : List ℕ → Bytes
  nt_password_hash password = p.md4 (little_endian (utf16_encode password))

  unfoldable pub challenge_hash : Bytes → Bytes → Bytes → Bytes
  challenge_hash peer auth username = take 8 (p.sha1 (peer ++ auth ++ username))

  -- The key at the offset, out of the padded hash.
  abbrev pub des_at : ℕ → Bytes → Bytes → Option Bytes
  des_at offset padded challenge =
      p.des (des_key_from_seven (take 7 (drop offset padded))) challenge

  unfoldable pub challenge_response : Bytes → Bytes → Option Bytes
  challenge_response challenge nt_hash =
      if not (length challenge == 8)
      then none
      else if not (length nt_hash == 16)
      then none
      else let padded = nt_hash ++ 0 ∷ 0 ∷ 0 ∷ 0 ∷ 0 ∷ [] in
        elim (des_at 0 padded challenge) [
          | none ↦ none
          | some x ↦ elim (des_at 7 padded challenge) [
            | none ↦ none
            | some y ↦ elim (des_at 14 padded challenge) [
              | none ↦ none
              | some z ↦ some (x ++ y ++ z)
            ]
          ]
        ]

  unfoldable pub generate_nt_response : Bytes → Bytes → Bytes → Bytes → Option Bytes
  generate_nt_response auth peer username nt_hash =
      if length auth == 16 && length peer == 16
      then challenge_response (challenge_hash peer auth username) nt_hash
      else none

  unfoldable pub generate_authenticator_response :
      Bytes → Bytes → Bytes → Bytes → Bytes → Option Bytes
  generate_authenticator_response nt_hash nt_response peer auth username =
      if not (length nt_response == 24)
      then none
      else if not (length nt_hash == 16)
      then none
      else let digest = p.sha1 (p.md4 nt_hash ++ nt_response ++ magic1) in
        some (
          text "S="
          ++ to_upper (hex_encode (p.sha1 (digest ++ challenge_hash peer auth username ++ magic2))))

  unfoldable pub verify_mschapv2 : Bytes → Bytes → Bytes → Bytes → Bytes → Verified
  verify_mschapv2 nt_hash auth peer nt_response username =
      if bytes_eq nt_hash []
      then no_nt_hash
      else elim (generate_nt_response auth peer username nt_hash) [
        | none ↦ cannot_hash
        | some expected ↦
            if bytes_eq expected nt_response
            then elim (generate_authenticator_response nt_hash nt_response peer auth username) [
              | none ↦ cannot_hash
              | some r ↦ verified r
            ]
            else bad_nt_response
      ]
