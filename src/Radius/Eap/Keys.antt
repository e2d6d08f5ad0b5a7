-- ===== src/Radius/Eap/Keys.antt =====
-- mschapv2.go: the keys that the hash is carved into, and the check of a response.
use isp.Common.{
  sym, ◌==◌, ◌++◌, some_injective, ℕ, zero, suc, ◌+◌, ◌*◌, ◌/◌, ◌%◌, ◌<◌, ◌≡◌, ◌↔◌, refl, ap, ◌∙◌,
  false, some, [], ◌∷◌, arith, Bool-cases, Option-cases, inl, inr,
}
use isp.Common.Bytes.{
  text, take, drop, length, Bytes, IsBytes, bytes_eq, bytes_eq_refl, eq_of-bytes_eq,
}
use isp.Radius.Eap.Mschap.{
  Primitives, challenge_response, challenge_hash, to_upper, hex_encode, magic1, magic2,
  des_key_from_seven, generate_nt_response, generate_authenticator_response, verified,
  verify_mschapv2,
}

byte_at : ℕ → Bytes → ℕ
byte_at n [] = 0
byte_at zero (b ∷ bs) = b
byte_at (suc n) (b ∷ bs) = byte_at n bs

carry0 :
    (b b' r r' : ℕ)
    → b < 256
    → b' < 256
    → r < 256
    → r' < 256
    → b / 2 ≡ b' / 2
    → (b * 128 % 256 + r / 2) / 2 ≡ (b' * 128 % 256 + r' / 2) / 2
    → (b ≡ b') × (r / 4 ≡ r' / 4)
carry0 b b' r r' h h' k k' e f =
    (omega (arith, h, h', k, k', e, f), omega (arith, h, h', k, k', e, f))

carry1 :
    (b b' r r' : ℕ)
    → b < 256
    → b' < 256
    → r < 256
    → r' < 256
    → b / 4 ≡ b' / 4
    → (b * 64 % 256 + r / 4) / 2 ≡ (b' * 64 % 256 + r' / 4) / 2
    → (b ≡ b') × (r / 8 ≡ r' / 8)
carry1 b b' r r' h h' k k' e f =
    (omega (arith, h, h', k, k', e, f), omega (arith, h, h', k, k', e, f))

carry2 :
    (b b' r r' : ℕ)
    → b < 256
    → b' < 256
    → r < 256
    → r' < 256
    → b / 8 ≡ b' / 8
    → (b * 32 % 256 + r / 8) / 2 ≡ (b' * 32 % 256 + r' / 8) / 2
    → (b ≡ b') × (r / 16 ≡ r' / 16)
carry2 b b' r r' h h' k k' e f =
    (omega (arith, h, h', k, k', e, f), omega (arith, h, h', k, k', e, f))

carry3 :
    (b b' r r' : ℕ)
    → b < 256
    → b' < 256
    → r < 256
    → r' < 256
    → b / 16 ≡ b' / 16
    → (b * 16 % 256 + r / 16) / 2 ≡ (b' * 16 % 256 + r' / 16) / 2
    → (b ≡ b') × (r / 32 ≡ r' / 32)
carry3 b b' r r' h h' k k' e f =
    (omega (arith, h, h', k, k', e, f), omega (arith, h, h', k, k', e, f))

carry4 :
    (b b' r r' : ℕ)
    → b < 256
    → b' < 256
    → r < 256
    → r' < 256
    → b / 32 ≡ b' / 32
    → (b * 8 % 256 + r / 32) / 2 ≡ (b' * 8 % 256 + r' / 32) / 2
    → (b ≡ b') × (r / 64 ≡ r' / 64)
carry4 b b' r r' h h' k k' e f =
    (omega (arith, h, h', k, k', e, f), omega (arith, h, h', k, k', e, f))

carry5 :
    (b b' r r' : ℕ)
    → b < 256
    → b' < 256
    → r < 256
    → r' < 256
    → b / 64 ≡ b' / 64
    → (b * 4 % 256 + r / 64) / 2 ≡ (b' * 4 % 256 + r' / 64) / 2
    → (b ≡ b') × (r / 128 ≡ r' / 128)
carry5 b b' r r' h h' k k' e f =
    (omega (arith, h, h', k, k', e, f), omega (arith, h, h', k, k', e, f))

-- The bits that DES reads of a key: all but the lowest of each byte.
abbrev pub des_bits : Bytes → Bytes
des_bits [] = []
des_bits (b ∷ bs) = b / 2 ∷ des_bits bs

-- No bit of the key is lost: two runs of seven bytes that expand to keys with the same bits that DES
-- reads, the lowest of each byte left out, are the same.
pub des_key_from_seven-injective :
    (a b c d e f g a' b' c' d' e' f' g' : ℕ)
    → IsBytes (a ∷ b ∷ c ∷ d ∷ e ∷ f ∷ g ∷ [])
    → IsBytes (a' ∷ b' ∷ c' ∷ d' ∷ e' ∷ f' ∷ g' ∷ [])
    → des_bits (des_key_from_seven (a ∷ b ∷ c ∷ d ∷ e ∷ f ∷ g ∷ []))
      ≡ des_bits (des_key_from_seven (a' ∷ b' ∷ c' ∷ d' ∷ e' ∷ f' ∷ g' ∷ []))
    → a ∷ b ∷ c ∷ d ∷ e ∷ f ∷ g ∷ [] ≡ a' ∷ b' ∷ c' ∷ d' ∷ e' ∷ f' ∷ g' ∷ []
unfolding des_key_from_seven byte_at
des_key_from_seven-injective a b c d e f g a' b' c' d' e' f' g' h h' k =
    let at : (n : ℕ)
        → byte_at n (des_bits (des_key_from_seven (a ∷ b ∷ c ∷ d ∷ e ∷ f ∷ g ∷ [])))
          ≡ byte_at n (des_bits (des_key_from_seven (a' ∷ b' ∷ c' ∷ d' ∷ e' ∷ f' ∷ g' ∷ []))) =
      λ n. ap (byte_at n) k in
    let (a_is, b_top) = carry0 a a' b b' h.0 h'.0 h.1.0 h'.1.0 (at 0) (at 1) in
    let (b_is, c_top) = carry1 b b' c c' h.1.0 h'.1.0 h.1.1.0 h'.1.1.0 b_top (at 2) in
    let (c_is, d_top) = carry2 c c' d d' h.1.1.0 h'.1.1.0 h.1.1.1.0 h'.1.1.1.0 c_top (at 3) in
    let (d_is, e_top) =
      carry3 d d' e e' h.1.1.1.0 h'.1.1.1.0 h.1.1.1.1.0 h'.1.1.1.1.0 d_top (at 4) in
    let (e_is, f_top) =
      carry4 e e' f f' h.1.1.1.1.0 h'.1.1.1.1.0 h.1.1.1.1.1.0 h'.1.1.1.1.1.0 e_top (at 5) in
    let (f_is, g_top) =
      carry5 f f' g g' h.1.1.1.1.1.0 h'.1.1.1.1.1.0 h.1.1.1.1.1.1.0 h'.1.1.1.1.1.1.0 f_top (at 6) in
    let g_is : g ≡ g' = omega (arith, g_top, at 7, h.1.1.1.1.1.1.0, h'.1.1.1.1.1.1.0) in
    rw (a_is, b_is, c_is, d_is, e_is, f_is, g_is) refl

module _ (p : Primitives) where
  -- The response of RFC 2759: the first eight bytes of a hash of the two challenges and the name,
  -- encrypted under three keys, which are the enrolled hash, padded with zeros, in runs of seven bytes.
  abbrev pub IsNtResponse : Bytes → Bytes → Bytes → Bytes → Bytes → Type 0
  IsNtResponse nt_hash auth peer username resp =
      let challenge = take 8 (p.sha1 (peer ++ auth ++ username)) in
      let padded = nt_hash ++ 0 ∷ 0 ∷ 0 ∷ 0 ∷ 0 ∷ [] in
      (x : Bytes) × (y : Bytes) × (z : Bytes) × ((length auth ≡ 16)
        × (length peer ≡ 16)
        × (length nt_hash ≡ 16)
        × (length challenge ≡ 8))
      × (p.des (des_key_from_seven (take 7 padded)) challenge ≡ some x)
      × (p.des (des_key_from_seven (take 7 (drop 7 padded))) challenge ≡ some y)
      × (p.des (des_key_from_seven (take 7 (drop 14 padded))) challenge ≡ some z)
      × (resp ≡ x ++ y ++ z)

  -- The server's answer of RFC 2759, in hexadecimal digits: a hash of the enrolled hash's hash, the
  -- response, the challenges and the name, with the two constants.
  abbrev pub IsAuthenticatorResponse : Bytes → Bytes → Bytes → Bytes → Bytes → Bytes → Type 0
  IsAuthenticatorResponse nt_hash auth peer username resp r =
      (length resp ≡ 24)
      × (r
          ≡ text "S="
            ++ to_upper (
                hex_encode (
                  p.sha1 (
                    p.sha1 (p.md4 nt_hash ++ resp ++ magic1)
                    ++ take 8 (p.sha1 (peer ++ auth ++ username))
                    ++ magic2))))

  challenge_response_iff :
      (challenge nt_hash resp : Bytes)
      → (let padded = nt_hash ++ 0 ∷ 0 ∷ 0 ∷ 0 ∷ 0 ∷ [] in
          (challenge_response p challenge nt_hash ≡ some resp) ↔ (
            (x : Bytes) × (y : Bytes) × (z : Bytes) × ((length nt_hash ≡ 16)
              × (length challenge ≡ 8))
            × (p.des (des_key_from_seven (take 7 padded)) challenge ≡ some x)
            × (p.des (des_key_from_seven (take 7 (drop 7 padded))) challenge ≡ some y)
            × (p.des (des_key_from_seven (take 7 (drop 14 padded))) challenge ≡ some z)
            × (resp ≡ x ++ y ++ z)))
  unfolding challenge_response
  challenge_response_iff challenge nt_hash resp =
      let padded = nt_hash ++ 0 ∷ 0 ∷ 0 ∷ 0 ∷ 0 ∷ [] in
      (
        λ h. elim (Option-cases (p.des (des_key_from_seven (take 7 padded)) challenge)) [
          | inl e ↦ ground (arith, h, e)
          | inr (x, e) ↦
              elim (Option-cases (p.des (des_key_from_seven (take 7 (drop 7 padded))) challenge)) [
                | inl f ↦ ground (arith, h, e, f)
                | inr (y, f) ↦
                    elim (Option-cases
                      (p.des (des_key_from_seven (take 7 (drop 14 padded))) challenge)) [
                        | inl g ↦ ground (arith, h, e, f, g)
                        | inr (z, g) ↦ (
                          x,
                          y,
                          z,
                          (ground (arith, h), ground (arith, h)),
                          e,
                          f,
                          g,
                          ground (arith, h, e, f, g),
                        )
                      ]
              ]
        ],
        λ (x, y, z, sizes, e, f, g, h). ground (arith, sizes.0, sizes.1, e, f, g, h),
      )

  generate_nt_response_iff :
      (auth peer username nt_hash resp : Bytes)
      → (generate_nt_response p auth peer username nt_hash ≡ some resp)
        ↔ IsNtResponse nt_hash auth peer username resp
  unfolding generate_nt_response challenge_hash
  generate_nt_response_iff auth peer username nt_hash resp =
      let challenge = take 8 (p.sha1 (peer ++ auth ++ username)) in
      let inner = challenge_response_iff challenge nt_hash resp in
      (
        λ h.
            let inner_h : challenge_response p challenge nt_hash ≡ some resp = ground (arith, h) in
            let (x, y, z, (n, m), e, f, g, q) = inner.0 inner_h in
            (x, y, z, (ground (arith, h), ground (arith, h), n, m), e, f, g, q),
        λ (x, y, z, (a, b, n, m), e, f, g, q).
            ground (arith, a, b, inner.1 (x, y, z, (n, m), e, f, g, q)),
      )

  generate_authenticator_response_iff :
      (nt_hash resp peer auth username r : Bytes)
      → length nt_hash ≡ 16
      → (generate_authenticator_response p nt_hash resp peer auth username ≡ some r)
        ↔ IsAuthenticatorResponse nt_hash auth peer username resp r
  unfolding generate_authenticator_response challenge_hash
  generate_authenticator_response_iff nt_hash resp peer auth username r n =
      elim (Bool-cases (length resp == 24)) [
        | inl e ↦ (
          λ h. (ground (arith, e), sym (some_injective (ground (arith, h, e, n)))),
          λ h. ground (arith, h.0, n, h.1),
        )
        | inr e ↦ (λ h. ground (arith, h, e), λ h. ground (arith, h.0, e))
      ]

  pub verify_mschapv2-generated :
      (nt_hash auth peer nt_response username r : Bytes)
      → (verify_mschapv2 p nt_hash auth peer nt_response username ≡ verified r) ↔ (
          (bytes_eq nt_hash [] ≡ false)
          × (generate_nt_response p auth peer username nt_hash ≡ some nt_response)
          × (generate_authenticator_response p nt_hash nt_response peer auth username ≡ some r))
  unfolding verify_mschapv2
  verify_mschapv2-generated nt_hash auth peer nt_response username r =
      elim (Bool-cases (bytes_eq nt_hash [])) [
        | inl e ↦ ground arith
        | inr e ↦ elim (Option-cases (generate_nt_response p auth peer username nt_hash)) [
          | inl g ↦ ground arith
          | inr (x, g) ↦ elim (Bool-cases (bytes_eq x nt_response)) [
            | inr m ↦ (λ h. ground arith, λ h. let z = bytes_eq_refl nt_response in ground arith)
            | inl m ↦
                let same = eq_of-bytes_eq x nt_response m in
                elim (Option-cases
                  (generate_authenticator_response p nt_hash nt_response peer auth username)) [
                    | inl a ↦ ground arith
                    | inr (t, a) ↦ (λ h. (e, g ∙ ap some same, ground arith), λ h. ground arith)
                  ]
          ]
        ]
      ]

  -- A response is verified exactly when it is the one of RFC 2759 that the enrolled hash gives for the two
  -- challenges and the name, and then the server's answer is the one of RFC 2759 for it.
  pub verify_mschapv2_iff :
      (nt_hash auth peer nt_response username r : Bytes)
      → (verify_mschapv2 p nt_hash auth peer nt_response username ≡ verified r) ↔ (
          IsNtResponse nt_hash auth peer username nt_response
          × IsAuthenticatorResponse nt_hash auth peer username nt_response r)
  verify_mschapv2_iff nt_hash auth peer nt_response username r =
      let generated = verify_mschapv2-generated nt_hash auth peer nt_response username r in
      let nt = generate_nt_response_iff auth peer username nt_hash nt_response in
      (
        λ h.
            let (some_hash, g, a) = generated.0 h in
            let is = nt.0 g in
            (
              is,
              (generate_authenticator_response_iff nt_hash nt_response peer auth username r
                    is.3.2).0
                  a,
            ),
        λ (is, a). generated.1 (
          not_empty nt_hash is.3.2,
          nt.1 is,
          (generate_authenticator_response_iff nt_hash nt_response peer auth username r is.3.2).1 a,
        ),
      )
    where
      not_empty : (bs : Bytes) → length bs ≡ 16 → bytes_eq bs [] ≡ false
      not_empty [] n = ground (arith, n)
      not_empty (b ∷ bs) n = refl
