-- ===== src/Radius/Eap/RoundTrip.antt =====
-- eap.go: what is encoded is read back, and what is read is what was sent.
use mathlib.Core.Path.{subst}
use isp.Common.{
  ℕ, zero, suc, ◌+◌, ◌*◌, ◌/◌, ◌%◌, ◌≤◌, ◌<◌, ◌≡◌, refl, sym, ap, ◌∙◌, false, [], ◌∷◌, ◌++◌, ltb,
  ◌==◌, if◌then◌else◌, arith, Bool-cases, inl, inr,
}
use isp.Common.Bytes.{
  Bytes, IsBytes, length, take, drop, take-++, drop-++, take-drop, length-take, length-drop,
  length-append,
}
use isp.Radius.Eap.Packet.{
  ParsedResponse, not_a_response, bad_value_size, truncated, EapPacket, parsed, parse_eap, encode,
  is_header_only, Response, response, parse_response, with_flags, op_response,
}

be16_value : (n : ℕ) → n < 65536 → (n / 256 % 256) * 256 + n % 256 ≡ n
be16_value n h = omega (arith, h)

be16_of :
    (high low : ℕ)
    → high < 256
    → low < 256
    → ((high * 256 + low) / 256 % 256 ≡ high) × ((high * 256 + low) % 256 ≡ low)
be16_of high low h l = (omega (arith, h, l), omega (arith, h, l))

-- A packet of at most 65535 bytes is read back as it was; of a Success or a Failure, the header.
pub parse_eap-encode :
    (p : EapPacket)
    → 5 + length p.data_bytes < 65536
    → parse_eap (encode p)
      ≡ parsed (if is_header_only p.code then record p { type = 0; data_bytes = [] } else p)
unfolding parse_eap encode
parse_eap-encode p h = elim (Bool-cases (is_header_only p.code)) [
  | inl e ↦ ground (arith, e)
  | inr e ↦ let whole = be16_value (5 + length p.data_bytes) h in ground (arith, e, whole)
]

-- What is read as a packet that has a type was encoded from it, byte for byte.
pub encode-parse_eap :
    (s : Bytes) (p : EapPacket)
    → IsBytes s
    → parse_eap s ≡ parsed p
    → is_header_only p.code ≡ false
    → encode p ≡ s
unfolding parse_eap encode
encode-parse_eap (code ∷ id ∷ high ∷ low ∷ []) p b h k = ground (arith, h, k)
encode-parse_eap (code ∷ id ∷ high ∷ low ∷ t ∷ rest) p b h k =
    elim (Bool-cases (high * 256 + low == 5 + length rest)) [
      | inl e ↦ elim (Bool-cases (is_header_only code)) [
        | inl c ↦ ground (arith, h, k, e, c)
        | inr c ↦
            let q : EapPacket = record {
              code = code;
              identifier = id;
              type = t;
              data_bytes = rest;
            } in
            let same : q ≡ p = ground (arith, h, e, c) in
            let (x, y) = be16_of high low b.1.1.0 b.1.1.1.0 in
            let n : high * 256 + low ≡ 5 + length rest = ground (arith, e) in
            subst (λ z. encode z ≡ code ∷ id ∷ high ∷ low ∷ t ∷ rest) same
              (rw c (
                ap (λ z. code ∷ id ∷ (z / 256 % 256) ∷ (z % 256) ∷ t ∷ rest) (sym n)
                ∙ rw (x, y) refl))
      ]
      | inr e ↦ ground (arith, h, e)
    ]
encode-parse_eap [] p b h k = cc
encode-parse_eap (code ∷ []) p b h k = cc
encode-parse_eap (code ∷ id ∷ []) p b h k = cc
encode-parse_eap (code ∷ id ∷ high ∷ []) p b h k = cc

-- The response as a peer sends it.
unfoldable pub response_bytes : ℕ → ℕ → ℕ → Bytes → Bytes → Bytes → ℕ → Bytes → Bytes
response_bytes id high low peer reserved nt flags name =
    op_response ∷ id ∷ high ∷ low ∷ 49 ∷ (peer ++ (reserved ++ (nt ++ flags ∷ name)))

drop_nil : (n : ℕ) → drop {A = ℕ} n [] ≡ []
drop_nil zero = refl
drop_nil (suc n) = refl

drop_add : (m n : ℕ) (xs : Bytes) → drop (m + n) xs ≡ drop n (drop m xs)
drop_add zero n xs = ap (λ k. drop k xs) (omega arith)
drop_add (suc m) n [] = drop_nil (suc m + n) ∙ sym (drop_nil n)
drop_add (suc m) n (x ∷ xs) = ap (λ k. drop k (x ∷ xs)) shift ∙ drop_add m n xs
  where
    shift : suc m + n ≡ suc (m + n)
    shift = omega arith

-- A response as a peer sends it, whatever its length field, its reserved bytes and its name hold, is
-- read back part by part.
pub parse_response-response_bytes :
    (id high low flags : ℕ) (peer reserved nt name : Bytes)
    → length peer ≡ 16
    → length reserved ≡ 8
    → length nt ≡ 24
    → parse_response (response_bytes id high low peer reserved nt flags name)
      ≡ response
          (record { id = id; peer_challenge = peer; nt_response = nt; flags = flags; name = name })
unfolding parse_response response_bytes with_flags
parse_response-response_bytes id high low flags peer reserved nt name hp hr hn =
    let tail = flags ∷ name in
    let rest = peer ++ (reserved ++ (nt ++ tail)) in
    let d16 = drop-++ 16 peer (reserved ++ (nt ++ tail)) hp in
    let d24 = drop_add 16 8 rest ∙ ap (drop 8) d16 ∙ drop-++ 8 reserved (nt ++ tail) hr in
    let d48 = drop_add 24 24 rest ∙ ap (drop 24) d24 ∙ drop-++ 24 nt tail hn in
    let t24 = ap (take 24) d24 ∙ take-++ 24 nt tail hn in
    let n1 = length-append peer (reserved ++ (nt ++ tail)) in
    let n2 = length-append reserved (nt ++ tail) in
    let n3 = length-append nt tail in
    let long : ltb (length rest) 49 ≡ false = ground (arith, n1, n2, n3, hp, hr, hn) in
    rw (long, d48, take-++ 16 peer (reserved ++ (nt ++ tail)) hp, t24) refl

abbrev response_at : ℕ → Bytes → ℕ → Bytes → Response
response_at id value flags name = record {
  id = id;
  peer_challenge = take 16 value;
  nt_response = take 24 (drop 24 value);
  flags = flags;
  name = name;
}

parts_length :
    (rest : Bytes)
    → 49 ≤ length rest
    → (length (take 16 rest) ≡ 16)
      × (length (take 8 (drop 16 rest)) ≡ 8)
      × (length (take 24 (drop 24 rest)) ≡ 24)
parts_length rest h =
    let n16 = length-drop 16 rest (omega (arith, h)) in
    let n24 = length-drop 24 rest (omega (arith, h)) in
    (
      length-take 16 rest (omega (arith, h)),
      length-take 8 (drop 16 rest) (omega (arith, n16, h)),
      length-take 24 (drop 24 rest) (omega (arith, n24, h)),
    )

rejoined :
    (rest : Bytes) (x : ℕ) (ys : Bytes)
    → drop 48 rest ≡ x ∷ ys
    → rest ≡ take 16 rest ++ (take 8 (drop 16 rest) ++ (take 24 (drop 24 rest) ++ x ∷ ys))
rejoined rest x ys d =
    let d24 : take 24 (drop 24 rest) ++ x ∷ ys ≡ drop 24 rest =
      ap (λ t. take 24 (drop 24 rest) ++ t) (sym d ∙ drop_add 24 24 rest)
      ∙ take-drop 24 (drop 24 rest) in
    let d16 : take 8 (drop 16 rest) ++ (take 24 (drop 24 rest) ++ x ∷ ys) ≡ drop 16 rest =
      ap (λ t. take 8 (drop 16 rest) ++ t) (d24 ∙ drop_add 16 8 rest)
      ∙ take-drop 8 (drop 16 rest) in
    sym (ap (λ t. take 16 rest ++ t) d16 ∙ take-drop 16 rest)

with_flags-response :
    (id : ℕ) (value l : Bytes) (r : Response)
    → with_flags id value l ≡ response r
    → (x : ℕ) × (ys : Bytes) × (l ≡ x ∷ ys) × (response_at id value x ys ≡ r)
unfolding with_flags
with_flags-response id value [] r h = cc
with_flags-response id value (x ∷ ys) r h = (x, ys, refl, ground (arith, h))

parse_response-five :
    (op id high low size : ℕ) (rest : Bytes) (r : Response)
    → parse_response (op ∷ id ∷ high ∷ low ∷ size ∷ rest) ≡ response r
    → (op ≡ 2) × (size ≡ 49) × (49 ≤ length rest) × (with_flags id rest (drop 48 rest) ≡ response r)
unfolding parse_response
parse_response-five op id high low size rest r h = elim (Bool-cases (op == op_response)) [
  | inr e ↦ let bad : not_a_response ≡ response r = sym (read_as (rw e refl)) ∙ h in cc
  | inl e ↦ elim (Bool-cases (size == 49)) [
    | inr f ↦ let bad : bad_value_size ≡ response r = sym (read_as (rw (e, f) refl)) ∙ h in cc
    | inl f ↦ elim (Bool-cases (ltb (length rest) 49)) [
      | inl g ↦ let bad : truncated ≡ response r = sym (read_as (rw (e, f, g) refl)) ∙ h in cc
      | inr g ↦ (
        ground (arith, e),
        ground (arith, f),
        ground (arith, g),
        sym (read_as (rw (e, f, g) refl)) ∙ h,
      )
    ]
  ]
]
  where
    read_as :
        {o : ParsedResponse}
        → parse_response (op ∷ id ∷ high ∷ low ∷ size ∷ rest) ≡ o
        → parse_response (op ∷ id ∷ high ∷ low ∷ size ∷ rest) ≡ o
    read_as e = e

-- What is read as a response was sent as one: every part is where it belongs, and no byte is lost but
-- the length field and the reserved ones.
pub response_bytes-parse_response :
    (s : Bytes) (r : Response)
    → parse_response s ≡ response r
    → (high low : ℕ) × (reserved : Bytes) × (length r.peer_challenge ≡ 16)
      × (length reserved ≡ 8)
      × (length r.nt_response ≡ 24)
      × (s ≡ response_bytes r.id high low r.peer_challenge reserved r.nt_response r.flags r.name)
unfolding parse_response response_bytes
response_bytes-parse_response (op ∷ id ∷ high ∷ low ∷ size ∷ rest) r h =
    let (two, all, long, w) = parse_response-five op id high low size rest r h in
    let (x, ys, d, read) = with_flags-response id rest (drop 48 rest) r w in
    let (n1, n2, n3) = parts_length rest long in
    subst
      (λ y.
        (u v : ℕ) × (reserved : Bytes) × (length y.peer_challenge ≡ 16)
        × (length reserved ≡ 8)
        × (length y.nt_response ≡ 24)
        × (op ∷ id ∷ high ∷ low ∷ size ∷ rest
            ≡ response_bytes y.id u v y.peer_challenge reserved y.nt_response y.flags y.name))
      read
      (
        high,
        low,
        take 8 (drop 16 rest),
        n1,
        n2,
        n3,
        rw (two, all) (ap (λ t. 2 ∷ id ∷ high ∷ low ∷ 49 ∷ t) (rejoined rest x ys d)),
      )
response_bytes-parse_response [] r h = cc
response_bytes-parse_response (a ∷ []) r h = cc
response_bytes-parse_response (a ∷ b ∷ []) r h = cc
response_bytes-parse_response (a ∷ b ∷ c ∷ []) r h = cc
response_bytes-parse_response (a ∷ b ∷ c ∷ d ∷ []) r h = cc
