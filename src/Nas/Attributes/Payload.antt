-- ===== src/Nas/Attributes/Payload.antt =====
-- internal/nas: which profiles yield attributes, and which attributes.
use isp.Common.{
  ℕ, ◌+◌, ◌≤◌, ◌<◌, ◌≡◌, refl, ◌≢◌, false, Option, none, some, List, [], ◌∷◌, ◌++◌, inl, inr, arith,
  ltb, if◌then◌else◌, Option-cases,
}
use isp.Common.Bytes.{from_be, Bytes, text, length}
use isp.Nas.Rate.{parse_rate_limit_string, uint32_be}
use isp.Nas.Rate.Tokens.{from_be-uint32_be, parse_rate_limit_string_bound, >>=-eq-some}
use isp.Nas.Attributes.{
  Vendor, mikrotik, huawei, zte, cisco, juniper, cisco_wlc, aruba, ruckus, unrecognised,
  RateProfile, Attr, vendor_specific, build_vendor_sub_attr, mikrotik_rate_limit_attrs, rate_attrs,
  cisco_avpair_attrs, juniper_filter_attrs, wireless_profile_attrs, build_accept_attrs,
  build_coa_attrs, is_empty,
}

-- What a vendor's builder needs of the profile: MikroTik a rate text that fits an attribute, Huawei
-- and ZTE a rate that parses, the others a policy name that fits.
abbrev pub IsUsable : Vendor → RateProfile → Type 0
IsUsable huawei p = parse_rate_limit_string p.rate_limit_string ≢ none
IsUsable zte p = parse_rate_limit_string p.rate_limit_string ≢ none
IsUsable cisco p = (0 < length p.profile_name) × (length p.profile_name ≤ 217)
IsUsable juniper p = 0 < length p.profile_name
IsUsable cisco_wlc p = (0 < length p.profile_name) × (length p.profile_name ≤ 247)
IsUsable aruba p = (0 < length p.profile_name) × (length p.profile_name ≤ 247)
IsUsable ruckus p = (0 < length p.profile_name) × (length p.profile_name ≤ 247)
IsUsable _ p = (0 < length p.rate_limit_string) × (length p.rate_limit_string ≤ 247)

is_empty_pos : (s : Bytes) → 0 < length s → is_empty s ≡ false
is_empty_pos [] h = absurd (omega arith)
is_empty_pos (c ∷ s) h = refl

module _ (new_vendor_specific : ℕ → Bytes → Option Bytes)
    (accepts : (id : ℕ) (v : Bytes) → length v ≤ 249 → new_vendor_specific id v ≢ none) where
  build_vendor_sub_attr-ne-none :
      (id t : ℕ) (v : Bytes)
      → length v ≤ 247
      → build_vendor_sub_attr new_vendor_specific id t v ≢ none
  unfolding build_vendor_sub_attr
  build_vendor_sub_attr-ne-none id t v h = ground (arith, accepts id (t ∷ (2 + length v) ∷ v))

  mikrotik-ne-none :
      (s : Bytes)
      → 0 < length s
      → length s ≤ 247
      → mikrotik_rate_limit_attrs new_vendor_specific s ≢ none
  unfolding mikrotik_rate_limit_attrs
  mikrotik-ne-none s h k = ground (
    arith,
    is_empty_pos s h,
    accepts 14988 (8 ∷ (if ltb 255 (2 + length s) then 255 else 2 + length s) ∷ s),
  )

  rate_attrs-ne-none :
      (id i o : ℕ) (s : Bytes)
      → parse_rate_limit_string s ≢ none
      → rate_attrs new_vendor_specific id i o s ≢ none
  unfolding rate_attrs uint32_be
  rate_attrs-ne-none id i o s h = elim (Option-cases (parse_rate_limit_string s)) [
    | inl e ↦ absurd (h e)
    | inr (p, e) ↦ ground (
      arith,
      build_vendor_sub_attr-ne-none id i (uint32_be p.0),
      build_vendor_sub_attr-ne-none id o (uint32_be p.1),
    )
  ]

  cisco-ne-none :
      (s : Bytes) → 0 < length s → length s ≤ 217 → cisco_avpair_attrs new_vendor_specific s ≢ none
  unfolding cisco_avpair_attrs
  cisco-ne-none s h k = ground (
    arith,
    is_empty_pos s h,
    build_vendor_sub_attr-ne-none 9 1 (text "subscriber:sub-qos-policy-in=" ++ s),
    build_vendor_sub_attr-ne-none 9 1 (text "subscriber:sub-qos-policy-out=" ++ s),
  )

  wireless-ne-none :
      (id t : ℕ) (s : Bytes)
      → 0 < length s
      → length s ≤ 247
      → wireless_profile_attrs new_vendor_specific id t s ≢ none
  unfolding wireless_profile_attrs
  wireless-ne-none id t s h k =
      ground (arith, is_empty_pos s h, build_vendor_sub_attr-ne-none id t s k)

  juniper-ne-none : (s : Bytes) → 0 < length s → juniper_filter_attrs new_vendor_specific s ≢ none
  unfolding juniper_filter_attrs
  juniper-ne-none s h = ground (arith, is_empty_pos s h)

  -- A usable profile yields attributes for every vendor, if the RADIUS library accepts vendor data
  -- of up to 249 bytes: no Access-Accept goes out without its rate.
  pub build_accept_attrs-ne-none :
      (vendor : Vendor) (p : RateProfile)
      → IsUsable vendor p
      → build_accept_attrs new_vendor_specific vendor p ≢ none
  unfolding build_accept_attrs
  build_accept_attrs-ne-none huawei p h = rate_attrs-ne-none 2011 24 25 p.rate_limit_string h
  build_accept_attrs-ne-none zte p h = rate_attrs-ne-none 3902 201 202 p.rate_limit_string h
  build_accept_attrs-ne-none cisco p h = cisco-ne-none p.profile_name h.0 h.1
  build_accept_attrs-ne-none juniper p h = juniper-ne-none p.profile_name h
  build_accept_attrs-ne-none cisco_wlc p h = wireless-ne-none 14179 2 p.profile_name h.0 h.1
  build_accept_attrs-ne-none aruba p h = wireless-ne-none 14823 1 p.profile_name h.0 h.1
  build_accept_attrs-ne-none ruckus p h = wireless-ne-none 25053 1 p.profile_name h.0 h.1
  build_accept_attrs-ne-none mikrotik p h = mikrotik-ne-none p.rate_limit_string h.0 h.1
  build_accept_attrs-ne-none (unrecognised v) p h = mikrotik-ne-none p.rate_limit_string h.0 h.1

module _ (new_vendor_specific : ℕ → Bytes → Option Bytes) where
  build_vendor_sub_attr-eq-some :
      (id t : ℕ) (v : Bytes) {a : Attr}
      → build_vendor_sub_attr new_vendor_specific id t v ≡ some a
      → (new_vendor_specific id (t ∷ (2 + length v) ∷ v) ≡ some a.value)
        × (a.type ≡ vendor_specific)
  unfolding build_vendor_sub_attr
  build_vendor_sub_attr-eq-some id t v h = ground arith

  -- What Huawei's and ZTE's attributes say: the two halves of the rate, each as four big-endian
  -- bytes behind a type and the length 6, which the NAS reads back as the number that was parsed.
  pub rate_attrs_payload :
      (id i o : ℕ) (s : Bytes) {attrs : List Attr}
      → rate_attrs new_vendor_specific id i o s ≡ some attrs
      → (a : ℕ) × (b : ℕ) × (x : Attr) × (y : Attr) × (parse_rate_limit_string s ≡ some (a, b))
        × (attrs ≡ x ∷ y ∷ [])
        × (new_vendor_specific id (i ∷ 6 ∷ uint32_be a) ≡ some x.value)
        × (new_vendor_specific id (o ∷ 6 ∷ uint32_be b) ≡ some y.value)
        × (from_be 0 (uint32_be a) ≡ a)
        × (from_be 0 (uint32_be b) ≡ b)
  unfolding rate_attrs uint32_be
  rate_attrs_payload id i o s h =
      let (p, e, h1) = >>=-eq-some (parse_rate_limit_string s) _ h in
      let (x, ex, h2) =
        >>=-eq-some (build_vendor_sub_attr new_vendor_specific id i (uint32_be p.0)) _ h1 in
      let (y, ey, h3) =
        >>=-eq-some (build_vendor_sub_attr new_vendor_specific id o (uint32_be p.1)) _ h2 in
      let bounds = parse_rate_limit_string_bound s {a = p.0} {b = p.1} e in
      (
        p.0,
        p.1,
        x,
        y,
        e,
        cc,
        (build_vendor_sub_attr-eq-some id i (uint32_be p.0) ex).0,
        (build_vendor_sub_attr-eq-some id o (uint32_be p.1) ey).0,
        (from_be-uint32_be p.0 bounds.0).1,
        (from_be-uint32_be p.1 bounds.1).1,
      )

  -- A change of authorisation shapes a session by the same attributes as its Access-Accept, for
  -- every vendor.
  pub build_coa_attrs-eq-accept :
      (vendor : Vendor) (p : RateProfile)
      → build_coa_attrs new_vendor_specific vendor p
        ≡ build_accept_attrs new_vendor_specific vendor p
  unfolding build_coa_attrs build_accept_attrs
  build_coa_attrs-eq-accept huawei p = refl
  build_coa_attrs-eq-accept _ p = refl
