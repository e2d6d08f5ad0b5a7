-- ===== src/Nas/Attributes.antt =====
-- internal/nas: the attribute builders of the eight vendors and their registry. An error is `none`:
-- its text only names the vendor. `new_vendor_specific` is layeh.com/radius's `NewVendorSpecific`,
-- which is not part of the repository.
pub mod Payload
use isp.Common.{
  ℕ, ◌+◌, Bool, true, false, Option, none, some, List, [], ◌∷◌, ◌++◌, ltb, if◌then◌else◌,
}
use isp.Common.Bytes.{Bytes, text, length, bytes_eq}
use isp.Nas.Rate.{◌>>=◌, parse_rate_limit_string, uint32_be}

pub data Vendor : Type 0 where
  mikrotik huawei zte cisco juniper cisco_wlc aruba ruckus : Vendor
  -- any other text in the database column
  unrecognised : Bytes → Vendor

pub record RateProfile : Type 0 where
  pub rate_limit_string : Bytes
  pub profile_name : Bytes

pub record Attr : Type 0 where
  pub type : ℕ
  pub value : Bytes

abbrev pub vendor_specific : ℕ
vendor_specific = 26

abbrev pub filter_id : ℕ
filter_id = 11

-- The entry of `builders`: every vendor that has a builder.
pub known_vendor : Vendor → Bool
known_vendor (unrecognised v) = false
known_vendor _ = true

abbrev pub is_empty : Bytes → Bool
is_empty s = bytes_eq s []

module _ (new_vendor_specific : ℕ → Bytes → Option Bytes) where
  unfoldable pub build_vendor_sub_attr : ℕ → ℕ → Bytes → Option Attr
  build_vendor_sub_attr vendor_id sub_type value =
      if ltb 255 (2 + length value)
      then none
      else (new_vendor_specific vendor_id (sub_type ∷ (2 + length value) ∷ value) >>= λ v.
          some (record { type = vendor_specific; value = v }))

  unfoldable pub mikrotik_rate_limit_attrs : Bytes → Option (List Attr)
  mikrotik_rate_limit_attrs s =
      if is_empty s
      then none
      else (new_vendor_specific 14988
            (8 ∷ (if ltb 255 (2 + length s) then 255 else 2 + length s) ∷ s)
          >>= λ v. some (record { type = vendor_specific; value = v } ∷ []))

  -- huaweiRateAttrs and zteRateAttrs differ in the numbers alone.
  unfoldable pub rate_attrs : ℕ → ℕ → ℕ → Bytes → Option (List Attr)
  rate_attrs vendor_id in_type out_type s = do
    (i, o) ← parse_rate_limit_string s
    in_attr ← build_vendor_sub_attr vendor_id in_type (uint32_be i)
    out_attr ← build_vendor_sub_attr vendor_id out_type (uint32_be o)
    some (in_attr ∷ out_attr ∷ [])

  huawei_rate_attrs : Bytes → Option (List Attr)
  huawei_rate_attrs = rate_attrs 2011 24 25

  zte_rate_attrs : Bytes → Option (List Attr)
  zte_rate_attrs = rate_attrs 3902 201 202

  unfoldable pub cisco_avpair_attrs : Bytes → Option (List Attr)
  cisco_avpair_attrs name = if is_empty name then none else do
    i ← build_vendor_sub_attr 9 1 (text "subscriber:sub-qos-policy-in=" ++ name)
    o ← build_vendor_sub_attr 9 1 (text "subscriber:sub-qos-policy-out=" ++ name)
    some (i ∷ o ∷ [])

  unfoldable pub juniper_filter_attrs : Bytes → Option (List Attr)
  juniper_filter_attrs name =
      if is_empty name then none else some (record { type = filter_id; value = name } ∷ [])

  unfoldable pub wireless_profile_attrs : ℕ → ℕ → Bytes → Option (List Attr)
  wireless_profile_attrs vendor_id sub_type name =
      if is_empty name
      then none
      else (build_vendor_sub_attr vendor_id sub_type name >>= λ a. some (a ∷ []))

  -- `BuilderFor(vendor).BuildAccept(p)`, and MikroTik's builder for a vendor that has none.
  unfoldable pub build_accept_attrs : Vendor → RateProfile → Option (List Attr)
  unfolding huawei_rate_attrs zte_rate_attrs
  build_accept_attrs huawei p = huawei_rate_attrs p.rate_limit_string
  build_accept_attrs zte p = zte_rate_attrs p.rate_limit_string
  build_accept_attrs cisco p = cisco_avpair_attrs p.profile_name
  build_accept_attrs juniper p = juniper_filter_attrs p.profile_name
  build_accept_attrs cisco_wlc p = wireless_profile_attrs 14179 2 p.profile_name
  build_accept_attrs aruba p = wireless_profile_attrs 14823 1 p.profile_name
  build_accept_attrs ruckus p = wireless_profile_attrs 25053 1 p.profile_name
  build_accept_attrs mikrotik p = mikrotik_rate_limit_attrs p.rate_limit_string
  build_accept_attrs (unrecognised v) p = mikrotik_rate_limit_attrs p.rate_limit_string

  -- Every builder's `BuildCoA` calls what its `BuildAccept` calls.
  unfoldable pub build_coa_attrs : Vendor → RateProfile → Option (List Attr)
  unfolding huawei_rate_attrs zte_rate_attrs
  build_coa_attrs huawei p = huawei_rate_attrs p.rate_limit_string
  build_coa_attrs zte p = zte_rate_attrs p.rate_limit_string
  build_coa_attrs cisco p = cisco_avpair_attrs p.profile_name
  build_coa_attrs juniper p = juniper_filter_attrs p.profile_name
  build_coa_attrs cisco_wlc p = wireless_profile_attrs 14179 2 p.profile_name
  build_coa_attrs aruba p = wireless_profile_attrs 14823 1 p.profile_name
  build_coa_attrs ruckus p = wireless_profile_attrs 25053 1 p.profile_name
  build_coa_attrs mikrotik p = mikrotik_rate_limit_attrs p.rate_limit_string
  build_coa_attrs (unrecognised v) p = mikrotik_rate_limit_attrs p.rate_limit_string
