-- ===== src/Partner/Ssrf/Ranges.antt =====
-- ssrf.go, `IsBlockedIP`: which addresses are refused, whatever form they come in.
use isp.Common.{
  ℕ, ◌+◌, ◌*◌, ◌<◌, ◌≡◌, refl, sym, ◌∙◌, Bool, true, false, ◌&&◌, ◌||◌, List, [], ◌∷◌, leb, ◌==◌,
  arith, Bool-cases, inl, inr,
}
use isp.Common.Bytes.{Bytes}
use isp.Partner.Ssrf.{
  are_zero, v4, contains, in_any, blocked_v4, blocked_v6, in_blocked_nets, is_local, is_blocked_ip,
  embedded_ipv4_compatible,
}

-- The ranges of RFC 1918 and the other reserved ones, as the first and the last address of each.
abbrev pub reserved : List (ℕ × ℕ)
reserved =
    (0, 16777215)
    ∷ (167772160, 184549375)
    ∷ (1681915904, 1686110207)
    ∷ (2130706432, 2147483647)
    ∷ (2851995648, 2852061183)
    ∷ (2886729728, 2887778303)
    ∷ (3221225472, 3221225727)
    ∷ (3232235520, 3232301055)
    ∷ (3323068416, 3323199487)
    ∷ (3758096384, 4026531839)
    ∷ (4026531840, 4294967295)
    ∷ []

unfoldable pub in_ranges : ℕ → List (ℕ × ℕ) → Bool
in_ranges n [] = false
in_ranges n ((first, last) ∷ rs) = (leb first n && leb n last) || in_ranges n rs

abbrev pub number : ℕ → ℕ → ℕ → ℕ → ℕ
number a b c d = a * 16777216 + b * 65536 + c * 256 + d

or_false : (t : Bool) → (t || false) ≡ t
or_false true = refl
or_false false = refl

abbrev pub mapped : ℕ → ℕ → ℕ → ℕ → Bytes
mapped a b c d = 0 ∷ 0 ∷ 0 ∷ 0 ∷ 0 ∷ 0 ∷ 0 ∷ 0 ∷ 0 ∷ 0 ∷ 255 ∷ 255 ∷ a ∷ b ∷ c ∷ d ∷ []

abbrev pub compatible : ℕ → ℕ → ℕ → ℕ → Bytes
compatible a b c d = 0 ∷ 0 ∷ 0 ∷ 0 ∷ 0 ∷ 0 ∷ 0 ∷ 0 ∷ 0 ∷ 0 ∷ 0 ∷ 0 ∷ a ∷ b ∷ c ∷ d ∷ []

module _ (a b c d : ℕ) (ha : a < 256) (hb : b < 256) (hc : c < 256) (hd : d < 256) where
  this_network :
      contains (v4 0 0 0 0 8) (a ∷ b ∷ c ∷ d ∷ [])
      ≡ (leb 0 (number a b c d) && leb (number a b c d) 16777215)
  unfolding contains
  this_network = ground arith

  private_10 :
      contains (v4 10 0 0 0 8) (a ∷ b ∷ c ∷ d ∷ [])
      ≡ (leb 167772160 (number a b c d) && leb (number a b c d) 184549375)
  unfolding contains
  private_10 = ground arith

  carrier_grade :
      contains (v4 100 64 0 0 10) (a ∷ b ∷ c ∷ d ∷ [])
      ≡ (leb 1681915904 (number a b c d) && leb (number a b c d) 1686110207)
  unfolding contains
  carrier_grade = ground arith

  loopback :
      contains (v4 127 0 0 0 8) (a ∷ b ∷ c ∷ d ∷ [])
      ≡ (leb 2130706432 (number a b c d) && leb (number a b c d) 2147483647)
  unfolding contains
  loopback = ground arith

  link_local :
      contains (v4 169 254 0 0 16) (a ∷ b ∷ c ∷ d ∷ [])
      ≡ (leb 2851995648 (number a b c d) && leb (number a b c d) 2852061183)
  unfolding contains
  link_local = ground arith

  private_172 :
      contains (v4 172 16 0 0 12) (a ∷ b ∷ c ∷ d ∷ [])
      ≡ (leb 2886729728 (number a b c d) && leb (number a b c d) 2887778303)
  unfolding contains
  private_172 = ground arith

  protocol_assignments :
      contains (v4 192 0 0 0 24) (a ∷ b ∷ c ∷ d ∷ [])
      ≡ (leb 3221225472 (number a b c d) && leb (number a b c d) 3221225727)
  unfolding contains
  protocol_assignments = ground arith

  private_192 :
      contains (v4 192 168 0 0 16) (a ∷ b ∷ c ∷ d ∷ [])
      ≡ (leb 3232235520 (number a b c d) && leb (number a b c d) 3232301055)
  unfolding contains
  private_192 = ground arith

  benchmarking :
      contains (v4 198 18 0 0 15) (a ∷ b ∷ c ∷ d ∷ [])
      ≡ (leb 3323068416 (number a b c d) && leb (number a b c d) 3323199487)
  unfolding contains
  benchmarking = ground arith

  multicast :
      contains (v4 224 0 0 0 4) (a ∷ b ∷ c ∷ d ∷ [])
      ≡ (leb 3758096384 (number a b c d) && leb (number a b c d) 4026531839)
  unfolding contains
  multicast = ground arith

  class_e :
      contains (v4 240 0 0 0 4) (a ∷ b ∷ c ∷ d ∷ [])
      ≡ (leb 4026531840 (number a b c d) && leb (number a b c d) 4294967295)
  unfolding contains
  class_e = ground arith

  v4_agree : in_any blocked_v4 (a ∷ b ∷ c ∷ d ∷ []) ≡ in_ranges (number a b c d) reserved
  unfolding in_ranges
  v4_agree =
      rw
        (
          this_network, private_10, carrier_grade, loopback, link_local, private_172,
          protocol_assignments, private_192, benchmarking, multicast, class_e,
        )
        refl

  v6_agree : in_any blocked_v6 (a ∷ b ∷ c ∷ d ∷ []) ≡ false
  unfolding contains
  v6_agree = refl

  in_blocked_nets-ranges :
      in_blocked_nets (a ∷ b ∷ c ∷ d ∷ []) ≡ in_ranges (number a b c d) reserved
  unfolding in_blocked_nets
  in_blocked_nets-ranges =
      rw (in_blocked_nets, v4_agree, v6_agree) (or_false (in_ranges (number a b c d) reserved))

  loopback_of : (a == 127) ≡ true → contains (v4 127 0 0 0 8) (a ∷ b ∷ c ∷ d ∷ []) ≡ true
  unfolding contains
  loopback_of e = ground (arith, e)

  link_local_of :
      (a == 169 && b == 254) ≡ true → contains (v4 169 254 0 0 16) (a ∷ b ∷ c ∷ d ∷ []) ≡ true
  unfolding contains
  link_local_of e = ground (arith, e)

  multicast_of : (a == 224) ≡ true → contains (v4 224 0 0 0 4) (a ∷ b ∷ c ∷ d ∷ []) ≡ true
  unfolding contains
  multicast_of e = ground (arith, e)

  this_network_of : (a == 0) ≡ true → contains (v4 0 0 0 0 8) (a ∷ b ∷ c ∷ d ∷ []) ≡ true
  unfolding contains
  this_network_of e = ground (arith, e)

  -- The four tests of `net.IP` refuse nothing that the list does not.
  local_listed : is_local (a ∷ b ∷ c ∷ d ∷ []) ≡ true → in_blocked_nets (a ∷ b ∷ c ∷ d ∷ []) ≡ true
  unfolding is_local in_blocked_nets
  local_listed h = elim (Bool-cases (a == 127)) [
    | inl e ↦
        let k : contains (v4 127 0 0 0 8) (a ∷ b ∷ c ∷ d ∷ []) ≡ true = loopback_of e in
        ground (arith, k)
    | inr e ↦ elim (Bool-cases (a == 169 && b == 254)) [
      | inl f ↦ let k = link_local_of f in ground (arith, k)
      | inr f ↦ elim (Bool-cases (a == 224)) [
        | inl g ↦ let k = multicast_of g in ground (arith, k)
        | inr g ↦ let k = this_network_of (ground (arith, h, e, f, g)) in ground (arith, k)
      ]
    ]
  ]

  -- An IPv4 address is refused exactly if its number is in a reserved range.
  pub is_blocked_ip-ranges :
      is_blocked_ip (a ∷ b ∷ c ∷ d ∷ []) ≡ in_ranges (number a b c d) reserved
  unfolding is_blocked_ip embedded_ipv4_compatible
  is_blocked_ip-ranges = elim (Bool-cases (is_local (a ∷ b ∷ c ∷ d ∷ []))) [
    | inl e ↦ rw (is_blocked_ip, e) (sym (sym in_blocked_nets-ranges ∙ local_listed e))
    | inr e ↦
        rw (is_blocked_ip, e)
          (elim (Bool-cases (in_blocked_nets (a ∷ b ∷ c ∷ d ∷ []))) [
            | inl f ↦ rw f (sym (sym in_blocked_nets-ranges ∙ f))
            | inr f ↦ rw f (sym (sym in_blocked_nets-ranges ∙ f))
          ])
  ]

-- An address is judged alike in its four bytes and mapped into IPv6.
pub is_blocked_ip-mapped :
    (a b c d : ℕ) → is_blocked_ip (mapped a b c d) ≡ is_blocked_ip (a ∷ b ∷ c ∷ d ∷ [])
unfolding is_blocked_ip is_local in_blocked_nets contains embedded_ipv4_compatible
is_blocked_ip-mapped a b c d = refl

listed :
    (a b c d : ℕ)
    → a < 256
    → b < 256
    → c < 256
    → d < 256
    → is_blocked_ip (a ∷ b ∷ c ∷ d ∷ []) ≡ true
    → in_blocked_nets (a ∷ b ∷ c ∷ d ∷ []) ≡ true
listed a b c d ha hb hc hd h =
    in_blocked_nets-ranges a b c d ha hb hc hd ∙ sym (is_blocked_ip-ranges a b c d ha hb hc hd) ∙ h

tiny_is_local :
    (a b c d : ℕ)
    → (are_zero (a ∷ b ∷ c ∷ []) && leb d 1) ≡ true
    → is_local (compatible a b c d) ≡ true
unfolding is_local
tiny_is_local a b c d h = ground (arith, h)

embedded_in :
    (a b c d : ℕ)
    → (are_zero (a ∷ b ∷ c ∷ []) && leb d 1) ≡ false
    → embedded_ipv4_compatible (compatible a b c d) ≡ a ∷ b ∷ c ∷ d ∷ []
unfolding embedded_ipv4_compatible
embedded_in a b c d h = rw h refl

-- An IPv4-compatible address is refused if the address in it is.
pub is_blocked_ip-compatible :
    (a b c d : ℕ)
    → a < 256
    → b < 256
    → c < 256
    → d < 256
    → is_blocked_ip (a ∷ b ∷ c ∷ d ∷ []) ≡ true
    → is_blocked_ip (compatible a b c d) ≡ true
unfolding is_blocked_ip
is_blocked_ip-compatible a b c d ha hb hc hd h =
    elim (Bool-cases (are_zero (a ∷ b ∷ c ∷ []) && leb d 1)) [
      | inl e ↦ rw (is_blocked_ip, tiny_is_local a b c d e) refl
      | inr e ↦
          let hit = listed a b c d ha hb hc hd h in
          let inside = embedded_in a b c d e in
          elim (Bool-cases (is_local (compatible a b c d))) [
            | inl f ↦ rw (is_blocked_ip, f) refl
            | inr f ↦ elim (Bool-cases (in_blocked_nets (compatible a b c d))) [
              | inl g ↦ rw (is_blocked_ip, f, g) refl
              | inr g ↦ rw (is_blocked_ip, f, g, inside, hit) refl
            ]
          ]
    ]
