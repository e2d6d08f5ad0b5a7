-- ===== src/Partner/Ssrf.antt =====
-- internal/partner/ssrf.go: the addresses that a webhook may not reach. An address is the bytes of a
-- `net.IP`, `[]` for a nil one; the methods of `net.IP` and `net.IPNet` are as the standard library
-- documents them. What `url.Parse`, `net.ParseIP` and `net.LookupIP` make of a text is an argument.
pub mod Ranges
use isp.Common.{
  ℕ, zero, suc, ◌+◌, ◌-◌, ◌*◌, ◌/◌, ◌%◌, ◌^◌, String, str_eq, Bool, true, false, not, ◌&&◌, ◌||◌,
  Option, none, some, List, [], ◌∷◌, leb, ltb, ◌==◌, if◌then◌else◌,
}
use isp.Common.Bytes.{Bytes, length, take, drop, bytes_eq}

abbrev pub byte_at : ℕ → Bytes → ℕ
byte_at n [] = 0
byte_at zero (b ∷ bs) = b
byte_at (suc n) (b ∷ bs) = byte_at n bs

abbrev pub are_zero : Bytes → Bool
are_zero [] = true
are_zero (b ∷ bs) = b == 0 && are_zero bs

-- `::ffff:a.b.c.d`
abbrev pub is_mapped : Bytes → Bool
is_mapped ip =
    length ip == 16 && (are_zero (take 10 ip) && (byte_at 10 ip == 255 && byte_at 11 ip == 255))

-- `ip.To4()`: four bytes, or the last four of a mapped address; `[]` for nil.
abbrev pub to_4 : Bytes → Bytes
to_4 ip = if length ip == 4 then ip else if is_mapped ip then drop 12 ip else []

-- A network: its address and the length of its prefix in bits.
pub record Net : Type 0 where
  pub address : Bytes
  pub prefix : ℕ

-- The bits of the prefix are the same, byte by byte.
abbrev pub agrees_on : ℕ → Bytes → Bytes → Bool
agrees_on p [] bs = true
agrees_on p (a ∷ as') [] = true
agrees_on p (a ∷ as') (b ∷ bs) =
    let rest = agrees_on (p - 8) as' bs in
    if leb 8 p then a == b && rest else a / 2 ^ (8 - p) == b / 2 ^ (8 - p)

-- `n.Contains(ip)`
unfoldable pub contains : Net → Bytes → Bool
contains n ip =
    let x = if length (to_4 ip) == 0 then ip else to_4 ip in
    length x == length n.address && agrees_on n.prefix n.address x

abbrev pub v4 : ℕ → ℕ → ℕ → ℕ → ℕ → Net
v4 a b c d p = record { address = a ∷ b ∷ c ∷ d ∷ []; prefix = p }

-- An IPv6 network of which only the first four bytes are not zero, or the last.
abbrev pub v6 : ℕ → ℕ → ℕ → ℕ → ℕ → ℕ → Net
v6 a b c d last p = record {
  address = a ∷ b ∷ c ∷ d ∷ 0 ∷ 0 ∷ 0 ∷ 0 ∷ 0 ∷ 0 ∷ 0 ∷ 0 ∷ 0 ∷ 0 ∷ 0 ∷ last ∷ [];
  prefix = p;
}

abbrev pub blocked_v4 : List Net
blocked_v4 =
    v4 0 0 0 0 8
    ∷ v4 10 0 0 0 8
    ∷ v4 100 64 0 0 10
    ∷ v4 127 0 0 0 8
    ∷ v4 169 254 0 0 16
    ∷ v4 172 16 0 0 12
    ∷ v4 192 0 0 0 24
    ∷ v4 192 168 0 0 16
    ∷ v4 198 18 0 0 15
    ∷ v4 224 0 0 0 4
    ∷ v4 240 0 0 0 4
    ∷ []

abbrev pub blocked_v6 : List Net
blocked_v6 = v6 0 0 0 0 1 128 ∷ v6 252 0 0 0 0 7 ∷ v6 254 128 0 0 0 10 ∷ v6 32 1 13 184 0 32 ∷ []

abbrev pub in_any : List Net → Bytes → Bool
in_any [] ip = false
in_any (n ∷ ns) ip = contains n ip || in_any ns ip

-- `blockedNets`
unfoldable pub in_blocked_nets : Bytes → Bool
in_blocked_nets ip = in_any blocked_v4 ip || in_any blocked_v6 ip

-- `IsLoopback`, `IsUnspecified`, `IsLinkLocalUnicast` and `IsLinkLocalMulticast`, on the four bytes of
-- an IPv4 address and on any other.
abbrev pub is_local_v4 : Bytes → Bool
is_local_v4 x =
    byte_at 0 x == 127
    || (are_zero x
        || ((byte_at 0 x == 169 && byte_at 1 x == 254)
            || (byte_at 0 x == 224 && (byte_at 1 x == 0 && byte_at 2 x == 0))))

abbrev pub is_local_v6 : Bytes → Bool
is_local_v6 ip =
    length ip == 16
    && ((are_zero (take 15 ip) && leb (byte_at 15 ip) 1)
        || ((byte_at 0 ip == 254 && byte_at 1 ip / 64 == 2)
            || (byte_at 0 ip == 255 && byte_at 1 ip % 16 == 2)))

unfoldable pub is_local : Bytes → Bool
is_local ip = if length (to_4 ip) == 0 then is_local_v6 ip else is_local_v4 (to_4 ip)

-- `::a.b.c.d`, but for `::` and `::1`; `[]` for nil.
unfoldable pub embedded_ipv4_compatible : Bytes → Bytes
embedded_ipv4_compatible ip =
    if length ip == 16 && length (to_4 ip) == 0
    then if are_zero (take 10 ip)
      then if are_zero (take 3 (drop 12 ip)) && leb (byte_at 15 ip) 1 then [] else drop 12 ip
      else []
    else []

unfoldable pub is_blocked_ip : Bytes → Bool
is_blocked_ip ip =
    let embedded = embedded_ipv4_compatible ip in
    if length ip == 0
    then true
    else if is_local ip
    then true
    else if in_blocked_nets ip
    then true
    else not (length embedded == 0) && in_blocked_nets embedded

-- What `url.Parse` gives: the scheme, whether there is a host, and the host's name.
pub record Url : Type 0 where
  pub scheme : String
  pub has_host : Bool
  pub hostname : String

pub data UrlCheck : Type 0 where
  accepted not_a_url not_https no_host blocked : UrlCheck

abbrev pub any_blocked : List Bytes → Bool
any_blocked [] = false
any_blocked (ip ∷ ips) = is_blocked_ip ip || any_blocked ips

module _ (parse_ip : String → Bytes) where
  -- `lookup_ip` is `none` where the name does not resolve.
  unfoldable pub validate_webhook_url : (String → Option (List Bytes)) → Option Url → UrlCheck
  validate_webhook_url lookup_ip none = not_a_url
  validate_webhook_url lookup_ip (some u) =
      let ip = parse_ip u.hostname in
      if not (str_eq u.scheme "https")
      then not_https
      else if not u.has_host
      then no_host
      else if not (length ip == 0)
      then if is_blocked_ip ip then blocked else accepted
      else elim (lookup_ip u.hostname) [
        | none ↦ accepted
        | some ips ↦ if any_blocked ips then blocked else accepted
      ]

  -- The dialler's `Control`: whether it lets the address through, `none` where the address is not a
  -- host and a port.
  unfoldable pub control : Option String → Bool
  control none = false
  control (some host) = not (is_blocked_ip (parse_ip host))
