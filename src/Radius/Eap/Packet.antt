-- ===== src/Radius/Eap/Packet.antt =====
-- internal/radius/eap.go: EAP packets (RFC 3748) and the MS-CHAPv2 packets inside them (RFC 2759).
use isp.Common.{ℕ, ◌+◌, ◌*◌, ◌%◌, Bool, ◌||◌, [], ◌∷◌, ◌++◌, ltb, ◌==◌, if◌then◌else◌}
use isp.Common.Bytes.{Bytes, length, take, drop, be16, text}

abbrev pub code_request : ℕ
code_request = 1

abbrev pub code_response : ℕ
code_response = 2

abbrev pub code_success : ℕ
code_success = 3

abbrev pub code_failure : ℕ
code_failure = 4

abbrev pub type_identity : ℕ
type_identity = 1

abbrev pub type_mschapv2 : ℕ
type_mschapv2 = 26

abbrev pub op_challenge : ℕ
op_challenge = 1

abbrev pub op_response : ℕ
op_response = 2

abbrev pub op_success : ℕ
op_success = 3

abbrev pub op_failure : ℕ
op_failure = 4

pub record EapPacket : Type 0 where
  pub code : ℕ
  pub identifier : ℕ
  pub type : ℕ
  pub data_bytes : Bytes

-- What `ParseEAP` returns: `ErrEAPLengthMismatch` names the declared and the real length.
pub data ParsedEap : Type 0 where
  parsed : EapPacket → ParsedEap
  short_eap : ParsedEap
  length_mismatch : ℕ → ℕ → ParsedEap

-- Success and Failure have a header only.
abbrev pub is_header_only : ℕ → Bool
is_header_only code = code == code_success || code == code_failure

-- Past the header, the byte after it being the type.
abbrev pub parse_typed : ℕ → ℕ → Bytes → ParsedEap
parse_typed code id [] = short_eap
parse_typed code id (t ∷ rest) =
    parsed (record { code = code; identifier = id; type = t; data_bytes = rest })

abbrev pub parse_declared : ℕ → ℕ → ℕ → Bytes → ParsedEap
parse_declared code id declared rest =
    if declared == 4 + length rest
    then if is_header_only code
      then parsed (record { code = code; identifier = id; type = 0; data_bytes = [] })
      else parse_typed code id rest
    else length_mismatch declared (4 + length rest)

unfoldable pub parse_eap : Bytes → ParsedEap
parse_eap (code ∷ id ∷ high ∷ low ∷ rest) = parse_declared code id (high * 256 + low) rest
parse_eap _ = short_eap

unfoldable pub encode : EapPacket → Bytes
encode p =
    if is_header_only p.code
    then p.code ∷ p.identifier ∷ be16 4
    else p.code ∷ p.identifier ∷ be16 (5 + length p.data_bytes) ++ p.type ∷ p.data_bytes

pub record Challenge : Type 0 where
  pub id : ℕ
  pub challenge : Bytes
  pub name : Bytes

unfoldable pub encode_challenge : Challenge → Bytes
encode_challenge c =
    op_challenge ∷ c.id ∷ be16 (5 + length c.challenge + length c.name)
    ++ (length c.challenge % 256) ∷ c.challenge
    ++ c.name

pub record Response : Type 0 where
  pub id : ℕ
  pub peer_challenge : Bytes
  pub nt_response : Bytes
  pub flags : ℕ
  pub name : Bytes

pub data ParsedResponse : Type 0 where
  response : Response → ParsedResponse
  too_short not_a_response bad_value_size truncated : ParsedResponse

-- Past the 48 bytes of challenge, reserved bytes and response: the flags, then the name.
unfoldable pub with_flags : ℕ → Bytes → Bytes → ParsedResponse
with_flags id value [] = truncated
with_flags id value (flags ∷ name) = response (record {
  id = id;
  peer_challenge = take 16 value;
  nt_response = take 24 (drop 24 value);
  flags = flags;
  name = name;
})

unfoldable pub parse_response : Bytes → ParsedResponse
parse_response (op ∷ id ∷ high ∷ low ∷ value_size ∷ rest) =
    if op == op_response
    then if value_size == 49
      then if ltb (length rest) 49 then truncated else with_flags id rest (drop 48 rest)
      else bad_value_size
    else not_a_response
parse_response _ = too_short

unfoldable pub encode_success : ℕ → Bytes → Bytes
encode_success id authenticator_response =
    op_success ∷ id ∷ be16 (4 + length authenticator_response) ++ authenticator_response

abbrev pub failure_message : Bytes
failure_message = text "E=691 R=0 C=00000000000000000000000000000000 V=3 M=Authentication failed"

-- `EncodeMSCHAPv2Failure`, which no handler calls.
unfoldable pub encode_failure : ℕ → Bytes
encode_failure id = op_failure ∷ id ∷ be16 (4 + length failure_message) ++ failure_message
