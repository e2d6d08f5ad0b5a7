-- ===== src/Examples/Nas.antt =====
-- Rates and attributes of an OLT.
use isp.Common.{ℕ, Option, some, []}
use isp.Common.Bytes.{Bytes, text}
use isp.Nas.Attributes.{RateProfile}

abbrev accept_all : ℕ → Bytes → Option Bytes
accept_all id s = some s

abbrev profile : RateProfile
profile = record { rate_limit_string = text "10M/2M"; profile_name = [] }
