-- ===== src/Billing/State.antt =====
-- internal/billing/state.go: the registry of Indian states and the spellings that it resolves. The
-- maps that `init` builds are searched as the registry's list, whose codes and names are distinct.
pub mod Spelling
use isp.Common.{
  String, Bool, true, false, Option, none, some, List, [], ◌∷◌, map, ◌==◌, if◌then◌else◌,
}
use isp.Common.Bytes.{Bytes, text, bytes_eq, trim_space, upper}

pub record State : Type 0 where
  pub code : Bytes
  pub gst_code : Bytes
  pub name : Bytes

abbrev state : String → String → String → State
state code gst_code name = record { code = text code; gst_code = text gst_code; name = text name }

abbrev pub gst_states : List State
gst_states =
    state "JK" "01" "Jammu and Kashmir"
    ∷ state "HP" "02" "Himachal Pradesh"
    ∷ state "PB" "03" "Punjab"
    ∷ state "CH" "04" "Chandigarh"
    ∷ state "UK" "05" "Uttarakhand"
    ∷ state "HR" "06" "Haryana"
    ∷ state "DL" "07" "Delhi"
    ∷ state "RJ" "08" "Rajasthan"
    ∷ state "UP" "09" "Uttar Pradesh"
    ∷ state "BR" "10" "Bihar"
    ∷ state "SK" "11" "Sikkim"
    ∷ state "AR" "12" "Arunachal Pradesh"
    ∷ state "NL" "13" "Nagaland"
    ∷ state "MN" "14" "Manipur"
    ∷ state "MZ" "15" "Mizoram"
    ∷ state "TR" "16" "Tripura"
    ∷ state "ML" "17" "Meghalaya"
    ∷ state "AS" "18" "Assam"
    ∷ state "WB" "19" "West Bengal"
    ∷ state "JH" "20" "Jharkhand"
    ∷ state "OD" "21" "Odisha"
    ∷ state "CG" "22" "Chhattisgarh"
    ∷ state "MP" "23" "Madhya Pradesh"
    ∷ state "GJ" "24" "Gujarat"
    ∷ state "DD" "25" "Daman and Diu"
    ∷ state "DN" "26" "Dadra and Nagar Haveli and Daman and Diu"
    ∷ state "MH" "27" "Maharashtra"
    ∷ state "KA" "29" "Karnataka"
    ∷ state "GA" "30" "Goa"
    ∷ state "LD" "31" "Lakshadweep"
    ∷ state "KL" "32" "Kerala"
    ∷ state "TN" "33" "Tamil Nadu"
    ∷ state "PY" "34" "Puducherry"
    ∷ state "AN" "35" "Andaman and Nicobar Islands"
    ∷ state "TS" "36" "Telangana"
    ∷ state "AP" "37" "Andhra Pradesh"
    ∷ state "LA" "38" "Ladakh"
    ∷ state "OT" "97" "Other Territory"
    ∷ []

-- The codes that are resolved but no longer issued, with the code of their state.
abbrev pub legacy_gst_codes : List (Bytes × Bytes)
legacy_gst_codes = (text "28", text "AP") ∷ []

-- `strings.ReplaceAll(s, " ", "")`
abbrev pub remove_blanks : Bytes → Bytes
remove_blanks [] = []
remove_blanks (c ∷ s) = let rest = remove_blanks s in if c == 32 then rest else c ∷ rest

abbrev pub to_upper : Bytes → Bytes
to_upper [] = []
to_upper (c ∷ s) = upper c ∷ to_upper s

unfoldable pub normalise_key : Bytes → Bytes
normalise_key s = to_upper (remove_blanks (trim_space s))

-- The first state whose field is the key.
abbrev pub find_state : (State → Bytes) → Bytes → List State → Option State
find_state field key [] = none
find_state field key (s ∷ ss) = if bytes_eq (field s) key then some s else find_state field key ss

unfoldable pub by_code : Bytes → Option State
by_code key = find_state (λ s. s.code) key gst_states

unfoldable pub find_legacy : Bytes → List (Bytes × Bytes) → Option State
find_legacy key [] = none
find_legacy key ((legacy, code) ∷ ls) =
    let rest = find_legacy key ls in if bytes_eq legacy key then by_code code else rest

unfoldable pub by_gst_code : Bytes → Option State
by_gst_code key = elim (find_legacy key legacy_gst_codes) [
  | some s ↦ some s
  | none ↦ find_state (λ s. s.gst_code) key gst_states
]

unfoldable pub by_name : Bytes → Option State
by_name key = find_state (λ s. normalise_key s.name) key gst_states

-- The state that a key resolves to.
unfoldable pub resolve : Bytes → Option State
resolve key = elim (by_code key) [
  | some s ↦ some s
  | none ↦ elim (by_gst_code key) [ some s ↦ some s | none ↦ by_name key ]
]

unfoldable pub normalise_state : Bytes → Option Bytes
normalise_state input =
    let key = normalise_key input in
    if bytes_eq key [] then none else elim (resolve key) [ none ↦ none | some s ↦ some s.code ]

unfoldable pub gst_code_for : Bytes → Option Bytes
gst_code_for state_code = elim (by_code (to_upper (trim_space state_code))) [
  | none ↦ none
  | some s ↦ some s.gst_code
]

unfoldable pub state_name : Bytes → Option Bytes
state_name state_code = elim (by_code (to_upper (trim_space state_code))) [
  | none ↦ none
  | some s ↦ some s.name
]
