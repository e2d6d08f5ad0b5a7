-- ===== src/Billing/State/Spelling.antt =====
-- state.go: every way to write a registered state resolves to it.
use mathlib.Core.List.{Memᴰ}
use isp.Common.{
  ◌≡◌, ◌⊎◌, refl, sym, ◌∙◌, ap, Bool, true, false, not, ◌&&◌, none, some, List, [], ◌∷◌, leb, arith,
  Bool-cases, Option-cases, inl, inr,
}
use isp.Common.Bytes.{text, Bytes, bytes_eq, eq_of-bytes_eq, trim_left, trim_right, trim_space}
use isp.Billing.State.{
  State, gst_states, find_state, find_legacy, legacy_gst_codes, by_code, by_gst_code, by_name,
  remove_blanks, to_upper, normalise_key, resolve, normalise_state,
}

-- A text without its blanks and its case.
abbrev pub folded : Bytes → Bytes
folded s = to_upper (remove_blanks s)

-- No white space other than blanks.
abbrev pub is_plain : Bytes → Bool
is_plain [] = true
is_plain (c ∷ s) = not (leb 9 c && leb c 13) && is_plain s

folded-is_plain : (s : Bytes) → is_plain (folded s) ≡ is_plain s
folded-is_plain [] = refl
folded-is_plain (c ∷ s) = ground (arith, folded-is_plain s)

remove_blanks-trim_left :
    (s : Bytes) → is_plain s ≡ true → remove_blanks (trim_left s) ≡ remove_blanks s
remove_blanks-trim_left [] h = refl
remove_blanks-trim_left (c ∷ s) h = ground (arith, remove_blanks-trim_left s)

trim_left-is_plain : (s : Bytes) → is_plain s ≡ true → is_plain (trim_left s) ≡ true
trim_left-is_plain [] h = refl
trim_left-is_plain (c ∷ s) h = ground (arith, trim_left-is_plain s)

remove_blanks-trim_right :
    (s : Bytes) → is_plain s ≡ true → remove_blanks (trim_right s) ≡ remove_blanks s
remove_blanks-trim_right [] h = refl
remove_blanks-trim_right (c ∷ s) h = ground (arith, remove_blanks-trim_right s)

normalise_key-folded : (s : Bytes) → is_plain s ≡ true → normalise_key s ≡ folded s
unfolding normalise_key trim_space
normalise_key-folded s h =
    ap to_upper (
      remove_blanks-trim_right (trim_left s) (trim_left-is_plain s h) ∙ remove_blanks-trim_left s h)

abbrev resolves_to : Bytes → Bytes → Bool
resolves_to code spelling =
    let key = folded spelling in
    is_plain spelling
    && (not (bytes_eq key [])
        && elim (resolve key) [ none ↦ false | some s ↦ bytes_eq s.code code ])

abbrev names_resolve : State → Bool
names_resolve s =
    resolves_to s.code s.code && (resolves_to s.code s.gst_code && resolves_to s.code s.name)

abbrev all_resolve : List State → Bool
all_resolve [] = true
all_resolve (s ∷ ss) = names_resolve s && all_resolve ss

-- No code, number or name of the registry is another state's.
gst_states_resolve : all_resolve gst_states ≡ true
unfolding resolve by_code by_gst_code find_legacy by_name normalise_key trim_space
gst_states_resolve = refl

all_resolve-Mem :
    (s : State) (ss : List State) → all_resolve ss ≡ true → Memᴰ s ss → names_resolve s ≡ true
all_resolve-Mem s [] h m = elim m [ ]
all_resolve-Mem s (t ∷ ts) h (Memᴰ.head e) = rw e (ground (arith, h))
all_resolve-Mem s (t ∷ ts) h (Memᴰ.tail m) = all_resolve-Mem s ts (ground (arith, h)) m

-- A spelling of a text: the same letters and digits, whatever the case and the blanks.
abbrev pub Spells : Bytes → Bytes → Type 0
Spells input t = folded input ≡ folded t

normalise_state-Spells :
    (input t code : Bytes)
    → Spells input t
    → resolves_to code t ≡ true
    → normalise_state input ≡ some code
unfolding normalise_state
normalise_state-Spells input t code e h =
    let plain : is_plain input ≡ true =
      sym (folded-is_plain input) ∙ ap is_plain e ∙ folded-is_plain t ∙ ground (arith, h) in
    elim (Option-cases (resolve (folded t))) [
      | inl r ↦ ground (arith, h, r)
      | inr (s, r) ↦
          rw (normalise_state, normalise_key-folded input plain, e, r)
            (ground (arith, h, r, eq_of-bytes_eq s.code code))
    ]

-- A registered state's code, number or name, in any case and with any blanks, resolves to the
-- state's code.
pub normalise_state_spelling :
    (s : State) (input : Bytes)
    → Memᴰ s gst_states
    → Spells input s.code ⊎ Spells input s.gst_code ⊎ Spells input s.name
    → normalise_state input ≡ some s.code
normalise_state_spelling s input m h =
    let r = all_resolve-Mem s gst_states gst_states_resolve m in
    elim h [
      | inl e ↦ normalise_state-Spells input s.code s.code e (ground (arith, r))
      | inr k ↦ elim k [
        | inl e ↦ normalise_state-Spells input s.gst_code s.code e (ground (arith, r))
        | inr e ↦ normalise_state-Spells input s.name s.code e (ground (arith, r))
      ]
    ]

pub find_state-Mem :
    (field : State → Bytes) (key : Bytes) (ss : List State) (s : State)
    → find_state field key ss ≡ some s
    → Memᴰ s ss × (field s ≡ key)
find_state-Mem field key [] s h = ground (arith, h)
find_state-Mem field key (t ∷ ts) s h = elim (Bool-cases (bytes_eq (field t) key)) [
  | inl e ↦
      let same : t ≡ s = ground (arith, h, e) in
      (Memᴰ.head (sym same), ap field (sym same) ∙ eq_of-bytes_eq (field t) key e)
  | inr e ↦ let (m, k) = find_state-Mem field key ts s (ground (arith, h, e)) in (Memᴰ.tail m, k)
]

by_code-Mem : (key : Bytes) (s : State) → by_code key ≡ some s → Memᴰ s gst_states × (s.code ≡ key)
unfolding by_code
by_code-Mem key s h = find_state-Mem (λ s. s.code) key gst_states s h

by_name-Mem :
    (key : Bytes) (s : State)
    → by_name key ≡ some s
    → Memᴰ s gst_states × (normalise_key s.name ≡ key)
unfolding by_name
by_name-Mem key s h = find_state-Mem (λ s. normalise_key s.name) key gst_states s h

legacy_code : by_gst_code (text "28") ≡ by_code (text "AP")
unfolding by_gst_code find_legacy by_code
legacy_code = refl

no_legacy_code :
    (key : Bytes) → bytes_eq (text "28") key ≡ false → find_legacy key legacy_gst_codes ≡ none
unfolding find_legacy
no_legacy_code key h = ground (arith, h)

issued_code :
    (key : Bytes)
    → bytes_eq (text "28") key ≡ false
    → by_gst_code key ≡ find_state (λ s. s.gst_code) key gst_states
unfolding by_gst_code
issued_code key h = rw (by_gst_code, no_legacy_code key h) refl

by_gst_code-Mem :
    (key : Bytes) (s : State)
    → by_gst_code key ≡ some s
    → Memᴰ s gst_states × ((s.gst_code ≡ key) ⊎ ((key ≡ text "28") × (s.code ≡ text "AP")))
by_gst_code-Mem key s h = elim (Bool-cases (bytes_eq (text "28") key)) [
  | inl e ↦
      let same = sym (eq_of-bytes_eq (text "28") key e) in
      let (m, k) = by_code-Mem (text "AP") s (sym legacy_code ∙ ap by_gst_code (sym same) ∙ h) in
      (m, inr (same, k))
  | inr e ↦
      let (m, k) =
        find_state-Mem (λ s. s.gst_code) key gst_states s (sym (issued_code key e) ∙ h) in
      (m, inl k)
]

-- What resolves is a registered state, named by its code, its number or its name without blanks and
-- in capitals, or Andhra Pradesh by its number before 2014.
pub normalise_state_only :
    (input code : Bytes)
    → normalise_state input ≡ some code
    → (s : State) × Memᴰ s gst_states
      × (s.code ≡ code)
      × ((s.code ≡ normalise_key input)
          ⊎ (s.gst_code ≡ normalise_key input)
          ⊎ (normalise_key s.name ≡ normalise_key input)
          ⊎ ((normalise_key input ≡ text "28") × (code ≡ text "AP")))
unfolding normalise_state resolve
normalise_state_only input code h =
    let key = normalise_key input in
    elim (Option-cases (by_code key)) [
      | inr (s, e) ↦ let (m, k) = by_code-Mem key s e in (s, m, ground (arith, h, e), inl k)
      | inl e ↦ elim (Option-cases (by_gst_code key)) [
        | inr (s, f) ↦
            let (m, k) = by_gst_code-Mem key s f in
            let c : s.code ≡ code = ground (arith, h, e, f) in
            (s, m, c, elim k [ inl g ↦ inr (inl g) | inr g ↦ inr (inr (inr (g.0, sym c ∙ g.1))) ])
        | inl f ↦ elim (Option-cases (by_name key)) [
          | inr (s, g) ↦
              let (m, k) = by_name-Mem key s g in
              (s, m, ground (arith, h, e, f, g), inr (inr (inl k)))
          | inl g ↦ ground (arith, h, e, f, g)
        ]
      ]
    ]
