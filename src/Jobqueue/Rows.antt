-- ===== src/Jobqueue/Rows.antt =====
-- server.go: what a statement on one row does to the table, and what the reaper and the sweep leave.
use mathlib.Core.Path.{subst}
use mathlib.Core.List.{Memᴰ}
use isp.Common.{
  ℕ, ◌≡◌, ◌≢◌, ◌⊎◌, refl, sym, ap, ◌∙◌, inl, inr, false, List, [], ◌∷◌, ◌++◌, ◌==◌, arith,
  Bool-cases,
}
use isp.Common.Clock.{Time}
use isp.Jobqueue.Task.{Row}
use isp.Jobqueue.Server.{
  update, remove, reap_row, reap_expired_leases, is_past_retention, sweep_retained,
}

-- The id of a row tells which row it is.
abbrev pub IsKeyed : List Row → Type 0
IsKeyed rows = (r r' : Row) → Memᴰ r rows → Memᴰ r' rows → r.id ≡ r'.id → r ≡ r'

pub in-++ : (r x : Row) (rows : List Row) → Memᴰ r (rows ++ x ∷ []) → Memᴰ r rows ⊎ (r ≡ x)
in-++ r x [] (Memᴰ.head e) = inr e
in-++ r x [] (Memᴰ.tail m) = elim m [ ]
in-++ r x (y ∷ ys) (Memᴰ.head e) = inl (Memᴰ.head e)
in-++ r x (y ∷ ys) (Memᴰ.tail m) = elim (in-++ r x ys m) [
  | inl k ↦ inl (Memᴰ.tail k)
  | inr e ↦ inr e
]

pub in-++-old : (r x : Row) (rows : List Row) → Memᴰ r rows → Memᴰ r (rows ++ x ∷ [])
in-++-old r x [] m = elim m [ ]
in-++-old r x (y ∷ ys) (Memᴰ.head e) = Memᴰ.head e
in-++-old r x (y ∷ ys) (Memᴰ.tail m) = Memᴰ.tail (in-++-old r x ys m)

module _ (id : ℕ) (f : Row → Row) where
  pub of_update :
      (r : Row) (rows : List Row)
      → Memᴰ r (update id f rows)
      → (Memᴰ r rows × (r.id ≢ id)) ⊎ ((o : Row) × Memᴰ o rows × (o.id ≡ id) × (r ≡ f o))
  of_update r [] m = elim m [ ]
  of_update r (x ∷ xs) (Memᴰ.head e) = elim (Bool-cases (x.id == id)) [
    | inl k ↦ inr (x, Memᴰ.head refl, ground (arith, k), ground (arith, e, k))
    | inr k ↦
        let same : r ≡ x = ground (arith, e, k) in
        inl (
          Memᴰ.head same,
          λ h. let o : x.id ≡ id = sym (ap (λ y. y.id) same) ∙ h in ground (arith, k, o),
        )
  ]
  of_update r (x ∷ xs) (Memᴰ.tail m) = elim (of_update r xs m) [
    | inl (k, e) ↦ inl (Memᴰ.tail k, e)
    | inr (o, k, e, g) ↦ inr (o, Memᴰ.tail k, e, g)
  ]

  pub update-other :
      (r : Row) (rows : List Row) → Memᴰ r rows → r.id ≢ id → Memᴰ r (update id f rows)
  update-other r [] m e = elim m [ ]
  update-other r (x ∷ xs) (Memᴰ.head h) e = elim (Bool-cases (x.id == id)) [
    | inl k ↦ absurd (e (ap (λ y. y.id) h ∙ ground (arith, k)))
    | inr k ↦ Memᴰ.head (ground (arith, k, h))
  ]
  update-other r (x ∷ xs) (Memᴰ.tail m) e = Memᴰ.tail (update-other r xs m e)

  pub update-same :
      (r : Row) (rows : List Row) → Memᴰ r rows → r.id ≡ id → Memᴰ (f r) (update id f rows)
  update-same r [] m e = elim m [ ]
  update-same r (x ∷ xs) (Memᴰ.head h) e =
      let o : x.id ≡ id = sym (ap (λ y. y.id) h) ∙ e in Memᴰ.head (rw h (ground (arith, o)))
  update-same r (x ∷ xs) (Memᴰ.tail m) e = Memᴰ.tail (update-same r xs m e)

  -- A statement that keeps the ids keeps the key.
  pub update-IsKeyed :
      (rows : List Row) → ((r : Row) → (f r).id ≡ r.id) → IsKeyed rows → IsKeyed (update id f rows)
  update-IsKeyed rows kept keyed r r' m m' e = elim (of_update r rows m) [
    | inl (k, h) ↦ elim (of_update r' rows m') [
      | inl (k', h') ↦ keyed r r' k k' e
      | inr (o', k', h', g') ↦ absurd (h (e ∙ ap (λ y. y.id) g' ∙ kept o' ∙ h'))
    ]
    | inr (o, k, h, g) ↦ elim (of_update r' rows m') [
      | inl (k', h') ↦ absurd (h' (sym e ∙ ap (λ y. y.id) g ∙ kept o ∙ h))
      | inr (o', k', h', g') ↦ g ∙ ap f (keyed o o' k k' (h ∙ sym h')) ∙ sym g'
    ]
  ]

pub of_remove :
    (id : ℕ) (r : Row) (rows : List Row) → Memᴰ r (remove id rows) → Memᴰ r rows × (r.id ≢ id)
of_remove id r [] m = elim m [ ]
of_remove id r (x ∷ xs) m = elim (Bool-cases (x.id == id)) [
  | inl k ↦
      let gone : remove id (x ∷ xs) ≡ remove id xs = ground (arith, k) in
      let (n, h) = of_remove id r xs (subst (Memᴰ r) gone m) in (Memᴰ.tail n, h)
  | inr k ↦
      let kept : remove id (x ∷ xs) ≡ x ∷ remove id xs = ground (arith, k) in
      elim (subst (Memᴰ r) kept m) [
        | Memᴰ.head e ↦ (
          Memᴰ.head e,
          λ h. let o : x.id ≡ id = sym (ap (λ y. y.id) e) ∙ h in ground (arith, k, o),
        )
        | Memᴰ.tail m' ↦ let (n, h) = of_remove id r xs m' in (Memᴰ.tail n, h)
      ]
]

pub remove-other :
    (id : ℕ) (r : Row) (rows : List Row) → Memᴰ r rows → r.id ≢ id → Memᴰ r (remove id rows)
remove-other id r [] m e = elim m [ ]
remove-other id r (x ∷ xs) m e = elim (Bool-cases (x.id == id)) [
  | inl k ↦
      let gone : remove id xs ≡ remove id (x ∷ xs) = ground (arith, k) in
      subst (Memᴰ r) gone (elim m [
        | Memᴰ.head h ↦ absurd (e (ap (λ y. y.id) h ∙ ground (arith, k)))
        | Memᴰ.tail n ↦ remove-other id r xs n e
      ])
  | inr k ↦
      let kept : x ∷ remove id xs ≡ remove id (x ∷ xs) = ground (arith, k) in
      subst (Memᴰ r) kept
        (elim m [ Memᴰ.head h ↦ Memᴰ.head h | Memᴰ.tail n ↦ Memᴰ.tail (remove-other id r xs n e) ])
]

module _ (now : Time) where
  pub of_reap :
      (r : Row) (rows : List Row)
      → Memᴰ r (reap_expired_leases now rows)
      → (o : Row) × Memᴰ o rows × (r ≡ reap_row now o)
  of_reap r [] m = elim m [ ]
  of_reap r (x ∷ xs) (Memᴰ.head e) = (x, Memᴰ.head refl, e)
  of_reap r (x ∷ xs) (Memᴰ.tail m) = let (o, k, e) = of_reap r xs m in (o, Memᴰ.tail k, e)

  pub in_reap :
      (r : Row) (rows : List Row)
      → Memᴰ r rows
      → Memᴰ (reap_row now r) (reap_expired_leases now rows)
  in_reap r [] m = elim m [ ]
  in_reap r (x ∷ xs) (Memᴰ.head e) = Memᴰ.head (ap (reap_row now) e)
  in_reap r (x ∷ xs) (Memᴰ.tail m) = Memᴰ.tail (in_reap r xs m)

  pub of_sweep : (r : Row) (rows : List Row) → Memᴰ r (sweep_retained now rows) → Memᴰ r rows
  of_sweep r [] m = elim m [ ]
  of_sweep r (x ∷ xs) m = elim (Bool-cases (is_past_retention now x)) [
    | inl k ↦
        let gone : sweep_retained now (x ∷ xs) ≡ sweep_retained now xs = rw k refl in
        Memᴰ.tail (of_sweep r xs (subst (Memᴰ r) gone m))
    | inr k ↦
        let kept : sweep_retained now (x ∷ xs) ≡ x ∷ sweep_retained now xs = rw k refl in
        elim (subst (Memᴰ r) kept m) [
          | Memᴰ.head e ↦ Memᴰ.head e
          | Memᴰ.tail m' ↦ Memᴰ.tail (of_sweep r xs m')
        ]
  ]

  pub in_sweep :
      (r : Row) (rows : List Row)
      → Memᴰ r rows
      → is_past_retention now r ≡ false
      → Memᴰ r (sweep_retained now rows)
  in_sweep r [] m e = elim m [ ]
  in_sweep r (x ∷ xs) m e = elim (Bool-cases (is_past_retention now x)) [
    | inl k ↦
        let gone : sweep_retained now xs ≡ sweep_retained now (x ∷ xs) = rw k refl in
        subst (Memᴰ r) gone (elim m [
          | Memᴰ.head h ↦
              let live : is_past_retention now x ≡ false =
                subst (λ y. is_past_retention now y ≡ false) h e in
              cc
          | Memᴰ.tail n ↦ in_sweep r xs n e
        ])
    | inr k ↦
        let kept : x ∷ sweep_retained now xs ≡ sweep_retained now (x ∷ xs) = rw k refl in
        subst (Memᴰ r) kept
          (elim m [ Memᴰ.head h ↦ Memᴰ.head h | Memᴰ.tail n ↦ Memᴰ.tail (in_sweep r xs n e) ])
  ]
