-- ===== src/Jobqueue/Claims.antt =====
-- server.go, `claimNext`: who gets which row.
use mathlib.Core.Path.{subst}
use mathlib.Core.List.{Memᴰ}
use isp.Common.{
  ℕ, zero, suc, ◌<◌, ◌≡◌, ◌≢◌, refl, sym, ap, ◌∙◌, inl, inr, String, true, false, none, some, List,
  [], ◌∷◌, ◌++◌, ◌==◌, arith, Bool-cases, Option-cases,
}
use isp.Common.Clock.{Time, Duration}
use isp.Jobqueue.Task.{is_pending, Row}
use isp.Jobqueue.Server.{
  WeightedQueue, repeat, selection_order, is_due, is_before, first_due, update, claimed, claim_from,
  claim_next,
}

pub first_due-due :
    (now : Time) (q : String) (rows : List Row) (r : Row)
    → first_due now q rows ≡ some r
    → Memᴰ r rows × (is_due now q r ≡ true)
first_due-due now q [] r h = ground (arith, h)
first_due-due now q (x ∷ xs) r h = elim (Bool-cases (is_due now q x)) [
  | inr e ↦ let (m, k) = first_due-due now q xs r (ground (arith, h, e)) in (Memᴰ.tail m, k)
  | inl e ↦ elim (Option-cases (first_due now q xs)) [
    | inl n ↦ let same : r ≡ x = ground (arith, h, e, n) in (Memᴰ.head same, rw same e)
    | inr (b, f) ↦ elim (Bool-cases (is_before b x)) [
      | inl c ↦
          let (m, k) = first_due-due now q xs r (ground (arith, h, e, f, c)) in (Memᴰ.tail m, k)
      | inr c ↦ let same : r ≡ x = ground (arith, h, e, f, c) in (Memᴰ.head same, rw same e)
    ]
  ]
]

pub first_due-none :
    (now : Time) (q : String) (rows : List Row) (r : Row)
    → first_due now q rows ≡ none
    → Memᴰ r rows
    → is_due now q r ≡ false
first_due-none now q [] r h m = elim m [ ]
first_due-none now q (x ∷ xs) r h (Memᴰ.head e) = rw e (elim (Option-cases (first_due now q xs)) [
  | inl n ↦ ground (arith, h, n)
  | inr (b, f) ↦ ground (arith, h, f)
])
first_due-none now q (x ∷ xs) r h (Memᴰ.tail m) =
    first_due-none now q xs r
      (elim (Option-cases (first_due now q xs)) [ inl n ↦ n | inr (b, f) ↦ ground (arith, h, f) ]) m

update-claimed :
    (now : Time) (w : String) (d : Duration) (id : ℕ) (rows : List Row) (r : Row)
    → Memᴰ r (update id (claimed now w d) rows)
    → r.id ≡ id
    → is_pending r.status ≡ false
update-claimed now w d id [] r m e = elim m [ ]
update-claimed now w d id (x ∷ xs) r (Memᴰ.head h) e = elim (Bool-cases (x.id == id)) [
  | inl k ↦
      let same : r ≡ claimed now w d x = ground (arith, h, k) in ap (λ y. is_pending y.status) same
  | inr k ↦
      let same : r ≡ x = ground (arith, h, k) in
      let id_is = sym (ap (λ y. y.id) same) ∙ e in ground (arith, k, id_is)
]
update-claimed now w d id (x ∷ xs) r (Memᴰ.tail m) e = update-claimed now w d id xs r m e

-- The row that a claim hands out: it was due, and afterwards no row with its id is pending.
pub claim_from-claimed :
    (now : Time) (w : String) (d : Duration) (q : String) (rows : List Row) (c : Row)
    → (claim_from now w d q rows).1 ≡ some c
    → (r : Row) × Memᴰ r rows
      × (is_due now q r ≡ true)
      × (c ≡ claimed now w d r)
      × ((claim_from now w d q rows).0 ≡ update r.id (claimed now w d) rows)
unfolding claim_from
claim_from-claimed now w d q rows c h = elim (Option-cases (first_due now q rows)) [
  | inl e ↦ ground (arith, h, e)
  | inr (r, e) ↦
      let (m, due) = first_due-due now q rows r e in
      (r, m, due, ground (arith, h, e), rw (claim_from, e) refl)
]

pub claim_from-none :
    (now : Time) (w : String) (d : Duration) (q : String) (rows : List Row)
    → (claim_from now w d q rows).1 ≡ none
    → first_due now q rows ≡ none
unfolding claim_from
claim_from-none now w d q rows h = elim (Option-cases (first_due now q rows)) [
  | inl e ↦ e
  | inr (r, e) ↦ ground (arith, h, e)
]

pub claim_next-from :
    (now : Time) (w : String) (d : Duration) (order : List String) (rows : List Row) (c : Row)
    → (claim_next now w d order rows).1 ≡ some c
    → (q : String) × (claim_next now w d order rows ≡ claim_from now w d q rows)
      × ((claim_from now w d q rows).1 ≡ some c)
unfolding claim_next
claim_next-from now w d [] rows c h = ground (arith, h)
claim_next-from now w d (q ∷ qs) rows c h = elim (Option-cases (claim_from now w d q rows).1) [
  | inl e ↦
      let step : claim_next now w d (q ∷ qs) rows ≡ claim_next now w d qs rows =
        rw (claim_next, e) refl in
      let (p, f, g) = claim_next-from now w d qs rows c (ap (λ y. y.1) (sym step) ∙ h) in
      (p, step ∙ f, g)
  | inr (t, e) ↦
      let step : claim_next now w d (q ∷ qs) rows ≡ claim_from now w d q rows = ground (arith, e) in
      (q, step, ap (λ y. y.1) (sym step) ∙ h)
]

-- A claimed row is not handed out again, to the same worker or another, by the next claim, however
-- the queues are ordered.
pub claimed_once :
    (now later : Time) (w w' : String) (d d' : Duration) (order order' : List String)
    (rows : List Row) (c c' : Row)
    → (claim_next now w d order rows).1 ≡ some c
    → (claim_next later w' d' order' (claim_next now w d order rows).0).1 ≡ some c'
    → c'.id ≢ c.id
claimed_once now later w w' d d' order order' rows c c' h h' same =
    let (q, f, g) = claim_next-from now w d order rows c h in
    let (r, m, due, c_is, rows_is) = claim_from-claimed now w d q rows c g in
    let (q', f', g') = claim_next-from later w' d' order' (claim_next now w d order rows).0 c' h' in
    let (r', m', due', c'_is, k) =
      claim_from-claimed later w' d' q' (claim_next now w d order rows).0 c' g' in
    let stale =
      update-claimed now w d r.id rows r' (subst (Memᴰ r') (ap (λ y. y.0) f ∙ rows_is) m')
        (sym (ap (λ y. y.id) c'_is) ∙ same ∙ ap (λ y. y.id) c_is) in
    ground (arith, stale, due')

in_repeat : (n : ℕ) (x : String) (rest : List String) → 0 < n → Memᴰ x (repeat n x ++ rest)
in_repeat zero x rest k = absurd (omega arith)
in_repeat (suc n) x rest k = Memᴰ.head refl

past_repeat :
    (n : ℕ) (x y : String) (rest : List String) → Memᴰ x rest → Memᴰ x (repeat n y ++ rest)
past_repeat zero x y rest k = k
past_repeat (suc n) x y rest k = Memᴰ.tail (past_repeat n x y rest k)

in_selection_order :
    (q : WeightedQueue) (qs : List WeightedQueue)
    → 0 < q.weight
    → Memᴰ q qs
    → Memᴰ q.name (selection_order qs)
in_selection_order q [] pos k = elim k [ ]
in_selection_order q (u ∷ us) pos (Memᴰ.head e) =
    rw (sym e) (in_repeat q.weight q.name (selection_order us) pos)
in_selection_order q (u ∷ us) pos (Memᴰ.tail k) =
    past_repeat u.weight q.name u.name (selection_order us) (in_selection_order q us pos k)

claim_next-none :
    (now : Time) (w : String) (d : Duration) (order : List String) (rows : List Row) (q : String)
    (r : Row)
    → Memᴰ q order
    → Memᴰ r rows
    → (claim_next now w d order rows).1 ≡ none
    → is_due now q r ≡ false
unfolding claim_next
claim_next-none now w d [] rows q r k m e = elim k [ ]
claim_next-none now w d (o ∷ os) rows q r k m e =
    elim (Option-cases (claim_from now w d o rows).1) [
      | inr (t, f) ↦ ground (arith, e, f)
      | inl f ↦ elim k [
        | Memᴰ.head same ↦
            rw same (first_due-none now o rows r (claim_from-none now w d o rows f) m)
        | Memᴰ.tail k' ↦ claim_next-none now w d os rows q r k' m (ground (arith, e, f))
      ]
    ]

-- A worker that finds nothing has left no due row on any of its queues, whatever their weights and
-- however the shuffle has ordered them.
pub idle_worker :
    (now : Time) (w : String) (d : Duration) (qs : List WeightedQueue) (order : List String)
    (rows : List Row) (q : WeightedQueue) (r : Row)
    → ((n : String) → Memᴰ n (selection_order qs) → Memᴰ n order)
    → Memᴰ q qs
    → 0 < q.weight
    → Memᴰ r rows
    → (claim_next now w d order rows).1 ≡ none
    → is_due now q.name r ≡ false
idle_worker now w d qs order rows q r shuffled m pos here h =
    claim_next-none now w d order rows q.name r (shuffled q.name (in_selection_order q qs pos m))
      here h
