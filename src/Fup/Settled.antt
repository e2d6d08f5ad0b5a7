-- ===== src/Fup/Settled.antt =====
-- scanner.go: what a scan leaves of the subscribers above their threshold.
use mathlib.Core.Path.{subst}
use mathlib.Core.List.{Memᴰ}
use isp.Common.{
  ◌≡◌, refl, sym, ap, ◌∙◌, inl, inr, true, false, none, some, List, [], ◌∷◌, ◌==◌, arith,
  Bool-cases, Option-cases,
}
use isp.Common.Clock.{Time}
use isp.Jobqueue.Task.{Task}
use isp.Fup.Breaches.{above_in-update, has_id-Mem, above-Mem, above-is_breach, breaches_of-above}
use isp.Fup.Scanner.{
  Subscriber, SessionStats, stats_of, is_above, sessions_where, get_active_sessions_above_fup,
  has_id, update, flagged, write_row, Fup, Formats, Faults, is_breach, enqueue, coa_task, coa_sent,
  flag_set, breach, breaches_of, scan_breaches,
}

of_above :
    (x : SessionStats) (rows : List Subscriber)
    → Memᴰ x (sessions_where is_above rows)
    → (r : Subscriber) × Memᴰ r rows × (x ≡ stats_of r) × (is_above r ≡ true)
of_above x [] m = elim m [ ]
of_above x (y ∷ ys) m = elim (Bool-cases (is_above y)) [
  | inl h ↦
      let step : sessions_where is_above (y ∷ ys) ≡ stats_of y ∷ sessions_where is_above ys =
        rw h refl in
      elim (subst (λ l. Memᴰ x l) step m) [
        | Memᴰ.head e ↦ (y, Memᴰ.head refl, e, h)
        | Memᴰ.tail n ↦ let (r, k, e, a) = of_above x ys n in (r, Memᴰ.tail k, e, a)
      ]
  | inr h ↦
      let step : sessions_where is_above (y ∷ ys) ≡ sessions_where is_above ys = rw h refl in
      let (r, k, e, a) = of_above x ys (subst (λ l. Memᴰ x l) step m) in (r, Memᴰ.tail k, e, a)
]

module _ (fmt : Formats) (faults : Faults) where
  refused_task :
      (now : Time) (task : Task) (s : Fup)
      → faults.refuses_task task ≡ true
      → enqueue fmt faults now task s ≡ none
  unfolding enqueue
  refused_task now task s h = rw (enqueue, h) refl

  coa_sent_ok :
      (now : Time) (x : SessionStats) (s : Fup)
      → faults.refuses_task (coa_task (fmt.coa_payload x.subscriber_id x.nas_ip)) ≡ false
      → (coa_sent fmt faults now x s
          (enqueue fmt faults now (coa_task (fmt.coa_payload x.subscriber_id x.nas_ip)) s)).1
        ≡ true
  unfolding enqueue
  coa_sent_ok now x s h = rw (enqueue, h) refl

  pub breach-goes_on :
      (now : Time) (x : SessionStats) (s : Fup)
      → faults.refuses_task (coa_task (fmt.coa_payload x.subscriber_id x.nas_ip)) ≡ false
      → (breach fmt faults now x s).1 ≡ true
  unfolding breach
  breach-goes_on now x s h = elim (Bool-cases (is_breach x)) [
    | inl b ↦
        let o = write_row faults.refuses_flag x.subscriber_id flagged s in
        let step : breach fmt faults now x s ≡ flag_set fmt faults now x s o =
          rw (breach, b) refl in
        elim (Option-cases o) [
          | inl w ↦ ap (λ z. z.1) (step ∙ ap (λ w'. flag_set fmt faults now x s w') w)
          | inr (s', w) ↦
              ap (λ z. z.1) (step ∙ ap (λ w'. flag_set fmt faults now x s w') w)
              ∙ coa_sent_ok now x s' h
        ]
    | inr b ↦ rw (breach, b) refl
  ]

  breaches_of-ends :
      (now : Time) (xs : List SessionStats) (s : Fup)
      → ((task : SessionStats)
          → faults.refuses_task (coa_task (fmt.coa_payload task.subscriber_id task.nas_ip)) ≡ false)
      → (breaches_of fmt faults now xs s).1 ≡ true
  unfolding breaches_of
  breaches_of-ends now [] s h = refl
  breaches_of-ends now (x ∷ xs) s h =
      let b = breach fmt faults now x s in
      let step : breaches_of fmt faults now (x ∷ xs) s ≡ breaches_of fmt faults now xs b.0 =
        rw (breaches_of, breach-goes_on now x s (h x)) refl in
      ap (λ z. z.1) step ∙ breaches_of-ends now xs b.0 h

  -- A scan of the breaches goes to its end where the queue takes the CoA tasks, and whoever is above
  -- the threshold after it was so before, and is a subscriber whose flag the database refused.
  pub scan_breaches_settles :
      (now : Time) (s : Fup)
      → ((x : SessionStats)
          → faults.refuses_task (coa_task (fmt.coa_payload x.subscriber_id x.nas_ip)) ≡ false)
      → ((scan_breaches fmt faults now s).1 ≡ true)
        × ((r : Subscriber)
            → Memᴰ r (scan_breaches fmt faults now s).0.subscribers
            → is_above r ≡ true
            → Memᴰ r s.subscribers × (faults.refuses_flag r.id ≡ true))
  unfolding scan_breaches get_active_sessions_above_fup
  scan_breaches_settles now s h =
      let xs = get_active_sessions_above_fup s.subscribers in
      let e = breaches_of-ends now xs s h in
      (
        e,
        λ r m a.
            let (k, f) = breaches_of-above fmt faults now xs s r e m a in
            (
              k,
              f (stats_of r) (above-Mem r s.subscribers k a) (above-is_breach r a) (ground arith),
            ),
      )

  -- The queue refuses the CoA task of the first session above the threshold, whose flag could be
  -- written: the scan ends with an error and without a task, and no scan lists that subscriber again
  -- while its row stays as it is.
  pub refused_coa_is_lost :
      (now : Time) (s : Fup) (x : SessionStats) (xs : List SessionStats)
      → get_active_sessions_above_fup s.subscribers ≡ x ∷ xs
      → faults.refuses_flag x.subscriber_id ≡ false
      → faults.refuses_task (coa_task (fmt.coa_payload x.subscriber_id x.nas_ip)) ≡ true
      → ((scan_breaches fmt faults now s).1 ≡ false)
        × ((scan_breaches fmt faults now s).0.queue ≡ s.queue)
        × ((y : SessionStats)
            → Memᴰ y (get_active_sessions_above_fup (scan_breaches fmt faults now s).0.subscribers)
            → (y.subscriber_id == x.subscriber_id) ≡ false)
  unfolding scan_breaches get_active_sessions_above_fup breach breaches_of
  refused_coa_is_lost now s x xs first f c =
      let (o, m, o_is, a) =
        of_above x s.subscribers (subst (λ l. Memᴰ x l) (sym first) (Memᴰ.head refl)) in
      let s' = record s { subscribers = update x.subscriber_id flagged s.subscribers } in
      let found : has_id x.subscriber_id s.subscribers ≡ true =
        has_id-Mem x.subscriber_id o s.subscribers m
          (ap (λ z. o.id == z.subscriber_id) o_is ∙ ground arith) in
      let wrote : write_row faults.refuses_flag x.subscriber_id flagged s ≡ some s' =
        rw (f, found) refl in
      let refused : enqueue fmt faults now (coa_task (fmt.coa_payload x.subscriber_id x.nas_ip)) s'
          ≡ none =
        refused_task now (coa_task (fmt.coa_payload x.subscriber_id x.nas_ip)) s' c in
      let is_b : is_breach x ≡ true = ap is_breach o_is ∙ above-is_breach o a in
      let step : breach fmt faults now x s ≡ (s', false) = rw (breach, is_b, wrote, refused) refl in
      let all : scan_breaches fmt faults now s ≡ (s', false) =
        rw (scan_breaches, get_active_sessions_above_fup, first, breaches_of, step) refl in
      (
        ap (λ z. z.1) all,
        ap (λ z. z.0.queue) all,
        λ y n.
            let (o', m', o'_is, a') =
              of_above y (update x.subscriber_id flagged s.subscribers)
                (subst (λ z. Memᴰ y (sessions_where is_above z.0.subscribers)) all n) in
            ap (λ z. z.subscriber_id == x.subscriber_id) o'_is
            ∙ (above_in-update x.subscriber_id o' s.subscribers m' a').1,
      )
