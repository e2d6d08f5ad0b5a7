-- ===== src/Fup/Breaches.antt =====
-- scanner.go: the subscribers that are above their threshold after some breaches.
use mathlib.Core.Path.{subst}
use mathlib.Core.List.{Memᴰ}
use isp.Common.{
  some_injective, ℕ, ◌≡◌, refl, sym, ap, ◌∙◌, inl, inr, ◌⊎◌, Bool, true, false, Option, none, some,
  List, [], ◌∷◌, ◌==◌, arith, Bool-cases, Option-cases,
}
use isp.Common.Clock.{Time}
use isp.Jobqueue.Task.{Task, Enqueued, enqueue_context}
use isp.Fup.Scanner.{
  Subscriber, SessionStats, stats_of, is_above, sessions_where, has_id, update, flagged, write_row,
  Fup, Formats, Faults, put, is_breach, enqueue, throttled_task, coa_task, enqueue_throttled_notice,
  coa_sent, flag_set, breach, breaches_of,
}

-- A subscriber above the threshold is none that `flagged` has been applied to.
pub above_in-update :
    (id : ℕ) (r : Subscriber) (rows : List Subscriber)
    → Memᴰ r (update id flagged rows)
    → is_above r ≡ true
    → Memᴰ r rows × ((r.id == id) ≡ false)
unfolding is_above
above_in-update id r [] m a = elim m [ ]
above_in-update id r (y ∷ ys) (Memᴰ.head e) a = elim (Bool-cases (y.id == id)) [
  | inl h ↦
      let e' : r ≡ flagged y = e ∙ rw h refl in
      absurd (ground (arith, ap (λ z. z.fup_active) e', a))
  | inr h ↦ let e' : r ≡ y = e ∙ rw h refl in (Memᴰ.head e', ap (λ z. z.id == id) e' ∙ h)
]
above_in-update id r (y ∷ ys) (Memᴰ.tail m) a =
    let (k, h) = above_in-update id r ys m a in (Memᴰ.tail k, h)

pub has_id-Mem :
    (id : ℕ) (r : Subscriber) (rows : List Subscriber)
    → Memᴰ r rows
    → (r.id == id) ≡ true
    → has_id id rows ≡ true
has_id-Mem id r [] m h = elim m [ ]
has_id-Mem id r (y ∷ ys) (Memᴰ.head e) h = ground (arith, ap (λ z. z.id == id) e, h)
has_id-Mem id r (y ∷ ys) (Memᴰ.tail m) h = ground (arith, has_id-Mem id r ys m h)

pub above-Mem :
    (r : Subscriber) (rows : List Subscriber)
    → Memᴰ r rows
    → is_above r ≡ true
    → Memᴰ (stats_of r) (sessions_where is_above rows)
above-Mem r [] m a = elim m [ ]
above-Mem r (y ∷ ys) (Memᴰ.head e) a =
    let h : is_above y ≡ true = ap is_above (sym e) ∙ a in rw h (Memᴰ.head (ap stats_of e))
above-Mem r (y ∷ ys) (Memᴰ.tail m) a = elim (Bool-cases (is_above y)) [
  | inl h ↦ rw h (Memᴰ.tail (above-Mem r ys m a))
  | inr h ↦ rw h (above-Mem r ys m a)
]

pub above-is_breach : (r : Subscriber) → is_above r ≡ true → is_breach (stats_of r) ≡ true
unfolding is_above
above-is_breach r a = ground (arith, a)

pub write_row-refused :
    (refuses : ℕ → Bool) (id : ℕ) (s : Fup) (f : Subscriber → Subscriber)
    → write_row refuses id f s ≡ none
    → (refuses id ≡ true) ⊎ (has_id id s.subscribers ≡ false)
write_row-refused refuses id s f e = ground (arith, e)

pub write_row-some :
    (refuses : ℕ → Bool) (id : ℕ) (s s' : Fup) (f : Subscriber → Subscriber)
    → write_row refuses id f s ≡ some s'
    → s' ≡ record s { subscribers = update id f s.subscribers }
write_row-some refuses id s s' f e = elim (Bool-cases (refuses id)) [
  | inl h ↦ absurd (ground (arith, e, h))
  | inr h ↦ elim (Bool-cases (has_id id s.subscribers)) [
    | inl k ↦
        let e' : write_row refuses id f s
            ≡ some (record s { subscribers = update id f s.subscribers }) =
          rw (h, k) refl in
        some_injective (sym e ∙ e')
    | inr k ↦ absurd (ground (arith, e, h, k))
  ]
]

module _ (fmt : Formats) (faults : Faults) where
  enqueue-subscribers :
      (now : Time) (task : Task) (s : Fup) (r : Fup × Enqueued)
      → enqueue fmt faults now task s ≡ some r
      → r.0.subscribers ≡ s.subscribers
  unfolding enqueue
  enqueue-subscribers now task s r e = elim (Bool-cases (faults.refuses_task task)) [
    | inl h ↦ absurd (ground (arith, e, h))
    | inr h ↦
        let q = enqueue_context now task [] s.queue in
        let e' : enqueue fmt faults now task s ≡ some (put q.0 s, q.1) = rw (enqueue, h) refl in
        ap (λ z. z.0.subscribers) (some_injective (sym e ∙ e'))
  ]

  pub notice-subscribers :
      (now : Time) (x : SessionStats) (s : Fup)
      → (enqueue_throttled_notice fmt faults now x s).subscribers ≡ s.subscribers
  unfolding enqueue_throttled_notice
  notice-subscribers now x s =
      elim (Option-cases (fmt.throttled_payload x.subscriber_id x.username x.fup_throttle)) [
        | inl e ↦ rw (enqueue_throttled_notice, e) refl
        | inr (payload, e) ↦
            elim (Option-cases (enqueue fmt faults now (throttled_task fmt faults x payload) s)) [
              | inl h ↦ rw (enqueue_throttled_notice, e, h) refl
              | inr (r, h) ↦
                  rw (enqueue_throttled_notice, e, h)
                    (enqueue-subscribers now (throttled_task fmt faults x payload) s r h)
            ]
      ]

  pub coa_sent-subscribers :
      (now : Time) (x : SessionStats) (s : Fup) (o : Option (Fup × Enqueued))
      → enqueue fmt faults now (coa_task (fmt.coa_payload x.subscriber_id x.nas_ip)) s ≡ o
      → (coa_sent fmt faults now x s o).0.subscribers ≡ s.subscribers
  coa_sent-subscribers now x s none e = refl
  coa_sent-subscribers now x s (some r) e =
      notice-subscribers now x r.0
      ∙ enqueue-subscribers now (coa_task (fmt.coa_payload x.subscriber_id x.nas_ip)) s r e

  -- What the breach of a session leaves above the threshold was there before, and is not that
  -- session's subscriber if the flag could be written.
  flag_set-above :
      (now : Time) (x : SessionStats) (s : Fup) (o : Option Fup) (r : Subscriber)
      → write_row faults.refuses_flag x.subscriber_id flagged s ≡ o
      → Memᴰ r (flag_set fmt faults now x s o).0.subscribers
      → is_above r ≡ true
      → Memᴰ r s.subscribers
        × ((r.id == x.subscriber_id) ≡ true → faults.refuses_flag x.subscriber_id ≡ true)
  flag_set-above now x s none r e m a = (
    m,
    λ i. elim (write_row-refused faults.refuses_flag x.subscriber_id s flagged e) [
      | inl h ↦ h
      | inr h ↦ absurd (ground (arith, h, has_id-Mem x.subscriber_id r s.subscribers m i))
    ],
  )
  flag_set-above now x s (some s') r e m a =
      let coa = enqueue fmt faults now (coa_task (fmt.coa_payload x.subscriber_id x.nas_ip)) s' in
      let rows =
        coa_sent-subscribers now x s' coa refl
        ∙ ap (λ z. z.subscribers)
            (write_row-some faults.refuses_flag x.subscriber_id s s' flagged e) in
      let (k, h) =
        above_in-update x.subscriber_id r s.subscribers (subst (λ l. Memᴰ r l) rows m) a in
      (k, λ i. absurd (ground (arith, h, i)))

  breach-above :
      (now : Time) (x : SessionStats) (s : Fup) (r : Subscriber)
      → Memᴰ r (breach fmt faults now x s).0.subscribers
      → is_above r ≡ true
      → Memᴰ r s.subscribers
        × (is_breach x ≡ true
            → (r.id == x.subscriber_id) ≡ true
            → faults.refuses_flag x.subscriber_id ≡ true)
  unfolding breach
  breach-above now x s r m a =
      let o = write_row faults.refuses_flag x.subscriber_id flagged s in
      elim (Bool-cases (is_breach x)) [
        | inl h ↦
            let step : breach fmt faults now x s ≡ flag_set fmt faults now x s o =
              rw (breach, h) refl in
            let (k, f) =
              flag_set-above now x s o r refl (subst (λ b. Memᴰ r b.0.subscribers) step m) a in
            (k, λ b i. f i)
        | inr h ↦
            let step : breach fmt faults now x s ≡ (s, true) = rw (breach, h) refl in
            (subst (λ b. Memᴰ r b.0.subscribers) step m, λ b i. absurd (ground (arith, h, b)))
      ]

  pub breaches_of-above :
      (now : Time) (xs : List SessionStats) (s : Fup) (r : Subscriber)
      → (breaches_of fmt faults now xs s).1 ≡ true
      → Memᴰ r (breaches_of fmt faults now xs s).0.subscribers
      → is_above r ≡ true
      → Memᴰ r s.subscribers
        × ((x : SessionStats)
            → Memᴰ x xs
            → is_breach x ≡ true
            → (r.id == x.subscriber_id) ≡ true
            → faults.refuses_flag x.subscriber_id ≡ true)
  unfolding breaches_of
  breaches_of-above now [] s r e m a = (m, λ x k. elim k [ ])
  breaches_of-above now (x ∷ xs) s r e m a = elim (Bool-cases (breach fmt faults now x s).1) [
    | inl h ↦
        let b = breach fmt faults now x s in
        let step : breaches_of fmt faults now (x ∷ xs) s ≡ breaches_of fmt faults now xs b.0 =
          rw (breaches_of, h) refl in
        let (k, f) =
          breaches_of-above now xs b.0 r (sym (ap (λ z. z.1) step) ∙ e)
            (subst (λ z. Memᴰ r z.0.subscribers) step m) a in
        let (k', f') = breach-above now x s r k a in
        (
          k',
          λ y n c i. elim n [
            | Memᴰ.head y_is ↦
                ap (λ z. faults.refuses_flag z.subscriber_id) y_is
                ∙ f' (sym (ap is_breach y_is) ∙ c)
                    (sym (ap (λ z. r.id == z.subscriber_id) y_is) ∙ i)
            | Memᴰ.tail n' ↦ f y n' c i
          ],
        )
    | inr h ↦ absurd (ground (arith, e, h))
  ]
