-- ===== src/Fup/Queued.antt =====
-- scanner.go: the CoA tasks that a scan of the breaches queues.
use mathlib.Core.Path.{subst}
use mathlib.Core.List.{Memᴰ}
use isp.Common.{
  ℕ, ◌≡◌, refl, sym, ap, ◌∙◌, inl, inr, ◌⊎◌, true, false, none, some, List, [], ◌∷◌, ◌++◌, ◌==◌,
  arith, Bool-cases, Option-cases,
}
use isp.Common.Clock.{Time}
use isp.Common.Bytes.{Bytes}
use isp.Jobqueue.Task.{Task, enqueue_context, Row, pending, row_of}
use isp.Jobqueue.Rows.{in-++-old}
use isp.Jobqueue.Statements.{enqueue_context-rows}
use isp.Fup.Breaches.{has_id-Mem, above-Mem, above-is_breach, coa_sent-subscribers, write_row-some}
use isp.Fup.Settled.{breach-goes_on}
use isp.Fup.Scanner.{
  Subscriber, SessionStats, stats_of, is_above, get_active_sessions_above_fup, has_id, update,
  flagged, write_row, Fup, Formats, Faults, is_breach, enqueue, throttled_task, coa_task, put,
  enqueue_throttled_notice, coa_sent, flag_set, breach, breaches_of, scan_breaches,
}

-- A pending row of the network queue with this payload.
abbrev pub IsQueued : Bytes → List Row → Type 0
IsQueued payload rows =
    (r : Row) × Memᴰ r rows
    × (r.payload ≡ payload)
    × (r.queue ≡ "network_commands")
    × (r.task_type ≡ "network:coa_send")
    × (r.status ≡ pending)

in-++-new : (r : Row) (rows : List Row) → Memᴰ r (rows ++ r ∷ [])
in-++-new r [] = Memᴰ.head refl
in-++-new r (x ∷ xs) = Memᴰ.tail (in-++-new r xs)

has_id-update :
    (id k : ℕ) (rows : List Subscriber)
    → has_id id rows ≡ true
    → has_id id (update k flagged rows) ≡ true
has_id-update id k [] h = h
has_id-update id k (r ∷ rs) h = elim (Bool-cases (r.id == k)) [
  | inl e ↦ rw e (ground (arith, h, has_id-update id k rs))
  | inr e ↦ rw e (ground (arith, h, has_id-update id k rs))
]

enqueue_context-keeps :
    (now : Time) (task : Task) (s : Fup) (y : Row)
    → Memᴰ y s.queue.rows
    → Memᴰ y (enqueue_context now task [] s.queue).0.rows
enqueue_context-keeps now task s y m = elim (enqueue_context-rows now task [] s.queue) [
  | inl e ↦ subst (λ t. Memᴰ y t.rows) (sym e) m
  | inr (o, e, fresh) ↦
      subst (λ t. Memᴰ y t.rows) (sym e)
        (in-++-old y (row_of now s.queue.next_id task o) s.queue.rows m)
]

module _ (fmt : Formats) (faults : Faults) where
  enqueue-cases :
      (now : Time) (task : Task) (s : Fup)
      → let q = enqueue_context now task [] s.queue in
        (enqueue fmt faults now task s ≡ none)
        ⊎ (enqueue fmt faults now task s ≡ some (put q.0 s, q.1))
  unfolding enqueue
  enqueue-cases now task s = elim (Bool-cases (faults.refuses_task task)) [
    | inl h ↦ inl (rw (enqueue, h) refl)
    | inr h ↦ inr (rw (enqueue, h) refl)
  ]

  notice-keeps :
      (now : Time) (x : SessionStats) (s : Fup) (y : Row)
      → Memᴰ y s.queue.rows
      → Memᴰ y (enqueue_throttled_notice fmt faults now x s).queue.rows
  unfolding enqueue_throttled_notice
  notice-keeps now x s y m =
      elim (Option-cases (fmt.throttled_payload x.subscriber_id x.username x.fup_throttle)) [
        | inl e ↦ rw (enqueue_throttled_notice, e) m
        | inr (payload, e) ↦
            let task = throttled_task fmt faults x payload in
            elim (enqueue-cases now task s) [
              | inl h ↦ rw (enqueue_throttled_notice, e, h) m
              | inr h ↦ rw (enqueue_throttled_notice, e, h) (enqueue_context-keeps now task s y m)
            ]
      ]

  abbrev coa_of : SessionStats → Task
  coa_of x = coa_task (fmt.coa_payload x.subscriber_id x.nas_ip)

  coa_sent-keeps :
      (now : Time) (x : SessionStats) (s : Fup) (y : Row)
      → Memᴰ y s.queue.rows
      → Memᴰ y (coa_sent fmt faults now x s (enqueue fmt faults now (coa_of x) s)).0.queue.rows
  coa_sent-keeps now x s y m = elim (enqueue-cases now (coa_of x) s) [
    | inl h ↦ rw h m
    | inr h ↦ rw h (
        notice-keeps now x (put (enqueue_context now (coa_of x) [] s.queue).0 s) y
          (enqueue_context-keeps now (coa_of x) s y m))
  ]

  coa_sent-IsQueued :
      (now : Time) (x : SessionStats) (s : Fup)
      → faults.refuses_task (coa_of x) ≡ false
      → IsQueued
          (fmt.coa_payload x.subscriber_id x.nas_ip)
          (coa_sent fmt faults now x s (enqueue fmt faults now (coa_of x) s)).0.queue.rows
  unfolding enqueue enqueue_context
  coa_sent-IsQueued now x s h =
      let q = enqueue_context now (coa_of x) [] s.queue in
      let r = row_of now s.queue.next_id (coa_of x) (coa_of x).opts in
      let e : enqueue fmt faults now (coa_of x) s ≡ some (put q.0 s, q.1) = rw (enqueue, h) refl in
      (
        r,
        rw e (notice-keeps now x (put q.0 s) r (in-++-new r s.queue.rows)),
        refl,
        refl,
        refl,
        refl,
      )

  abbrev flagged_state : SessionStats → Fup → Fup
  flagged_state x s = record s { subscribers = update x.subscriber_id flagged s.subscribers }

  breach-cases :
      (now : Time) (x : SessionStats) (s : Fup)
      → ((breach fmt faults now x s).0 ≡ s)
        ⊎ (breach fmt faults now x s
            ≡ coa_sent fmt faults now x
                (flagged_state x s)
                (enqueue fmt faults now (coa_of x) (flagged_state x s)))
  unfolding breach
  breach-cases now x s = elim (Bool-cases (is_breach x)) [
    | inl b ↦
        let o = write_row faults.refuses_flag x.subscriber_id flagged s in
        let step : breach fmt faults now x s ≡ flag_set fmt faults now x s o =
          rw (breach, b) refl in
        elim (Option-cases o) [
          | inl w ↦ inl (ap (λ z. z.0) (step ∙ ap (λ w'. flag_set fmt faults now x s w') w))
          | inr (s', w) ↦
              let s'_is = write_row-some faults.refuses_flag x.subscriber_id s s' flagged w in
              inr (
                step
                ∙ ap (λ w'. flag_set fmt faults now x s w') w
                ∙ ap (λ z. coa_sent fmt faults now x z (enqueue fmt faults now (coa_of x) z)) s'_is)
        ]
    | inr b ↦ inl (rw (breach, b) refl)
  ]

  -- What a breach keeps: the rows of the queue, and the subscribers' ids.
  breach-keeps :
      (now : Time) (x : SessionStats) (s : Fup) (y : Row)
      → Memᴰ y s.queue.rows
      → Memᴰ y (breach fmt faults now x s).0.queue.rows
  breach-keeps now x s y m = elim (breach-cases now x s) [
    | inl e ↦ subst (λ z. Memᴰ y z.queue.rows) (sym e) m
    | inr e ↦
        subst (λ z. Memᴰ y z.0.queue.rows) (sym e) (coa_sent-keeps now x (flagged_state x s) y m)
  ]

  breach-has_id :
      (now : Time) (x : SessionStats) (s : Fup) (id : ℕ)
      → has_id id s.subscribers ≡ true
      → has_id id (breach fmt faults now x s).0.subscribers ≡ true
  breach-has_id now x s id h = elim (breach-cases now x s) [
    | inl e ↦ ap (λ z. has_id id z.subscribers) e ∙ h
    | inr e ↦
        let s' = flagged_state x s in
        ap (λ z. has_id id z.0.subscribers) e
        ∙ ap (λ l. has_id id l)
            (coa_sent-subscribers fmt faults now x s' (enqueue fmt faults now (coa_of x) s') refl)
        ∙ has_id-update id x.subscriber_id s.subscribers h
  ]

  breach-IsQueued :
      (now : Time) (x : SessionStats) (s : Fup)
      → is_breach x ≡ true
      → has_id x.subscriber_id s.subscribers ≡ true
      → faults.refuses_flag x.subscriber_id ≡ false
      → faults.refuses_task (coa_of x) ≡ false
      → IsQueued (fmt.coa_payload x.subscriber_id x.nas_ip) (breach fmt faults now x s).0.queue.rows
  unfolding breach
  breach-IsQueued now x s b i f h =
      let s' = record s { subscribers = update x.subscriber_id flagged s.subscribers } in
      let w : write_row faults.refuses_flag x.subscriber_id flagged s ≡ some s' = rw (f, i) refl in
      let step : breach fmt faults now x s
          ≡ coa_sent fmt faults now x s' (enqueue fmt faults now (coa_of x) s') =
        rw (breach, b, w) refl in
      subst (λ z. IsQueued (fmt.coa_payload x.subscriber_id x.nas_ip) z.0.queue.rows) (sym step)
        (coa_sent-IsQueued now x s' h)

  breaches_of-keeps :
      (now : Time) (xs : List SessionStats) (s : Fup) (y : Row)
      → Memᴰ y s.queue.rows
      → Memᴰ y (breaches_of fmt faults now xs s).0.queue.rows
  unfolding breaches_of
  breaches_of-keeps now [] s y m = m
  breaches_of-keeps now (x ∷ xs) s y m =
      let k = breach-keeps now x s y m in
      elim (Bool-cases (breach fmt faults now x s).1) [
        | inl h ↦ rw (breaches_of, h) (breaches_of-keeps now xs (breach fmt faults now x s).0 y k)
        | inr h ↦ rw (breaches_of, h) k
      ]

  module _ (accepts : (x : SessionStats) → faults.refuses_task (coa_of x) ≡ false) where
    breaches_of-IsQueued :
        (now : Time) (xs : List SessionStats) (s : Fup) (x : SessionStats)
        → Memᴰ x xs
        → is_breach x ≡ true
        → has_id x.subscriber_id s.subscribers ≡ true
        → faults.refuses_flag x.subscriber_id ≡ false
        → IsQueued
            (fmt.coa_payload x.subscriber_id x.nas_ip)
            (breaches_of fmt faults now xs s).0.queue.rows
    unfolding breaches_of
    breaches_of-IsQueued now [] s x m b i f = elim m [ ]
    breaches_of-IsQueued now (y ∷ ys) s x m b i f =
        let d = breach fmt faults now y s in
        let step : breaches_of fmt faults now (y ∷ ys) s ≡ breaches_of fmt faults now ys d.0 =
          rw (breaches_of, breach-goes_on fmt faults now y s (accepts y)) refl in
        subst (λ z. IsQueued (fmt.coa_payload x.subscriber_id x.nas_ip) z.0.queue.rows) (sym step)
          (elim m [
            | Memᴰ.head e ↦
                let (r, n, q1, q2, q3, q4) =
                  subst
                    (λ z.
                      IsQueued (fmt.coa_payload z.subscriber_id z.nas_ip)
                        (breach fmt faults now y s).0.queue.rows)
                    (sym e)
                    (breach-IsQueued now y s (sym (ap is_breach e) ∙ b)
                      (sym (ap (λ z. has_id z.subscriber_id s.subscribers) e) ∙ i)
                      (sym (ap (λ z. faults.refuses_flag z.subscriber_id) e) ∙ f) (accepts y)) in
                (r, breaches_of-keeps now ys d.0 r n, q1, q2, q3, q4)
            | Memᴰ.tail n ↦
                breaches_of-IsQueued now ys d.0 x n b (breach-has_id now y s x.subscriber_id i) f
          ])

    -- Where the queue takes the CoA tasks, a scan queues one for every subscriber above the
    -- threshold whose flag it can write.
    pub scan_breaches_queues :
        (now : Time) (s : Fup) (r : Subscriber)
        → Memᴰ r s.subscribers
        → is_above r ≡ true
        → faults.refuses_flag r.id ≡ false
        → IsQueued (fmt.coa_payload r.id r.nas_ip) (scan_breaches fmt faults now s).0.queue.rows
    unfolding scan_breaches get_active_sessions_above_fup
    scan_breaches_queues now s r m a f =
        breaches_of-IsQueued now (get_active_sessions_above_fup s.subscribers) s (stats_of r)
          (above-Mem r s.subscribers m a) (above-is_breach r a)
          (has_id-Mem r.id r s.subscribers m (ground arith)) f
