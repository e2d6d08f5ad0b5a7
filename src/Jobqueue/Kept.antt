-- ===== src/Jobqueue/Kept.antt =====
-- server.go and client.go: every statement, and so every interleaving of them, keeps the table sound.
use mathlib.Core.Path.{subst}
use mathlib.Core.List.{Memᴰ}
use isp.Common.{
  ℕ, suc, ◌≤◌, ◌<◌, ◌≡◌, refl, sym, ap, ◌∙◌, inl, inr, String, str_eq, eq_iff, Bool, true, false,
  Option, List, [], ◌∷◌, ◌++◌, if◌then◌else◌, arith, Bool-cases,
}
use isp.Common.Clock.{Time, Duration}
use isp.Jobqueue.Task.{Task, Options, Row, Table, row_of, has_task_id, enqueue_context}
use isp.Jobqueue.Server.{
  update, remove, claimed, claim_next, finish, reap_row, reap_expired_leases, sweep_retained,
  completed_row, dead_row, retried_row, has_expired_lease,
}
use isp.Jobqueue.Statements.{enqueue_context-rows, claim_next-rows, finish-rows}
use isp.Jobqueue.Locks.{
  IsSound, lock_agrees, names, not_named, named_as, update-IsSound, fewer-IsSound,
}
use isp.Jobqueue.System.{System, Step, Reach, ReachPrompt}
use isp.Jobqueue.Rows.{in-++, of_remove, of_reap, of_sweep}

clash :
    (now : Time) (task : Task) (o : Options) (t : Table) (n : String) (r : Row)
    → (if str_eq o.task_id "" then false else has_task_id o.task_id t.rows) ≡ false
    → Memᴰ r t.rows
    → names n r ≡ true
    → names n (row_of now t.next_id task o) ≡ true
    → ⊥
clash now task o t n r fresh k e e' = elim (Bool-cases (str_eq o.task_id "")) [
  | inl c ↦ ground (arith, e', c)
  | inr c ↦
      let n_is : o.task_id ≡ n = ground (arith, e', c, eq_iff o.task_id n) in
      let absent : has_task_id o.task_id t.rows ≡ false = ground (arith, fresh, c) in
      let not_r = not_named n t.rows r (subst (λ i. has_task_id i t.rows ≡ false) n_is absent) k in
      ground (arith, not_r, e)
]

-- One row more, at the end, with the next id and a task id that no row has.
grown-IsSound :
    (now : Time) (task : Task) (o : Options) (t : Table)
    → (if str_eq o.task_id "" then false else has_task_id o.task_id t.rows) ≡ false
    → IsSound now t
    → IsSound now
        (record { rows = t.rows ++ row_of now t.next_id task o ∷ []; next_id = suc t.next_id })
grown-IsSound now task o t fresh s = record {
  below = λ r m. elim (in-++ r (row_of now t.next_id task o) t.rows m) [
    | inl k ↦ let b = s.below r k in omega arith
    | inr e ↦ subst (λ y. y.id < suc t.next_id) (sym e) (omega arith)
  ];
  keyed = λ r r' m m' e. elim (in-++ r (row_of now t.next_id task o) t.rows m) [
    | inl k ↦ elim (in-++ r' (row_of now t.next_id task o) t.rows m') [
      | inl k' ↦ s.keyed r r' k k' e
      | inr h' ↦
          let b = s.below r k in
          let i : r.id ≡ t.next_id = e ∙ ap (λ y. y.id) h' in absurd (omega arith)
    ]
    | inr h ↦ elim (in-++ r' (row_of now t.next_id task o) t.rows m') [
      | inl k' ↦
          let b = s.below r' k' in
          let i : r'.id ≡ t.next_id = sym e ∙ ap (λ y. y.id) h in absurd (omega arith)
      | inr h' ↦ h ∙ sym h'
    ]
  ];
  named = λ n r r' m m' e e'. elim (in-++ r (row_of now t.next_id task o) t.rows m) [
    | inl k ↦ elim (in-++ r' (row_of now t.next_id task o) t.rows m') [
      | inl k' ↦ s.named n r r' k k' e e'
      | inr h' ↦ absurd (clash now task o t n r fresh k e (subst (λ y. names n y ≡ true) h' e'))
    ]
    | inr h ↦ elim (in-++ r' (row_of now t.next_id task o) t.rows m') [
      | inl k' ↦ absurd (clash now task o t n r' fresh k' e' (subst (λ y. names n y ≡ true) h e))
      | inr h' ↦ h ∙ sym h'
    ]
  ];
  locked = λ r m. elim (in-++ r (row_of now t.next_id task o) t.rows m) [
    | inl k ↦ s.locked r k
    | inr e ↦ subst (λ y. lock_agrees now y ≡ true) (sym e) refl
  ];
}

pub enqueue_context-IsSound :
    (now : Time) (task : Task) (opts : List (Options → Options)) (t : Table)
    → IsSound now t
    → IsSound now (enqueue_context now task opts t).0
enqueue_context-IsSound now task opts t s = elim (enqueue_context-rows now task opts t) [
  | inl e ↦ subst (IsSound now) (sym e) (record {
    below = λ r m. let b = s.below r m in omega arith;
    keyed = s.keyed;
    named = s.named;
    locked = s.locked;
  })
  | inr (o, e, fresh) ↦ subst (IsSound now) (sym e) (grown-IsSound now task o t fresh s)
]

reap_row-same :
    (now : Time) (r : Row)
    → ((reap_row now r).id ≡ r.id)
      × ((reap_row now r).task_id ≡ r.task_id)
      × ((lock_agrees now r ≡ true) → lock_agrees now (reap_row now r) ≡ true)
reap_row-same now r = elim (Bool-cases (has_expired_lease now r)) [
  | inl e ↦ (rw e refl, rw e refl, λ h. rw e refl)
  | inr e ↦ (rw e refl, rw e refl, λ h. rw e h)
]

pub reap-IsSound :
    (now : Time) (t : Table)
    → IsSound now t
    → IsSound now (record t { rows = reap_expired_leases now t.rows })
reap-IsSound now t s = record {
  below = λ r m.
      let (o, k, e) = of_reap now r t.rows m in
      subst (λ i. i < t.next_id) (sym (ap (λ y. y.id) e ∙ (reap_row-same now o).0)) (s.below o k);
  keyed = λ r r' m m' i.
      let (o, k, e) = of_reap now r t.rows m in
      let (o', k', e') = of_reap now r' t.rows m' in
      e
      ∙ ap (reap_row now) (
          s.keyed o o' k k' (
            sym (ap (λ y. y.id) e ∙ (reap_row-same now o).0)
            ∙ i
            ∙ ap (λ y. y.id) e'
            ∙ (reap_row-same now o').0))
      ∙ sym e';
  named = λ n r r' m m' h h'.
      let (o, k, e) = of_reap now r t.rows m in
      let (o', k', e') = of_reap now r' t.rows m' in
      e
      ∙ ap (reap_row now) (
          s.named n o o' k k' (named_as n r o (ap (λ y. y.task_id) e ∙ (reap_row-same now o).1) h)
            (named_as n r' o' (ap (λ y. y.task_id) e' ∙ (reap_row-same now o').1) h'))
      ∙ sym e';
  locked = λ r m.
      let (o, k, e) = of_reap now r t.rows m in
      subst (λ y. lock_agrees now y ≡ true) (sym e) ((reap_row-same now o).2 (s.locked o k));
}

pub claim_next-IsSound :
    (now : Time) (w : String) (d : Duration) (order : List String) (t : Table)
    → IsSound now t
    → IsSound now (record t { rows = (claim_next now w d order t.rows).0 })
claim_next-IsSound now w d order t s = elim (claim_next-rows now w d order t.rows) [
  | inl (e, n) ↦ subst (λ rows. IsSound now (record t { rows = rows })) (sym e) s
  | inr (q, r, m, due, e, c) ↦
      subst (λ rows. IsSound now (record t { rows = rows })) (sym e)
        (update-IsSound now r.id (claimed now w d) t
          (record {
            kept = λ x. refl;
            same_name = λ x. refl;
            agrees = λ x k i.
                let same : x ≡ r = s.keyed x r k m i in
                subst (λ y. lock_agrees now (claimed now w d y) ≡ true) (sym same)
                  (ground (arith, due));
          })
          s)
]

pub finish-IsSound :
    (now : Time) (delay : ℕ → Duration) (ct : Row) (outcome : Option (String × Bool)) (t : Table)
    → IsSound now t
    → IsSound now (record t { rows = finish now delay ct outcome t.rows })
finish-IsSound now delay ct outcome t s =
    let done : (f : Row → Row)
        → ((x : Row) → (f x).id ≡ x.id)
        → ((x : Row) → (f x).task_id ≡ x.task_id)
        → ((x : Row) → lock_agrees now (f x) ≡ true)
        → finish now delay ct outcome t.rows ≡ update ct.id f t.rows
        → IsSound now (record t { rows = finish now delay ct outcome t.rows }) =
      λ f kept same agrees e.
        subst (λ rows. IsSound now (record t { rows = rows })) (sym e)
          (update-IsSound now ct.id f t
            (record { kept = kept; same_name = same; agrees = λ x k i. agrees x }) s) in
    elim (finish-rows now delay ct outcome t.rows) [
      | inl e ↦
          subst (λ rows. IsSound now (record t { rows = rows })) (sym e)
            (fewer-IsSound now t (remove ct.id t.rows) (λ r m. (of_remove ct.id r t.rows m).0) s)
      | inr (inl e) ↦ done (completed_row now) (λ x. refl) (λ x. refl) (λ x. refl) e
      | inr (inr (err, inl e)) ↦ done (dead_row now err) (λ x. refl) (λ x. refl) (λ x. refl) e
      | inr (inr (err, inr (e, h))) ↦
          done (retried_row now err (delay ct.retry_count)) (λ x. refl) (λ x. refl) (λ x. refl) e
    ]

pub sweep-IsSound :
    (now : Time) (t : Table)
    → IsSound now t
    → IsSound now (record t { rows = sweep_retained now t.rows })
sweep-IsSound now t s =
    fewer-IsSound now t (sweep_retained now t.rows) (λ r m. of_sweep now r t.rows m) s

pub later-IsSound : (now later : Time) (t : Table) → now ≤ later → IsSound now t → IsSound later t
later-IsSound now later t h s = record {
  below = s.below;
  keyed = s.keyed;
  named = s.named;
  locked = λ r m. let l = s.locked r m in ground (arith, l, h);
}

module _ {lease : Duration} {delay : ℕ → Duration} where
  step-IsSound :
      {s t : System} → Step lease delay s t → IsSound s.now s.table → IsSound t.now t.table
  step-IsSound {s} (Step.tick n h) x = later-IsSound s.now n s.table h x
  step-IsSound {s} (Step.enqueue task opts) x = enqueue_context-IsSound s.now task opts s.table x
  step-IsSound {s} (Step.claim w order) x = claim_next-IsSound s.now w lease order s.table x
  step-IsSound {s} (Step.report ct outcome k) x = finish-IsSound s.now delay ct outcome s.table x
  step-IsSound (Step.crash ct k) x = x
  step-IsSound {s} Step.reap x = reap-IsSound s.now s.table x
  step-IsSound {s} Step.sweep x = sweep-IsSound s.now s.table x

  -- Whatever clients, workers, crashes, reaper and sweep do, in any order: ids and task ids tell the
  -- rows apart, exactly the rows being run have a worker and a lease, and those were due.
  pub Reach-IsSound : {s : System} → Reach lease delay s → IsSound s.now s.table
  Reach-IsSound Reach.start = record {
    below = λ r m. elim m [ ];
    keyed = λ r r' m m' e. elim m [ ];
    named = λ n r r' m m' e e'. elim m [ ];
    locked = λ r m. elim m [ ];
  }
  Reach-IsSound (Reach.later k step) = step-IsSound step (Reach-IsSound k)

  pub ReachPrompt-Reach : {s : System} → ReachPrompt lease delay s → Reach lease delay s
  ReachPrompt-Reach ReachPrompt.start = Reach.start
  ReachPrompt-Reach (ReachPrompt.later k p step) = Reach.later (ReachPrompt-Reach k) step
