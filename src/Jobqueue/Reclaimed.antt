-- ===== src/Jobqueue/Reclaimed.antt =====
-- server.go: a task whose worker died is handed out again.
use mathlib.Core.Path.{subst}
use mathlib.Core.List.{Memᴰ}
use isp.Common.{
  ℕ, zero, suc, ◌+◌, ◌≤◌, ◌<◌, ◌≡◌, refl, sym, ap, ◌∙◌, inl, inr, String, true, none, some, List,
  [], ◌∷◌, leb, ◌==◌, if◌then◌else◌, arith, Bool-cases, eq_iff, Option-cases,
}
use isp.Common.Clock.{Time, Duration}
use isp.Common.Bytes.{length}
use isp.Jobqueue.Task.{Row, is_processing}
use isp.Jobqueue.Server.{
  update, claimed, claim_from, is_due, reap_row, reap_expired_leases, has_expired_lease,
}
use isp.Jobqueue.Claims.{first_due-none, claim_from-claimed, claim_from-none}
use isp.Jobqueue.Locks.{lock_agrees}
use isp.Jobqueue.Kept.{later-IsSound, reap-IsSound, Reach-IsSound}
use isp.Jobqueue.System.{System, Reach}
use isp.Jobqueue.Rows.{IsKeyed, update-other, update-IsKeyed, in_reap}

-- `n` claims in a row on the queue: the rows that they hand out.
unfoldable pub handed_out : ℕ → Time → String → Duration → String → List Row → List Row
handed_out zero now w d q rows = []
handed_out (suc n) now w d q rows =
    let c = claim_from now w d q rows in
    let rest = handed_out n now w d q c.0 in elim c.1 [ none ↦ [] | some r ↦ r ∷ rest ]

module _ (now : Time) (w : String) (d : Duration) (q : String) where
  unfoldable pub due_count : List Row → ℕ
  due_count [] = 0
  due_count (r ∷ rs) = (if is_due now q r then 1 else 0) + due_count rs

  due_count-update :
      (id : ℕ) (rows : List Row) → due_count (update id (claimed now w d) rows) ≤ due_count rows
  unfolding due_count
  due_count-update id [] = omega arith
  due_count-update id (x ∷ xs) = ground (arith, due_count-update id xs)

  due_count-claimed :
      (r : Row) (rows : List Row)
      → Memᴰ r rows
      → is_due now q r ≡ true
      → due_count (update r.id (claimed now w d) rows) < due_count rows
  unfolding due_count
  due_count-claimed r [] m h = elim m [ ]
  due_count-claimed r (x ∷ xs) (Memᴰ.head e) h =
      let due : is_due now q x ≡ true = subst (λ y. is_due now q y ≡ true) e h in
      let same : x.id ≡ r.id = sym (ap (λ y. y.id) e) in
      let rest = due_count-update r.id xs in ground (arith, due, same, rest)
  due_count-claimed r (x ∷ xs) (Memᴰ.tail m) h =
      let rest = due_count-claimed r xs m h in ground (arith, rest)

  pub due_count_bound : (rows : List Row) → due_count rows ≤ length rows
  unfolding due_count
  due_count_bound [] = omega arith
  due_count_bound (x ∷ xs) = ground (arith, due_count_bound xs)

  -- As many claims as there are due rows hand each of them out.
  pub handed_out-due :
      (n : ℕ) (rows : List Row) (r : Row)
      → due_count rows ≤ n
      → IsKeyed rows
      → Memᴰ r rows
      → is_due now q r ≡ true
      → Memᴰ (claimed now w d r) (handed_out n now w d q rows)
  unfolding handed_out
  handed_out-due zero rows r b keyed m h =
      let less = due_count-claimed r rows m h in absurd (omega arith)
  handed_out-due (suc n) rows r b keyed m h = elim (Option-cases (claim_from now w d q rows).1) [
    | inl e ↦ let late = first_due-none now q rows r (claim_from-none now w d q rows e) m in cc
    | inr (c, e) ↦
        let (o, k, due, c_is, after) = claim_from-claimed now w d q rows c e in
        let less = due_count-claimed o rows k due in
        let step : handed_out (suc n) now w d q rows
            ≡ c ∷ handed_out n now w d q (update o.id (claimed now w d) rows) =
          rw (handed_out, e, after) refl in
        subst (Memᴰ (claimed now w d r)) (sym step) (elim (Bool-cases (r.id == o.id)) [
          | inl i ↦
              let same : r ≡ o = keyed r o m k (ground (arith, i)) in
              Memᴰ.head (ap (claimed now w d) same ∙ sym c_is)
          | inr i ↦ Memᴰ.tail (
              handed_out-due n (update o.id (claimed now w d) rows) r (omega arith)
                (update-IsKeyed o.id (claimed now w d) rows (λ x. refl) keyed)
                (update-other o.id (claimed now w d) r rows m (ground (arith, i))) h)
        ])
  ]

length-reap : (now : Time) (rows : List Row) → length (reap_expired_leases now rows) ≡ length rows
length-reap now [] = refl
length-reap now (x ∷ xs) = ap suc (length-reap now xs)

-- A row that the reaper frees was due when it was claimed, and is due now.
reaped_due :
    (now : Time) (r : Row)
    → has_expired_lease now r ≡ true
    → lock_agrees now r ≡ true
    → is_due now r.queue (reap_row now r) ≡ true
reaped_due now r e l =
    let p : is_processing r.status ≡ true = ground (arith, e) in
    let f : leb r.run_after now ≡ true = ground (arith, l, p) in
    ground (arith, e, f, eq_iff r.queue r.queue)

module _ {lease : Duration} {delay : ℕ → Duration} where
  -- In every reachable state, whoever crashed: once the lease of a row being run is over, the reaper
  -- and then at most as many claims on the row's queue as there are rows hand the row out again.
  pub crashed_task_reclaimed :
      {s : System} (now : Time) (w : String) (d : Duration) (r : Row)
      → Reach lease delay s
      → s.now ≤ now
      → Memᴰ r s.table.rows
      → has_expired_lease now r ≡ true
      → Memᴰ
          (claimed now w d (reap_row now r))
          (handed_out (length s.table.rows) now w d r.queue (reap_expired_leases now s.table.rows))
  crashed_task_reclaimed {s} now w d r reach h m expired =
      let sound = later-IsSound s.now now s.table h (Reach-IsSound reach) in
      handed_out-due now w d r.queue (length s.table.rows) (reap_expired_leases now s.table.rows)
        (reap_row now r)
        (subst (λ n. due_count now w d r.queue (reap_expired_leases now s.table.rows) ≤ n)
          (length-reap now s.table.rows)
          (due_count_bound now w d r.queue (reap_expired_leases now s.table.rows)))
        (reap-IsSound now s.table sound).keyed (in_reap now r s.table.rows m)
        (reaped_due now r expired (sound.locked r m))
