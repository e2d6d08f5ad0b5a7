-- ===== src/Jobqueue/Holders.antt =====
-- server.go: which rows workers hold, after an enqueue and after a claim.
use mathlib.Core.Path.{subst}
use mathlib.Core.List.{Memᴰ}
use isp.Common.{◌≤◌, ◌≡◌, ◌≢◌, refl, sym, ap, ◌∙◌, inl, inr, String, true, List, [], ◌∷◌, arith}
use isp.Common.Clock.{Time, Duration}
use isp.Jobqueue.Task.{Task, Options, Row, Table, row_of, enqueue_context, is_processing}
use isp.Jobqueue.Server.{update, claimed, is_due}
use isp.Jobqueue.Rows.{in-++, in-++-old, of_update, update-other, update-same}
use isp.Jobqueue.Statements.{enqueue_context-rows}
use isp.Jobqueue.Locks.{IsSound}
use isp.Jobqueue.System.{Taken, here, there}

abbrev pub Apart : List Row → Type 0
Apart [] = Unit
Apart (c ∷ cs) = ((c' : Row) → Memᴰ c' cs → c'.id ≢ c.id) × Apart cs

pub taken_in : (c : Row) {rows rest : List Row} → Taken c rows rest → Memᴰ c rows
taken_in c here = Memᴰ.head refl
taken_in c (there k) = Memᴰ.tail (taken_in c k)

pub of_taken : (c r : Row) {rows rest : List Row} → Taken c rows rest → Memᴰ r rest → Memᴰ r rows
of_taken c r here m = Memᴰ.tail m
of_taken c r (there k) (Memᴰ.head e) = Memᴰ.head e
of_taken c r (there k) (Memᴰ.tail m) = Memᴰ.tail (of_taken c r k m)

pub Taken-Apart : (c : Row) {rows rest : List Row} → Taken c rows rest → Apart rows → Apart rest
Taken-Apart c here a = a.1
Taken-Apart c (there k) a = (λ c' m. a.0 c' (of_taken c c' k m), Taken-Apart c k a.1)

pub others :
    (c r : Row) {rows rest : List Row} → Taken c rows rest → Apart rows → Memᴰ r rest → r.id ≢ c.id
others c r here a m = a.0 r m
others c r (there k) a (Memᴰ.head e) = λ h. a.0 c (taken_in c k) (sym (ap (λ y. y.id) (sym e) ∙ h))
others c r (there k) a (Memᴰ.tail m) = others c r k a.1 m

-- The rows that workers hold are rows of the table as it is, being run, each with one worker; and no
-- counter of retries is above its bound.
pub record IsExclusive (rows running : List Row) : Type 0 where
  pub held : (c : Row) → Memᴰ c running → Memᴰ c rows
  pub held_processing : (c : Row) → Memᴰ c running → is_processing c.status ≡ true
  pub apart : Apart running
  pub bounded : (r : Row) → Memᴰ r rows → r.retry_count ≤ r.max_retry

pub enqueue-IsExclusive :
    (now : Time) (task : Task) (opts : List (Options → Options)) (t : Table) (running : List Row)
    → IsExclusive t.rows running
    → IsExclusive (enqueue_context now task opts t).0.rows running
enqueue-IsExclusive now task opts t running x = elim (enqueue_context-rows now task opts t) [
  | inl e ↦ subst (λ u. IsExclusive u.rows running) (sym e) x
  | inr (o, e, fresh) ↦
      subst (λ u. IsExclusive u.rows running) (sym e)
        (record {
          held = λ c m. in-++-old c (row_of now t.next_id task o) t.rows (x.held c m);
          held_processing = x.held_processing;
          apart = x.apart;
          bounded = λ r m. elim (in-++ r (row_of now t.next_id task o) t.rows m) [
            | inl k ↦ x.bounded r k
            | inr h ↦ subst (λ y. y.retry_count ≤ y.max_retry) (sym h) (omega arith)
          ];
        })
]

pub claim-IsExclusive :
    (now : Time) (w : String) (d : Duration) (q : String) (r : Row) (t : Table) (running : List Row)
    → IsSound now t
    → Memᴰ r t.rows
    → is_due now q r ≡ true
    → IsExclusive t.rows running
    → IsExclusive (update r.id (claimed now w d) t.rows) (claimed now w d r ∷ running)
claim-IsExclusive now w d q r t running s m due x =
    let free : (c : Row) → Memᴰ c running → c.id ≢ r.id = λ c k e.
      let p = x.held_processing c k in
      let p' = subst (λ y. is_processing y.status ≡ true) (s.keyed c r (x.held c k) m e) p in
      ground (arith, p', due) in
    record {
      held = λ c k. elim k [
        | Memᴰ.head e ↦
            subst (λ y. Memᴰ y (update r.id (claimed now w d) t.rows)) (sym e)
              (update-same r.id (claimed now w d) r t.rows m refl)
        | Memᴰ.tail k' ↦ update-other r.id (claimed now w d) c t.rows (x.held c k') (free c k')
      ];
      held_processing = λ c k. elim k [
        | Memᴰ.head e ↦ ap (λ y. is_processing y.status) e
        | Memᴰ.tail k' ↦ x.held_processing c k'
      ];
      apart = (free, x.apart);
      bounded = λ o k. elim (of_update r.id (claimed now w d) o t.rows k) [
        | inl (k', h) ↦ x.bounded o k'
        | inr (o', k', h, e) ↦ subst (λ y. y.retry_count ≤ y.max_retry) (sym e) (x.bounded o' k')
      ];
    }
