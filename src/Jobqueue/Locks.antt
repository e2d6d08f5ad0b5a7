-- ===== src/Jobqueue/Locks.antt =====
-- server.go and client.go: what every interleaving of clients, workers, reaper and sweep keeps of the
-- table.
use mathlib.Core.Path.{subst}
use mathlib.Core.List.{Memᴰ}
use isp.Common.{
  ℕ, ◌<◌, ◌≡◌, refl, sym, ap, ◌∙◌, inl, inr, String, str_eq, Bool, true, false, not, ◌&&◌, Option,
  none, some, List, [], ◌∷◌, leb, if◌then◌else◌, arith,
}
use isp.Common.Clock.{Time}
use isp.Jobqueue.Task.{Row, Table, has_task_id, is_processing}
use isp.Jobqueue.Server.{update}
use isp.Jobqueue.Rows.{IsKeyed, of_update, update-IsKeyed}

abbrev pub is_some {ℓ} : {A : Type ℓ} → Option A → Bool
is_some none = false
is_some (some a) = true

-- A row being run has a worker and a lease, and was due; no other row has either.
abbrev pub lock_agrees : Time → Row → Bool
lock_agrees now r =
    if is_processing r.status
    then leb r.run_after now && (is_some r.locked_by && is_some r.lease_expires_at)
    else not (is_some r.locked_by) && not (is_some r.lease_expires_at)

abbrev pub names : String → Row → Bool
names t r = elim r.task_id [ none ↦ false | some u ↦ str_eq u t ]

-- Of the table at an instant: ids are below the sequence and tell the rows apart, as do task ids, and
-- the locks are those of the rows being run.
pub record IsSound (now : Time) (t : Table) : Type 0 where
  pub below : (r : Row) → Memᴰ r t.rows → r.id < t.next_id
  pub keyed : IsKeyed t.rows
  pub named :
      (n : String) (r r' : Row)
      → Memᴰ r t.rows
      → Memᴰ r' t.rows
      → names n r ≡ true
      → names n r' ≡ true
      → r ≡ r'
  pub locked : (r : Row) → Memᴰ r t.rows → lock_agrees now r ≡ true

pub not_named :
    (n : String) (rows : List Row) (r : Row)
    → has_task_id n rows ≡ false
    → Memᴰ r rows
    → names n r ≡ false
not_named n [] r h m = elim m [ ]
not_named n (x ∷ xs) r h (Memᴰ.head e) =
    let x_not : names n x ≡ false = ground (arith, h) in
    subst (λ y. names n y ≡ false) (sym e) x_not
not_named n (x ∷ xs) r h (Memᴰ.tail m) = not_named n xs r (ground (arith, h)) m

pub named_as :
    (n : String) (r o : Row) → r.task_id ≡ o.task_id → names n r ≡ true → names n o ≡ true
named_as n r o e h = ground (arith, e, h)

-- What a statement on the row may do: it keeps the id and the task id, and the locks agree again.
pub record IsStatement (now : Time) (id : ℕ) (rows : List Row) (f : Row → Row) : Type 0 where
  pub kept : (r : Row) → (f r).id ≡ r.id
  pub same_name : (r : Row) → (f r).task_id ≡ r.task_id
  pub agrees : (r : Row) → Memᴰ r rows → r.id ≡ id → lock_agrees now (f r) ≡ true

pub update-IsSound :
    (now : Time) (id : ℕ) (f : Row → Row) (t : Table)
    → IsStatement now id t.rows f
    → IsSound now t
    → IsSound now (record t { rows = update id f t.rows })
update-IsSound now id f t st s = record {
  below = λ r m. elim (of_update id f r t.rows m) [
    | inl (k, h) ↦ s.below r k
    | inr (o, k, h, e) ↦
        subst (λ i. i < t.next_id) (sym (ap (λ y. y.id) e ∙ st.kept o)) (s.below o k)
  ];
  keyed = update-IsKeyed id f t.rows st.kept s.keyed;
  named = λ n r r' m m' e e'.
      let (o, k, h, g) = source n r m e in
      let (o', k', h', g') = source n r' m' e' in
      update-IsKeyed id f t.rows st.kept s.keyed r r' m m'
        (h ∙ ap (λ y. y.id) (s.named n o o' k k' g g') ∙ sym h');
  locked = λ r m. elim (of_update id f r t.rows m) [
    | inl (k, h) ↦ s.locked r k
    | inr (o, k, h, e) ↦ subst (λ y. lock_agrees now y ≡ true) (sym e) (st.agrees o k h)
  ];
}
  where
    source :
        (n : String) (r : Row)
        → Memᴰ r (update id f t.rows)
        → names n r ≡ true
        → (o : Row) × Memᴰ o t.rows × (r.id ≡ o.id) × (names n o ≡ true)
    source n r m e = elim (of_update id f r t.rows m) [
      | inl (k, h) ↦ (r, k, refl, e)
      | inr (o, k, h, g) ↦ (
        o,
        k,
        ap (λ y. y.id) g ∙ st.kept o,
        named_as n r o (ap (λ y. y.task_id) g ∙ st.same_name o) e,
      )
    ]

-- Rows go, or stay as they are.
pub fewer-IsSound :
    (now : Time) (t : Table) (rows : List Row)
    → ((r : Row) → Memᴰ r rows → Memᴰ r t.rows)
    → IsSound now t
    → IsSound now (record t { rows = rows })
fewer-IsSound now t rows sub s = record {
  below = λ r m. s.below r (sub r m);
  keyed = λ r r' m m' e. s.keyed r r' (sub r m) (sub r' m') e;
  named = λ n r r' m m' e e'. s.named n r r' (sub r m) (sub r' m') e e';
  locked = λ r m. s.locked r (sub r m);
}
