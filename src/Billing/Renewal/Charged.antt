-- ===== src/Billing/Renewal/Charged.antt =====
-- recurring_billing_scanner.go: what a renewal takes from the wallet, and what it gives for it.
use mathlib.Core.Path.{subst}
use isp.Common.{
  suc, ◌≡◌, ◌≢◌, ◌⊎◌, refl, sym, ap, ◌∙◌, inl, inr, false, none, some, if◌then◌else◌, arith,
  Option-cases,
}
use isp.Common.Clock.{Time}
use isp.Common.Decimal.{Decimal, is_negative, is_zero_amount}
use isp.Billing.Gst.{Invoice}
use isp.Billing.Wallet.{Books, JournalEntry, Transaction, Posted, posted, refused, WalletError}
use isp.Billing.Wallet.Store.{write_posting, stored_lines}
use isp.Billing.Wallet.Service.{post, post_posting}
use isp.Billing.Wallet.Journal.{two_lines, taxed_lines}
use isp.Billing.Wallet.Debited.{post-refused, post-debit, charge-lines}
use isp.Billing.Dunning.{World}
use isp.Billing.Renewal.{
  is_insufficient, debit_failed, price_failed, RenewalCandidate, State, Services, renewed,
  insufficient, expiry_failed, build_invoice, renewal_request, extend_cycle, new_expiry,
  persist_invoice, restore, start_cycle, renew, enqueue_restoration_notice,
}

module _ (d : Decimal) (v : Services d.Amount) where
  pub Posted-cases :
      (x : Posted d.Amount)
      → ((t : Transaction d.Amount) × (x ≡ posted t)) ⊎ ((e : WalletError) × (x ≡ refused e))
  Posted-cases (posted t) = inl (t, refl)
  Posted-cases (refused e) = inr (e, refl)

  -- What comes after the debit leaves the books alone.
  pub start_cycle-books :
      (c : RenewalCandidate d.Amount) (inv : Invoice d.Amount) (now : Time) (s : State d.Amount)
      → (start_cycle d v c inv now s).0.books ≡ s.books
  unfolding start_cycle persist_invoice restore enqueue_restoration_notice
  start_cycle-books c inv now s =
      elim (Option-cases (extend_cycle d v c (new_expiry c now) s.world)) [
        | inl e ↦ ground (arith, e)
        | inr (w, e) ↦ ground (arith, e)
      ]

  abbrev pub charge_of :
      RenewalCandidate d.Amount
      → Invoice d.Amount
      → Books d.Amount
      → Books d.Amount × Posted d.Amount
  charge_of c inv w = post d v.lookup_fails v.chart v.refuses (renewal_request d v c inv) w

  pub start_cycle-cases :
      (c : RenewalCandidate d.Amount) (inv : Invoice d.Amount) (now : Time) (s : State d.Amount)
      → ((start_cycle d v c inv now s ≡ (s, expiry_failed))
          × (extend_cycle d v c (new_expiry c now) s.world ≡ none))
        ⊎ ((w : World) × (extend_cycle d v c (new_expiry c now) s.world ≡ some w)
            × (start_cycle d v c inv now s ≡ (
              restore d v c (new_expiry c now) (persist_invoice d v inv (record s { world = w })),
              renewed,
            )))
  unfolding start_cycle
  start_cycle-cases c inv now s =
      elim (Option-cases (extend_cycle d v c (new_expiry c now) s.world)) [
        | inl e ↦ inl (rw (start_cycle, e) refl, e)
        | inr (w, e) ↦ inr (w, e, rw (start_cycle, e) refl)
      ]

  pub renew-unpriced :
      (c : RenewalCandidate d.Amount) (now : Time) (s : State d.Amount)
      → build_invoice d v c ≡ none
      → renew d v c now s ≡ (s, price_failed)
  unfolding renew
  renew-unpriced c now s e = rw (renew, e) refl

  pub renew-posted :
      (c : RenewalCandidate d.Amount) (now : Time) (s : State d.Amount) (inv : Invoice d.Amount)
      (t : Transaction d.Amount)
      → build_invoice d v c ≡ some inv
      → (charge_of c inv s.books).1 ≡ posted t
      → renew d v c now s
        ≡ start_cycle d v c inv now (record s { books = (charge_of c inv s.books).0 })
  unfolding renew
  renew-posted c now s inv t e f = rw (renew, e, f) refl

  pub renew-refused :
      (c : RenewalCandidate d.Amount) (now : Time) (s : State d.Amount) (inv : Invoice d.Amount)
      (x : WalletError)
      → build_invoice d v c ≡ some inv
      → (charge_of c inv s.books).1 ≡ refused x
      → renew d v c now s ≡ (s, if is_insufficient x then insufficient else debit_failed x)
  unfolding renew
  renew-refused c now s inv x e f =
      let kept =
        post-refused d v.lookup_fails v.chart v.refuses (renewal_request d v c inv) s.books x f in
      rw (renew, e, f, kept) refl

  -- A renewal that neither succeeds nor fails to move the expiry leaves everything as it was.
  pub uncharged_renewal :
      (c : RenewalCandidate d.Amount) (now : Time) (s : State d.Amount)
      → (renew d v c now s).1 ≢ renewed
      → (renew d v c now s).1 ≢ expiry_failed
      → (renew d v c now s).0 ≡ s
  unfolding renew
  uncharged_renewal c now s h k = elim (Option-cases (build_invoice d v c)) [
    | inl e ↦ rw (renew, e) refl
    | inr (inv, e) ↦ elim (Posted-cases (charge_of c inv s.books).1) [
      | inl (t, f) ↦
          let r = renew-posted c now s inv t e f in
          elim (start_cycle-cases c inv now (record s { books = (charge_of c inv s.books).0 })) [
            | inl (g, x) ↦ elim (k (ap (λ y. y.1) (r ∙ g))) [ ]
            | inr (w, x, g) ↦ elim (h (ap (λ y. y.1) (r ∙ g))) [ ]
          ]
      | inr (x, f) ↦ ap (λ y. y.0) (renew-refused c now s inv x e f)
    ]
  ]

  -- What a charge is: the invoice's total out of a balance that covers it, with the invoice's taxes
  -- on the tax account and the rest on the revenue account, each to two decimals.
  pub Charges :
      RenewalCandidate d.Amount → Invoice d.Amount → Books d.Amount → Books d.Amount → Type 0
  Charges c inv w w' =
      (b : d.Amount) × (e : JournalEntry d.Amount) × (w.wallet_balance c.subscriber_id ≡ some b)
      × (is_negative d (d.sub b inv.total_amount) ≡ false)
      × (w'
          ≡ write_posting d (post_posting d (renewal_request d v c inv) (d.sub b inv.total_amount))
              e w)
      × (let tax = d.add (d.add inv.cgst_amount inv.sgst_amount) inv.igst_amount in
          e.lines
          ≡ stored_lines d (
              if is_zero_amount d tax
              then two_lines d "4000" "1200" "credit" "debit" inv.total_amount inv.total_amount
              else taxed_lines d "4000" "1200" "credit" "debit" inv.total_amount inv.total_amount
                  tax))

  charge_of-Charges :
      (c : RenewalCandidate d.Amount) (inv : Invoice d.Amount) (w : Books d.Amount)
      (t : Transaction d.Amount)
      → (charge_of c inv w).1 ≡ posted t
      → Charges c inv w (charge_of c inv w).0
  unfolding Charges
  charge_of-Charges c inv w t h =
      let req = renewal_request d v c inv in
      let (b, e, balance, covered, books, entry) =
        post-debit d v.lookup_fails v.chart v.refuses req w t refl refl h in
      (
        b,
        e,
        balance,
        covered,
        books,
        charge-lines d v.lookup_fails v.chart v.refuses req (d.sub b inv.total_amount)
            (suc w.next_leg) e entry,
      )

  -- A renewal that succeeds, or that fails to move the expiry, has charged the cycle's invoice.
  pub renew-Charges :
      (c : RenewalCandidate d.Amount) (now : Time) (s : State d.Amount)
      → ((renew d v c now s).1 ≡ renewed) ⊎ ((renew d v c now s).1 ≡ expiry_failed)
      → (inv : Invoice d.Amount) × (build_invoice d v c ≡ some inv)
        × Charges c inv s.books (renew d v c now s).0.books
  unfolding renew
  renew-Charges c now s h = elim (Option-cases (build_invoice d v c)) [
    | inl e ↦ ground (arith, e, h)
    | inr (inv, e) ↦ elim (Posted-cases (charge_of c inv s.books).1) [
      | inl (t, f) ↦
          let r = renew-posted c now s inv t e f in
          let same =
            ap (λ y. y.0.books) r
            ∙ start_cycle-books c inv now (record s { books = (charge_of c inv s.books).0 }) in
          (inv, e, subst (Charges c inv s.books) (sym same) (charge_of-Charges c inv s.books t f))
      | inr (x, f) ↦ ground (arith, renew-refused c now s inv x e f, h)
    ]
  ]
