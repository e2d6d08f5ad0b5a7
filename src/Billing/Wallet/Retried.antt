-- ===== src/Billing/Wallet/Retried.antt =====
-- wallet.go and internal/db/billing.go: a posting repeated with its token moves no money again.
use isp.Common.{
  Bool-cases, ap, ℕ, List, [], ◌∷◌, suc, ◌≡◌, ◌≢◌, refl, sym, ◌∙◌, ◌⊎◌, inl, inr, String, eq_iff,
  Bool, false, some, Option-cases, arith,
}
use isp.Common.Decimal.{Decimal, stored}
use isp.Billing.Wallet.{
  WalletEntry, RechargePosting, PostRequest, Transaction, JournalEntry, Books, Posted, posted,
  refused, record_failed, find_token, has_token, token_of,
}
use isp.Billing.Wallet.Store.{record_recharge-cases, write_posting, transaction_of, token_taken}
use isp.Billing.Wallet.Service.{Plan, write, done, existing, plan_post, carry_out, post}

pub Plan-cases :
    {A : Type 0} (x : Plan A)
    → ((r : Posted A) × (x ≡ done r)) ⊎ ((p : RechargePosting A) × (x ≡ write p))
Plan-cases (done r) = inl (r, refl)
Plan-cases (write p) = inr (p, refl)

module _ (d : Decimal) (lookup_fails : String → Bool) (chart : String → Bool)
    (refuses : RechargePosting d.Amount → Bool) where
  -- A transaction as a look-up reads it: its amounts are what the columns keep.
  abbrev pub stored_transaction : Transaction d.Amount → Transaction d.Amount
  stored_transaction t = record t {
    amount = stored d t.amount;
    balance_after = stored d t.balance_after;
  }

  -- Every amount of the ledger is one that its column keeps.
  abbrev pub AreStored : List (ℕ × WalletEntry d.Amount) → Type 0
  AreStored [] = Unit
  AreStored ((n, e) ∷ legs) =
      (stored d e.amount ≡ e.amount) × (stored d e.balance_after ≡ e.balance_after) × AreStored legs

  find_token-stored :
      (token : String) (legs : List (ℕ × WalletEntry d.Amount)) (t : Transaction d.Amount)
      → AreStored legs
      → find_token token legs ≡ some t
      → stored_transaction t ≡ t
  find_token-stored token [] t x h = ground (arith, h)
  find_token-stored token ((n, e) ∷ legs) t x h =
      elim (Bool-cases (has_token token e.transaction_token)) [
        | inl k ↦ ground (arith, h, k, x.0, x.1)
        | inr k ↦ find_token-stored token legs t x.2 (ground (arith, h, k))
      ]

  plan_post-found :
      (req : PostRequest d.Amount) (w : Books d.Amount) (t : Transaction d.Amount)
      → plan_post d lookup_fails req w ≡ done (posted t)
      → find_token req.transaction_token w.wallet_ledgers ≡ some t
  unfolding plan_post
  plan_post-found req w t h = ground (arith, h)

  -- What the credit leg of a planned posting carries, and the guards that it passed.
  plan_post-leg :
      (req : PostRequest d.Amount) (w : Books d.Amount) (p : RechargePosting d.Amount)
      → plan_post d lookup_fails req w ≡ write p
      → (p.credit.transaction_token ≡ token_of req.transaction_token)
        × (p.credit.balance_after ≡ p.new_balance)
  unfolding plan_post
  plan_post-leg req w p h = elim (Option-cases (w.wallet_balance req.subscriber_id)) [
    | inl e ↦ ground (arith, e)
    | inr (b, e) ↦ ground (arith, e)
  ]

  plan_post-existing :
      (req : PostRequest d.Amount) (w w' : Books d.Amount) (p : RechargePosting d.Amount)
      (t : Transaction d.Amount)
      → plan_post d lookup_fails req w ≡ write p
      → existing d lookup_fails req.transaction_token w' ≡ some t
      → plan_post d lookup_fails req w' ≡ done (posted t)
  unfolding plan_post
  plan_post-existing req w w' p t h e = ground (arith, e)

  -- The posting's transaction is what the look-up of its token finds.
  find_token-write :
      (req : PostRequest d.Amount) (w : Books d.Amount) (p : RechargePosting d.Amount)
      (e : JournalEntry d.Amount)
      → plan_post d lookup_fails req w ≡ write p
      → req.transaction_token ≢ ""
      → find_token req.transaction_token (write_posting d p e w).wallet_ledgers
        ≡ some (stored_transaction (transaction_of d p (suc w.next_leg)))
  find_token-write req w p e h n = ground (
    arith,
    plan_post-leg req w p h,
    eq_iff req.transaction_token "",
    eq_iff req.transaction_token req.transaction_token,
  )

  -- What `post` does, by what its reads decide.
  pub post-done :
      (req : PostRequest d.Amount) (w : Books d.Amount) (r : Posted d.Amount)
      → plan_post d lookup_fails req w ≡ done r
      → post d lookup_fails chart refuses req w ≡ (w, r)
  unfolding post carry_out
  post-done req w r h = rw (post, h) refl

  pub post-write :
      (req : PostRequest d.Amount) (w : Books d.Amount) (p : RechargePosting d.Amount)
      → plan_post d lookup_fails req w ≡ write p
      → post d lookup_fails chart refuses req w ≡ carry_out d lookup_fails chart refuses (write p) w
  unfolding post
  post-write req w p h = rw (post, h) refl

  pub carry_out-cases :
      (p : RechargePosting d.Amount) (w : Books d.Amount)
      → (carry_out d lookup_fails chart refuses (write p) w ≡ (w, refused record_failed))
        ⊎ ((e : JournalEntry d.Amount) × (carry_out d lookup_fails chart refuses (write p) w
              ≡ (write_posting d p e w, posted (transaction_of d p (suc w.next_leg))))
            × (token_taken p.credit.transaction_token w.wallet_ledgers ≡ false))
  unfolding carry_out
  carry_out-cases p w = elim (record_recharge-cases d chart refuses p w) [
    | inl e ↦ inl (rw (carry_out, e) refl)
    | inr (entry, e, fresh, n, g) ↦ inr (entry, rw (carry_out, e) refl, fresh)
  ]

  -- `Post` repeated with its token, where the look-up of the token works, returns the transaction
  -- that it returned, with the amounts as the ledger keeps them, to two decimals, and changes nothing.
  -- The ledger's columns keep every amount of the ledger before.
  pub post-post :
      (req : PostRequest d.Amount) (w : Books d.Amount) (t : Transaction d.Amount)
      → AreStored w.wallet_ledgers
      → req.transaction_token ≢ ""
      → lookup_fails req.transaction_token ≡ false
      → (post d lookup_fails chart refuses req w).1 ≡ posted t
      → post d lookup_fails chart refuses req (post d lookup_fails chart refuses req w).0
        ≡ ((post d lookup_fails chart refuses req w).0, posted (stored_transaction t))
  post-post req w t x n k h = elim (Plan-cases (plan_post d lookup_fails req w)) [
    | inl (r, e) ↦
        let same = post-done req w r e in
        let r_is : r ≡ posted t = ground (arith, same, h) in
        let kept =
          find_token-stored req.transaction_token w.wallet_ledgers t x
            (plan_post-found req w t (e ∙ ap (λ z. done z) r_is)) in
        rw (kept, same, sym r_is) same
    | inr (p, e) ↦ elim (carry_out-cases p w) [
      | inl f ↦ ground (arith, post-write req w p e, f, h)
      | inr (entry, f, fresh) ↦
          let made = transaction_of d p (suc w.next_leg) in
          let w' = write_posting d p entry w in
          let first = post-write req w p e ∙ f in
          let made_is : made ≡ t = ground (arith, first, h) in
          let again = plan_post-existing req w w' p (stored_transaction made) e (
            ground
              (arith, find_token-write req w p entry e n, k, eq_iff req.transaction_token "")) in
          rw (first, sym made_is) (post-done req w' (posted (stored_transaction made)) again)
    ]
  ]

  -- Even where the look-up of a token fails, no posting with it moves money once a leg carries it.
  pub taken_token_refused :
      (req : PostRequest d.Amount) (w : Books d.Amount) (t : Transaction d.Amount)
      → req.transaction_token ≢ ""
      → find_token req.transaction_token w.wallet_ledgers ≡ some t
      → (post d lookup_fails chart refuses req w).0 ≡ w
  taken_token_refused req w t n k = elim (Plan-cases (plan_post d lookup_fails req w)) [
    | inl (r, e) ↦ rw (post-done req w r e) refl
    | inr (p, e) ↦ elim (carry_out-cases p w) [
      | inl f ↦ rw (post-write req w p e, f) refl
      | inr (entry, f, fresh) ↦
          ground (arith, plan_post-leg req w p e, k, fresh, eq_iff req.transaction_token "")
    ]
  ]
