-- ===== src/Billing/Wallet/Journal.antt =====
-- internal/db/billing.go: the journal entry that a wallet posting makes.
use mathlib.Core.Path.{subst}
use isp.Common.{
  ℕ, ◌≡◌, ◌≢◌, refl, sym, ◌⊎◌, inl, inr, String, str_eq, eq_iff, Bool, false, not, ◌&&◌, none, some,
  List, [], ◌∷◌, if◌then◌else◌, Bool-cases, Option-cases, arith,
}
use isp.Common.Decimal.{Decimal, is_zero_amount, IsCents}
use isp.Billing.Wallet.{
  RechargePosting, GlLeg, JournalEntry, gl_account_gst_payable, gl_account_code,
  account_subscriber_wallet, gl_revenue_account,
}
use isp.Billing.Wallet.Store.{post_wallet_gl_entry, split_tax_leg, split_legs, stored_lines}

module _ (d : Decimal) where
  abbrev pub debits : List (GlLeg d.Amount) → d.Amount
  debits [] = d.zero_amount
  debits (l ∷ ls) =
      let rest = debits ls in if str_eq l.entry_type "debit" then d.add l.amount rest else rest

  abbrev pub credits : List (GlLeg d.Amount) → d.Amount
  credits [] = d.zero_amount
  credits (l ∷ ls) =
      let rest = credits ls in if str_eq l.entry_type "debit" then rest else d.add l.amount rest

  -- A posting that moves one amount between the wallet and another account, from a balance.
  abbrev pub Moves : RechargePosting d.Amount → d.Amount → Type 0
  Moves p b =
      (p.credit.subscriber_id ≡ p.subscriber_id)
      × (p.credit.account ≡ account_subscriber_wallet)
      × (p.debit.account ≢ account_subscriber_wallet)
      × (p.debit.amount ≡ p.credit.amount)
      × (((p.credit.entry_type ≡ "credit")
            × (p.debit.entry_type ≡ "debit")
            × (p.new_balance ≡ d.add b p.credit.amount))
          ⊎ ((p.credit.entry_type ≡ "debit")
              × (p.debit.entry_type ≡ "credit")
              × (p.new_balance ≡ d.sub b p.credit.amount)))

  -- Its amounts have two decimals.
  abbrev pub AreCents : RechargePosting d.Amount → d.Amount → Type 0
  AreCents p b = IsCents d p.credit.amount × IsCents d p.tax_amount × IsCents d b

  abbrev pub two_lines :
      String → String → String → String → d.Amount → d.Amount → List (GlLeg d.Amount)
  two_lines c c' s s' a a' =
      record { code = c; entry_type = s; amount = a }
      ∷ record { code = c'; entry_type = s'; amount = a' }
      ∷ []

  abbrev pub taxed_lines :
      String → String → String → String → d.Amount → d.Amount → d.Amount → List (GlLeg d.Amount)
  taxed_lines c c' s s' a a' t =
      record { code = c; entry_type = s; amount = d.sub a t }
      ∷ record { code = gl_account_gst_payable; entry_type = s; amount = t }
      ∷ record { code = c'; entry_type = s'; amount = a' }
      ∷ []

  -- The tax comes out of the counter leg, where that is revenue.
  pub split_tax_leg-two_lines :
      (a a' t : d.Amount) (c c' s s' : String)
      → str_eq c' gl_revenue_account ≡ false
      → split_tax_leg d (two_lines c c' s s' a a') c t ≡ (
          if is_zero_amount d t
          then some (two_lines c c' s s' a a')
          else if str_eq c gl_revenue_account && not (d.less_than_or_equal a t)
          then some (taxed_lines c c' s s' a a' t)
          else none)
  unfolding split_tax_leg split_legs
  split_tax_leg-two_lines a a' t c c' s s' h = elim (Bool-cases (str_eq c gl_revenue_account)) [
    | inl e ↦
        rw ((eq_iff c gl_revenue_account).0 e, h, d.sub_sign a t)
          (ground (arith, (eq_iff c gl_revenue_account).0 e))
    | inr e ↦ rw e (ground arith)
  ]

  abbrev Opposite : String → String → Type 0
  Opposite s s' = ((s ≡ "debit") × (s' ≡ "credit")) ⊎ ((s ≡ "credit") × (s' ≡ "debit"))

  two_lines-balance :
      (a a' : d.Amount) (c c' s s' : String)
      → a ≡ a'
      → Opposite s s'
      → debits (two_lines c c' s s' a a') ≡ credits (two_lines c c' s s' a a')
  two_lines-balance a a' c c' s s' e (inl h) = rw (h.0, h.1, e) refl
  two_lines-balance a a' c c' s s' e (inr h) = rw (h.0, h.1, e) refl

  three_lines : (a t : d.Amount) → d.add (d.sub a t) (d.add t d.zero_amount) ≡ d.add a d.zero_amount
  three_lines a t = rw (d.add_zero t, d.add_zero a) (d.sub_add a t)

  taxed_lines-balance :
      (a a' t : d.Amount) (c c' s s' : String)
      → a ≡ a'
      → Opposite s s'
      → debits (taxed_lines c c' s s' a a' t) ≡ credits (taxed_lines c c' s s' a a' t)
  taxed_lines-balance a a' t c c' s s' e (inl h) = rw (h.0, h.1, sym e) (three_lines a t)
  taxed_lines-balance a a' t c c' s s' e (inr h) = rw (h.0, h.1, sym e) (sym (three_lines a t))

  split_tax_leg-balance :
      (a a' t : d.Amount) (c c' s s' : String) (out : List (GlLeg d.Amount))
      → a ≡ a'
      → Opposite s s'
      → str_eq c' gl_revenue_account ≡ false
      → IsCents d a
      → IsCents d t
      → split_tax_leg d (two_lines c c' s s' a a') c t ≡ some out
      → debits (stored_lines d out) ≡ credits (stored_lines d out)
  split_tax_leg-balance a a' t c c' s s' out q h k x y e = ground (
    arith,
    split_tax_leg-two_lines a a' t c c' s s' k,
    e,
    x,
    y,
    q,
    d.round2_sub a t x y,
    two_lines-balance a a' c c' s s' q h,
    taxed_lines-balance a a' t c c' s s' q h,
  )

  -- A journal entry of a posting that moves one amount balances.
  pub post_wallet_gl_entry-balance :
      (chart : String → Bool) (p : RechargePosting d.Amount) (b : d.Amount) (n : ℕ)
      (e : JournalEntry d.Amount)
      → Moves p b
      → AreCents p b
      → post_wallet_gl_entry d chart p n ≡ some e
      → debits e.lines ≡ credits e.lines
  unfolding post_wallet_gl_entry
  post_wallet_gl_entry-balance chart p b n e m x h =
      let opposite : Opposite p.debit.entry_type p.credit.entry_type = elim m.4 [
        | inl c ↦ inl (c.1, c.0)
        | inr c ↦ inr (c.1, c.0)
      ] in
      let out =
        split_tax_leg d
          (two_lines (gl_account_code p.debit.account) (gl_account_code p.credit.account)
            p.debit.entry_type p.credit.entry_type p.debit.amount p.credit.amount)
          (gl_account_code p.debit.account) p.tax_amount in
      elim (Option-cases out) [
        | inl none_ ↦ ground (arith, none_)
        | inr (o, some_) ↦
            let balanced =
              split_tax_leg-balance p.debit.amount p.credit.amount p.tax_amount
                (gl_account_code p.debit.account) (gl_account_code p.credit.account)
                p.debit.entry_type p.credit.entry_type o m.3 opposite
                (rw m.1 (unfold gl_account_code in refl)) (subst (IsCents d) (sym m.3) x.0) x.1
                some_ in
            ground (arith, some_, balanced)
      ]
