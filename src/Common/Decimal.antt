-- ===== src/Common/Decimal.antt =====
-- The decimal numbers of the library github.com/shopspring/decimal, as far as the program uses them:
-- an interface, with the arithmetic that the library documents as its laws. `Amount` is the value
-- of a decimal, whatever its scale.
use mathlib.Core.Path.{◌≡◌}
use mathlib.Core.Bool.{Bool, true, false, not, ◌&&◌}

pub record Decimal : Type 1 where
  pub Amount : Type 0
  pub zero_amount : Amount
  pub hundred : Amount
  pub add : Amount → Amount → Amount
  pub sub : Amount → Amount → Amount
  pub mul : Amount → Amount → Amount
  pub div : Amount → Amount → Amount
  -- `Round(2)`
  pub round2 : Amount → Amount
  pub less_than_or_equal : Amount → Amount → Bool
  pub add_comm : (a b : Amount) → add a b ≡ add b a
  pub add_assoc : (a b c : Amount) → add (add a b) c ≡ add a (add b c)
  pub add_zero : (a : Amount) → add a zero_amount ≡ a
  pub sub_add : (a b : Amount) → add (sub a b) b ≡ a
  -- Sums of amounts that are not negative are not negative; the order is total; a difference has
  -- the sign that the comparison says.
  pub add_nonneg :
      (a b : Amount)
      → less_than_or_equal zero_amount a ≡ true
      → less_than_or_equal zero_amount b ≡ true
      → less_than_or_equal zero_amount (add a b) ≡ true
  pub total : (a b : Amount) → less_than_or_equal a b ≡ false → less_than_or_equal b a ≡ true
  pub sub_sign : (a b : Amount) → less_than_or_equal (sub a b) zero_amount ≡ less_than_or_equal a b
  -- What `Round(2)` gives has two decimals, and sums and differences of such amounts have them too.
  pub round2_round2 : (a : Amount) → round2 (round2 a) ≡ round2 a
  pub round2_zero : round2 zero_amount ≡ zero_amount
  pub round2_add : (a b : Amount) → round2 a ≡ a → round2 b ≡ b → round2 (add a b) ≡ add a b
  pub round2_sub : (a b : Amount) → round2 a ≡ a → round2 b ≡ b → round2 (sub a b) ≡ sub a b

module _ (d : Decimal) where
  -- What a column of type NUMERIC(_,2) keeps of an amount: Postgres rounds to the scale of a column as
  -- `Round` does, ties away from zero.
  abbrev pub stored : d.Amount → d.Amount
  stored a = d.round2 a

  -- An amount that has no more than two decimals, which such a column keeps as it is.
  abbrev pub IsCents : d.Amount → Type 0
  IsCents a = stored a ≡ a

  abbrev pub is_negative : d.Amount → Bool
  is_negative a = not (d.less_than_or_equal d.zero_amount a)

  abbrev pub is_zero_amount : d.Amount → Bool
  is_zero_amount a = d.less_than_or_equal a d.zero_amount && d.less_than_or_equal d.zero_amount a

  abbrev pub greater_than_or_equal : d.Amount → d.Amount → Bool
  greater_than_or_equal a b = d.less_than_or_equal b a
