-- ===== src/Domain/Money/Ledger.antt =====
-- Deductions from a balance (internal/domain/money.go).
use lumi_panel.Base.{
  ◌≡◌, ◌⊎◌, arith, ℤ, pos, pos_part, neg_part, ◌≤ℤ◌, ◌<ℤ◌, ◌-ℤ◌, -ℤ_parts, none, some, sub_ℕ,
}
use lumi_panel.Base.Word.{IsInt64, sub64_exact}
use lumi_panel.Domain.Money.{Money, negative_amount, insufficient_balance, deduct}

difference_fits : (a b : ℤ) → IsInt64 a → pos 0 ≤ℤ b → b ≤ℤ a → IsInt64 (a -ℤ b)
unfolding ◌-ℤ◌ pos_part neg_part sub_ℕ
difference_fits a b h k le = ground arith

-- A deduction from an int64 balance is refused exactly when the amount is negative or exceeds the
-- balance, with the error that says which, and then leaves the balance alone. Otherwise the balance
-- falls by exactly the amount and does not become negative.
pub deduct_lem :
    (balance amount : Money)
    → IsInt64 balance
    → ((deduct balance amount ≡ (balance, some negative_amount)) × (amount <ℤ pos 0))
      ⊎ (((deduct balance amount ≡ (balance, some insufficient_balance))
            × (pos 0 ≤ℤ amount)
            × (balance <ℤ amount))
          ⊎ ((deduct balance amount ≡ (balance -ℤ amount, none))
              × (pos 0 ≤ℤ amount)
              × (pos 0 ≤ℤ balance -ℤ amount)))
unfolding deduct
deduct_lem balance amount h =
    ground
      (arith, sub64_exact balance amount, difference_fits balance amount h, -ℤ_parts balance amount)
