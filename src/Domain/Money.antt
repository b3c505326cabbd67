-- ===== src/Domain/Money.antt =====
-- internal/domain/money.go: amounts in minor units, as int64.
mod Ledger
mod Tests
use lumi_panel.Base.{Bool, ℤ, pos, ltb_ℤ, if◌then◌else◌, Option, none, some}
use lumi_panel.Base.Word.{add64, sub64}

abbrev pub Money : Type 0
Money = ℤ

pub data MoneyError : Type 0 where
  negative_amount : MoneyError
  insufficient_balance : MoneyError

unfoldable pub add : Money → Money → Money
unfolding add64
add m n = add64 m n

unfoldable pub sub : Money → Money → Money
unfolding sub64
sub m n = sub64 m n

abbrev pub is_positive : Money → Bool
is_positive m = ltb_ℤ (pos 0) m

-- The balance is returned beside the error, as in the source.
unfoldable pub deduct : Money → Money → Money × Option MoneyError
unfolding sub64
deduct balance amount =
    if ltb_ℤ amount (pos 0)
    then (balance, some negative_amount)
    else if ltb_ℤ balance amount
    then (balance, some insufficient_balance)
    else (sub64 balance amount, none)
