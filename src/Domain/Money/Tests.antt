-- ===== src/Domain/Money/Tests.antt =====
-- Runs of internal/domain/money.go.
use lumi_panel.Base.{◌≡◌, refl, pos, negsuc, pos_part, neg_part, none, some}
use lumi_panel.Base.Word.{wrap64}
use lumi_panel.Domain.Money.{negative_amount, insufficient_balance, deduct, add, sub}

runs :
    (deduct (pos 50) (pos 20) ≡ (pos 30, none))
    × (deduct (pos 50) (pos 51) ≡ (pos 50, some insufficient_balance))
    × (deduct (pos 50) (negsuc 0) ≡ (pos 50, some negative_amount))
    × (add (sub (pos 5) (pos 9)) (pos 1) ≡ negsuc 2)
unfolding deduct add sub wrap64 pos_part neg_part
runs = (refl, refl, refl, refl)
