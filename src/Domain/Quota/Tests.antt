-- ===== src/Domain/Quota/Tests.antt =====
-- Runs of internal/domain/quota.go, and its theorems at a concrete ladder.
use mathlib.Core.List.{Perm, Mem, mem-cons, not-mem-nil}
use mathlib.Core.Logic.Or
use mathlib.Core.List.Perm
use lumi_panel.Base.{
  sym, ◌∙◌, ◌≤◌, ◌≡◌, refl, arith, true, none, some, List, [], ◌∷◌, map, ℤ, pos, pos_part, neg_part,
  All,
}
use text.Mathlib.TextEquality.{IsScalar-prop}
use lumi_panel.Base.Word.{IsInt64, wrap64}
use lumi_panel.Domain.Quota.{
  SubQuota, LedgerRow, primary, data_pack, sort_for_deduction, attribute, apply_attribution,
}
use lumi_panel.Domain.Quota.Order.{HasUniqueIds, sort_for_deduction-eq_of_perm}
use lumi_panel.Domain.Quota.Attribution.{total, rows_of, IsBilled, attribute_conserves}
use lumi_panel.Domain.Quota.Apply.{settle, apply_attribution_lem}

abbrev main : SubQuota
main = record {
  id = pos 10;
  kind = primary;
  transfer_bytes = pos 100;
  used_bytes = pos 40;
  expired_at = none;
  last_reset_at = none;
  reset_epoch = pos 0;
}

abbrev pack : SubQuota
pack = record main {
  id = pos 20;
  kind = data_pack;
  transfer_bytes = pos 30;
  used_bytes = pos 0;
  expired_at = some 500;
}

abbrev lasting : SubQuota
lasting = record pack { id = pos 15; expired_at = none }

abbrev ladder : List SubQuota
ladder = pack ∷ lasting ∷ main ∷ []

abbrev row : ℤ → ℤ → LedgerRow
row id amount = record { subscription_id = id; billed = amount }

sorts : sort_for_deduction (main ∷ lasting ∷ pack ∷ []) ≡ ladder
unfolding sort_for_deduction
sorts = refl

spills :
    attribute (pos 150) ladder 400
    ≡ row (pos 20) (pos 30)
      ∷ row (pos 15) (pos 30)
      ∷ row (pos 10) (pos 60)
      ∷ row (pos 0) (pos 30)
      ∷ []
unfolding attribute wrap64
spills = refl

-- An expired pack is passed over, and a repeated ID has one row.
repeats : attribute (pos 90) (main ∷ pack ∷ main ∷ []) 500 ≡ row (pos 10) (pos 90) ∷ []
unfolding attribute wrap64
repeats = refl

SubQuota_set : IsSet SubQuota
SubQuota_set = hlevel (IsScalar-prop)

main_or_pack :
    {P : Type 0}
    → IsProp P
    → {s : SubQuota} → Mem s (main ∷ pack ∷ [])
    → (s ≡ main → P)
    → (s ≡ pack → P)
    → P
main_or_pack prop m f g =
    Or.elim prop (mem-cons.0 m) f (λ n. Or.elim prop (mem-cons.0 n) g (λ k. absurd (not-mem-nil k)))

unique : HasUniqueIds (main ∷ pack ∷ [])
unique a b ma mb e =
    main_or_pack (SubQuota_set a b) ma
      (λ p. main_or_pack (SubQuota_set a b) mb (λ q. p ∙ sym q) (λ q. cc (rw (p, q) at e)))
      (λ p. main_or_pack (SubQuota_set a b) mb (λ q. cc (rw (p, q) at e)) (λ q. p ∙ sym q))

sort_for_deduction-eq_of_perm_example :
    sort_for_deduction (main ∷ pack ∷ []) ≡ sort_for_deduction (pack ∷ main ∷ [])
sort_for_deduction-eq_of_perm_example =
    sort_for_deduction-eq_of_perm (main ∷ pack ∷ []) (pack ∷ main ∷ []) (Perm.swap pack main [])
      unique

attribute_conserves_example :
    let rows = attribute (pos 150) ladder 400 in
    (total rows ≡ 150) × All IsBilled rows × ((k : ℤ) → rows_of k rows ≤ 1)
unfolding pos_part
attribute_conserves_example = attribute_conserves (pos 150) ladder 400 (omega arith)

counter : IsInt64 (pos 40)
unfolding pos_part neg_part
counter = record { below = omega arith; above = omega arith }

apply_attribution_lem_example :
    apply_attribution (main ∷ []) (row (pos 10) (pos 5) ∷ [])
    ≡ map (settle (λ _. true) (row (pos 10) (pos 5) ∷ [])) (main ∷ [])
unfolding pos_part neg_part
apply_attribution_lem_example =
    apply_attribution_lem (row (pos 10) (pos 5) ∷ []) (main ∷ []) (tt, tt) (counter, tt)
      (omega arith)
