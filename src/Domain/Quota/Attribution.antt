-- ===== src/Domain/Quota/Attribution.antt =====
-- `Attribute` of internal/domain/quota.go: what its rows say, for any ladder at all.
mod Rows
mod Totals
unfoldable pub use Rows.{capacity}
unfoldable pub use Totals.{tally, total, rows_of, drained, IsBilled}
use Prim.Native.Nat.{min}
use lumi_panel.Base.{
  ℕ, zero, suc, ◌+◌, ◌-◌, ◌≤◌, ◌<◌, ◌^◌, ◌≡◌, refl, arith, List, [], ◌∷◌, ℤ, pos, negsuc, ◌==ℤ◌,
  pos_part, neg_part, if◌then◌else◌, All, ◌≢◌, ◌≤ℤ◌, ℤ-cases,
}
use lumi_panel.Base.Assoc.{lookup}
use lumi_panel.Time.{Instant}
use lumi_panel.Domain.Quota.{
  SubQuota, LedgerRow, attribute, overflow_subscription_id, attribute_from,
}
use Rows.{find_row, attribute_rows, attribute_from-rows}
use Totals.{
  IsBooked, drained-zero, tally-attribute_rows, total-attribute_rows, rows_of-attribute_rows,
}

pub attribute-rows :
    (n : ℕ) (subs : List SubQuota) (at : Instant)
    → 0 < n
    → n < 2 ^ 63
    → attribute (pos n) subs at ≡ attribute_rows subs at n []
unfolding attribute pos_part neg_part
attribute-rows n subs at h k =
    let loop = attribute_from-rows subs at n (record { rows = []; index = [] }) k in
    ground (arith, loop (λ j. unfold lookup find_row in refl))

attribute-nil :
    (billed : ℤ) (subs : List SubQuota) (at : Instant)
    → pos_part billed ≡ 0
    → attribute billed subs at ≡ []
unfolding attribute pos_part
attribute-nil billed subs at h = ground arith

nothing-IsBooked : (n : ℕ) → n < 2 ^ 63 → IsBooked [] n
unfolding total
nothing-IsBooked n k = record { billed = tt; fits = omega arith }

-- No byte is lost or invented: for a positive int64 amount the rows are all positive and add up to
-- it exactly, whatever the ladder holds, and each subscription ID has one row at most. For an
-- amount that is not positive the rows add up to zero, and as all are positive there are none.
pub attribute_conserves :
    (billed : ℤ) (subs : List SubQuota) (at : Instant)
    → pos_part billed < 2 ^ 63
    → let rows = attribute billed subs at in
      (total rows ≡ pos_part billed) × All IsBilled rows × ((k : ℤ) → rows_of k rows ≤ 1)
unfolding pos_part
attribute_conserves (pos zero) subs at h =
    rw (attribute-nil (pos 0) subs at refl) (unfold total rows_of in (refl, tt, λ k. omega arith))
attribute_conserves (pos (suc n)) subs at h =
    let (billed, sum) =
      total-attribute_rows at subs (suc n) [] (omega arith) (nothing-IsBooked (suc n) h) in
    rw (attribute-rows (suc n) subs at (omega arith) h) (
      unfold total in omega (arith, sum),
      billed,
      λ k.
          rows_of-attribute_rows at k subs (suc n) [] (omega arith) (unfold rows_of in omega arith),
    )
attribute_conserves (negsuc n) subs at h =
    rw (attribute-nil (negsuc n) subs at refl)
      (unfold total rows_of in (refl, tt, λ k. omega arith))

pub attribute-drained :
    (k billed : ℤ) (subs : List SubQuota) (at : Instant)
    → pos_part billed < 2 ^ 63
    → tally k (attribute billed subs at) ≡ drained k subs at (pos_part billed)
unfolding pos_part
attribute-drained k (pos zero) subs at h =
    rw (attribute-nil (pos 0) subs at refl, drained-zero) (unfold tally in refl)
attribute-drained k (pos (suc n)) subs at h = rw (attribute-rows (suc n) subs at (omega arith) h) (
    unfold tally in
    omega
      (arith, tally-attribute_rows at k subs (suc n) [] (omega arith) (nothing-IsBooked (suc n) h)))
attribute-drained k (negsuc n) subs at h =
    rw (attribute-nil (negsuc n) subs at refl, drained-zero) (unfold tally in refl)
