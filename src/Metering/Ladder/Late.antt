-- ===== src/Metering/Ladder/Late.antt =====
-- A flush that was in flight when a reset landed (internal/metering/ladder.go).
use mathlib.Core.Option
use lumi_panel.Base.{
  ◌+◌, ◌%◌, ◌≤◌, ◌<◌, ◌^◌, ◌≡◌, ◌≢◌, ◌⊎◌, ◌∙◌, sym, refl, arith, true, false, Bool-cases, leb,
  Option-cases, inl, inr, some, [], ◌∷◌, List, ℤ, pos, ◌<ℤ◌, ==ℤ_iff, pos_part,
}
use lumi_panel.Base.Word.{add64-pos}
use lumi_panel.Time.{Instant}
use lumi_panel.Domain.Quota.{SubQuota, LedgerRow, overflow_subscription_id}
use lumi_panel.Domain.Quota.Attribution.{total, tally}
use lumi_panel.Domain.Quota.Apply.{settle}
use lumi_panel.Domain.Reset.{bucket_size, align_bucket, counts_toward_current_period}
use lumi_panel.Metering.Ladder.{QuotaLadder, ladder_of, attribute, reset, restart}
use lumi_panel.Metering.Ladder.Prepare.{find_sub, find_sub-id}
use lumi_panel.Metering.Ladder.Steps.{IsWellFormed, Step-IsWellFormed, resets}
use lumi_panel.Metering.Ladder.Effects.{change_user_lem, attribute_lem}

before_reset :
    (bucket_at reset_at : Instant)
    → bucket_at < align_bucket reset_at
    → counts_toward_current_period bucket_at (some (align_bucket reset_at)) ≡ false
unfolding counts_toward_current_period align_bucket
before_reset bucket_at reset_at h = ground arith

settle-restart :
    (bucket_at reset_at : Instant) (epoch : ℤ) (rows : List LedgerRow) (s : SubQuota)
    → bucket_at < align_bucket reset_at
    → settle (counts_toward_current_period bucket_at) rows (restart epoch reset_at s)
      ≡ restart epoch reset_at s
unfolding settle restart
settle-restart bucket_at reset_at epoch rows s h = ground (arith, before_reset bucket_at reset_at h)

reset_found :
    (user id epoch : ℤ) (reset_at : Instant) (l : QuotaLadder)
    → find_sub id (ladder_of user (reset user id epoch reset_at l).0)
      ≡ Option.map (restart epoch reset_at) (find_sub id (ladder_of user l))
unfolding reset
reset_found user id epoch reset_at l =
    let changed =
      (change_user_lem (restart epoch reset_at) user id l (λ s. unfold restart in refl)).1 in
    ground (arith, changed user id, ==ℤ_iff user user, ==ℤ_iff id id)

-- On a well-formed ladder, a flush of a positive int64 amount whose bucket lies before the aligned
-- instant of a reset still writes rows for its whole amount, but leaves the subscription as the
-- reset made it: counter zero, the new epoch, and the aligned instant.
pub attribute-after-reset :
    (user id epoch billed : ℤ) (reset_at bucket_at : Instant) (l : QuotaLadder)
    → IsWellFormed l
    → pos 0 <ℤ billed
    → pos_part billed < 2 ^ 63
    → bucket_at < align_bucket reset_at
    → let (after, rows) = attribute user billed bucket_at (reset user id epoch reset_at l).0 in
      (total rows ≡ pos_part billed)
      × (find_sub id (ladder_of user after)
          ≡ Option.map (restart epoch reset_at) (find_sub id (ladder_of user l)))
attribute-after-reset user id epoch billed reset_at bucket_at l w h fits late =
    let l' = (reset user id epoch reset_at l).0 in
    let rows = (attribute user billed bucket_at l').1 in
    let (sum, _, _, settled) =
      attribute_lem user billed bucket_at l' h fits
        (Step-IsWellFormed (resets user id epoch reset_at) w) in
    let s = find_sub id (ladder_of user l) in
    let was_reset = reset_found user id epoch reset_at l in
    (
      sum,
      rw (settled user id, was_reset)
          (elim (Option-cases s) [
            | inl e ↦ rw e (ground (arith, ==ℤ_iff user user))
            | inr (t, e) ↦ rw e (
                ground
                  (arith, ==ℤ_iff user user, settle-restart bucket_at reset_at epoch rows t late))
          ]),
    )

tally-le-total : (k : ℤ) (rows : List LedgerRow) → tally k rows ≤ total rows
unfolding tally total
tally-le-total k [] = omega arith
tally-le-total k (r ∷ rows) = ground (arith, tally-le-total k rows)

-- A five-minute bucket lies whole on one side of an aligned instant.
no_straddling :
    (bucket_at reset_at : Instant)
    → bucket_at % bucket_size ≡ 0
    → (bucket_at + bucket_size ≤ align_bucket reset_at) ⊎ (align_bucket reset_at ≤ bucket_at)
unfolding align_bucket
no_straddling bucket_at reset_at h = elim (Bool-cases (leb (align_bucket reset_at) bucket_at)) [
  | inl e ↦ inr (ground arith)
  | inr e ↦ inl (ground arith)
]

from_reset :
    (bucket_at reset_at : Instant)
    → align_bucket reset_at ≤ bucket_at
    → counts_toward_current_period bucket_at (some (align_bucket reset_at)) ≡ true
unfolding counts_toward_current_period align_bucket
from_reset bucket_at reset_at h = ground arith

-- What a flush of the new period makes of a subscription that was reset.
abbrev pub charged_anew : ℤ → Instant → List LedgerRow → SubQuota → SubQuota
charged_anew epoch reset_at rows s = record (restart epoch reset_at s) {
  used_bytes = pos (tally s.id rows);
}

settle-charged_anew :
    (bucket_at reset_at : Instant) (epoch : ℤ) (rows : List LedgerRow) (s : SubQuota)
    → align_bucket reset_at ≤ bucket_at
    → s.id ≢ overflow_subscription_id
    → total rows < 2 ^ 63
    → settle (counts_toward_current_period bucket_at) rows (restart epoch reset_at s)
      ≡ charged_anew epoch reset_at rows s
unfolding settle restart
settle-charged_anew bucket_at reset_at epoch rows s h ne fits = ground (
  arith,
  from_reset bucket_at reset_at h,
  ==ℤ_iff s.id overflow_subscription_id,
  tally-le-total s.id rows,
  add64-pos 0 (tally s.id rows),
)

-- A reset parts the traffic of a subscription between two buckets, never within one. On a
-- well-formed ladder, after a reset of a subscription whose ID is not 0, a flush of a positive int64
-- amount for a bucket writes rows for the whole amount, and: either the bucket ends by the aligned
-- instant of the reset, and the subscription stays as the reset made it; or it starts at that
-- instant or later, and the counter is what the rows bill to the subscription.
pub attribute-at-reset :
    (user id epoch billed : ℤ) (reset_at bucket_at : Instant) (l : QuotaLadder)
    → IsWellFormed l
    → pos 0 <ℤ billed
    → pos_part billed < 2 ^ 63
    → bucket_at % bucket_size ≡ 0
    → id ≢ overflow_subscription_id
    → let (after, rows) = attribute user billed bucket_at (reset user id epoch reset_at l).0 in
      let held = find_sub id (ladder_of user l) in
      let left = find_sub id (ladder_of user after) in
      (total rows ≡ pos_part billed)
      × (((bucket_at + bucket_size ≤ align_bucket reset_at)
            × (left ≡ Option.map (restart epoch reset_at) held))
          ⊎ ((align_bucket reset_at ≤ bucket_at)
              × (left ≡ Option.map (charged_anew epoch reset_at rows) held)))
attribute-at-reset user id epoch billed reset_at bucket_at l w h fits bucket ne =
    let l' = (reset user id epoch reset_at l).0 in
    let rows = (attribute user billed bucket_at l').1 in
    let (sum, _, _, settled) =
      attribute_lem user billed bucket_at l' h fits
        (Step-IsWellFormed (resets user id epoch reset_at) w) in
    let s = find_sub id (ladder_of user l) in
    let was_reset = reset_found user id epoch reset_at l in
    (
      sum,
      elim (no_straddling bucket_at reset_at bucket) [
        | inl late ↦ inl (
          late,
          (attribute-after-reset user id epoch billed reset_at bucket_at l w h fits
              (omega arith)).1,
        )
        | inr new ↦ inr (
          new,
          rw (settled user id, was_reset)
              (elim (Option-cases s) [
                | inl e ↦ rw e (ground (arith, ==ℤ_iff user user))
                | inr (t, e) ↦
                    let own = find_sub-id id (ladder_of user l) t e in
                    rw e (
                      ground (
                        arith,
                        ==ℤ_iff user user,
                        settle-charged_anew bucket_at reset_at epoch rows t new
                            (λ q. ne (sym own ∙ q)) (omega (arith, sum)),
                      ))
              ]),
        )
      ],
    )
