-- ===== src/Domain/Plan/Prorating.antt =====
-- The price of a prorated change of internal/domain/plan.go.
use lumi_panel.Base.{
  ℕ, ◌-◌, ◌*◌, ◌/◌, ◌%◌, ◌+◌, ◌^◌, ◌<◌, ◌≡◌, refl, arith, false, none, some, ℤ, pos, pos_part,
  neg_part, leb_ℤ, ◌==◌, if◌then◌else◌,
}
use lumi_panel.Base.Word.{sub64, neg64, wrap64, mul64-pos}
use lumi_panel.Time.{Instant, CivilDate}
use lumi_panel.Domain.Plan.{
  prorate, ChangeRequest, replace, ChangeOutcome, granted, remaining_days, prorated, change_by,
  apply_change,
}
use lumi_panel.Domain.Plan.Division.{
  IsFloor, IsCeiling, floor_div-pos, ceil_div-pos, quotient-IsFloor, quotient-IsCeiling,
  quotient-le, ceiling-le,
}

-- The two sides of a difference of amounts.
charged :
    (f c : ℕ)
    → f < 2 ^ 63
    → c < 2 ^ 63
    → let d = sub64 (pos f) (pos c) in
      let owes = leb_ℤ (pos 0) d in
      ((if owes then d else pos 0) ≡ pos (f - c))
      × ((if owes then pos 0 else neg64 d) ≡ pos (c - f))
unfolding sub64 neg64 wrap64 pos_part neg_part
charged f c hf hc = ground arith

-- A prorated change as it is asked for: amounts that are not negative and positive periods, with
-- `r` days that remain to the expiry, and products that fit an int64.
pub record Prorates {Location : Type 0} (utc : Location) (civil : Location → Instant → CivilDate)
    (date : ℕ → ℕ → ℕ → Location → Instant) (req : ChangeRequest Location) (expiry : Instant)
    (old_price new_price old_days new_days bytes r : ℕ) : Type 0 where
  pub policy : req.policy ≡ prorate
  pub expires : req.current.expired_at ≡ some expiry
  pub pays_old : req.old_plan.price ≡ pos old_price
  pub pays_new : req.new_plan.price ≡ pos new_price
  pub lasts_old : req.old_plan.period_days ≡ pos old_days
  pub lasts_new : req.new_plan.period_days ≡ pos new_days
  pub allows : req.new_plan.transfer_bytes ≡ pos bytes
  pub remains :
      remaining_days utc civil date req.at expiry (some (elim req.loc [ none ↦ utc | some l ↦ l ]))
      ≡ pos r
  pub some_old : 0 < old_days
  pub some_new : 0 < new_days
  pub fits_old : old_price * r < 2 ^ 63
  pub fits_new : new_price * r < 2 ^ 63
  pub fits_bytes : bytes * r < 2 ^ 63

-- What a prorated change grants: the value gained is the new price for the remaining days, rounded
-- down, and the value surrendered the old one, rounded up.
pub record IsProrated (expiry : Instant) (old_price new_price old_days new_days bytes r : ℕ)
    (out : ChangeOutcome) : Type 0 where
  pub mode : out.mode ≡ replace
  pub expired_at : out.expired_at ≡ some expiry
  pub used_bytes : out.used_bytes ≡ pos 0
  pub gained : ℕ
  pub surrendered : ℕ
  pub allowance : ℕ
  pub is_gained : IsFloor gained (new_price * r) new_days
  pub is_surrendered : IsCeiling surrendered (old_price * r) old_days
  pub is_allowance : IsFloor allowance (bytes * r) new_days
  pub charge : out.charge ≡ pos (gained - surrendered)
  pub credit : out.credit ≡ pos (surrendered - gained)
  pub transfer_bytes : out.transfer_bytes ≡ pos allowance

floor_of : (n d : ℕ) → n < 2 ^ 63 → 0 < d → n / d < 2 ^ 63
floor_of n d h k = omega (arith, quotient-le n d k)

ceiling_of : (n d : ℕ) → n < 2 ^ 63 → 0 < d → n / d + (if n % d == 0 then 0 else 1) < 2 ^ 63
ceiling_of n d h k = omega (arith, ceiling-le n d k)

positive_days : (d : ℤ) (n : ℕ) → d ≡ pos n → 0 < n → leb_ℤ d (pos 0) ≡ false
unfolding pos_part neg_part
positive_days d n e h = rw e (ground arith)

abbrev prorated_outcome : Instant → ℕ → ℕ → ℕ → ChangeOutcome
prorated_outcome expiry gained surrendered allowance = record {
  mode = replace;
  expired_at = some expiry;
  transfer_bytes = pos allowance;
  used_bytes = pos 0;
  charge = pos (gained - surrendered);
  credit = pos (surrendered - gained);
}

module _ {Location : Type 0} (utc : Location) (civil : Location → Instant → CivilDate)
    (date : ℕ → ℕ → ℕ → Location → Instant) (add_days : Instant → ℤ → Instant) where
  prorated-granted :
      (req : ChangeRequest Location) (expiry : Instant)
      → (p q m n b r : ℕ) → Prorates utc civil date req expiry p q m n b r
      → prorated utc civil date add_days req expiry
        ≡ granted (
            prorated_outcome expiry
              (q * r / n)
              (p * r / m + (if p * r % m == 0 then 0 else 1))
              (b * r / n))
  unfolding prorated
  prorated-granted req expiry p q m n b r h =
      let f = q * r / n in
      let c = p * r / m + (if p * r % m == 0 then 0 else 1) in
      let (owed, due) =
        charged f c (floor_of (q * r) n h.fits_new h.some_new)
          (ceiling_of (p * r) m h.fits_old h.some_old) in
      rw
        (
          prorated,
          h.remains,
          h.pays_new,
          h.pays_old,
          h.lasts_new,
          h.lasts_old,
          h.allows,
          mul64-pos q r h.fits_new,
          mul64-pos p r h.fits_old,
          mul64-pos b r h.fits_bytes,
          floor_div-pos (q * r) n h.fits_new,
          floor_div-pos (b * r) n h.fits_bytes,
          ceil_div-pos (p * r) m h.fits_old h.some_old,
          owed,
          due,
        )
        refl

  -- A prorated change at an expiry, between plans whose amounts are not negative and whose periods
  -- are positive, and where no product overflows, is always granted. It keeps the expiry and
  -- restarts the counter. With the new price for the days that remain rounded down and the old one
  -- rounded up, it charges the excess of the first over the second and credits that of the second
  -- over the first, never both; and it grants the new allowance for those days, rounded down.
  pub apply_change-Prorates :
      (req : ChangeRequest Location) (expiry : Instant)
      → (old_price new_price old_days new_days bytes r : ℕ)
      → Prorates utc civil date req expiry old_price new_price old_days new_days bytes r
      → (out : ChangeOutcome) × (apply_change utc civil date add_days req ≡ granted out)
        × IsProrated expiry old_price new_price old_days new_days bytes r out
  unfolding apply_change change_by
  apply_change-Prorates req expiry p q m n b r h = (
    prorated_outcome expiry (q * r / n) (p * r / m + (if p * r % m == 0 then 0 else 1)) (b * r / n),
    rw
        (
          positive_days req.new_plan.period_days n h.lasts_new h.some_new,
          h.policy,
          change_by,
          h.expires,
          positive_days req.old_plan.period_days m h.lasts_old h.some_old,
        )
        (prorated-granted req expiry p q m n b r h),
    record {
      mode = refl;
      expired_at = refl;
      used_bytes = refl;
      gained = q * r / n;
      surrendered = p * r / m + (if p * r % m == 0 then 0 else 1);
      allowance = b * r / n;
      is_gained = quotient-IsFloor (q * r) n h.some_new;
      is_surrendered = quotient-IsCeiling (p * r) m h.some_old;
      is_allowance = quotient-IsFloor (b * r) n h.some_new;
      charge = refl;
      credit = refl;
      transfer_bytes = refl;
    },
  )
