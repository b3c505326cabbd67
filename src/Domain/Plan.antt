-- ===== src/Domain/Plan.antt =====
-- internal/domain/plan.go: what a change of plan costs and leaves. Locations and the calendar are
-- package time's: `add_days` is `t.AddDate(0, 0, n)` in the location that `t` carries, `civil loc t`
-- the year, month and day of `t.In(loc)`, and `date` is `time.Date` at midnight.
pub mod Changes
pub mod Division
pub mod Stacking
pub mod Prorating
pub mod Days
mod Tests
use Prim.Native.String.{String}
use lumi_panel.Base.{
  ℕ, ◌^◌, ◌-◌, ◌*◌, Bool, true, false, not, ◌&&◌, Option, none, some, ℤ, pos, negsuc, ◌-ℤ◌,
  pos_part, neg_part, ltb_ℤ, leb_ℤ, ◌==ℤ◌, if◌then◌else◌,
}
use lumi_panel.Base.Word.{add64, sub64, mul64, div64, rem64, neg64}
use lumi_panel.Time.{Instant, CivilDate, before, after, day}
use lumi_panel.Domain.Money.{Money}

-- `unknown_policy` is any string that is not one of the constants.
pub data ChangePolicy : Type 0 where
  reset : ChangePolicy
  prorate : ChangePolicy
  stack : ChangePolicy
  deny : ChangePolicy
  unknown_policy : String → ChangePolicy

pub data ChangeError : Type 0 where
  change_denied : ChangeError
  prorate_permanent : ChangeError
  bad_period : ChangeError
  unknown_change : ChangeError

pub record PlanSnapshot : Type 0 where
  pub id : ℤ
  pub transfer_bytes : ℤ
  pub period_days : ℤ
  pub price : Money

pub record LiveSubscription : Type 0 where
  pub transfer_bytes : ℤ
  pub used_bytes : ℤ
  pub expired_at : Option Instant

pub record ChangeRequest (Location : Type 0) : Type 0 where
  pub policy : ChangePolicy
  pub old_plan : PlanSnapshot
  pub new_plan : PlanSnapshot
  pub current : LiveSubscription
  pub at : Instant
  pub loc : Option Location

pub data ChangeMode : Type 0 where
  replace : ChangeMode
  extend : ChangeMode

pub record ChangeOutcome : Type 0 where
  pub mode : ChangeMode
  pub expired_at : Option Instant
  pub transfer_bytes : ℤ
  pub used_bytes : ℤ
  pub charge : Money
  pub credit : Money

-- Beside an error the source returns the zero outcome.
pub data ChangeResult : Type 0 where
  refused : ChangeError → ChangeResult
  granted : ChangeOutcome → ChangeResult

-- `a != b` of two Booleans.
abbrev pub differ : Bool → Bool → Bool
differ true b = not b
differ false b = b

unfoldable pub floor_div : ℤ → ℤ → ℤ
unfolding div64 rem64 sub64
floor_div a b =
    let q = div64 a b in
    if not (rem64 a b ==ℤ pos 0) && differ (ltb_ℤ a (pos 0)) (ltb_ℤ b (pos 0))
    then sub64 q (pos 1)
    else q

unfoldable pub ceil_div : ℤ → ℤ → ℤ
unfolding div64 rem64 add64
ceil_div a b =
    let q = div64 a b in
    if not (rem64 a b ==ℤ pos 0) && not (differ (ltb_ℤ a (pos 0)) (ltb_ℤ b (pos 0)))
    then add64 q (pos 1)
    else q

-- `t.Sub(u)`: a Duration is an int64 of nanoseconds, and the difference saturates.
unfoldable pub time_sub : Instant → Instant → ℤ
time_sub t u =
    let d = pos t -ℤ pos u in
    if ltb_ℤ (pos (2 ^ 63 - 1)) d
    then pos (2 ^ 63 - 1)
    else if ltb_ℤ d (negsuc (2 ^ 63 - 1))
    then negsuc (2 ^ 63 - 1)
    else d

module _ {Location : Type 0} (utc : Location) (civil : Location → Instant → CivilDate)
    (date : ℕ → ℕ → ℕ → Location → Instant) where
  unfoldable pub remaining_days : Instant → Instant → Option Location → ℤ
  unfolding time_sub div64
  remaining_days at expired_at loc =
      let loc' : Location = elim loc [ none ↦ utc | some l ↦ l ] in
      let a = civil loc' at in
      let e = civil loc' expired_at in
      let a_day = date a.year a.month a.day utc in
      let e_day = date e.year e.month e.day utc in
      let days = div64 (time_sub e_day a_day) (pos day) in
      if ltb_ℤ days (pos 0) then pos 0 else days

  module _ (add_days : Instant → ℤ → Instant) where
    -- The case `ChangeReset`, which `ChangeDeny` falls through to.
    unfoldable pub change_reset : ChangeRequest Location → ChangeResult
    change_reset req = granted (record {
      mode = replace;
      expired_at = some (add_days req.at req.new_plan.period_days);
      transfer_bytes = req.new_plan.transfer_bytes;
      used_bytes = pos 0;
      charge = req.new_plan.price;
      credit = pos 0;
    })

    unfoldable pub change_stack : ChangeRequest Location → ChangeResult
    unfolding add64
    change_stack req = granted (record {
      mode = extend;
      expired_at = elim req.current.expired_at [
        | none ↦ none
        | some base ↦
            some (add_days (if before base req.at then req.at else base) req.new_plan.period_days)
      ];
      transfer_bytes = add64 req.current.transfer_bytes req.new_plan.transfer_bytes;
      used_bytes = req.current.used_bytes;
      charge = req.new_plan.price;
      credit = pos 0;
    })

    -- The case `ChangeProrate` at an expiry, with a positive period of the old plan.
    unfoldable pub prorated : ChangeRequest Location → Instant → ChangeResult
    unfolding remaining_days floor_div ceil_div mul64 sub64 neg64
    prorated req expiry =
        let remaining =
          remaining_days req.at expiry (some (elim req.loc [ none ↦ utc | some l ↦ l ])) in
        let gained = floor_div (mul64 req.new_plan.price remaining) req.new_plan.period_days in
        let surrendered = ceil_div (mul64 req.old_plan.price remaining) req.old_plan.period_days in
        let diff = sub64 gained surrendered in
        let owes = leb_ℤ (pos 0) diff in
        granted (record {
          mode = replace;
          expired_at = some expiry;
          transfer_bytes =
              floor_div (mul64 req.new_plan.transfer_bytes remaining) req.new_plan.period_days;
          used_bytes = pos 0;
          charge = if owes then diff else pos 0;
          credit = if owes then pos 0 else neg64 diff;
        })

    unfoldable pub change_by : ChangePolicy → ChangeRequest Location → ChangeResult
    unfolding change_reset change_stack prorated
    change_by deny req =
        let denied : Bool = elim req.current.expired_at [ none ↦ true | some e ↦ after e req.at ] in
        if denied then refused change_denied else change_reset req
    change_by reset req = change_reset req
    change_by stack req = change_stack req
    change_by prorate req = elim req.current.expired_at [
      | none ↦ refused prorate_permanent
      | some expiry ↦
          if leb_ℤ req.old_plan.period_days (pos 0) then refused bad_period else prorated req expiry
    ]
    change_by (unknown_policy s) req = refused unknown_change

    unfoldable pub apply_change : ChangeRequest Location → ChangeResult
    unfolding change_by
    apply_change req =
        if leb_ℤ req.new_plan.period_days (pos 0)
        then refused bad_period
        else change_by req.policy req
