-- ===== src/Metering/Ladder/Abstract.antt =====
-- What internal/metering/ladder.go promises its callers, apart from slices and their order: for each
-- user and ID the subscription that is held, and how each call changes that.
use mathlib.Core.Option
use lumi_panel.Base.{
  ◌≡◌, ◌⊎◌, ◌&&◌, Option, none, List, [], ◌∷◌, ℤ, pos, ◌<ℤ◌, ◌≤ℤ◌, ◌==ℤ◌, if◌then◌else◌,
}
use lumi_panel.Time.{Instant}
use lumi_panel.Domain.Quota.{SubQuota, LedgerRow}
use lumi_panel.Domain.Quota
use lumi_panel.Domain.Quota.Apply.{HasDistinctIds, settle}
use lumi_panel.Domain.Reset.{counts_toward_current_period}
use lumi_panel.Metering.Ladder.{set_used, restart}
use lumi_panel.Metering.Ladder.Prepare.{find_sub}
use lumi_panel.Metering.Ladder.Keys.{IsOrdered}
use lumi_panel.Metering.Ladder.Effects.{is_some}
use lumi_panel.Metering.Ladder.Syncing.{held_counter}
use lumi_panel.Metering.Ladder.Calls.{
  Call, calls_rebuild, calls_sync, calls_drop, calls_attribute, calls_reconcile, calls_reset,
  Result, nothing, rows, found,
}

-- What each user holds under each ID.
abbrev pub State : Type 0
State = ℤ → ℤ → Option SubQuota

-- A user's subscriptions in deduction order.
pub record Lists (held : ℤ → Option SubQuota) (subs : List SubQuota) : Type 0 where
  pub distinct : HasDistinctIds subs
  pub in_order : IsOrdered subs
  pub lists : (k : ℤ) → find_sub k subs ≡ held k

-- A flush of a positive amount bills the user's subscriptions, listed in deduction order, and
-- settles by the rows those of them whose current period the bucket counts toward.
pub record Bills (user billed : ℤ) (bucket_at : Instant) (a : State) (r : Result) (b : State)
    : Type 0 where
  pub positive : pos 0 <ℤ billed
  pub subs : List SubQuota
  pub lists : Lists (a user) subs
  pub returns : r ≡ rows (Quota.attribute billed subs bucket_at)
  pub settles :
      (u k : ℤ)
      → b u k ≡ (
          if user ==ℤ u
          then Option.map
              (settle
                (counts_toward_current_period bucket_at)
                (Quota.attribute billed subs bucket_at))
              (a u k)
          else a u k)

-- A change of one subscription, with the report whether the user holds it.
pub record Changes (f : SubQuota → SubQuota) (user id : ℤ) (a : State) (r : Result) (b : State)
    : Type 0 where
  pub reports : r ≡ found (is_some (a user id))
  pub changes : (u k : ℤ) → b u k ≡ (if user ==ℤ u && id ==ℤ k then Option.map f (a u k) else a u k)

-- How a call takes the state before it to the state behind it, and what it returns.
abbrev pub Behaves : Call → State → Result → State → Type 0
Behaves (calls_rebuild user subs) a r b =
    (r ≡ nothing) × ((u k : ℤ) → b u k ≡ (if user ==ℤ u then find_sub k subs else a u k))
Behaves (calls_sync user subs) a r b =
    (r ≡ nothing)
    × ((u k : ℤ)
        → b u k
          ≡ (if user ==ℤ u then Option.map (held_counter (a user k)) (find_sub k subs) else a u k))
Behaves (calls_drop user) a r b =
    (r ≡ nothing) × ((u k : ℤ) → b u k ≡ (if user ==ℤ u then none else a u k))
Behaves (calls_attribute user billed bucket_at) a r b =
    ((billed ≤ℤ pos 0) × (r ≡ rows []) × ((u k : ℤ) → b u k ≡ a u k))
    ⊎ Bills user billed bucket_at a r b
Behaves (calls_reconcile user id used) a r b = Changes (set_used used) user id a r b
Behaves (calls_reset user id epoch reset_at) a r b = Changes (restart epoch reset_at) user id a r b

-- A sequence of calls with what they return, from a state to another.
pub data Replays : List Call → State → List Result → State → Type 0 where
  at_end : {a b : State} → ((u k : ℤ) → b u k ≡ a u k) → Replays [] a [] b
  behaves :
      {c : Call} {cs : List Call} {a b d : State} {r : Result} {rs : List Result}
      → Behaves c a r b
      → Replays cs b rs d
      → Replays (c ∷ cs) a (r ∷ rs) d
