-- ===== src/Metering/Ladder/Effects.antt =====
-- What the methods of internal/metering/ladder.go do to the entries, looked up by ID.
use mathlib.Core.Option
use lumi_panel.Base.{
  ◌≤◌, ◌<◌, ◌^◌, ◌≡◌, refl, arith, Bool, true, false, ◌&&◌, Option-cases, inl, inr, Option, none,
  some, List, [], ◌∷◌, map, ℤ, pos, ◌<ℤ◌, leb_ℤ, ◌==ℤ◌, ==ℤ_iff, pos_part, if◌then◌else◌, All,
}
use lumi_panel.Base.Assoc.{lookup, insert, lookup-insert, Every-lookup}
use lumi_panel.Time.{Instant}
use lumi_panel.Domain.Quota.{SubQuota, LedgerRow, overflow_subscription_id}
use lumi_panel.Domain.Quota
use lumi_panel.Domain.Quota.Attribution.{total, rows_of, IsBilled, attribute_conserves}
use lumi_panel.Domain.Quota.Apply.{settle}
use lumi_panel.Domain.Reset.{counts_toward_current_period}
use lumi_panel.Metering.Ladder.{
  QuotaLadder, ladder_of, attribute, charge_rows, change_first, change_user, set_used, reconcile,
}
use lumi_panel.Metering.Ladder.Prepare.{find_sub}
use lumi_panel.Metering.Ladder.Charge.{charge_rows-settle}
use lumi_panel.Metering.Ladder.Steps.{IsReady, IsWellFormed}

-- The entry of a user after an entry was installed.
pub ladder_of-insert :
    (user u : ℤ) (subs : List SubQuota) (l : QuotaLadder)
    → ladder_of u (record { ladders = insert user subs l.ladders })
      ≡ (if user ==ℤ u then subs else ladder_of u l)
unfolding ladder_of
ladder_of-insert user u subs l = ground (arith, lookup-insert user u subs l.ladders)

pub find_sub-map :
    (k : ℤ) (f : SubQuota → SubQuota) (subs : List SubQuota)
    → ((s : SubQuota) → (f s).id ≡ s.id)
    → find_sub k (map f subs) ≡ Option.map f (find_sub k subs)
unfolding find_sub
find_sub-map k f [] keeps = refl
find_sub-map k f (s ∷ subs) keeps = ground (arith, find_sub-map k f subs keeps, keeps s)

pub find_sub-change_first :
    (k id : ℤ) (f : SubQuota → SubQuota) (subs : List SubQuota)
    → ((s : SubQuota) → (f s).id ≡ s.id)
    → find_sub k (change_first f id subs).1
      ≡ (if id ==ℤ k then Option.map f (find_sub k subs) else find_sub k subs)
unfolding find_sub change_first
find_sub-change_first k id f [] keeps = ground arith
find_sub-change_first k id f (s ∷ subs) keeps =
    ground (arith, find_sub-change_first k id f subs keeps, keeps s, ==ℤ_iff id k)

abbrev pub is_some {ℓ} : {A : Type ℓ} → Option A → Bool
is_some none = false
is_some (some _) = true

change_first-found :
    (id : ℤ) (f : SubQuota → SubQuota) (subs : List SubQuota)
    → (change_first f id subs).0 ≡ is_some (find_sub id subs)
unfolding find_sub change_first
change_first-found id f [] = refl
change_first-found id f (s ∷ subs) = ground (arith, change_first-found id f subs)

pub ladder_of-none : (u : ℤ) (l : QuotaLadder) → lookup u l.ladders ≡ none → ladder_of u l ≡ []
unfolding ladder_of
ladder_of-none u l e = ground arith

pub ladder_of-some :
    (u : ℤ) (l : QuotaLadder) {subs : List SubQuota}
    → lookup u l.ladders ≡ some subs
    → ladder_of u l ≡ subs
unfolding ladder_of
ladder_of-some u l e = ground arith

pub find_sub-nil : (k : ℤ) → find_sub k [] ≡ none
unfolding find_sub
find_sub-nil k = refl

-- A change of one subscription: it is reported exactly when the user holds the ID, and touches
-- that entry alone.
pub change_user_lem :
    (f : SubQuota → SubQuota) (user id : ℤ) (l : QuotaLadder)
    → ((s : SubQuota) → (f s).id ≡ s.id)
    → ((change_user f user id l).1 ≡ is_some (find_sub id (ladder_of user l)))
      × ((u k : ℤ)
          → find_sub k (ladder_of u (change_user f user id l).0) ≡ (
              if user ==ℤ u && id ==ℤ k
              then Option.map f (find_sub k (ladder_of u l))
              else find_sub k (ladder_of u l)))
unfolding change_user
change_user_lem f user id l keeps = elim (Option-cases (lookup user l.ladders)) [
  | inl e ↦
      let empty = ladder_of-none user l e in
      (
        ground (arith, empty, find_sub-nil id),
        λ u k. ground (arith, empty, find_sub-nil k, ==ℤ_iff user u),
      )
  | inr (subs, e) ↦
      let held = ladder_of-some user l e in
      (
        ground (arith, held, change_first-found id f subs),
        λ u k. ground (
          arith,
          held,
          ladder_of-insert user u (change_first f id subs).1 l,
          find_sub-change_first k id f subs keeps,
          ==ℤ_iff user u,
        ),
      )
]

-- `Reconcile` reports whether the user holds the subscription; if so its counter takes the value,
-- and nothing else of the ladder changes, for this user or another.
pub reconcile_lem :
    (user id used : ℤ) (l : QuotaLadder)
    → ((reconcile user id used l).1 ≡ is_some (find_sub id (ladder_of user l)))
      × ((u k : ℤ)
          → find_sub k (ladder_of u (reconcile user id used l).0) ≡ (
              if user ==ℤ u && id ==ℤ k
              then Option.map (set_used used) (find_sub k (ladder_of u l))
              else find_sub k (ladder_of u l)))
unfolding reconcile
reconcile_lem user id used l = change_user_lem (set_used used) user id l (λ s. refl)

settle-id :
    (counts : Option Instant → Bool) (rows : List LedgerRow) (s : SubQuota)
    → (settle counts rows s).id ≡ s.id
unfolding settle
settle-id counts rows s = ground arith

pub find_sub-settle :
    (k : ℤ) (counts : Option Instant → Bool) (rows : List LedgerRow) (subs : List SubQuota)
    → find_sub k (map (settle counts rows) subs) ≡ Option.map (settle counts rows) (find_sub k subs)
find_sub-settle k counts rows subs =
    find_sub-map k (settle counts rows) subs (settle-id counts rows)

overflow_row :
    (billed : ℤ)
    → let rows : List LedgerRow =
        record { subscription_id = overflow_subscription_id; billed = billed } ∷ [] in
      (total rows ≡ pos_part billed) × ((k : ℤ) → rows_of k rows ≤ 1)
unfolding total rows_of
overflow_row billed = (omega arith, λ k. ground arith)

positive-billed : (billed : ℤ) → pos 0 <ℤ billed → leb_ℤ billed (pos 0) ≡ false
positive-billed billed h = ground arith

-- On a well-formed ladder, a flush of a positive int64 amount writes rows for the whole amount,
-- known user or not: they are positive, add up to the amount, and name each subscription once. It
-- settles the user's subscriptions whose current period the bucket counts toward, by what the rows
-- say, and touches no other user.
pub attribute_lem :
    (user billed : ℤ) (bucket_at : Instant) (l : QuotaLadder)
    → pos 0 <ℤ billed
    → pos_part billed < 2 ^ 63
    → IsWellFormed l
    → let (l', rows) = attribute user billed bucket_at l in
      (total rows ≡ pos_part billed)
      × All IsBilled rows
      × ((k : ℤ) → rows_of k rows ≤ 1)
      × ((u k : ℤ)
          → find_sub k (ladder_of u l') ≡ (
              if user ==ℤ u
              then Option.map
                  (settle (counts_toward_current_period bucket_at) rows)
                  (find_sub k (ladder_of u l))
              else find_sub k (ladder_of u l)))
unfolding attribute
attribute_lem user billed bucket_at l h fits w = elim (Option-cases (lookup user l.ladders)) [
  | inl e ↦
      let empty = ladder_of-none user l e in
      rw (positive-billed billed h, e)
        (
          (overflow_row billed).0,
          (h, tt),
          (overflow_row billed).1,
          λ u k. ground (arith, empty, find_sub-nil k, ==ℤ_iff user u),
        )
  | inr (subs, e) ↦
      let held = ladder_of-some user l e in
      let rows = Quota.attribute billed subs bucket_at in
      let (sum, positive, single) = attribute_conserves billed subs bucket_at fits in
      let ready = Every-lookup IsReady user l.ladders w e in
      let charged = charge_rows-settle bucket_at rows subs ready.distinct ready.counters positive in
      rw (positive-billed billed h, e)
        (
          sum,
          positive,
          single,
          λ u k. ground (
            arith,
            held,
            charged,
            ladder_of-insert user u (charge_rows bucket_at subs rows) l,
            find_sub-settle k (counts_toward_current_period bucket_at) rows subs,
            ==ℤ_iff user u,
          ),
        )
]
