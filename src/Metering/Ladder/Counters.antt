-- ===== src/Metering/Ladder/Counters.antt =====
-- Counters stay int64 values through the loops of internal/metering/ladder.go.
use lumi_panel.Base.{arith, Bool-cases, Option-cases, inl, inr, List, [], ◌∷◌, ℤ, ◌==ℤ◌}
use lumi_panel.Base.Word.{IsInt64, add64-IsInt64}
use lumi_panel.Base.Assoc.{lookup, insert, Every, Every-insert, Every-lookup}
use lumi_panel.Time.{Instant}
use lumi_panel.Domain.Quota.{SubQuota, LedgerRow, overflow_subscription_id}
use lumi_panel.Domain.Quota.Apply.{HasCounters}
use lumi_panel.Metering.Ladder.{known_counters, keep_counter, charge_row, charge_rows, change_first}
use lumi_panel.Metering.Ladder.Keys.{SameKey}

pub known_counters-IsInt64 :
    (subs : List SubQuota) (known : List (ℤ × ℤ))
    → HasCounters subs
    → Every IsInt64 known
    → Every IsInt64 (known_counters subs known)
unfolding known_counters
known_counters-IsInt64 [] known c k = k
known_counters-IsInt64 (s ∷ subs) known (c, cs) k =
    known_counters-IsInt64 subs (insert s.id s.used_bytes known) cs
      (Every-insert IsInt64 s.id s.used_bytes known c k)

pub keep_counter-SameKey : (known : List (ℤ × ℤ)) (s : SubQuota) → SameKey s (keep_counter known s)
unfolding keep_counter
keep_counter-SameKey known s = ground arith

pub keep_counter-IsInt64 :
    (known : List (ℤ × ℤ)) (s : SubQuota)
    → Every IsInt64 known
    → IsInt64 s.used_bytes
    → IsInt64 (keep_counter known s).used_bytes
unfolding keep_counter
keep_counter-IsInt64 known s k h = elim (Option-cases (lookup s.id known)) [
  | inl e ↦ rw (e, keep_counter) h
  | inr (used, e) ↦ rw (e, keep_counter) (Every-lookup IsInt64 s.id known k e)
]

charge_row-HasCounters :
    (bucket_at : Instant) (subs : List SubQuota) (r : LedgerRow)
    → HasCounters subs
    → HasCounters (charge_row bucket_at subs r)
unfolding charge_row
charge_row-HasCounters bucket_at [] r c = tt
charge_row-HasCounters bucket_at (s ∷ subs) r (c, cs) =
    ground (arith, charge_row-HasCounters bucket_at subs r cs, add64-IsInt64 s.used_bytes r.billed)

pub charge_rows-HasCounters :
    (bucket_at : Instant) (rows : List LedgerRow) (subs : List SubQuota)
    → HasCounters subs
    → HasCounters (charge_rows bucket_at subs rows)
unfolding charge_rows
charge_rows-HasCounters bucket_at [] subs c = c
charge_rows-HasCounters bucket_at (r ∷ rows) subs c =
    elim (Bool-cases (r.subscription_id ==ℤ overflow_subscription_id)) [
      | inl e ↦ rw (e, charge_rows) (charge_rows-HasCounters bucket_at rows subs c)
      | inr e ↦
          rw (e, charge_rows)
            (charge_rows-HasCounters bucket_at rows (charge_row bucket_at subs r)
              (charge_row-HasCounters bucket_at subs r c))
    ]

pub change_first-HasCounters :
    (f : SubQuota → SubQuota)
    → ((s : SubQuota) → IsInt64 (f s).used_bytes)
    → (id : ℤ) (subs : List SubQuota) → HasCounters subs
    → HasCounters (change_first f id subs).1
unfolding change_first
change_first-HasCounters f g id [] c = tt
change_first-HasCounters f g id (s ∷ subs) (c, cs) =
    ground (arith, change_first-HasCounters f g id subs cs, g s)
