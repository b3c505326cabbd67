-- ===== src/Metering/Ladder/Flush.antt =====
-- One flush through `Attribute` of internal/metering/ladder.go, on the entry of its user and on
-- the others.
use lumi_panel.Base.{
  ℕ, ◌+◌, ◌<◌, ◌^◌, ◌≡◌, ◌≢◌, ◌∙◌, refl, sym, arith, true, Bool-cases, Option-cases, inl, inr, List,
  [], ◌∷◌, ℤ, pos, negsuc, neg_part, leb_ℤ, ◌==ℤ◌, ==ℤ_iff, pos_part, All,
}
use lumi_panel.Base.Assoc.{lookup, insert}
use lumi_panel.Time.{Instant}
use lumi_panel.Domain.Quota.{SubQuota, LedgerRow, overflow_subscription_id}
use lumi_panel.Domain.Quota
use lumi_panel.Domain.Quota.Attribution.{tally}
use lumi_panel.Domain.Quota.Apply.{HasDistinctIds}
use lumi_panel.Metering.Ladder.{QuotaLadder, ladder_of, attribute, charge_row, charge_rows}
use lumi_panel.Metering.Ladder.Charge.{IsWithin, HasOwners, charge_rows-IsWithin}
use lumi_panel.Metering.Ladder.Keys.{SameKeys-HasDistinctIds, All-SameKeys, charge_rows-SameKeys}
use lumi_panel.Metering.Ladder.Conserve.{used_total, AllCount, charge_rows_conserves}
use lumi_panel.Metering.Ladder.Effects.{ladder_of-insert, ladder_of-some}

-- A user's entry whose subscriptions own their traffic and are within their allowances.
pub record IsSound (subs : List SubQuota) : Type 0 where
  pub owners : HasOwners subs
  pub distinct : HasDistinctIds subs
  pub within : All IsWithin subs

-- What one flush of the user does to the entry: it stays sound, and what the counters gain and
-- what overflows make up the amount.
pub record IsFlushed (subs subs' : List SubQuota) (rows : List LedgerRow) (amount : ℕ)
    : Type 0 where
  pub sound : IsSound subs'
  pub conserved : used_total subs' + tally overflow_subscription_id rows ≡ used_total subs + amount
  pub periods : (bucket_at : Instant) → AllCount bucket_at subs → AllCount bucket_at subs'

charge_row-AllCount :
    (at bucket_at : Instant) (subs : List SubQuota) (r : LedgerRow)
    → AllCount at subs
    → AllCount at (charge_row bucket_at subs r)
unfolding charge_row
charge_row-AllCount at bucket_at [] r c = tt
charge_row-AllCount at bucket_at (s ∷ subs) r (c, cs) =
    ground (arith, charge_row-AllCount at bucket_at subs r cs)

charge_rows-AllCount :
    (at bucket_at : Instant) (rows : List LedgerRow) (subs : List SubQuota)
    → AllCount at subs
    → AllCount at (charge_rows bucket_at subs rows)
unfolding charge_rows
charge_rows-AllCount at bucket_at [] subs c = c
charge_rows-AllCount at bucket_at (r ∷ rows) subs c =
    elim (Bool-cases (r.subscription_id ==ℤ overflow_subscription_id)) [
      | inl e ↦ rw (e, charge_rows) (charge_rows-AllCount at bucket_at rows subs c)
      | inr e ↦
          rw (e, charge_rows)
            (charge_rows-AllCount at bucket_at rows (charge_row bucket_at subs r)
              (charge_row-AllCount at bucket_at subs r c))
    ]

charge_rows-IsFlushed :
    (billed : ℤ) (bucket_at : Instant) (subs : List SubQuota)
    → pos_part billed < 2 ^ 63
    → IsSound subs
    → AllCount bucket_at subs
    → let rows = Quota.attribute billed subs bucket_at in
      IsFlushed subs (charge_rows bucket_at subs rows) rows (pos_part billed)
charge_rows-IsFlushed billed bucket_at subs fits s c =
    let rows = Quota.attribute billed subs bucket_at in
    let keys = charge_rows-SameKeys bucket_at subs rows in
    record {
      sound = record {
        owners =
            All-SameKeys (λ t. t.id ≢ overflow_subscription_id)
              (λ t. t.id ≢ overflow_subscription_id) (λ a b k ne e. ne (k.id ∙ e)) subs
              (charge_rows bucket_at subs rows) keys s.owners;
        distinct = SameKeys-HasDistinctIds subs (charge_rows bucket_at subs rows) keys s.distinct;
        within = charge_rows-IsWithin billed bucket_at subs fits s.owners s.distinct s.within;
      };
      conserved = charge_rows_conserves billed bucket_at subs fits s.owners s.distinct s.within c;
      periods = λ at h. charge_rows-AllCount at bucket_at rows subs h;
    }

-- A flush that charges nobody, and overflows whole.
untouched :
    (subs : List SubQuota) (rows : List LedgerRow) (amount : ℕ)
    → IsSound subs
    → tally overflow_subscription_id rows ≡ amount
    → IsFlushed subs subs rows amount
untouched subs rows amount s t = record {
  sound = s;
  conserved = omega (arith, t);
  periods = λ at h. h;
}

overflow_tally :
    (billed : ℤ)
    → (tally overflow_subscription_id [] ≡ 0)
      × (tally overflow_subscription_id
            (record { subscription_id = overflow_subscription_id; billed = billed } ∷ [])
          ≡ pos_part billed)
unfolding tally
overflow_tally billed = ground arith

none_billed : (billed : ℤ) → leb_ℤ billed (pos 0) ≡ true → pos_part billed ≡ 0
unfolding pos_part neg_part
none_billed (pos n) q = ground arith
none_billed (negsuc n) q = refl

-- The entry that a flush installs is the one that is read back.
installed :
    (user : ℤ) (subs : List SubQuota) (l : QuotaLadder)
    → ladder_of user (record { ladders = insert user subs l.ladders }) ≡ subs
installed user subs l = ground (arith, ladder_of-insert user user subs l, ==ℤ_iff user user)

pub attribute-IsFlushed :
    (user billed : ℤ) (bucket_at : Instant) (l : QuotaLadder)
    → pos_part billed < 2 ^ 63
    → IsSound (ladder_of user l)
    → AllCount bucket_at (ladder_of user l)
    → let (l', rows) = attribute user billed bucket_at l in
      IsFlushed (ladder_of user l) (ladder_of user l') rows (pos_part billed)
unfolding attribute
attribute-IsFlushed user billed bucket_at l fits s c = elim (Bool-cases (leb_ℤ billed (pos 0))) [
  | inl q ↦ rw q (untouched _ [] _ s ((overflow_tally billed).0 ∙ sym (none_billed billed q)))
  | inr q ↦ elim (Option-cases (lookup user l.ladders)) [
    | inl e ↦ rw (q, e) (untouched _ _ _ s (overflow_tally billed).1)
    | inr (subs, e) ↦
        let held = ladder_of-some user l e in
        rw (q, e)
          (rw
            (
              installed user (charge_rows bucket_at subs (Quota.attribute billed subs bucket_at)) l,
              held,
            )
            (charge_rows-IsFlushed billed bucket_at subs fits (rw held at s) (rw held at c)))
  ]
]

-- A flush of one user leaves the entry of another alone.
pub attribute_other :
    (user u billed : ℤ) (bucket_at : Instant) (l : QuotaLadder)
    → user ≢ u
    → ladder_of u (attribute user billed bucket_at l).0 ≡ ladder_of u l
unfolding attribute
attribute_other user u billed bucket_at l ne = elim (Option-cases (lookup user l.ladders)) [
  | inl e ↦ ground arith
  | inr (subs, e) ↦
      let rows = Quota.attribute billed subs bucket_at in
      ground (arith, ladder_of-insert user u (charge_rows bucket_at subs rows) l, ==ℤ_iff user u)
]
