-- ===== src/Metering/Ladder/Monotone.antt =====
-- Whether `Sync` and `Attribute` of internal/metering/ladder.go move a counter down.
use mathlib.Core.Option.{some-injective, none-ne-some}
use lumi_panel.Base.{
  ◌-◌, ◌≤◌, ◌<◌, ◌^◌, ◌≡◌, ◌∙◌, sym, refl, arith, Bool, Bool-cases, Option-cases, inl, inr, Option,
  none, some, not, ◌&&◌, List, [], ◌∷◌, ℤ, pos, leb_ℤ, ◌==ℤ◌, ==ℤ_iff, ◌≤ℤ◌, ◌<ℤ◌, pos_part,
  neg_part, All,
}
use lumi_panel.Base.Word.{add64-nonneg}
use lumi_panel.Base.Assoc.{lookup}
use lumi_panel.Time.{Instant}
use lumi_panel.Domain.Quota.{SubQuota, LedgerRow, overflow_subscription_id}
use lumi_panel.Domain.Quota.Attribution.{capacity, tally, attribute-drained}
use lumi_panel.Domain.Quota.Apply.{settle, HasDistinctIds}
use lumi_panel.Domain.Reset.Laws.{IsCounted, nonneg-parts}
use lumi_panel.Domain.Reset.{counts_toward_current_period}
use lumi_panel.Metering.Ladder.{QuotaLadder, ladder_of, sync, attribute}
use lumi_panel.Metering.Ladder.Prepare.{find_sub}
use lumi_panel.Metering.Ladder.Steps.{IsWellFormed, ladder_of-IsReady}
use lumi_panel.Metering.Ladder.Charge.{HasOwners, Drains, drained-le-capacity, capacity-le}
use lumi_panel.Metering.Ladder.Effects.{attribute_lem, ladder_of-some, ladder_of-none}
use lumi_panel.Metering.Ladder.Syncing.{sync_lem}

find_sub-nil : (k : ℤ) → find_sub k [] ≡ none
unfolding find_sub
find_sub-nil k = refl

find_sub-All :
    (P : SubQuota → Type 0) (k : ℤ) (subs : List SubQuota) (s : SubQuota)
    → All P subs
    → find_sub k subs ≡ some s
    → P s
unfolding find_sub
find_sub-All P k [] s h e = cc
find_sub-All P k (t ∷ subs) s (h, hs) e = elim (Bool-cases (t.id ==ℤ k)) [
  | inl q ↦ rw (← some-injective t s (rw (q, find_sub) at e)) h
  | inr q ↦ find_sub-All P k subs s hs (rw (q, find_sub) at e)
]

-- A flush bills no subscription more than its capacity.
attribute-drains :
    (user billed k : ℤ) (bucket_at : Instant) (l : QuotaLadder) (s : SubQuota)
    → find_sub k (ladder_of user l) ≡ some s
    → HasOwners (ladder_of user l)
    → HasDistinctIds (ladder_of user l)
    → pos_part billed < 2 ^ 63
    → tally s.id (attribute user billed bucket_at l).1 ≤ capacity bucket_at s
unfolding attribute
attribute-drains user billed k bucket_at l s e o d fits = elim (Bool-cases (leb_ℤ billed (pos 0))) [
  | inl q ↦ rw q (unfold tally in omega arith)
  | inr q ↦ elim (Option-cases (lookup user l.ladders)) [
    | inl n ↦ absurd (none-ne-some s (sym (find_sub-nil k) ∙ (rw (ladder_of-none user l n) at e)))
    | inr (subs, n) ↦
        let held = ladder_of-some user l n in
        let drains =
          find_sub-All (Drains bucket_at (pos_part billed) (ladder_of user l)) k (ladder_of user l)
            s (drained-le-capacity bucket_at (ladder_of user l) (pos_part billed) o d) e in
        rw (q, n) (rw (attribute-drained s.id billed subs bucket_at fits, ← held) drains)
  ]
]

-- A charge within the room that is left adds to the counter exactly.
settle-grows :
    (counts : Option Instant → Bool) (rows : List LedgerRow) (s : SubQuota)
    → IsCounted s
    → tally s.id rows ≤ pos_part s.transfer_bytes - pos_part s.used_bytes
    → s.used_bytes ≤ℤ (settle counts rows s).used_bytes
unfolding settle
settle-grows counts rows s h room =
    let exact =
      add64-nonneg s.used_bytes (tally s.id rows) h.used_nonneg
        (omega (arith, h.transfer_fits.below, h.used_fits.below)) in
    elim (Bool-cases (not (s.id ==ℤ overflow_subscription_id) && counts s.last_reset_at)) [
      | inl e ↦
          rw (e, exact)
            (unfold neg_part pos_part in omega (arith, nonneg-parts s.used_bytes h.used_nonneg))
      | inr e ↦ rw e (omega arith)
    ]

-- The calls that the running service makes: a change of the subscriptions, and a flush of a
-- positive int64 amount.
pub data Routine (l : QuotaLadder) : QuotaLadder → Type 0 where
  syncs : (user : ℤ) (subs : List SubQuota) → Routine l (sync user subs l)
  flushes :
      (user billed : ℤ) (bucket_at : Instant)
      → pos 0 <ℤ billed
      → pos_part billed < 2 ^ 63
      → Routine l (attribute user billed bucket_at l).0

-- The subscriptions of every user have int64 counters that are not negative and int64 allowances,
-- and no ID is 0.
pub record HasBooks (l : QuotaLadder) : Type 0 where
  pub owners : (u : ℤ) → HasOwners (ladder_of u l)
  pub counted : (u : ℤ) → All IsCounted (ladder_of u l)

≤ℤ-refl : (a : ℤ) → a ≤ℤ a
≤ℤ-refl a = omega arith

-- On a well-formed ladder whose subscriptions have proper books, neither `Sync`, whatever counters
-- come in with the subscriptions, nor a flush moves down the counter of a subscription that the
-- user has before and after it.
pub Routine-le :
    {l l' : QuotaLadder}
    → Routine l l'
    → IsWellFormed l
    → HasBooks l
    → (u k : ℤ) (s t : SubQuota) → find_sub k (ladder_of u l) ≡ some s
    → find_sub k (ladder_of u l') ≡ some t
    → s.used_bytes ≤ℤ t.used_bytes
Routine-le {l} (syncs user subs) w b u k s t before after =
    let found = sync_lem user subs l w u k in
    elim (Bool-cases (user ==ℤ u)) [
      | inl q ↦
          let here : find_sub k (ladder_of user l) ≡ some s = rw ((==ℤ_iff user u).0 q) before in
          elim (Option-cases (find_sub k subs)) [
            | inl e ↦ ground (arith, found, here, after)
            | inr (x, e) ↦ ground (arith, found, here, after)
          ]
      | inr q ↦ ground (arith, found, before, after)
    ]
Routine-le {l} (flushes user billed bucket_at h fits) w b u k s t before after =
    let rows = (attribute user billed bucket_at l).1 in
    let (_, _, _, settled) = attribute_lem user billed bucket_at l h fits w in
    let found = settled u k in
    elim (Bool-cases (user ==ℤ u)) [
      | inl q ↦
          let here : find_sub k (ladder_of user l) ≡ some s = rw ((==ℤ_iff user u).0 q) before in
          let counted = find_sub-All IsCounted k (ladder_of user l) s (b.counted user) here in
          let drains =
            attribute-drains user billed k bucket_at l s here (b.owners user)
              (ladder_of-IsReady user l w).distinct fits in
          let grows =
            settle-grows (counts_toward_current_period bucket_at) rows s counted
              (omega (arith, drains, capacity-le bucket_at s counted)) in
          let settled_here : some (settle (counts_toward_current_period bucket_at) rows s)
              ≡ some t =
            sym (rw (q, before) at found) ∙ after in
          rw (← some-injective _ _ settled_here) grows
      | inr q ↦ ground (arith, found, before, after)
    ]
