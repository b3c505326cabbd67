-- ===== src/Metering/Ladder/Flushes.antt =====
-- Sequences of flushes against internal/metering/ladder.go. The lock makes any interleaving of
-- concurrent flushes such a sequence.
use mathlib.Core.Bool.{false≢true}
use lumi_panel.Base.{
  ℕ, ◌+◌, ◌<◌, ◌^◌, ◌≡◌, ◌∙◌, refl, sym, ap, arith, Bool-cases, inl, inr, List, [], ◌∷◌, ℤ, ◌==ℤ◌,
  ==ℤ_iff, pos_part, if◌then◌else◌, All,
}
use lumi_panel.Time.{Instant}
use lumi_panel.Domain.Quota.{SubQuota, overflow_subscription_id}
use lumi_panel.Domain.Quota.Attribution.{tally}
use lumi_panel.Metering.Ladder.{QuotaLadder, ladder_of, attribute}
use lumi_panel.Metering.Ladder.Conserve.{used_total, AllCount}
use lumi_panel.Metering.Ladder.Flush.{IsSound, IsFlushed, attribute-IsFlushed, attribute_other}

pub record Flush : Type 0 where
  pub user : ℤ
  pub billed : ℤ
  pub bucket_at : Instant

-- The ladder after a sequence of flushes.
unfoldable pub flush_all : List Flush → QuotaLadder → QuotaLadder
unfolding attribute
flush_all [] l = l
flush_all (f ∷ fs) l = flush_all fs (attribute f.user f.billed f.bucket_at l).0

-- What the flushes of a user send to overflow rows.
unfoldable pub overflow_of : ℤ → List Flush → QuotaLadder → ℕ
unfolding attribute
overflow_of u [] l = 0
overflow_of u (f ∷ fs) l =
    let (l', rows) = attribute f.user f.billed f.bucket_at l in
    (if f.user ==ℤ u then tally overflow_subscription_id rows else 0) + overflow_of u fs l'

-- What the flushes of a user bill together.
unfoldable pub billed_of : ℤ → List Flush → ℕ
billed_of u [] = 0
billed_of u (f ∷ fs) = (if f.user ==ℤ u then pos_part f.billed else 0) + billed_of u fs

-- The flushes of the user are int64 amounts whose buckets count toward the current periods.
abbrev pub AreCurrent : ℤ → List SubQuota → List Flush → Type 0
AreCurrent u subs = All (λ f. f.user ≡ u → (pos_part f.billed < 2 ^ 63) × AllCount f.bucket_at subs)

flush-IsFlushed :
    (user u billed : ℤ) (bucket_at : Instant) (l : QuotaLadder)
    → user ≡ u
    → pos_part billed < 2 ^ 63
    → IsSound (ladder_of u l)
    → AllCount bucket_at (ladder_of u l)
    → let (l', rows) = attribute user billed bucket_at l in
      IsFlushed (ladder_of u l) (ladder_of u l') rows (pos_part billed)
flush-IsFlushed user u billed bucket_at l e fits s c =
    rw e (attribute-IsFlushed u billed bucket_at l fits s c)

AreCurrent-next :
    (u : ℤ) (subs subs' : List SubQuota) (fs : List Flush)
    → ((bucket_at : Instant) → AllCount bucket_at subs → AllCount bucket_at subs')
    → AreCurrent u subs fs
    → AreCurrent u subs' fs
AreCurrent-next u subs subs' [] periods c = tt
AreCurrent-next u subs subs' (f ∷ fs) periods (c, cs) =
    (λ e. ((c e).0, periods f.bucket_at (c e).1), AreCurrent-next u subs subs' fs periods cs)

-- However the flushes of all users interleave, a user's allowance is never spent twice: every
-- counter stays within its allowance, and what the counters gain and what overflows make up exactly
-- what was billed to the user. The user starts with int64 counters within their allowances, under
-- distinct IDs other than 0, and each flush of the user is an int64 amount whose bucket counts
-- toward all the user's current periods.
pub flush_all_conserves :
    (u : ℤ) (fs : List Flush) (l : QuotaLadder)
    → IsSound (ladder_of u l)
    → AreCurrent u (ladder_of u l) fs
    → let l' = flush_all fs l in
      IsSound (ladder_of u l')
      × (used_total (ladder_of u l') + overflow_of u fs l
          ≡ used_total (ladder_of u l) + billed_of u fs)
unfolding flush_all overflow_of billed_of
flush_all_conserves u [] l s c = (s, refl)
flush_all_conserves u (f ∷ fs) l s (c, cs) = elim (Bool-cases (f.user ==ℤ u)) [
  | inl e ↦
      let same = (==ℤ_iff f.user u).0 e in
      let (fits, current) = c same in
      let l' = (attribute f.user f.billed f.bucket_at l).0 in
      let flushed = flush-IsFlushed f.user u f.billed f.bucket_at l same fits s current in
      let (sound, sum) =
        flush_all_conserves u fs l' flushed.sound
          (AreCurrent-next u (ladder_of u l) (ladder_of u l') fs flushed.periods cs) in
      (sound, rw e (omega (arith, flushed.conserved, sum)))
  | inr e ↦
      let l' = (attribute f.user f.billed f.bucket_at l).0 in
      let same =
        attribute_other f.user u f.billed f.bucket_at l
          (λ q. absurd (false≢true (sym e ∙ (==ℤ_iff f.user u).1 q))) in
      let (sound, sum) = flush_all_conserves u fs l' (rw same s) (rw same cs) in
      (sound, rw e (omega (arith, sum, ap used_total same)))
]
