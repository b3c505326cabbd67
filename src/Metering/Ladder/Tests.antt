-- ===== src/Metering/Ladder/Tests.antt =====
-- Runs of internal/metering/ladder.go, and its theorems at a concrete user.
use mathlib.Core.Option
use lumi_panel.Base.{
  ◌+◌, ◌≤◌, ◌≡◌, ◌⊎◌, ap, Bool-cases, inl, inr, ◌≤ℤ◌, refl, arith, none, some, List, [], ◌∷◌, ℤ,
  pos, pos_part, neg_part, ◌==ℤ◌, if◌then◌else◌, All,
}
use lumi_panel.Base.Word.{IsInt64, wrap64}
use lumi_panel.Domain.Quota.{SubQuota, LedgerRow, primary, data_pack, overflow_subscription_id}
use lumi_panel.Domain.Quota
use lumi_panel.Domain.Quota.Attribution.{total, rows_of, IsBilled}
use lumi_panel.Domain.Quota.Apply.{HasCounters, settle}
use lumi_panel.Domain.Reset.{bucket_size, align_bucket, counts_toward_current_period}
use lumi_panel.Metering.Ladder.{
  QuotaLadder, new_quota_ladder, ladder_of, rebuild, sync, drop, snapshot, users, attribute, reset,
  restart,
}
use lumi_panel.Metering.Ladder.Prepare.{find_sub}
use lumi_panel.Metering.Ladder.Steps.{
  Reach, start, next, rebuilds, attributes, IsWellFormed, Reach-IsWellFormed,
}
use lumi_panel.Metering.Ladder.Effects.{attribute_lem}
use lumi_panel.Metering.Ladder.Flush.{IsSound}
use lumi_panel.Metering.Ladder.Conserve.{used_total}
use lumi_panel.Metering.Ladder.Flushes.{
  Flush, flush_all, overflow_of, billed_of, flush_all_conserves,
}
use lumi_panel.Domain.Reset.Laws.{IsCounted}
use lumi_panel.Metering.Ladder.Monotone.{syncs, HasBooks, Routine-le}
use lumi_panel.Metering.Ladder.Late.{charged_anew, attribute-at-reset}

abbrev main : SubQuota
main = record {
  id = pos 10;
  kind = primary;
  transfer_bytes = pos 100;
  used_bytes = pos 40;
  expired_at = none;
  last_reset_at = none;
  reset_epoch = pos 0;
}

abbrev pack : SubQuota
pack = record main {
  id = pos 20;
  kind = data_pack;
  transfer_bytes = pos 30;
  used_bytes = pos 0;
  expired_at = some 500;
}

abbrev incoming : List SubQuota
incoming = main ∷ pack ∷ main ∷ []

abbrev held : QuotaLadder
held = rebuild (pos 1) incoming new_quota_ladder

abbrev flushed : QuotaLadder
flushed = (attribute (pos 1) (pos 50) 400 held).0

installs : ladder_of (pos 1) held ≡ pack ∷ main ∷ []
unfolding rebuild ladder_of
installs = refl

flushes :
    (snapshot (pos 1) flushed
      ≡ record pack { used_bytes = pos 30 } ∷ record main { used_bytes = pos 60 } ∷ [])
    × ((attribute (pos 2) (pos 5) 400 held).1
        ≡ record { subscription_id = pos 0; billed = pos 5 } ∷ [])
    × ((attribute (pos 1) (pos 0) 400 held).1 ≡ [])
unfolding rebuild attribute snapshot Quota.attribute wrap64 counts_toward_current_period
flushes = (refl, refl, refl)

resyncs :
    (ladder_of (pos 1) (sync (pos 1) (record main { transfer_bytes = pos 500 } ∷ []) flushed)
      ≡ record main { transfer_bytes = pos 500; used_bytes = pos 60 } ∷ [])
    × (users (drop (pos 1) held) ≡ [])
unfolding rebuild attribute sync ladder_of drop Quota.attribute wrap64 counts_toward_current_period
    users
resyncs = (refl, refl)

counters : HasCounters incoming
unfolding pos_part neg_part
counters =
    let small : IsInt64 (pos 40) = record { below = omega arith; above = omega arith } in
    (small, (record { below = omega arith; above = omega arith }, (small, tt)))

reached : Reach flushed
reached = next (next start (rebuilds (pos 1) incoming counters)) (attributes (pos 1) (pos 50) 400)

abbrev ready : IsWellFormed flushed
ready = Reach-IsWellFormed reached

Reach-IsWellFormed_example : IsWellFormed flushed
Reach-IsWellFormed_example = Reach-IsWellFormed reached

attribute_lem_example :
    let (l', rows) = attribute (pos 1) (pos 50) 450 flushed in
    (total rows ≡ 50)
    × All IsBilled rows
    × ((k : ℤ) → rows_of k rows ≤ 1)
    × ((u k : ℤ)
        → find_sub k (ladder_of u l') ≡ (
            if pos 1 ==ℤ u
            then Option.map
                (settle (counts_toward_current_period 450) rows)
                (find_sub k (ladder_of u flushed))
            else find_sub k (ladder_of u flushed)))
unfolding pos_part neg_part
attribute_lem_example = attribute_lem (pos 1) (pos 50) 450 flushed (omega arith) (omega arith) ready

attribute-at-reset_example :
    let (after, rows) =
      attribute
        (pos 1)
        (pos 50)
        300000000000
        (reset (pos 1) (pos 10) (pos 3) 300000000007 flushed).0 in
    let held = find_sub (pos 10) (ladder_of (pos 1) flushed) in
    let left = find_sub (pos 10) (ladder_of (pos 1) after) in
    (total rows ≡ 50)
    × (((300000000000 + bucket_size ≤ align_bucket 300000000007)
          × (left ≡ Option.map (restart (pos 3) 300000000007) held))
        ⊎ ((align_bucket 300000000007 ≤ 300000000000)
            × (left ≡ Option.map (charged_anew (pos 3) 300000000007 rows) held)))
unfolding pos_part neg_part
attribute-at-reset_example =
    attribute-at-reset (pos 1) (pos 10) (pos 3) (pos 50) 300000000007 300000000000 flushed ready
      (omega arith) (omega arith) (omega arith) (λ e. omega (arith, ap pos_part e))

abbrev two_flushes : List Flush
two_flushes =
    record { user = pos 1; billed = pos 50; bucket_at = 400 }
    ∷ record { user = pos 1; billed = pos 90; bucket_at = 600 }
    ∷ []

sound : IsSound (pack ∷ main ∷ [])
unfolding pos_part neg_part
sound = record {
  owners = ((λ e. cc), ((λ e. cc), tt));
  distinct = (((λ e. cc), tt), (tt, tt));
  within = (
    record {
      counted = record {
        transfer_fits = record { below = omega arith; above = omega arith };
        used_fits = record { below = omega arith; above = omega arith };
        used_nonneg = omega arith;
      };
      within = omega arith;
    },
    (
      record {
        counted = record {
          transfer_fits = record { below = omega arith; above = omega arith };
          used_fits = record { below = omega arith; above = omega arith };
          used_nonneg = omega arith;
        };
        within = omega arith;
      },
      tt,
    ),
  );
}

held-IsSound : IsSound (ladder_of (pos 1) held)
held-IsSound = rw installs sound

flush_all_conserves_example :
    let l' = flush_all two_flushes held in
    IsSound (ladder_of (pos 1) l')
    × (used_total (ladder_of (pos 1) l') + overflow_of (pos 1) two_flushes held
        ≡ used_total (ladder_of (pos 1) held) + billed_of (pos 1) two_flushes)
unfolding pos_part neg_part rebuild ladder_of counts_toward_current_period
flush_all_conserves_example =
    flush_all_conserves (pos 1) two_flushes held held-IsSound
      ((λ e. (omega arith, (refl, (refl, tt)))), ((λ e. (omega arith, (refl, (refl, tt)))), tt))

counted : All IsCounted (pack ∷ main ∷ [])
unfolding pos_part neg_part
counted = let (p, (m, tt)) = sound.within in (p.counted, (m.counted, tt))

held_by : (u : ℤ) → ladder_of u held ≡ (if pos 1 ==ℤ u then pack ∷ main ∷ [] else [])
unfolding ladder_of rebuild
held_by u = elim (Bool-cases (pos 1 ==ℤ u)) [
  | inl e ↦ rw (e, ladder_of) refl
  | inr e ↦ rw (e, ladder_of) refl
]

held-HasBooks : HasBooks held
held-HasBooks = record {
  owners = λ u.
      rw (held_by u)
        (elim (Bool-cases (pos 1 ==ℤ u)) [ inl e ↦ rw e sound.owners | inr e ↦ rw e tt ]);
  counted = λ u.
      rw (held_by u) (elim (Bool-cases (pos 1 ==ℤ u)) [ inl e ↦ rw e counted | inr e ↦ rw e tt ]);
}

-- The database, an hour behind, says that nothing is used and sells more allowance.
abbrev stale : List SubQuota
stale = record main { used_bytes = pos 0; transfer_bytes = pos 500 } ∷ []

Routine-le_example : pos 40 ≤ℤ pos 40
unfolding sync rebuild ladder_of find_sub
Routine-le_example =
    Routine-le (syncs (pos 1) stale)
      (Reach-IsWellFormed (next start (rebuilds (pos 1) incoming counters))) held-HasBooks (pos 1)
      (pos 10) main (record main { transfer_bytes = pos 500 }) refl refl
