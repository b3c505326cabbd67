-- ===== src/Domain/Quota.antt =====
-- internal/domain/quota.go: the subscriptions of a user, the order in which they are drained, and
-- the attribution of a billed amount to them.
pub mod Order
pub mod Attribution
pub mod Shares
pub mod Apply
mod Tests
use Prim.Native.String.{String}
use lumi_panel.Base.{
  ℕ, ◌+◌, ◌==◌, ltb, Bool, true, false, not, Option, none, some, List, [], ◌∷◌, ◌++◌, ℤ, pos, ltb_ℤ,
  leb_ℤ, ◌==ℤ◌, length, if◌then◌else◌, pos_part, neg_part, zero, suc,
}
use lumi_panel.Base.Word.{add64, sub64}
use lumi_panel.Base.Assoc.{lookup, insert}
use lumi_panel.Base.Sort.{sort_stable}
use lumi_panel.Time.{Instant, before, after, equal}

-- `unknown` stands for each string other than the two constants.
pub data SubKind : Type 0 where
  primary data_pack : SubKind
  unknown : String → SubKind

abbrev pub overflow_subscription_id : ℤ
overflow_subscription_id = pos 0

-- A nil pointer to a time is `none`.
pub record SubQuota : Type 0 where
  pub id : ℤ
  pub kind : SubKind
  pub transfer_bytes : ℤ
  pub used_bytes : ℤ
  pub expired_at : Option Instant
  pub last_reset_at : Option Instant
  pub reset_epoch : ℤ

unfoldable pub available : SubQuota → ℤ
unfolding sub64 pos_part neg_part
available s =
    if leb_ℤ s.transfer_bytes s.used_bytes then pos 0 else sub64 s.transfer_bytes s.used_bytes

unfoldable pub active_at : SubQuota → Instant → Bool
active_at s at = elim s.expired_at [ none ↦ true | some e ↦ after e at ]

pub record LedgerRow : Type 0 where
  pub subscription_id : ℤ
  pub billed : ℤ

unfoldable pub kind_rank : SubKind → ℕ
kind_rank data_pack = 0
kind_rank primary = 1
kind_rank (unknown _) = 2

-- The `switch` on the expiries of two packs; `tie` is the comparison that it falls through to.
unfoldable pub expiry_less : Option Instant → Option Instant → Bool → Bool
expiry_less none none tie = tie
expiry_less none (some _) tie = false
expiry_less (some _) none tie = true
expiry_less (some a) (some b) tie = if not (equal a b) then before a b else tie

unfoldable pub is_data_pack : SubKind → Bool
is_data_pack data_pack = true
is_data_pack _ = false

-- The comparator of `SortForDeduction`.
unfoldable pub less : SubQuota → SubQuota → Bool
unfolding kind_rank expiry_less is_data_pack pos_part neg_part
less a b =
    let ra = kind_rank a.kind in
    let rb = kind_rank b.kind in
    let tie = ltb_ℤ a.id b.id in
    if not (ra == rb)
    then ltb ra rb
    else if is_data_pack a.kind
    then expiry_less a.expired_at b.expired_at tie
    else tie

-- It sorts in place and returns its argument: the new order is the result.
unfoldable pub sort_for_deduction : List SubQuota → List SubQuota
unfolding sort_stable less
sort_for_deduction subs = sort_stable less subs

-- The variables of `Attribute` that its closure `add` captures.
pub record Rows : Type 0 where
  pub rows : List LedgerRow
  pub index : List (ℤ × ℕ)

-- `rows[i].Billed += amount`; an index of the map is always in range.
unfoldable pub add_at : List LedgerRow → ℕ → ℤ → List LedgerRow
unfolding add64
add_at [] i amount = []
add_at (r ∷ rs) zero amount = record r { billed = add64 r.billed amount } ∷ rs
add_at (r ∷ rs) (suc i) amount = r ∷ add_at rs i amount

unfoldable pub add : ℤ → ℤ → Rows → Rows
unfolding add_at lookup insert pos_part neg_part
add id amount w = elim (lookup id w.index) [
  | some i ↦ record w { rows = add_at w.rows i amount }
  | none ↦ record {
    rows = w.rows ++ record { subscription_id = id; billed = amount } ∷ [];
    index = insert id (length w.rows) w.index;
  }
]

-- The loop of `Attribute` and what follows it.
unfoldable pub attribute_from : List SubQuota → Instant → ℤ → Rows → List LedgerRow
unfolding add available active_at sub64 pos_part neg_part
attribute_from [] at remaining w = (add overflow_subscription_id remaining w).rows
attribute_from (s ∷ subs) at remaining w =
    let skip = attribute_from subs at remaining w in
    let avail = available s in
    let take = if ltb_ℤ remaining avail then remaining else avail in
    let w' = add s.id take w in
    let remaining' = sub64 remaining take in
    let rest = attribute_from subs at remaining' w' in
    if not (active_at s at)
    then skip
    else if leb_ℤ avail (pos 0)
    then skip
    else if remaining' ==ℤ pos 0
    then w'.rows
    else rest

unfoldable pub attribute : ℤ → List SubQuota → Instant → List LedgerRow
unfolding attribute_from pos_part neg_part
attribute billed subs at =
    if leb_ℤ billed (pos 0)
    then []
    else attribute_from subs at billed (record { rows = []; index = [] })

-- The inner loop of `ApplyAttribution`: the first subscription with the ID takes the amount.
unfoldable pub deduct_first : List SubQuota → LedgerRow → List SubQuota
unfolding add64 pos_part neg_part
deduct_first [] r = []
deduct_first (s ∷ subs) r =
    if s.id ==ℤ r.subscription_id
    then record s { used_bytes = add64 s.used_bytes r.billed } ∷ subs
    else s ∷ deduct_first subs r

unfoldable pub apply_attribution : List SubQuota → List LedgerRow → List SubQuota
unfolding deduct_first pos_part neg_part
apply_attribution subs [] = subs
apply_attribution subs (r ∷ rows) =
    apply_attribution
      (if r.subscription_id ==ℤ overflow_subscription_id then subs else deduct_first subs r) rows
