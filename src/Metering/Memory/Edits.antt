-- ===== src/Metering/Memory/Edits.antt =====
-- The loops of internal/metering/ladder.go that change a slice in place, on cells and on values: the
-- cells read as the values do, and their pointers stay.
use lumi_panel.Base.{
  ◌≡◌, refl, arith, false, Bool-cases, inl, inr, List, [], ◌∷◌, map, ℤ, ◌==ℤ◌, All, ==_iff,
}
use lumi_panel.Time.{Instant}
use lumi_panel.Domain.Quota.{SubQuota, LedgerRow, overflow_subscription_id}
use lumi_panel.Domain.Reset.{align_bucket}
use lumi_panel.Metering.Ladder.{charge_row, charge_rows, change_first, restart}
use lumi_panel.Metering.Memory.{
  Address, Cell, Memory, new_time, read, charge_cell, charge_cells, change_cell, restart_cell,
}
use lumi_panel.Metering.Memory.Frames.{Points}

-- The charged cells read as the charged subscriptions, and hold the same pointers.
module _ (m : Memory) (bucket_at : Instant) where
  charge_cell-reads :
      (cells : List Cell) (r : LedgerRow)
      → map (read m) (charge_cell m bucket_at cells r) ≡ charge_row bucket_at (map (read m) cells) r
  unfolding charge_cell charge_row
  charge_cell-reads [] r = refl
  charge_cell-reads (c ∷ cells) r = ground (arith, charge_cell-reads cells r)

  pub charge_cells-reads :
      (cells : List Cell) (rows : List LedgerRow)
      → map (read m) (charge_cells m bucket_at cells rows)
        ≡ charge_rows bucket_at (map (read m) cells) rows
  unfolding charge_cells charge_rows
  charge_cells-reads cells [] = refl
  charge_cells-reads cells (r ∷ rows) =
      elim (Bool-cases (r.subscription_id ==ℤ overflow_subscription_id)) [
        | inl e ↦ rw e (charge_cells-reads cells rows)
        | inr e ↦
            rw (e, ← charge_cell-reads cells r)
              (charge_cells-reads (charge_cell m bucket_at cells r) rows)
      ]

  module _ (P : Address → Type 0) where
    charge_cell-Points :
        (cells : List Cell) (r : LedgerRow)
        → All (Points P) cells
        → All (Points P) (charge_cell m bucket_at cells r)
    unfolding charge_cell
    charge_cell-Points [] r h = tt
    charge_cell-Points (c ∷ cells) r (h, hs) = ground (arith, charge_cell-Points cells r hs)

    pub charge_cells-Points :
        (cells : List Cell) (rows : List LedgerRow)
        → All (Points P) cells
        → All (Points P) (charge_cells m bucket_at cells rows)
    unfolding charge_cells
    charge_cells-Points cells [] h = h
    charge_cells-Points cells (r ∷ rows) h =
        elim (Bool-cases (r.subscription_id ==ℤ overflow_subscription_id)) [
          | inl e ↦ rw e (charge_cells-Points cells rows h)
          | inr e ↦ rw e (
              charge_cells-Points (charge_cell m bucket_at cells r) rows
                (charge_cell-Points cells r h))
        ]

-- A change of the first cell with the ID reads as the change of the first subscription with it.
module _ (m : Memory) (f : Cell → Cell) (g : SubQuota → SubQuota)
    (same : (c : Cell) → read m (f c) ≡ g (read m c)) (id : ℤ) where
  pub change_cell-reads :
      (cells : List Cell)
      → (map (read m) (change_cell f id cells).1 ≡ (change_first g id (map (read m) cells)).1)
        × ((change_cell f id cells).0 ≡ (change_first g id (map (read m) cells)).0)
  unfolding change_cell change_first
  change_cell-reads [] = (refl, refl)
  change_cell-reads (c ∷ cells) = ground (arith, change_cell-reads cells, same c)

pub change_cell-Points :
    (P : Address → Type 0) (f : Cell → Cell)
    → ((c : Cell) → Points P c → Points P (f c))
    → (id : ℤ) (cells : List Cell) → All (Points P) cells
    → All (Points P) (change_cell f id cells).1
unfolding change_cell
change_cell-Points P f k id [] h = tt
change_cell-Points P f k id (c ∷ cells) (h, hs) =
    ground (arith, change_cell-Points P f k id cells hs, k c h)

-- The pointer of a reset subscription is to the new variable.
pub read-restart_cell :
    (epoch : ℤ) (reset_at : Instant) (m : Memory) (c : Cell)
    → let m' = new_time (align_bucket reset_at) m in
      read m' (restart_cell epoch m.next c) ≡ restart epoch reset_at (read m' c)
unfolding restart
read-restart_cell epoch reset_at m c = rw ((==_iff m.next m.next).1 refl) refl

-- What is not found is not changed.
pub change_first-not_found :
    (g : SubQuota → SubQuota) (id : ℤ) (subs : List SubQuota)
    → (change_first g id subs).0 ≡ false
    → (change_first g id subs).1 ≡ subs
unfolding change_first
change_first-not_found g id [] e = refl
change_first-not_found g id (s ∷ subs) e = ground (arith, change_first-not_found g id subs)
