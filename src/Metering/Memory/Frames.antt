-- ===== src/Metering/Memory/Frames.antt =====
-- What an allocation leaves alone, in the memory of internal/metering/ladder.go.
use mathlib.Core.Path.{ap₂}
use lumi_panel.Base.{
  ◌≤◌, ◌<◌, ◌≡◌, ◌∙◌, ap, refl, arith, Option, none, some, List, [], ◌∷◌, map, All, All-imp,
}
use lumi_panel.Domain.Quota.{SubQuota}
use lumi_panel.Metering.Memory.{Address, Cell, Memory, read_time, read}

-- A predicate of the address that a pointer holds, if it is not nil.
abbrev pub On : (Address → Type 0) → Option Address → Type 0
On P none = Unit
On P (some p) = P p

-- A predicate of both pointers of a cell.
abbrev pub Points : (Address → Type 0) → Cell → Type 0
Points P c = On P c.expired_at × On P c.last_reset_at

abbrev pub IsBelow : Memory → Address → Type 0
IsBelow m p = p < m.next

-- Given out by the steps that led from the first memory to the second.
abbrev pub IsFresh : Memory → Memory → Address → Type 0
IsFresh m m' p = (m.next ≤ p) × (p < m'.next)

-- The second memory is the first with some allocations: nothing that was there has changed.
pub record Extends (m m' : Memory) : Type 0 where
  pub grows : m.next ≤ m'.next
  pub times : (p : Address) → p < m.next → m'.times p ≡ m.times p
  pub slices : (p : Address) → p < m.next → m'.slices p ≡ m.slices p

pub Extends-refl : (m : Memory) → Extends m m
Extends-refl m = record { grows = omega arith; times = λ p h. refl; slices = λ p h. refl }

pub Extends-trans : {m m' m'' : Memory} → Extends m m' → Extends m' m'' → Extends m m''
Extends-trans e e' = record {
  grows = omega (arith, e.grows, e'.grows);
  times = λ p h. e'.times p (omega (arith, e.grows)) ∙ e.times p h;
  slices = λ p h. e'.slices p (omega (arith, e.grows)) ∙ e.slices p h;
}

pub On-imp :
    (P Q : Address → Type 0) → ((p : Address) → P p → Q p) → (p : Option Address) → On P p → On Q p
On-imp P Q f none h = tt
On-imp P Q f (some p) h = f p h

pub Points-imp :
    (P Q : Address → Type 0) → ((p : Address) → P p → Q p) → (c : Cell) → Points P c → Points Q c
Points-imp P Q f c (h, k) = (On-imp P Q f c.expired_at h, On-imp P Q f c.last_reset_at k)

pub All-Points-imp :
    (P Q : Address → Type 0)
    → ((p : Address) → P p → Q p)
    → (cells : List Cell) → All (Points P) cells
    → All (Points Q) cells
All-Points-imp P Q f = All-imp (Points P) (Points Q) (Points-imp P Q f)

-- Two memories agree on what a pointer, a cell or the cells of a slice read.
module _ (m m' : Memory) (P : Address → Type 0)
    (same : (p : Address) → P p → m'.times p ≡ m.times p) where
  pub read_time-same : (p : Option Address) → On P p → read_time m' p ≡ read_time m p
  read_time-same none h = refl
  read_time-same (some p) h = ap some (same p h)

  pub read-same : (c : Cell) → Points P c → read m' c ≡ read m c
  read-same c (h, k) = rw (read_time-same c.expired_at h, read_time-same c.last_reset_at k) refl

  pub reads-same :
      (cells : List Cell) → All (Points P) cells → map (read m') cells ≡ map (read m) cells
  reads-same [] h = refl
  reads-same (c ∷ cells) (h, hs) =
      ap₂ (λ (s : SubQuota) (l : List SubQuota). s ∷ l) (read-same c h) (reads-same cells hs)
