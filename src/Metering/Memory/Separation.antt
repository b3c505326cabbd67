-- ===== src/Metering/Memory/Separation.antt =====
-- Who may reach which part of the memory of internal/metering/ladder.go.
use lumi_panel.Base.{◌≤◌, ◌<◌, ◌≡◌, refl, sym, arith, Bool, true, false, Bool-cases, inl, inr, All}
use lumi_panel.Base.Assoc.{Every, Every-imp, AreApart, map_values, map_values-same}
use lumi_panel.Metering.Ladder.{QuotaLadder}
use lumi_panel.Metering.Memory.{Address, Memory, Store, read_slice, value_of}
use lumi_panel.Metering.Memory.Frames.{
  Points, IsBelow, IsFresh, Extends, All-Points-imp, reads-same,
}

-- The variables and slices whose address a caller of the ladder has, and may write through.
pub record Held : Type 0 where
  pub times : Address → Bool
  pub slices : Address → Bool

-- An address that was given out, and that no caller has.
abbrev pub IsHidden : Held → Memory → Address → Type 0
IsHidden h m p = (p < m.next) × (h.times p ≡ false)

abbrev pub Owns : Held → Memory → Address → Type 0
Owns h m p = (p < m.next) × (h.slices p ≡ false) × All (Points (IsHidden h m)) (m.slices p)

-- No caller has the address of a slice of the ladder, or of a timestamp in one; no two users share
-- a slice; and a caller who follows a pointer stays in what the callers have.
pub record IsSeparate (h : Held) (s : Store) : Type 0 where
  pub owned : Every (Owns h s.memory) s.ladders
  pub apart : AreApart s.ladders
  pub times_below : (p : Address) → h.times p ≡ true → p < s.memory.next
  pub slices_closed :
      (p : Address)
      → h.slices p ≡ true
      → (p < s.memory.next) × All (Points (λ q. h.times q ≡ true)) (s.memory.slices p)

-- Nothing that a caller has the address of has changed.
pub record Keeps (h : Held) (m m' : Memory) : Type 0 where
  pub grows : m.next ≤ m'.next
  pub times : (p : Address) → h.times p ≡ true → m'.times p ≡ m.times p
  pub slices : (p : Address) → h.slices p ≡ true → m'.slices p ≡ m.slices p

-- A call that left the ladder apart from the callers, what they have as it was, and this value.
pub record IsSound (h : Held) (s t : Store) (l : QuotaLadder) : Type 0 where
  pub separate : IsSeparate h t
  pub keeps : Keeps h s.memory t.memory
  pub value : value_of t ≡ l

pub IsSound-same : {h : Held} {s : Store} → IsSeparate h s → IsSound h s s (value_of s)
IsSound-same sep = record {
  separate = sep;
  keeps = record { grows = omega arith; times = λ p e. refl; slices = λ p e. refl };
  value = refl;
}

module _ (h : Held) (s : Store) (sep : IsSeparate h s) where
  -- An address that the callers have is not fresh.
  pub fresh-IsHidden : (m' : Memory) (p : Address) → IsFresh s.memory m' p → IsHidden h m' p
  fresh-IsHidden m' p (ge, lt) = elim (Bool-cases (h.times p)) [
    | inl e ↦ absurd (omega (arith, sep.times_below p e))
    | inr e ↦ (lt, e)
  ]

  pub fresh_slice : (m' : Memory) (p : Address) → IsFresh s.memory m' p → h.slices p ≡ false
  fresh_slice m' p (ge, lt) = elim (Bool-cases (h.slices p)) [
    | inl e ↦ absurd (omega (arith, (sep.slices_closed p e).0))
    | inr e ↦ e
  ]

  pub held_slice-IsBelow :
      (p : Address) → h.slices p ≡ true → All (Points (IsBelow s.memory)) (s.memory.slices p)
  held_slice-IsBelow p e =
      All-Points-imp (λ q. h.times q ≡ true) (IsBelow s.memory) sep.times_below (s.memory.slices p)
        (sep.slices_closed p e).1

  -- Allocations leave what the callers have as it was, and what the ladder reads.
  module _ (m' : Memory) (e : Extends s.memory m') where
    pub Extends-Keeps : Keeps h s.memory m'
    Extends-Keeps = record {
      grows = e.grows;
      times = λ p k. e.times p (sep.times_below p k);
      slices = λ p k. e.slices p (sep.slices_closed p k).0;
    }

    pub Owns-Extends : (p : Address) → Owns h s.memory p → Owns h m' p
    Owns-Extends p (lt, hid, pts) = (
      omega (arith, e.grows),
      hid,
      rw (e.slices p lt) (
          All-Points-imp (IsHidden h s.memory) (IsHidden h m')
            (λ q (k : IsHidden h s.memory q). (omega (arith, k.0, e.grows), k.1))
            (s.memory.slices p) pts),
    )

    pub read_slice-Extends :
        (p : Address) → Owns h s.memory p → read_slice s.memory p ≡ read_slice m' p
    read_slice-Extends p (lt, hid, pts) = rw (e.slices p lt) (
        sym (
          reads-same s.memory m' (IsHidden h s.memory) (λ q k. e.times q k.0) (s.memory.slices p)
            pts))

    pub values-Extends :
        map_values (read_slice s.memory) s.ladders ≡ map_values (read_slice m') s.ladders
    values-Extends = map_values-same (read_slice s.memory) (read_slice m') s.ladders (
        Every-imp (Owns h s.memory) (λ p. read_slice s.memory p ≡ read_slice m' p)
          read_slice-Extends s.ladders sep.owned)
