-- ===== src/Domain/Plan/Division.antt =====
-- The roundings of internal/domain/plan.go.
use native.Mathlib.Nat.{zero-div, div-lt_self, div-le_self, div-add-mod', mod-lt}
use lumi_panel.Base.{
  Bool-cases, ==_iff, ℕ, zero, suc, ◌+◌, ◌*◌, ◌/◌, ◌%◌, ◌^◌, ◌≤◌, ◌<◌, ◌≡◌, inl, inr, arith, pos,
  pos_part, neg_part, ◌==◌, if◌then◌else◌, rem,
}
use lumi_panel.Base.Word.{wrap64, rem64, div64-pos, add64-pos}
use lumi_panel.Domain.Plan.{floor_div, ceil_div}

-- What a quotient rounded down, and one rounded up, are to their exact value.
pub record IsFloor (q n d : ℕ) : Type 0 where
  pub below : q * d ≤ n
  pub above : n < q * d + d

pub record IsCeiling (q n d : ℕ) : Type 0 where
  pub above : n ≤ q * d
  pub below : q * d < n + d

rem64-pos : (n d : ℕ) → n < 2 ^ 63 → rem64 (pos n) (pos d) ≡ pos (n % d)
unfolding rem64 wrap64 rem
rem64-pos n d h = ground arith

pub floor_div-pos : (n d : ℕ) → n < 2 ^ 63 → floor_div (pos n) (pos d) ≡ pos (n / d)
unfolding floor_div pos_part neg_part
floor_div-pos n d h = ground (arith, div64-pos n d h)

at_zero : (n d : ℕ) → n ≡ 0 → n / d ≡ 0
at_zero n d e = rw e (zero-div d)

div_fits : (n d : ℕ) → n < 2 ^ 63 → 1 < d → n / d + 1 < 2 ^ 63
div_fits n d h k = ground (arith, zero-div d, at_zero n d, div-lt_self {n = n} {k = d})

pub ceil_div-pos :
    (n d : ℕ)
    → n < 2 ^ 63
    → 0 < d
    → ceil_div (pos n) (pos d) ≡ pos (n / d + (if n % d == 0 then 0 else 1))
unfolding ceil_div pos_part neg_part
ceil_div-pos n d h k =
    ground (arith, div64-pos n d h, rem64-pos n d h, add64-pos (n / d) 1, div_fits n d h)

pub quotient-IsFloor : (n d : ℕ) → 0 < d → IsFloor (n / d) n d
quotient-IsFloor n d k = record {
  below = omega (arith, div-add-mod' n d);
  above = omega (arith, div-add-mod' n d, mod-lt n k);
}

pub quotient-IsCeiling : (n d : ℕ) → 0 < d → IsCeiling (n / d + (if n % d == 0 then 0 else 1)) n d
quotient-IsCeiling n d k = elim (Bool-cases (n % d == 0)) [
  | inl e ↦ rw e (record {
    above = grind (arith, div-add-mod' n d, (==_iff (n % d) 0).0 e);
    below = grind (arith, div-add-mod' n d);
  })
  | inr e ↦ rw e (record {
    above = grind (arith, div-add-mod' n d, mod-lt n k);
    below = grind (arith, div-add-mod' n d, e);
  })
]

-- Neither quotient exceeds what is divided.
pub quotient-le : (n d : ℕ) → 0 < d → n / d ≤ n
quotient-le n d k = ground (arith, div-le_self n d)

pub ceiling-le : (n d : ℕ) → 0 < d → n / d + (if n % d == 0 then 0 else 1) ≤ n
ceiling-le n zero k = absurd (omega arith)
ceiling-le n (suc d) k = ground (arith, div-add-mod' n (suc d))

-- On an int64 amount that is not negative and a positive number of days, one division rounds down
-- and the other up, each by less than one.
pub floor_div-ceil_div :
    (n d : ℕ)
    → n < 2 ^ 63
    → 0 < d
    → (f : ℕ) × (c : ℕ) × (floor_div (pos n) (pos d) ≡ pos f)
      × (ceil_div (pos n) (pos d) ≡ pos c)
      × IsFloor f n d
      × IsCeiling c n d
floor_div-ceil_div n d h k = (
  n / d,
  n / d + (if n % d == 0 then 0 else 1),
  floor_div-pos n d h,
  ceil_div-pos n d h k,
  quotient-IsFloor n d k,
  quotient-IsCeiling n d k,
)
