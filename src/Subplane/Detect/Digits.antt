-- ===== src/Subplane/Detect/Digits.antt =====
-- Numbers and dotted runs as internal/subplane/detect.go reads them.
use lumi_panel.Base.{
  ℕ, zero, suc, ◌+◌, ◌-◌, ◌*◌, ◌/◌, ◌%◌, ◌^◌, ◌<◌, ◌≡◌, ◌≢◌, inl, inr, refl, arith, true,
  Bool-cases, some, [], ◌∷◌, ◌++◌, pos, ltb, All, All-append, if◌then◌else◌,
}
use lumi_panel.Base.Bytes.{Bytes}
use lumi_panel.Subplane.Detect.Ascii.{is_digit}
use lumi_panel.Subplane.Detect.VersionScan.{read_digits, atoi}

abbrev pub AreDigits : Bytes → Type 0
AreDigits = All (λ c. is_digit c ≡ true)

-- The number that digits spell behind `n`.
abbrev pub value : Bytes → ℕ → ℕ
value [] n = n
value (c ∷ s) n = value s (n * 10 + (c - b'0'))

read_digits-value : (s : Bytes) (n : ℕ) → AreDigits s → read_digits s n ≡ some (value s n)
unfolding read_digits
read_digits-value [] n h = refl
read_digits-value (c ∷ s) n (h, hs) = rw h (read_digits-value s (n * 10 + (c - b'0')) hs)

-- A number as the program's clients write it: digits, at least one, that spell an int64.
pub record IsNumeral (s : Bytes) : Type 0 where
  pub digits : AreDigits s
  pub some_digit : s ≢ []
  pub fits : value s 0 < 2 ^ 63

pub atoi-value : (s : Bytes) → IsNumeral s → atoi s ≡ some (pos (value s 0))
unfolding atoi
atoi-value [] h = absurd (h.some_digit refl)
atoi-value (c ∷ s) h = ground (arith, read_digits-value (c ∷ s) 0 h.digits, h.fits)

value-append : (s : Bytes) (c n : ℕ) → value (s ++ c ∷ []) n ≡ value s n * 10 + (c - b'0')
value-append [] c n = refl
value-append (d ∷ s) c n = value-append s c (n * 10 + (d - b'0'))

-- The decimal print of a number: `fuel` bounds the number of digits.
decimal_from : ℕ → ℕ → Bytes
decimal_from zero n = []
decimal_from (suc fuel) n =
    let front = decimal_from fuel (n / 10) in
    let last = (b'0' + n % 10) ∷ [] in if ltb n 10 then last else front ++ last

unfoldable pub decimal : ℕ → Bytes
unfolding decimal_from
decimal n = decimal_from (suc n) n

last-is_digit : (n : ℕ) → is_digit (b'0' + n % 10) ≡ true
unfolding is_digit
last-is_digit n = ground arith

append-ne-nil : (s : Bytes) (c : ℕ) → s ++ c ∷ [] ≢ []
append-ne-nil [] c e = cc
append-ne-nil (d ∷ s) c e = cc

record Prints (s : Bytes) (n : ℕ) : Type 0 where
  digits : AreDigits s
  some_digit : s ≢ []
  reads : value s 0 ≡ n

decimal_from-Prints : (fuel n : ℕ) → n < fuel → Prints (decimal_from fuel n) n
unfolding decimal_from
decimal_from-Prints zero n h = absurd (omega arith)
decimal_from-Prints (suc fuel) n h = elim (Bool-cases (ltb n 10)) [
  | inl e ↦
      rw (e, decimal_from)
        (record { digits = (last-is_digit n, tt); some_digit = λ q. cc; reads = ground arith })
  | inr e ↦
      let front = decimal_from-Prints fuel (n / 10) (ground arith) in
      rw (e, decimal_from)
        (record {
          digits =
              All-append (λ c. is_digit c ≡ true) (decimal_from fuel (n / 10)) _ front.digits
                (last-is_digit n, tt);
          some_digit = append-ne-nil (decimal_from fuel (n / 10)) (b'0' + n % 10);
          reads =
              omega
                (arith, value-append (decimal_from fuel (n / 10)) (b'0' + n % 10) 0, front.reads);
        })
]

-- A printed number is a numeral that reads as the number.
pub decimal-IsNumeral : (n : ℕ) → n < 2 ^ 63 → IsNumeral (decimal n)
unfolding decimal
decimal-IsNumeral n h =
    let p = decimal_from-Prints (suc n) n (omega arith) in
    record { digits = p.digits; some_digit = p.some_digit; fits = omega (arith, p.reads) }

pub value-decimal : (n : ℕ) → value (decimal n) 0 ≡ n
unfolding decimal
value-decimal n = (decimal_from-Prints (suc n) n (omega arith)).reads
