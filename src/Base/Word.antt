-- ===== src/Base/Word.antt =====
-- The signed machine words of Go: the integers from -2^(w-1) to 2^(w-1) - 1, with wrap-around.
use lumi_panel.Base.{
  ℕ, ◌+◌, ◌-◌, ◌*◌, ◌/◌, ◌%◌, ◌^◌, ◌≤◌, ◌<◌, ◌≡◌, ap, arith, ltb, if◌then◌else◌, ℤ, pos, negsuc,
  pos_part, neg_part, sub_ℕ, eq_of_parts, ◌+ℤ◌, ◌-ℤ◌, ◌*ℤ◌, ◌≤ℤ◌, ◌<ℤ◌, quot, rem, +ℤ_parts,
}

-- The value of a word whose bit pattern is `m`, below 2 ^ 64.
signed64 : ℕ → ℤ
unfolding sub_ℕ
signed64 m = if ltb m (2 ^ 63) then pos m else sub_ℕ m (2 ^ 64)

-- The bit pattern of an integer in 64 bits, in two's complement.
pattern64 : ℤ → ℕ
pattern64 z = (pos_part z + (2 ^ 64 - neg_part z % 2 ^ 64)) % 2 ^ 64

-- What an int64 holds after an operation whose exact result is `z`.
unfoldable pub wrap64 : ℤ → ℤ
unfolding signed64 pattern64
wrap64 z = signed64 (pattern64 z)

pub record IsInt64 (z : ℤ) : Type 0 where
  pub below : pos_part z < 2 ^ 63
  pub above : neg_part z ≤ 2 ^ 63

unfoldable pub add64 : ℤ → ℤ → ℤ
unfolding wrap64 ◌+ℤ◌
add64 a b = wrap64 (a +ℤ b)

unfoldable pub sub64 : ℤ → ℤ → ℤ
unfolding wrap64 ◌-ℤ◌
sub64 a b = wrap64 (a -ℤ b)

unfoldable pub mul64 : ℤ → ℤ → ℤ
unfolding wrap64 ◌*ℤ◌
mul64 a b = wrap64 (a *ℤ b)

-- The divisor is not zero wherever the program divides; Go would panic there.
unfoldable pub div64 : ℤ → ℤ → ℤ
unfolding wrap64 quot
div64 a b = wrap64 (quot a b)

unfoldable pub rem64 : ℤ → ℤ → ℤ
unfolding wrap64 rem
rem64 a b = wrap64 (rem a b)

unfoldable pub neg64 : ℤ → ℤ
unfolding wrap64 ◌-ℤ◌
neg64 a = wrap64 (pos 0 -ℤ a)

pub wrap64_id : (z : ℤ) → IsInt64 z → wrap64 z ≡ z
unfolding wrap64 signed64 pattern64 sub_ℕ pos_part neg_part
wrap64_id (pos n) h = ground arith
wrap64_id (negsuc n) h = ground arith

pub wrap64-IsInt64 : (z : ℤ) → IsInt64 (wrap64 z)
unfolding wrap64 signed64 pattern64 sub_ℕ pos_part neg_part
wrap64-IsInt64 z = ground arith

-- Where the exact result fits, the machine operations are exact.
pub add64_exact : (a b : ℤ) → IsInt64 (a +ℤ b) → add64 a b ≡ a +ℤ b
unfolding add64
add64_exact a b h = wrap64_id (a +ℤ b) h

pub sub64_exact : (a b : ℤ) → IsInt64 (a -ℤ b) → sub64 a b ≡ a -ℤ b
unfolding sub64
sub64_exact a b h = wrap64_id (a -ℤ b) h

pub mul64_exact : (a b : ℤ) → IsInt64 (a *ℤ b) → mul64 a b ≡ a *ℤ b
unfolding mul64
mul64_exact a b h = wrap64_id (a *ℤ b) h

-- Subtraction inside the non-negative range: the case of allowances and remainders.
pub sub64-pos : (a b : ℕ) → a < 2 ^ 63 → b ≤ a → sub64 (pos a) (pos b) ≡ pos (a - b)
unfolding sub64 wrap64 ◌-ℤ◌
sub64-pos a b h k = ground arith

pub add64-pos : (a b : ℕ) → a + b < 2 ^ 63 → add64 (pos a) (pos b) ≡ pos (a + b)
unfolding add64 wrap64 ◌+ℤ◌
add64-pos a b h = ground arith

pub mul64-pos : (a b : ℕ) → a * b < 2 ^ 63 → mul64 (pos a) (pos b) ≡ pos (a * b)
unfolding mul64 wrap64 ◌*ℤ◌
mul64-pos a b h = ground arith

pub div64-pos : (a b : ℕ) → a < 2 ^ 63 → div64 (pos a) (pos b) ≡ pos (a / b)
unfolding div64 wrap64 quot
div64-pos a b h = ground arith

congr :
    (p n q m : ℕ)
    → (p + m) % 2 ^ 64 ≡ (q + n) % 2 ^ 64
    → (p + (2 ^ 64 - n % 2 ^ 64)) % 2 ^ 64 ≡ (q + (2 ^ 64 - m % 2 ^ 64)) % 2 ^ 64
congr p n q m h = omega arith

-- Integers that agree modulo 2 ^ 64 have one bit pattern.
pattern64-congr :
    (a b : ℤ)
    → (pos_part a + neg_part b) % 2 ^ 64 ≡ (pos_part b + neg_part a) % 2 ^ 64
    → pattern64 a ≡ pattern64 b
unfolding pattern64
pattern64-congr a b h = congr (pos_part a) (neg_part a) (pos_part b) (neg_part b) h

-- An integer and its word agree modulo 2 ^ 64.
wrap64-congr :
    (z : ℤ)
    → (pos_part (wrap64 z) + neg_part z) % 2 ^ 64 ≡ (pos_part z + neg_part (wrap64 z)) % 2 ^ 64
unfolding wrap64 signed64 pattern64 sub_ℕ pos_part neg_part
wrap64-congr z = ground arith

wrap64-add :
    (z c : ℤ)
    → (pos_part (wrap64 z +ℤ c) + neg_part (z +ℤ c)) % 2 ^ 64
      ≡ (pos_part (z +ℤ c) + neg_part (wrap64 z +ℤ c)) % 2 ^ 64
wrap64-add z c = omega (arith, wrap64-congr z, +ℤ_parts z c, +ℤ_parts (wrap64 z) c)

-- Wrapping early or late gives the same word.
pub add64_assoc : (a b c : ℤ) → add64 (add64 a b) c ≡ add64 a (b +ℤ c)
unfolding add64 wrap64
add64_assoc a b c =
    let regroup : (a +ℤ b) +ℤ c ≡ a +ℤ (b +ℤ c) =
      eq_of_parts _ _
        (omega (arith, +ℤ_parts a b, +ℤ_parts (a +ℤ b) c, +ℤ_parts b c, +ℤ_parts a (b +ℤ c))) in
    rw (← regroup)
      (ap signed64 (pattern64-congr (wrap64 (a +ℤ b) +ℤ c) ((a +ℤ b) +ℤ c) (wrap64-add (a +ℤ b) c)))

pub add64-zero : (a : ℤ) → IsInt64 a → add64 a (pos 0) ≡ a
unfolding add64 wrap64 signed64 pattern64 sub_ℕ pos_part neg_part ◌+ℤ◌
add64-zero a h = ground arith

pub add64-IsInt64 : (a b : ℤ) → IsInt64 (add64 a b)
unfolding add64
add64-IsInt64 a b = wrap64-IsInt64 (a +ℤ b)

pub sub64-IsInt64 : (a b : ℤ) → IsInt64 (sub64 a b)
unfolding sub64
sub64-IsInt64 a b = wrap64-IsInt64 (a -ℤ b)

-- A positive difference with a subtrahend that is not negative fits.
pub sub64-nonneg :
    (a b : ℤ) → IsInt64 a → pos 0 ≤ℤ b → b <ℤ a → sub64 a b ≡ pos (pos_part a - pos_part b)
unfolding pos_part neg_part
sub64-nonneg (pos a) (pos b) h k lt = sub64-pos a b (omega (arith, h.below)) (omega arith)
sub64-nonneg (pos a) (negsuc b) h k lt = absurd (omega arith)
sub64-nonneg (negsuc a) (pos b) h k lt = absurd (omega arith)
sub64-nonneg (negsuc a) (negsuc b) h k lt = absurd (omega arith)

pub add64-billed :
    (a : ℤ) (t : ℕ) → pos 0 <ℤ a → pos_part a + t < 2 ^ 63 → add64 a (pos t) ≡ pos (pos_part a + t)
unfolding pos_part neg_part
add64-billed (pos n) t h k = add64-pos n t k
add64-billed (negsuc n) t h k = absurd (omega arith)

pub add64-nonneg :
    (a : ℤ) (t : ℕ) → pos 0 ≤ℤ a → pos_part a + t < 2 ^ 63 → add64 a (pos t) ≡ pos (pos_part a + t)
unfolding pos_part neg_part
add64-nonneg (pos n) t h k = add64-pos n t k
add64-nonneg (negsuc n) t h k = absurd (omega arith)
