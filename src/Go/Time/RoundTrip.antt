-- ===== src/Go/Time/RoundTrip.antt =====
-- A time that is formatted and parsed again is the same time.
use torrents.Prelude.{
  ℕ, zero, suc, ◌+◌, ◌-◌, ◌*◌, ◌/◌, ◌%◌, ◌^◌, ◌<◌, ◌≡◌, refl, true, false, some, List, [], ◌∷◌,
  ◌++◌, inl, inr, ◌∙◌, ap, arith, eqb, Bool-cases,
}
use native.Mathlib.Nat.{pow-suc, div-lt_iff_lt-mul, mod-lt}
use torrents.Go.Time.{fraction_digits, fraction_text, is_digit, parse_digits, parse_fraction}

pow-pos : (k : ℕ) → 0 < 10 ^ k
pow-pos zero = omega arith
pow-pos (suc k) = omega (arith, pow-pos k, pow-suc 10 k)

-- The first digit of a number below 10^(k+1), and what is left of it.
digit-lt : (k n : ℕ) → n < 10 ^ suc k → n / 10 ^ k < 10
digit-lt k n h = (div-lt_iff_lt-mul (pow-pos k)).1 (omega (arith, pow-suc 10 k))

rest-lt : (k n : ℕ) → n % 10 ^ k < 10 ^ k
rest-lt k n = mod-lt n (pow-pos k)

digit_parts : (k n : ℕ) → (n / 10 ^ k) * 10 ^ k + n % 10 ^ k ≡ n
digit_parts k n = omega arith

-- A digit before a text that parses.
parse_step :
    (k c : ℕ) (rest : List ℕ) {v : ℕ}
    → is_digit c ≡ true
    → parse_digits k rest ≡ some v
    → parse_digits (suc k) (c ∷ rest) ≡ some ((c - b'0') * 10 ^ k + v)
unfolding parse_digits
parse_step k c [] d e = cc
parse_step k c (x ∷ rest) d e = rw (d, e) refl

digit-is_digit : (d : ℕ) → d < 10 → is_digit (b'0' + d) ≡ true
digit-is_digit d h = ground arith

digit_value : (d : ℕ) → (b'0' + d) - b'0' ≡ d
digit_value d = omega arith

fraction_digits-suc :
    (k n : ℕ)
    → eqb n 0 ≡ false
    → fraction_digits (suc k) n ≡ (b'0' + n / 10 ^ k) ∷ fraction_digits k (n % 10 ^ k)
unfolding fraction_digits
fraction_digits-suc k n e = rw e refl

parse_first_digit :
    (k n : ℕ) (rest : List ℕ)
    → n < 10 ^ suc k
    → parse_digits k rest ≡ some (n % 10 ^ k)
    → parse_digits (suc k) ((b'0' + n / 10 ^ k) ∷ rest) ≡ some n
parse_first_digit k n rest h e =
    parse_step k (b'0' + n / 10 ^ k) rest (digit-is_digit (n / 10 ^ k) (digit-lt k n h)) e
    ∙ ap some (rw digit_value (digit_parts k n))

parse_digits-fraction_digits :
    (k n : ℕ) → n < 10 ^ k → parse_digits k (fraction_digits k n ++ b'Z' ∷ []) ≡ some n
parse_digits-fraction_digits zero n h = unfold parse_digits fraction_digits in ground arith
parse_digits-fraction_digits (suc k) n h = elim (Bool-cases (eqb n 0)) [
  | inl e ↦ unfold parse_digits fraction_digits in ground arith
  | inr e ↦ rw (fraction_digits-suc k n e) (
      parse_first_digit k n (fraction_digits k (n % 10 ^ k) ++ b'Z' ∷ []) h
        (parse_digits-fraction_digits k (n % 10 ^ k) (rest-lt k n)))
]

parse_point :
    (c : ℕ) (rest : List ℕ) {n : ℕ}
    → is_digit c ≡ true
    → parse_digits 9 (c ∷ rest) ≡ some n
    → parse_fraction (b'.' ∷ c ∷ rest) ≡ some n
unfolding parse_fraction
parse_point c rest d e = rw d e

-- The text of a fraction of a second parses to it.
pub parse_fraction-fraction_text : (n : ℕ) → n < 10 ^ 9 → parse_fraction (fraction_text n) ≡ some n
unfolding fraction_text
parse_fraction-fraction_text n h = elim (Bool-cases (eqb n 0)) [
  | inl e ↦ unfold parse_fraction in ground arith
  | inr e ↦
      rw (e, fraction_digits-suc 8 n e)
        (parse_point (b'0' + n / 10 ^ 8) (fraction_digits 8 (n % 10 ^ 8) ++ b'Z' ∷ [])
          (digit-is_digit (n / 10 ^ 8) (digit-lt 8 n h))
          (rw (fraction_digits-suc 8 n e) at (parse_digits-fraction_digits 9 n h)))
]
