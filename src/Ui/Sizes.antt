-- ===== src/Ui/Sizes.antt =====
-- `humanBytes` of internal/server/ui/component/progress_bar.templ.
use torrents.Prelude.{
  ℕ, zero, suc, ◌+◌, ◌*◌, ◌/◌, ◌%◌, ◌^◌, ◌≤◌, ◌<◌, String, true, false, ◌≡◌, refl, ◌∙◌, Option,
  none, some, arith, ltb, leb, if◌then◌else◌, inl, inr, Bool-cases,
}

-- What is printed: a count of bytes, or `float64(n)/float64(div)` and the letter of the exponent; or
-- the panic of an index out of range.
pub data Size : Type 0 where
  bytes : ℕ → Size
  scaled : ℕ → ℕ → String → Size
  index_panic : ℕ → Size

-- Multiplication of two int64 that are not negative, on 64 bits.
abbrev pub mul : ℕ → ℕ → ℕ
mul a b = a * b % 2 ^ 64

-- `for v := n / unit; v >= unit; v /= unit`, on fuel.
unfoldable pub scale : ℕ → ℕ → ℕ → ℕ → Option (ℕ × ℕ)
scale zero v div exp = none
scale (suc fuel) v div exp =
    let rest = scale fuel (v / 1024) (mul div 1024) (suc exp) in
    if leb 1024 v then rest else some (div, exp)

-- `"KMGTPE"[exp]`
abbrev pub letter : ℕ → Option String
letter zero = some "K"
letter (suc zero) = some "M"
letter (suc (suc zero)) = some "G"
letter (suc (suc (suc zero))) = some "T"
letter (suc (suc (suc (suc zero)))) = some "P"
letter (suc (suc (suc (suc (suc zero))))) = some "E"
letter (suc (suc (suc (suc (suc (suc n)))))) = none

-- Six rounds are enough for an int64; `none` would be a loop that goes on.
unfoldable pub human_bytes : ℕ → Option Size
unfolding scale
human_bytes n = if ltb n 1024 then some (bytes n) else elim (scale 6 (n / 1024) 1024 0) [
  | none ↦ none
  | some (div, exp) ↦ some (elim (letter exp) [ none ↦ index_panic exp | some l ↦ scaled n div l ])
]

-- The power of 1024 that a letter stands for.
abbrev pub IsWeight : String → ℕ → Type 0
IsWeight l div = (e : ℕ) × (letter e ≡ some l) × (div ≡ 1024 ^ (e + 1))

-- A size that is right for `n`: the count itself below 1024, and otherwise a letter with its own
-- power of 1024, by which the quotient is at least 1 and below 1024.
abbrev pub Shows : ℕ → Option Size → Type 0
Shows n (some (bytes m)) = (m ≡ n) × (n < 1024)
Shows n (some (scaled m div l)) = (m ≡ n) × IsWeight l div × (div ≤ n) × (n < div * 1024)
Shows n (some (index_panic e)) = ⊥
Shows n none = ⊥

scale-again :
    (fuel v div exp : ℕ)
    → leb 1024 v ≡ true
    → scale (suc fuel) v div exp ≡ scale fuel (v / 1024) (mul div 1024) (suc exp)
unfolding scale
scale-again fuel v div exp e = rw (e, scale) refl

scale-stops :
    (fuel v div exp : ℕ) → leb 1024 v ≡ false → scale (suc fuel) v div exp ≡ some (div, exp)
unfolding scale
scale-stops fuel v div exp e = rw (e, scale) refl

Shows-at :
    (n div e : ℕ) (l : String)
    → ltb n 1024 ≡ false
    → scale 6 (n / 1024) 1024 0 ≡ some (div, e)
    → letter e ≡ some l
    → div ≡ 1024 ^ (e + 1)
    → div ≤ n
    → n < div * 1024
    → Shows n (human_bytes n)
unfolding human_bytes
Shows-at n div e l large runs named power low high =
    rw (large, human_bytes)
      (rw (runs, human_bytes) (rw (named, human_bytes) (refl, (e, named, power), low, high)))

-- One round of the loop: it ends here, or goes on with the next power.
climb :
    (n fuel v div e : ℕ) (l : String)
    → ltb n 1024 ≡ false
    → scale 6 (n / 1024) 1024 0 ≡ scale (suc fuel) v div e
    → letter e ≡ some l
    → div ≡ 1024 ^ (e + 1)
    → div ≤ n
    → (v < 1024 → n < div * 1024)
    → (1024 ≤ v
        → scale 6 (n / 1024) 1024 0 ≡ scale fuel (v / 1024) (mul div 1024) (suc e)
        → Shows n (human_bytes n))
    → Shows n (human_bytes n)
climb n fuel v div e l large runs named power low high onward = elim (Bool-cases (leb 1024 v)) [
  | inr stops ↦
      Shows-at n div e l large (runs ∙ scale-stops fuel v div e stops) named power low
        (high (ground (arith, stops)))
  | inl again ↦ onward (ground (arith, again)) (runs ∙ scale-again fuel v div e again)
]

-- Every int64 that is not negative is shown right: the loop ends within its six rounds, the index
-- stays within "KMGTPE", the divisor does not overflow, and the number before the letter is at least
-- 1 and below 1024 before it is rounded.
pub human_bytes-Shows : (n : ℕ) → n < 2 ^ 63 → Shows n (human_bytes n)
human_bytes-Shows n h = elim (Bool-cases (ltb n 1024)) [
  | inl small ↦ unfold human_bytes in rw (small, human_bytes) (refl, ground arith)
  | inr large ↦
      let v1 = n / 1024 in
      let v2 = v1 / 1024 in
      let v3 = v2 / 1024 in
      let v4 = v3 / 1024 in
      let v5 = v4 / 1024 in
      let v6 = v5 / 1024 in
      climb n 5 v1 1024 0 "K" large refl refl refl (ground arith) (λ s. ground arith)
        (λ t1 g1.
          climb n 4 v2 1048576 1 "M" large g1 refl refl (ground arith) (λ s. ground arith)
            (λ t2 g2.
              climb n 3 v3 1073741824 2 "G" large g2 refl refl (ground arith) (λ s. ground arith)
                (λ t3 g3.
                  climb n 2 v4 1099511627776 3 "T" large g3 refl refl (ground arith)
                    (λ s. ground arith)
                    (λ t4 g4.
                      climb n 1 v5 1125899906842624 4 "P" large g4 refl refl (ground arith)
                        (λ s. ground arith)
                        (λ t5 g5.
                          climb n 0 v6 1152921504606846976 5 "E" large g5 refl refl (ground arith)
                            (λ s. ground arith) (λ t g6. absurd (ground arith)))))))
]
