-- ===== src/Go/Time.antt =====
-- `time.Time` and its text in the format RFC3339Nano, as internal/server/database/database.go
-- stores it. The date and the time of day down to the second have a fixed width and sort as the
-- seconds do, so that part of the text is the number of seconds; what follows it is the text.
pub mod RoundTrip
use torrents.Prelude.{
  ℕ, zero, suc, ◌+◌, ◌-◌, ◌*◌, ◌/◌, ◌%◌, ◌^◌, Bool, true, false, ◌&&◌, Option, none, some, List, [],
  ◌∷◌, ◌++◌, eqb, ltb, leb, if◌then◌else◌,
}
use mathlib.Core.Option

pub record Time : Type 0 where
  pub seconds : ℕ
  pub nanos : ℕ

-- The stored text: its first 19 characters as the seconds they stand for, then the characters
-- of the fraction and the zone.
pub record Stamp : Type 0 where
  pub seconds : ℕ
  pub fraction : List ℕ

-- The digits of n / 10^k after the point, without the zeros at their end.
unfoldable pub fraction_digits : ℕ → ℕ → List ℕ
fraction_digits zero n = []
fraction_digits (suc k) n =
    if eqb n 0 then [] else (b'0' + n / 10 ^ k) ∷ fraction_digits k (n % 10 ^ k)

-- `t.UTC().Format(time.RFC3339Nano)`: no point where the fraction is zero.
unfoldable pub fraction_text : ℕ → List ℕ
fraction_text n = if eqb n 0 then b'Z' ∷ [] else b'.' ∷ (fraction_digits 9 n ++ b'Z' ∷ [])

abbrev pub is_digit : ℕ → Bool
is_digit c = leb b'0' c && leb c b'9'

-- The value of the digits up to the `Z`; digits after the ninth are passed over.
unfoldable pub parse_digits : ℕ → List ℕ → Option ℕ
parse_digits k [] = none
parse_digits zero (c ∷ []) = if eqb c b'Z' then some 0 else none
parse_digits zero (c ∷ d ∷ rest) = if is_digit c then parse_digits zero (d ∷ rest) else none
parse_digits (suc k) (c ∷ []) = if eqb c b'Z' then some 0 else none
parse_digits (suc k) (c ∷ d ∷ rest) =
    if is_digit c
    then Option.map (λ v. (c - b'0') * 10 ^ k + v) (parse_digits k (d ∷ rest))
    else none

unfoldable pub parse_fraction : List ℕ → Option ℕ
parse_fraction [] = none
parse_fraction (c ∷ []) = if eqb c b'Z' then some 0 else none
parse_fraction (c ∷ d ∷ rest) = if eqb c b'.' && is_digit d then parse_digits 9 (d ∷ rest) else none

-- `time.Parse(time.RFC3339Nano, text)`
unfoldable pub parse_time : Stamp → Option Time
parse_time s =
    Option.map (λ n. record { seconds = s.seconds; nanos = n }) (parse_fraction s.fraction)

-- The byte order of texts, by which SQLite sorts a TEXT column.
unfoldable pub text_le : List ℕ → List ℕ → Bool
text_le [] ys = true
text_le (x ∷ xs) [] = false
text_le (x ∷ xs) (y ∷ ys) = if ltb x y then true else if ltb y x then false else text_le xs ys

unfoldable pub stamp_le : Stamp → Stamp → Bool
stamp_le a b =
    if ltb a.seconds b.seconds
    then true
    else if ltb b.seconds a.seconds
    then false
    else text_le a.fraction b.fraction

-- `!u.Before(t)`: the order of the times themselves.
unfoldable pub time_le : Time → Time → Bool
time_le t u =
    if ltb t.seconds u.seconds
    then true
    else if ltb u.seconds t.seconds
    then false
    else leb t.nanos u.nanos
