-- ===== src/Go/Exec.antt =====
-- Functions that return `(value, error)` and change state. What was written before an error stays
-- written, so the state comes back beside the error too.
use torrents.Prelude.{◌≡◌, refl, ◌⊎◌, inl, inr}
use torrents.Go.Errors.{Error}

pub data Result {ℓ} (A : Type ℓ) : Type ℓ where
  ok : A → Result A
  err : Error → Result A

abbrev pub Exec : Type 0 → Type 0 → Type 0
Exec S A = S → Result A × S

-- `error` as the only result.
abbrev pub Outcome : Type 0
Outcome = Result (Unit {0})

module _ {S A : Type 0} where
  abbrev pub pure : A → Exec S A
  pure a s = (ok a, s)

  abbrev pub raise : Error → Exec S A
  raise e s = (err e, s)

module _ {S A B : Type 0} where
  -- `x, err := m()`, followed by the code that tests `err`.
  abbrev pub catching : Exec S A → (Result A → Exec S B) → Exec S B
  catching m k s = let (r, s') = m s in k r s'

  -- `x, err := m()`, with `if err != nil { return on_error(err) }`.
  abbrev pub or_else : Exec S A → (Error → Exec S B) → (A → Exec S B) → Exec S B
  or_else m on_error k = catching m (λ r. elim r [ ok a ↦ k a | err e ↦ on_error e ])

-- To split on the result of a call and keep the equation.
pub Result-cases :
    {A : Type 0} (r : Result A) → ((a : A) × (r ≡ ok a)) ⊎ ((e : Error) × (r ≡ err e))
Result-cases (ok a) = inl (a, refl)
Result-cases (err e) = inr (e, refl)

-- A call whose result is known.
pub with_result : {S A : Type 0} {a : Result A} (p : Result A × S) → p.0 ≡ a → p ≡ (a, p.1)
with_result p e = λ i. (e i, p.1)
