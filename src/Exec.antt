-- ===== src/Exec.antt =====
-- Results with the domain's errors, and methods that change a state and may fail: what was written
-- before an error stays written.
use my_demo_app.Prelude.{◌≡◌, refl, ◌⊎◌, inl, inr, Bool, true, false}
use my_demo_app.Text.{Str}

-- What an `ErrValidation` is wrapped with.
pub data Problem : Type 0 where
  plan_name_required negative_price msisdn_required msisdn_length plan_id_required owner_required :
      Problem
  unknown_status unknown_kind : Str → Problem

-- The sentinel errors of internal/subscriber, and any other error with its text.
pub data Error : Type 0 where
  not_found : Error
  validation : Problem → Error
  invalid_status_transition : Error
  failed : Str → Error

pub data Result {ℓ} (A : Type ℓ) : Type ℓ where
  ok : A → Result A
  err : Error → Result A

pub Result-cases :
    {A : Type 0} (r : Result A) → ((a : A) × (r ≡ ok a)) ⊎ ((e : Error) × (r ≡ err e))
Result-cases (ok a) = inl (a, refl)
Result-cases (err e) = inr (e, refl)

-- What a call of code outside returns, or the text of its error.
pub data Reply (A : Type 0) : Type 0 where
  value : A → Reply A
  error : Str → Reply A

pub Reply-cases :
    {A : Type 0} (r : Reply A) → ((a : A) × (r ≡ value a)) ⊎ ((e : Str) × (r ≡ error e))
Reply-cases (value a) = inl (a, refl)
Reply-cases (error e) = inr (e, refl)

abbrev pub Exec : Type 0 → Type 0 → Type 0
Exec S A = S → Result A × S

module _ {S A : Type 0} where
  abbrev pub pure : A → Exec S A
  pure a s = (ok a, s)

  abbrev pub raise : Error → Exec S A
  raise e s = (err e, s)

  -- A call that reads the state.
  abbrev pub reads : (S → Result A) → Exec S A
  reads f s = (f s, s)

module _ {S A B : Type 0} where
  abbrev continue : Result A → (A → Exec S B) → Exec S B
  continue (ok a) f s = f a s
  continue (err e) f s = (err e, s)

  infixl 10 ◌>>=◌ ◌>>◌
  abbrev pub ◌>>=◌ : Exec S A → (A → Exec S B) → Exec S B
  ◌>>=◌ m f s = let (r, s') = m s in continue r f s'

  abbrev pub ◌>>◌ : Exec S A → Exec S B → Exec S B
  m >> n = m >>= λ _. n

-- `if b { return err }`
abbrev pub fail_if : {S : Type 0} → Bool → Error → Exec S Unit
fail_if true e s = (err e, s)
fail_if false e s = (ok tt, s)
