-- ===== src/Run.antt =====
-- Methods with `&mut self` that may fail. What was written before a failure stays written, so the
-- state comes back beside the error too.
use rusnmp.Prelude.{◌≡◌, refl}
use rusnmp.Error.{SnmpError, Outcome, ok, err, panicked, out_of_fuel}

abbrev pub Run {ℓ} : Type ℓ → Type ℓ → Type ℓ
Run S A = S → Outcome A × S

module _ {ℓ} {S A : Type ℓ} where
  abbrev pub pure : A → Run S A
  pure a s = (ok a, s)

  abbrev pub fail : SnmpError → Run S A
  fail e s = (err e, s)

  -- `?` on a call that does not touch the state.
  abbrev pub lift : Outcome A → Run S A
  lift r s = (r, s)

  abbrev pub gets : (S → A) → Run S A
  gets f s = (ok (f s), s)

  -- The result of a call whose object is dropped afterwards.
  abbrev pub eval : Run S A → S → Outcome A
  eval m s = (m s).0

abbrev pub modify : {S : Type 0} → (S → S) → Run S (Unit {0})
modify f s = (ok tt, f s)

module _ {ℓ} {S A B : Type ℓ} where
  -- `?` hands an error, a panic or a cut loop through.
  abbrev pub continue : Outcome A → (A → Run S B) → Run S B
  continue (ok a) f s = f a s
  continue (err e) f s = (err e, s)
  continue panicked f s = (panicked, s)
  continue out_of_fuel f s = (out_of_fuel, s)

  infixl 1 ◌>>=◌ ◌>>◌
  abbrev pub ◌>>=◌ : Run S A → (A → Run S B) → Run S B
  ◌>>=◌ m f s = let (r, s') = m s in continue r f s'

  abbrev pub ◌>>◌ : Run S A → Run S B → Run S B
  m >> n = m >>= λ _. n

-- A chain that succeeds has a first step that succeeds.
pub continue-ok :
    {S A B : Type 0} (o : Outcome A) (f : A → Run S B) (s : S) (b : B)
    → (continue o f s).0 ≡ ok b
    → (a : A) × (o ≡ ok a) × ((f a s).0 ≡ ok b)
continue-ok (ok a) f s b e = (a, refl, e)
continue-ok (err x) f s b e = cc
continue-ok panicked f s b e = cc
continue-ok out_of_fuel f s b e = cc
