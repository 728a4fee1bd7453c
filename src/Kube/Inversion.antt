-- ===== src/Kube/Inversion.antt =====
-- What a run of a compound action tells of the runs of its parts.
use chainplane.Prelude.{◌≡◌, refl, ◌⊎◌, inl, inr, arith}
use chainplane.Errors.{Error, Result, ok, err}
use chainplane.Kube.Objects.{World}
use chainplane.Kube.Monad.{Action, continue, recover, catch, raise, ◌>>=◌}

module _ {A : Type 0} where
  -- The two ways in which a run can end.
  abbrev Ends : Result A × World → Type 0
  Ends x =
      ((a : A) × (w : World) × (x ≡ (ok a, w))) ⊎ ((e : Error) × (w : World) × (x ≡ (err e, w)))

  split_result : (x : Result A × World) → Ends x
  split_result (ok a, w) = inl (a, w, refl)
  split_result (err e, w) = inr (e, w, refl)

  pub run_cases :
      (m : Action A) (w : World)
      → ((a : A) × (w' : World) × (m w ≡ (ok a, w')))
        ⊎ ((e : Error) × (w' : World) × (m w ≡ (err e, w')))
  run_cases m w = split_result (m w)

  -- A guarded action that succeeds without its handler.
  pub catch-raise-ok :
      (m : Action A) (wrap : Error → Error) (w : World) {a : A} {w' : World}
      → catch m (λ e. raise (wrap e)) w ≡ (ok a, w')
      → m w ≡ (ok a, w')
  catch-raise-ok m wrap w {a} {w'} h = elim (run_cases m w) [
    | inl (b, v, e) ↦ ground arith
    | inr (x, v, e) ↦ absurd (ground arith)
  ]

  -- A guarded action that fails has failed at the same state.
  pub catch-raise-err :
      (m : Action A) (wrap : Error → Error) (w : World) {x : Error} {w' : World}
      → catch m (λ e. raise (wrap e)) w ≡ (err x, w')
      → (y : Error) × (m w ≡ (err y, w'))
  catch-raise-err m wrap w {x} {w'} h = elim (run_cases m w) [
    | inl (b, v, e) ↦ absurd (ground arith)
    | inr (y, v, e) ↦ (y, ground arith)
  ]

module _ {A B : Type 0} where
  pub bind-ok :
      (m : Action A) (f : A → Action B) (w : World) {b : B} {w'' : World}
      → (m >>= f) w ≡ (ok b, w'')
      → (a : A) × (w' : World) × (m w ≡ (ok a, w')) × (f a w' ≡ (ok b, w''))
  bind-ok m f w {b} {w''} h = elim (run_cases m w) [
    | inl (a, w', e) ↦ (a, w', e, ground arith)
    | inr (x, w', e) ↦ absurd (ground arith)
  ]

  pub bind-err :
      (m : Action A) (f : A → Action B) (w : World) {x : Error} {w'' : World}
      → (m >>= f) w ≡ (err x, w'')
      → (m w ≡ (err x, w''))
        ⊎ ((a : A) × (w' : World) × (m w ≡ (ok a, w')) × (f a w' ≡ (err x, w'')))
  bind-err m f w {x} {w''} h = elim (run_cases m w) [
    | inl (a, w', e) ↦ inr (a, w', e, ground arith)
    | inr (y, w', e) ↦ inl (ground arith)
  ]

  -- A fact about a compound run, from the two ways in which its first part ends.
  pub bind_rule {ℓ} :
      (P : Result B × World → Type ℓ) (m : Action A) (f : A → Action B) (w : World)
      → ((a : A) (v : World) → m w ≡ (ok a, v) → P (f a v))
      → ((e : Error) (v : World) → m w ≡ (err e, v) → P (err e, v))
      → P ((m >>= f) w)
  bind_rule P m f w on_ok on_err = go (m w) refl
    where
      go : (x : Result A × World) → m w ≡ x → P (continue f x)
      go (ok a, v) e = on_ok a v e
      go (err x, v) e = on_err x v e

module _ {A : Type 0} where
  pub catch_rule {ℓ} :
      (P : Result A × World → Type ℓ) (m : Action A) (handler : Error → Action A) (w : World)
      → ((a : A) (v : World) → m w ≡ (ok a, v) → P (ok a, v))
      → ((e : Error) (v : World) → m w ≡ (err e, v) → P (handler e v))
      → P (catch m handler w)
  catch_rule P m handler w on_ok on_err = go (m w) refl
    where
      go : (x : Result A × World) → m w ≡ x → P (recover handler x)
      go (ok a, v) e = on_ok a v e
      go (err x, v) e = on_err x v e

  -- A run whose result is known.
  pub run_eq : (m : Action A) (w : World) (r : Result A) → (m w).0 ≡ r → m w ≡ (r, (m w).1)
  run_eq m w r h = cc
