-- ===== src/Kube/Monad.antt =====
-- A method that calls the API: a function of the state, which comes back after an error too.
use chainplane.Errors.{Error, Result, ok, err}
use chainplane.Kube.Objects.{World}

abbrev pub Action : Type 0 → Type 0
Action A = World → Result A × World

module _ {A : Type 0} where
  abbrev pub pure : A → Action A
  pure a w = (ok a, w)

  abbrev pub raise : Error → Action A
  raise e w = (err e, w)

  abbrev pub gets : (World → A) → Action A
  gets f w = (ok (f w), w)

  -- `if err := m; err != nil { … }`
  abbrev pub recover : (Error → Action A) → Result A × World → Result A × World
  recover handler (ok a, w) = (ok a, w)
  recover handler (err e, w) = handler e w

  abbrev pub catch : Action A → (Error → Action A) → Action A
  catch m handler w = recover handler (m w)

  -- The error as a value, for code that looks at it and goes on.
  abbrev pub attempt : Action A → Action (Result A)
  attempt m w = let (r, w') = m w in (ok r, w')

abbrev pub continue : {A B : Type 0} → (A → Action B) → Result A × World → Result B × World
continue f (ok a, w) = f a w
continue f (err e, w) = (err e, w)

infixl 5 ◌>>=◌ ◌>>◌
abbrev pub ◌>>=◌ : {A B : Type 0} → Action A → (A → Action B) → Action B
◌>>=◌ m f w = continue f (m w)

abbrev pub ◌>>◌ : {A B : Type 0} → Action A → Action B → Action B
m >> k = m >>= λ _. k

abbrev pub modify : (World → World) → Action (Unit {0})
modify f w = (ok tt, f w)
