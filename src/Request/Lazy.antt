-- ===== src/Request/Lazy.antt =====
-- LazyInitialized (include/asyncgi/detail/lazyinitialized.h). `runs` counts the calls of the
-- initializer.
use asyncgi.Common.{ℕ, ◌+◌, ◌≡◌, refl, ◌⊎◌, inl, inr, Option, none, some}

pub record LazyInitialized {ℓ} (A : Type ℓ) : Type ℓ where
  pub value : Option A
  pub runs : ℕ

module _ {ℓ} {A : Type ℓ} where
  abbrev pub uninitialized : LazyInitialized A
  uninitialized = record { value = none; runs = 0 }

  -- get(), with its initializer.
  unfoldable pub get : (Unit {0} → A) → LazyInitialized A → A × LazyInitialized A
  get initializer l = elim l.value [
    | none ↦ let v = initializer tt in (v, record { value = some v; runs = l.runs + 1 })
    | some v ↦ (v, l)
  ]

  -- Either nothing is stored and the initializer has not run, or its value is, and it ran once.
  abbrev pub IsCoherent : (Unit {0} → A) → LazyInitialized A → Type ℓ
  IsCoherent initializer l =
      (l ≡ uninitialized) ⊎ (l ≡ record { value = some (initializer tt); runs = 1 })

  pub get_lem :
      (initializer : Unit {0} → A) (l : LazyInitialized A)
      → IsCoherent initializer l
      → ((get initializer l).0 ≡ initializer tt)
        × ((get initializer l).1 ≡ record { value = some (initializer tt); runs = 1 })
  unfolding get
  get_lem initializer l (inl fresh) = rw fresh (refl, refl)
  get_lem initializer l (inr done) = rw done (refl, refl)
