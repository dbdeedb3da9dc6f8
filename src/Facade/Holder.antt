-- ===== src/Facade/Holder.antt =====
-- detail::ServiceHolder (include/asyncgi/detail/serviceholder.h, src/serviceholder.cpp): a service of
-- its own, or a reference to one of a connection. `W` is where the referred services live, `R` what
-- refers to one, and `at` is the use of a referred service in its place.
use asyncgi.Common.{◌⊎◌, inl, inr, Bool, true, ◌||◌, Option, none, some, if◌then◌else◌, is_some}

pub record ServiceHolder {ℓ κ} (S : Type ℓ) (R : Type κ) : Type (ℓ ⊔ κ) where
  pub service : Option S
  pub service_optional_ref : Option R

module _ {ℓ κ} {S : Type ℓ} {R : Type κ} where
  abbrev pub owning : S → ServiceHolder S R
  owning s = record { service = some s; service_optional_ref = none }

  abbrev pub referring : Option R → ServiceHolder S R
  referring r = record { service = none; service_optional_ref = r }

  unfoldable pub has_value : ServiceHolder S R → Bool
  has_value h = is_some h.service || is_some h.service_optional_ref

  -- get(): to dereference an empty optional is undefined.
  unfoldable pub get : ServiceHolder S R → Option (S ⊎ R)
  get h = elim h.service [
    | some s ↦ some (inl s)
    | none ↦ elim h.service_optional_ref [ none ↦ none | some r ↦ some (inr r) ]
  ]

module _ {ℓ κ μ} {S : Type ℓ} {R : Type κ} {W : Type μ} (at : R → (S → S) → W → W) where
  -- What every operation of a facade is: nothing without a service, and else the operation of it.
  -- Where get() would be undefined, there is no result.
  unfoldable pub call : (S → S) → ServiceHolder S R × W → Option (ServiceHolder S R × W)
  unfolding has_value get
  call op (h, w) =
      if has_value h
      then elim (get h) [
        | none ↦ none
        | some (inl s) ↦ some (record h { service = some (op s) }, w)
        | some (inr r) ↦ some (h, at r op w)
      ]
      else some (h, w)

  -- The same of an operation that may throw, with whether it has returned; `look` is the referred
  -- service.
  unfoldable pub call_throwing :
      (R → W → S) → (S → Bool × S) → ServiceHolder S R × W → Option (Bool × ServiceHolder S R × W)
  unfolding has_value get
  call_throwing look op (h, w) =
      if has_value h
      then elim (get h) [
        | none ↦ none
        | some (inl s) ↦ some ((op s).0, record h { service = some (op s).1 }, w)
        | some (inr r) ↦ some ((op (look r w)).0, h, at r (λ s. (op s).1) w)
      ]
      else some (true, h, w)
