-- ===== src/Examples/Text.antt =====
-- What the examples use of std::string, std::string_view and std::isspace.
use mathlib.Core.List.{flat_map}
use asyncgi.Common.{
  ℕ, zero, suc, ◌≡◌, refl, sym, ◌≢◌, Bool, true, false, ◌&&◌, ◌||◌, List, [], ◌∷◌, ◌++◌,
  append_assoc, arith, leb, ◌==◌, Bytes, is_empty, All, All-append,
}

-- operator== of two texts
abbrev pub equal : Bytes → Bytes → Bool
equal [] [] = true
equal [] (d ∷ t) = false
equal (c ∷ s) [] = false
equal (c ∷ s) (d ∷ t) = c == d && equal s t

pub equal_self : (s : Bytes) → equal s s ≡ true
equal_self [] = refl
equal_self (c ∷ s) = ground (arith, equal_self s)

pub equal_sound : (s t : Bytes) → equal s t ≡ true → s ≡ t
equal_sound [] [] h = refl
equal_sound [] (d ∷ t) h = ground arith
equal_sound (c ∷ s) [] h = ground arith
equal_sound (c ∷ s) (d ∷ t) h = ground (arith, equal_sound s t)

abbrev pub starts_with : Bytes → Bytes → Bool
starts_with [] s = true
starts_with (p ∷ pattern) [] = false
starts_with (p ∷ pattern) (c ∷ s) = p == c && starts_with pattern s

-- find(pattern) != npos
abbrev pub contains : Bytes → Bytes → Bool
contains pattern [] = is_empty pattern
contains pattern (c ∷ s) = starts_with pattern (c ∷ s) || contains pattern s

-- std::isspace in the "C" locale: the space, and the codes from tab to carriage return.
abbrev pub is_space : ℕ → Bool
is_space c = c == 32 || (leb 9 c && leb c 13)

-- std::all_of
abbrev pub all_of {ℓ} : {A : Type ℓ} → (A → Bool) → List A → Bool
all_of p [] = true
all_of p (x ∷ xs) = p x && all_of p xs

abbrev pub drop {ℓ} : {A : Type ℓ} → ℕ → List A → List A
drop zero xs = xs
drop (suc n) [] = []
drop (suc n) (x ∷ xs) = drop n xs

abbrev pub Lacks : ℕ → Bytes → Type 0
Lacks b s = All (λ c. c ≢ b) s

pub flat_map-append {ℓ κ} :
    {A : Type ℓ} {B : Type κ} (f : A → List B) (xs ys : List A)
    → flat_map f (xs ++ ys) ≡ flat_map f xs ++ flat_map f ys
unfolding flat_map
flat_map-append f [] ys = refl
flat_map-append f (x ∷ xs) ys = rw (flat_map-append f xs ys) (sym (append_assoc (f x) _ _))

pub flat_map-All {ℓ κ μ} :
    {A : Type ℓ} {B : Type κ} (P : B → Type μ) (f : A → List B) (Q : A → Type 0)
    → ((a : A) → Q a → All P (f a))
    → (xs : List A) → All Q xs
    → All P (flat_map f xs)
unfolding flat_map
flat_map-All P f Q each [] h = tt
flat_map-All P f Q each (x ∷ xs) (h, hs) =
    All-append P (f x) (flat_map f xs) (each x h) (flat_map-All P f Q each xs hs)
