-- ===== src/Examples/Vector.antt =====
-- The removeMessage that the guest books of the examples share, on the vector of their messages.
use asyncgi.Common.{
  ℕ, zero, suc, ◌+◌, ◌-◌, ◌%◌, ◌≤◌, ◌≡◌, refl, ap, Bool, true, false, List, [], ◌∷◌, ◌++◌, arith,
  leb, if◌then◌else◌, length, length-append, ℤ, pos, negsuc,
}

-- std::vector::erase, of an index in range
abbrev pub erase {ℓ} : {A : Type ℓ} → ℕ → List A → List A
erase i [] = []
erase zero (x ∷ xs) = xs
erase (suc i) (x ∷ xs) = x ∷ erase i xs

-- The size is cast to int: `size_limit` is the largest int.
abbrev pub int_max : ℕ
int_max = 2147483647

-- static_cast<int> of a size: the sizes above the largest int wrap into the negative numbers.
unfoldable pub to_int : ℕ → ℤ
to_int n = let m = n % 4294967296 in if leb m int_max then pos m else negsuc (4294967295 - m)

unfoldable pub ge_int : ℤ → ℤ → Bool
ge_int (pos a) (pos b) = leb b a
ge_int (pos a) (negsuc b) = true
ge_int (negsuc a) (pos b) = false
ge_int (negsuc a) (negsuc b) = leb a b

-- index < 0 || index >= size, and the erase of an index that passes.
unfoldable pub remove_from {ℓ} : {A : Type ℓ} → ℤ → List A → List A
unfolding to_int ge_int
remove_from (negsuc n) xs = xs
remove_from (pos i) xs = if ge_int (pos i) (to_int (length xs)) then xs else erase i xs

pub small-to_int : (n : ℕ) → n ≤ int_max → to_int n ≡ pos n
unfolding to_int
small-to_int n h = ground arith

erase-middle {ℓ} :
    {A : Type ℓ} (before after : List A) (x : A)
    → erase (length before) (before ++ x ∷ after) ≡ before ++ after
erase-middle [] after x = refl
erase-middle (y ∷ before) after x = ap (λ zs. y ∷ zs) (erase-middle before after x)

-- Of fewer than 2 ^ 31 messages, the index of a message takes out that message and leaves those before
-- it and behind it as they are; an index behind the last message, or a negative one, takes out none.
pub remove_from_lem {ℓ} :
    {A : Type ℓ} (before after xs : List A) (x : A) (n : ℕ)
    → length (before ++ x ∷ after) ≤ int_max
    → length xs ≤ int_max
    → (remove_from (pos (length before)) (before ++ x ∷ after) ≡ before ++ after)
      × (remove_from (pos (length xs + n)) xs ≡ xs)
      × (remove_from (negsuc n) xs ≡ xs)
unfolding remove_from ge_int
remove_from_lem before after xs x n fits small = (
  rw (small-to_int (length (before ++ x ∷ after)) fits)
      (ground (arith, length-append before (x ∷ after), erase-middle before after x)),
  rw (small-to_int (length xs) small) (ground arith),
  refl,
)
