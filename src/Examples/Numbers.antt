-- ===== src/Examples/Numbers.antt =====
-- std::stoi, and the StringConverter of examples/example_route_params_user_defined_types.cpp.
use asyncgi.Common.{
  ℕ, zero, suc, ◌+◌, ◌/◌, ◌%◌, ◌≡◌, refl, ap, ◌∙◌, ◌≢◌, inl, inr, Bool, true, false, ◌&&◌, [], ◌∷◌,
  arith, leb, ◌==◌, if◌then◌else◌, Bool-cases, Bytes, text, All, ℤ, pos, negsuc,
}
use mathlib.Core.List.{cons-ne-nil}
use asyncgi.Examples.Text.{is_space}
use asyncgi.Examples.Vector.{int_max}
use asyncgi.Router.Decimal.{to_string, value_from, digits, value-to_string}

-- What a conversion returns, or which exception it ends by.
pub data Conversion : Type 0 where
  converted : ℤ → Conversion
  invalid_argument : Conversion
  out_of_range : Conversion

abbrev pub is_digit : ℕ → Bool
is_digit c = leb b'0' c && leb c b'9'

skip_spaces : Bytes → Bytes
skip_spaces [] = []
skip_spaces (c ∷ s) = if is_space c then skip_spaces s else c ∷ s

take_digits : Bytes → Bytes
take_digits [] = []
take_digits (c ∷ s) = if is_digit c then c ∷ take_digits s else []

negated : ℕ → ℤ
negated zero = pos zero
negated (suc n) = negsuc n

-- The digits behind the sign; what follows them is ignored.
read_digits : Bool → Bytes → Conversion
unfolding negated
read_digits negative [] = invalid_argument
read_digits negative (c ∷ s) =
    let n = value_from 0 (c ∷ s) in
    if negative
    then (if leb n (int_max + 1) then converted (negated n) else out_of_range)
    else if leb n int_max
    then converted (pos n)
    else out_of_range

read_signed : Bytes → Conversion
unfolding read_digits take_digits
read_signed [] = invalid_argument
read_signed (c ∷ s) =
    if c == b'-'
    then read_digits true (take_digits s)
    else if c == b'+'
    then read_digits false (take_digits s)
    else read_digits false (take_digits (c ∷ s))

unfoldable pub stoi : Bytes → Conversion
unfolding skip_spaces read_signed value_from
stoi s = read_signed (skip_spaces s)

-- StringConverter<MessageNumber>::fromString: it never returns std::nullopt.
unfoldable pub from_string : Bytes → Conversion
unfolding stoi
from_string number = stoi number

stoi_runs :
    (stoi (text " -12x") ≡ converted (negsuc 11))
    × (stoi (text "x") ≡ invalid_argument)
    × (stoi (text "2147483648") ≡ out_of_range)
unfolding stoi
stoi_runs = (refl, refl, refl)

abbrev IsDigit : ℕ → Type 0
IsDigit c = is_digit c ≡ true

skip_spaces-digits : (s : Bytes) → All IsDigit s → skip_spaces s ≡ s
unfolding skip_spaces
skip_spaces-digits [] h = refl
skip_spaces-digits (c ∷ s) (h, hs) = ground arith

take_digits-digits : (s : Bytes) → All IsDigit s → take_digits s ≡ s
unfolding take_digits
take_digits-digits [] h = refl
take_digits-digits (c ∷ s) (h, hs) = ground (arith, take_digits-digits s hs)

read_signed-digits :
    (c : ℕ) (s : Bytes) → All IsDigit (c ∷ s) → read_signed (c ∷ s) ≡ read_digits false (c ∷ s)
unfolding read_signed
read_signed-digits c s (h, hs) = rw (take_digits-digits (c ∷ s) (h, hs)) (ground arith)

stoi-digits :
    (s : Bytes)
    → All IsDigit s
    → s ≢ []
    → stoi s
      ≡ (if leb (value_from 0 s) int_max then converted (pos (value_from 0 s)) else out_of_range)
unfolding stoi read_signed read_digits
stoi-digits [] h nonempty = absurd (nonempty refl)
stoi-digits (c ∷ s) h nonempty = rw (skip_spaces-digits (c ∷ s) h) (read_signed-digits c s h)

digits-All : (fuel n : ℕ) (acc : Bytes) → All IsDigit acc → All IsDigit (digits fuel n acc)
unfolding digits
digits-All zero n acc h = h
digits-All (suc fuel) n acc h =
    let digit : IsDigit (b'0' + n % 10) = ground arith in
    elim (Bool-cases (n / 10 == 0)) [
      | inl last ↦ rw last (digit, h)
      | inr more ↦ rw more (digits-All fuel (n / 10) ((b'0' + n % 10) ∷ acc) (digit, h))
    ]

digits-nonempty : (fuel n : ℕ) (acc : Bytes) → acc ≢ [] → digits fuel n acc ≢ []
unfolding digits
digits-nonempty zero n acc h = h
digits-nonempty (suc fuel) n acc h =
    ground (arith, digits-nonempty fuel (n / 10) ((b'0' + n % 10) ∷ acc))

to_string-nonempty : (n : ℕ) → to_string n ≢ []
unfolding to_string digits
to_string-nonempty n = elim (Bool-cases (n / 10 == 0)) [
  | inl last ↦ rw last (cons-ne-nil _ _)
  | inr more ↦ rw more (digits-nonempty n (n / 10) _ (cons-ne-nil _ _))
]

-- The number that std::to_string has printed is what std::stoi, and so the converter, reads: every int
-- that is not negative comes back as it was, and the printed form of any larger number is refused by an
-- exception.
pub from_string-to_string :
    (n : ℕ)
    → from_string (to_string n) ≡ (if leb n int_max then converted (pos n) else out_of_range)
unfolding from_string
from_string-to_string n =
    stoi-digits (to_string n) (unfold to_string in digits-All (suc n) n [] tt)
      (to_string-nonempty n)
    ∙ ap (λ m. if leb m int_max then converted (pos m) else out_of_range) (value-to_string n)
