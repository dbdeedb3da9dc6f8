-- ===== src/Examples/Regex.antt =====
-- std::regex_replace with its default flags, of a pattern of which every character stands for itself,
-- as all patterns of the examples do. The format is ECMAScript's: `$` is special in it.
pub mod Plain
use mathlib.Core.List.{flat_map}
use asyncgi.Common.{
  ℕ, zero, suc, ◌+◌, ◌-◌, ◌*◌, ◌≡◌, refl, inl, inr, Bool, true, false, ◌&&◌, [], ◌∷◌, ◌++◌, arith,
  leb, ◌==◌, if◌then◌else◌, Bool-cases, Bytes, text, length,
}
use asyncgi.Examples.Text.{starts_with, drop, Lacks}

abbrev pub dollar : ℕ
dollar = b'$'

abbrev is_digit : ℕ → Bool
is_digit c = leb b'0' c && leb c b'9'

-- Where the format is read: in plain text, behind a `$`, or behind a `$` and one digit.
pub data Scan : Type 0 where
  plain : Scan
  special : Scan
  number : ℕ → Scan

module _ (matched before after : Bytes) where
  -- Capture 0 is the match, and there is no other.
  capture : ℕ → Bytes
  capture n = if n == 0 then matched else []

  read_plain : ℕ → Bytes × Scan
  read_plain c = if c == dollar then ([], special) else (c ∷ [], plain)

  -- What one character of the format adds.
  read : Scan → ℕ → Bytes × Scan
  unfolding capture read_plain
  read plain c = read_plain c
  read special c =
      if c == dollar
      then (dollar ∷ [], plain)
      else if c == b'&'
      then (matched, plain)
      else if c == b'`'
      then (before, plain)
      else if c == b'\''
      then (after, plain)
      else if is_digit c
      then ([], number (c - b'0'))
      else (dollar ∷ c ∷ [], plain)
  read (number n) c =
      if is_digit c
      then (capture (n * 10 + (c - b'0')), plain)
      else let (out, next) = read_plain c in (capture n ++ out, next)

  read_end : Scan → Bytes
  unfolding capture
  read_end plain = []
  read_end special = dollar ∷ []
  read_end (number n) = capture n

  expand : Scan → Bytes → Bytes
  unfolding read read_end
  expand scan [] = read_end scan
  expand scan (c ∷ format) = let (out, next) = read scan c in out ++ expand next format

  -- A format without `$` stands for itself.
  expand-plain : (format : Bytes) → Lacks dollar format → expand plain format ≡ format
  unfolding expand
  expand-plain [] h = refl
  expand-plain (c ∷ format) (h, hs) = ground (arith, expand-plain format hs)

-- `skip` characters of a match are left to pass over; `before` is what was passed since the match
-- before, and a match of the pattern, which is not empty, is looked for where no other is passed over.
replace_from : Bytes → Bytes → ℕ → Bytes → Bytes → Bytes
unfolding expand
replace_from pattern format skip before [] = []
replace_from pattern format (suc skip) before (c ∷ s) = replace_from pattern format skip before s
replace_from pattern format zero before (c ∷ s) = elim (starts_with pattern (c ∷ s)) [
  | true ↦
      expand pattern before (drop (length pattern) (c ∷ s)) plain format
      ++ replace_from pattern format (length pattern - 1) [] s
  | false ↦ c ∷ replace_from pattern format zero (before ++ c ∷ []) s
]

unfoldable pub regex_replace : Bytes → Bytes → Bytes → Bytes
unfolding replace_from
regex_replace s pattern format = replace_from pattern format 0 [] s

replace_runs :
    regex_replace (text "a%X%b%X%") (text "%X%") (text "[$&|$`|$$]") ≡ text "a[%X%|a|$]b[%X%|b|$]"
unfolding regex_replace
replace_runs = refl

-- What one character becomes where the pattern is one character.
abbrev pub replace_char : ℕ → Bytes → ℕ → Bytes
replace_char p format c = if p == c then format else c ∷ []

replace_from-flat_map :
    (p : ℕ) (format before s : Bytes)
    → Lacks dollar format
    → replace_from (p ∷ []) format 0 before s ≡ flat_map (replace_char p format) s
unfolding replace_from flat_map
replace_from-flat_map p format before [] h = refl
replace_from-flat_map p format before (c ∷ s) h = elim (Bool-cases (p == c)) [
  | inl e ↦
      rw
        (
          e,
          replace_from,
          expand-plain (p ∷ []) before s format h,
          replace_from-flat_map p format [] s h,
        )
        refl
  | inr e ↦ rw (e, replace_from, replace_from-flat_map p format (before ++ c ∷ []) s h) refl
]

pub regex_replace-flat_map :
    (s : Bytes) (p : ℕ) (format : Bytes)
    → Lacks dollar format
    → regex_replace s (p ∷ []) format ≡ flat_map (replace_char p format) s
unfolding regex_replace
regex_replace-flat_map s p format h = replace_from-flat_map p format [] s h
