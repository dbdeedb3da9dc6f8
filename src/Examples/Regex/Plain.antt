-- ===== src/Examples/Regex/Plain.antt =====
-- std::regex_replace with a format in which nothing is special.
use asyncgi.Common.{
  ℕ, zero, suc, ◌-◌, ◌≡◌, refl, ap, inl, inr, true, false, [], ◌∷◌, ◌++◌, arith, ◌==◌, Bool-cases,
  Bytes, length,
}
use asyncgi.Examples.Text.{starts_with, Lacks}
use asyncgi.Examples.Regex.{regex_replace, replace_from, expand-plain, dollar}

-- Each match of the pattern becomes the format as it stands.
unfoldable pub substitute : Bytes → Bytes → ℕ → Bytes → Bytes
substitute pattern format skip [] = []
substitute pattern format (suc skip) (c ∷ s) = substitute pattern format skip s
substitute pattern format zero (c ∷ s) = elim (starts_with pattern (c ∷ s)) [
  | true ↦ format ++ substitute pattern format (length pattern - 1) s
  | false ↦ c ∷ substitute pattern format zero s
]

replace_from-substitute :
    (pattern format : Bytes) (skip : ℕ) (before s : Bytes)
    → Lacks dollar format
    → replace_from pattern format skip before s ≡ substitute pattern format skip s
unfolding replace_from substitute
replace_from-substitute pattern format skip before [] h = refl
replace_from-substitute pattern format (suc skip) before (c ∷ s) h =
    replace_from-substitute pattern format skip before s h
replace_from-substitute pattern format zero before (c ∷ s) h =
    elim (Bool-cases (starts_with pattern (c ∷ s))) [
      | inl e ↦
          rw
            (
              e,
              replace_from,
              substitute,
              expand-plain pattern before _ format h,
              replace_from-substitute pattern format (length pattern - 1) [] s h,
            )
            refl
      | inr e ↦
          rw
            (
              e,
              replace_from,
              substitute,
              replace_from-substitute pattern format zero (before ++ c ∷ []) s h,
            )
            refl
    ]

pub regex_replace-substitute :
    (s pattern format : Bytes)
    → Lacks dollar format
    → regex_replace s pattern format ≡ substitute pattern format 0 s
unfolding regex_replace
regex_replace-substitute s pattern format h = replace_from-substitute pattern format 0 [] s h

-- A text without the pattern's first character stays.
pub substitute-Lacks :
    (p : ℕ) (pattern format s rest : Bytes)
    → Lacks p s
    → substitute (p ∷ pattern) format 0 (s ++ rest) ≡ s ++ substitute (p ∷ pattern) format 0 rest
unfolding substitute
substitute-Lacks p pattern format [] rest h = refl
substitute-Lacks p pattern format (c ∷ s) rest (h, hs) =
    let differs : (p == c) ≡ false = ground arith in
    rw (differs, substitute) (ap (λ t. c ∷ t) (substitute-Lacks p pattern format s rest hs))
