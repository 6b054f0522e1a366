-- ===== src/Picod/Modes.antt =====
-- `parseFileMode` of pkg/picod/files.go, on the bytes of the text. `strconv.ParseUint` reads base 8
-- and 32 bits: at least one digit, and nothing but digits.
use agentcube.Prelude.{
  ℕ, ◌+◌, ◌*◌, ◌-◌, ◌≤◌, ◌<◌, ◌≡◌, Bool, ◌&&◌, Option, none, some, Option-cases, List, [], ◌∷◌,
  arith, ltb, leb, if◌then◌else◌, inl, inr,
}

abbrev pub default_file_mode : ℕ
default_file_mode = 420

abbrev pub max_file_mode : ℕ
max_file_mode = 511

abbrev pub max_uint32 : ℕ
max_uint32 = 4_294_967_295

abbrev is_octal_digit : ℕ → Bool
is_octal_digit c = leb 48 c && ltb c 56

-- The loop over the digits, with the value read so far.
unfoldable pub parse_octal_digits : ℕ → List ℕ → Option ℕ
parse_octal_digits n [] = some n
parse_octal_digits n (c ∷ cs) =
    let n' = n * 8 + (c - 48) in
    let rest = parse_octal_digits n' cs in
    if is_octal_digit c && leb n' max_uint32 then rest else none

unfoldable pub parse_octal : List ℕ → Option ℕ
parse_octal [] = none
parse_octal (c ∷ cs) = parse_octal_digits 0 (c ∷ cs)

unfoldable pub parse_file_mode : List ℕ → ℕ
parse_file_mode [] = default_file_mode
parse_file_mode (c ∷ cs) = elim (parse_octal (c ∷ cs)) [
  | none ↦ default_file_mode
  | some mode ↦ if ltb max_file_mode mode then default_file_mode else mode
]

-- A mode never has a bit beyond the nine permission bits: no set-uid, set-gid or sticky bit.
pub parse_file_mode-bound : (text : List ℕ) → parse_file_mode text ≤ 511
unfolding parse_file_mode
parse_file_mode-bound [] = omega arith
parse_file_mode-bound (c ∷ cs) = elim (Option-cases (parse_octal (c ∷ cs))) [
  | inl e ↦ ground arith
  | inr (mode, e) ↦ ground arith
]

-- The text of a mode in three octal digits.
abbrev pub print_file_mode : ℕ → ℕ → ℕ → List ℕ
print_file_mode u g o = (u + 48) ∷ (g + 48) ∷ (o + 48) ∷ []

-- Three octal digits are read as the permissions of user, group and others.
pub parse-print_file_mode :
    (u g o : ℕ)
    → u < 8
    → g < 8
    → o < 8
    → parse_file_mode (print_file_mode u g o) ≡ u * 64 + g * 8 + o
unfolding parse_file_mode parse_octal parse_octal_digits
parse-print_file_mode u g o hu hg ho = ground arith
