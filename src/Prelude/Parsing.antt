-- ===== src/Prelude/Parsing.antt =====
-- What the program's parsers use of Rust's `str`: splitting, prefixes, letter case, integers.
use televault.Prelude.Int.{ℤ, pos, negsuc}
use televault.Prelude.{
  is_whitespace, is_ascii_digit, zero, ℕ, zero, suc, ◌+◌, ◌-◌, ◌*◌, ◌^◌, ◌≡◌, refl, Bool, true,
  false, ◌&&◌, ◌||◌, Option, none, some, List, [], ◌∷◌, ◌++◌, arith, ltb, leb, ◌==◌, if◌then◌else◌,
  Text, decimal, is_whitespace, is_ascii_digit,
}

abbrev push_first : ℕ → List Text → List Text
push_first c [] = (c ∷ []) ∷ []
push_first c (w ∷ ws) = (c ∷ w) ∷ ws

-- `str::split` at one character.
unfoldable pub split : ℕ → Text → List Text
split d [] = [] ∷ []
split d (c ∷ s) = let rest = split d s in if c == d then [] ∷ rest else push_first c rest

-- `str::contains` of one character.
unfoldable pub has_char : ℕ → Text → Bool
has_char d [] = false
has_char d (c ∷ s) = c == d || has_char d s

abbrev pub nonempty_only : List Text → List Text
nonempty_only [] = []
nonempty_only ([] ∷ ws) = nonempty_only ws
nonempty_only ((c ∷ w) ∷ ws) = (c ∷ w) ∷ nonempty_only ws

-- `str::split_whitespace`
split_blank : Text → List Text
split_blank [] = [] ∷ []
split_blank (c ∷ s) =
    let rest = split_blank s in if is_whitespace c then [] ∷ rest else push_first c rest

unfoldable pub split_whitespace : Text → List Text
unfolding split_blank
split_whitespace s = nonempty_only (split_blank s)

-- `str::strip_prefix`
unfoldable pub strip_prefix : Text → Text → Option Text
strip_prefix [] s = some s
strip_prefix (d ∷ p) [] = none
strip_prefix (d ∷ p) (c ∷ s) = let rest = strip_prefix p s in if c == d then rest else none

-- `str::to_lowercase`. Beyond ASCII the tables of Unicode are the parameter.
unfoldable pub to_lowercase : (ℕ → Text) → Text → Text
to_lowercase table [] = []
to_lowercase table (c ∷ s) =
    let rest = to_lowercase table s in
    if leb b'A' c && leb c b'Z'
    then (c + 32) ∷ rest
    else if ltb c 128
    then c ∷ rest
    else table c ++ rest

-- The value of decimal digits after those that have been read.
digits_go : ℕ → Text → Option ℕ
digits_go n [] = some n
digits_go n (c ∷ s) =
    let rest = digits_go (10 * n + (c - b'0')) s in if is_ascii_digit c then rest else none

-- At least one digit, and nothing else.
unfoldable pub digits : Text → Option ℕ
unfolding digits_go
digits [] = none
digits (c ∷ s) = digits_go 0 (c ∷ s)

abbrev pub after_plus : Text → Text
after_plus [] = []
after_plus (c ∷ s) = if c == b'+' then s else c ∷ s

abbrev pub at_most : ℕ → Option ℕ → Option ℕ
at_most bound none = none
at_most bound (some n) = if leb n bound then some n else none

-- `str::parse::<u32>`: the reason of a failure is not kept, since no caller looks at it.
unfoldable pub parse_u32 : Text → Option ℕ
parse_u32 s = at_most (2 ^ 32 - 1) (digits (after_plus s))

abbrev negated : Option ℕ → Option ℤ
negated none = none
negated (some zero) = some (pos 0)
negated (some (suc n)) = some (negsuc n)

abbrev nonnegative : Option ℕ → Option ℤ
nonnegative none = none
nonnegative (some n) = some (pos n)

abbrev starts_with : ℕ → Text → Bool
starts_with d [] = false
starts_with d (c ∷ s) = c == d

abbrev tail : Text → Text
tail [] = []
tail (c ∷ s) = s

-- `str::parse::<i64>`
unfoldable pub parse_i64 : Text → Option ℤ
parse_i64 s =
    if starts_with b'-' s
    then negated (at_most (2 ^ 63) (digits (tail s)))
    else nonnegative (at_most (2 ^ 63 - 1) (digits (after_plus s)))

-- `{:02}` of an unsigned integer.
abbrev pub two_digits : ℕ → Text
two_digits n = if ltb n 10 then b'0' ∷ decimal n else decimal n

-- The sets of small numbers: Rust's `BTreeSet<u32>`, in order.
unfoldable pub set_insert : ℕ → List ℕ → List ℕ
set_insert v [] = v ∷ []
set_insert v (w ∷ s) =
    let rest = set_insert v s in if ltb v w then v ∷ w ∷ s else if v == w then w ∷ s else w ∷ rest

unfoldable pub set_contains : ℕ → List ℕ → Bool
set_contains v [] = false
set_contains v (w ∷ s) = v == w || set_contains v s

pub set_contains-insert :
    (v x : ℕ) (s : List ℕ) → set_contains x (set_insert v s) ≡ (x == v || set_contains x s)
unfolding set_contains set_insert
set_contains-insert v x [] = ground arith
set_contains-insert v x (w ∷ s) = ground (arith, set_contains-insert v x s)

-- `str::eq_ignore_ascii_case`
abbrev ascii_lower : ℕ → ℕ
ascii_lower c = if leb b'A' c && leb c b'Z' then c + 32 else c

unfoldable pub eq_ignore_ascii_case : Text → Text → Bool
eq_ignore_ascii_case [] [] = true
eq_ignore_ascii_case [] (d ∷ t) = false
eq_ignore_ascii_case (c ∷ s) [] = false
eq_ignore_ascii_case (c ∷ s) (d ∷ t) = ascii_lower c == ascii_lower d && eq_ignore_ascii_case s t

pub eq_ignore_ascii_case_refl : (s : Text) → eq_ignore_ascii_case s s ≡ true
unfolding eq_ignore_ascii_case
eq_ignore_ascii_case_refl [] = refl
eq_ignore_ascii_case_refl (c ∷ s) = ground (arith, eq_ignore_ascii_case_refl s)

-- `{}` on a signed integer.
abbrev pub signed_decimal : ℤ → Text
signed_decimal (pos n) = decimal n
signed_decimal (negsuc n) = b'-' ∷ decimal (suc n)
