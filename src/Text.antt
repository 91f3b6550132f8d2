-- ===== src/Text.antt =====
-- The parts of the C++ library's text functions that CBM_Benchmark/Config.cpp, CBM_Benchmark/Node.cpp
-- and CBM_Benchmark/Main.cpp use: `find`, `substr`, `compare`, `getline`, `stoi`, `atoi`, and `sprintf`
-- with "%d". Texts are lists of character codes.
pub mod Number
pub mod Width
pub mod Search
pub mod Lines
use libfabric_benchmark.Base.{
  ℕ, zero, suc, ◌+◌, ◌-◌, ◌*◌, ◌/◌, ◌%◌, ◌^◌, List, [], ◌∷◌, ◌++◌, Option, none, some, Bool, true,
  false, ◌&&◌, ◌||◌, leb, ltb, ◌==◌, if◌then◌else◌,
}
use libfabric_benchmark.Base.Int.{ℤ, pos, negsuc}
use libfabric_benchmark.Config.{Bytes}

-- `a.compare(b) == 0`
abbrev pub text_eq : Bytes → Bytes → Bool
text_eq [] [] = true
text_eq [] (d ∷ t) = false
text_eq (c ∷ s) [] = false
text_eq (c ∷ s) (d ∷ t) = c == d && text_eq s t

-- `line.find("//") != npos`
unfoldable pub has_comment : Bytes → Bool
has_comment [] = false
has_comment (c ∷ []) = false
has_comment (c ∷ d ∷ s) = (c == b'/' && d == b'/') || has_comment (d ∷ s)

-- `line.find("=")` with `substr(0, p)` and `substr(p + 1)`.
unfoldable pub split_eq : Bytes → Option (Bytes × Bytes)
split_eq [] = none
split_eq (c ∷ s) =
    let rest = split_eq s in
    if c == b'=' then some ([], s) else elim rest [ none ↦ none | some p ↦ some (c ∷ p.0, p.1) ]

-- What `while (getline(file, line))` yields: the text between newlines, the last part only if it is
-- not empty.
lines_from : Bytes → Bytes → List Bytes
lines_from line [] = elim line [ [] ↦ [] | d ∷ t ↦ (d ∷ t) ∷ [] ]
lines_from line (c ∷ s) =
    let next = line ∷ lines_from [] s in
    let more = lines_from (line ++ c ∷ []) s in if c == b'\n' then next else more

unfoldable pub get_lines : Bytes → List Bytes
unfolding lines_from
get_lines = lines_from []

is_space : ℕ → Bool
is_space c = c == 32 || (leb 9 c && leb c 13)

is_digit : ℕ → Bool
is_digit c = leb b'0' c && leb c b'9'

skip_space : Bytes → Bytes
unfolding is_space
skip_space [] = []
skip_space (c ∷ s) = if is_space c then skip_space s else c ∷ s

-- The number that a run of digits spells behind `n`; the run ends at the first other character.
digits_value : ℕ → Bytes → ℕ
unfolding is_digit
digits_value n [] = n
digits_value n (c ∷ s) =
    let more = digits_value (n * 10 + (c - b'0')) s in if is_digit c then more else n

-- A number without its sign: at least one digit.
unsigned : Bytes → Option ℕ
unfolding digits_value
unsigned [] = none
unsigned (c ∷ s) = if is_digit c then some (digits_value 0 (c ∷ s)) else none

abbrev negated : ℕ → ℤ
negated zero = pos zero
negated (suc n) = negsuc n

signed : Bytes → Option ℤ
unfolding unsigned
signed [] = none
signed (c ∷ s) =
    if c == b'-'
    then elim (unsigned s) [ none ↦ none | some n ↦ some (negated n) ]
    else elim (unsigned (if c == b'+' then s else c ∷ s)) [ none ↦ none | some n ↦ some (pos n) ]

-- The number at the front of a text, without a bound.
abbrev leading_int : Bytes → Option ℤ
leading_int s = signed (skip_space s)

-- `stoi` throws `invalid_argument` or `out_of_range`.
pub data Error : Type 0 where
  invalid_argument out_of_range : Error

pub data Result {ℓ} (A : Type ℓ) : Type ℓ where
  ok : A → Result A
  err : Error → Result A

infixl 5 ◌>>=◌
abbrev pub ◌>>=◌ {ℓ κ} : {A : Type ℓ} {B : Type κ} → Result A → (A → Result B) → Result B
ok a >>= f = f a
err e >>= f = err e

abbrev pub fits_int : ℤ → Bool
fits_int (pos n) = ltb n (2 ^ 31)
fits_int (negsuc n) = ltb n (2 ^ 31)

unfoldable pub stoi : Bytes → Result ℤ
unfolding signed skip_space
stoi s = elim (leading_int s) [
  | none ↦ err invalid_argument
  | some v ↦ if fits_int v then ok v else err out_of_range
]

-- `atoi`: 0 where there is no number. Out of range it has no defined result; here, the exact number.
unfoldable pub atoi : Bytes → ℤ
unfolding signed skip_space
atoi s = elim (leading_int s) [ none ↦ pos 0 | some v ↦ v ]

-- The digits of `n` in front of `out`. `fuel` above `n` is enough.
digits : ℕ → ℕ → Bytes → Bytes
digits zero n out = out
digits (suc fuel) n out =
    let front = (b'0' + n % 10) ∷ out in
    let rest = digits fuel (n / 10) front in if n / 10 == 0 then front else rest

unfoldable pub format : ℕ → Bytes
unfolding digits
format n = digits (suc n) n []

-- `sprintf(…, "%d", v)` without the closing zero byte.
unfoldable pub format_int : ℤ → Bytes
unfolding format
format_int (pos n) = format n
format_int (negsuc n) = b'-' ∷ format (suc n)
