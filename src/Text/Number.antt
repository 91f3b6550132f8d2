-- ===== src/Text/Number.antt =====
-- Numbers are read back from their decimal prints.
use libfabric_benchmark.Base.{
  ℕ, zero, suc, ◌+◌, ◌/◌, ◌%◌, ◌^◌, ◌≤◌, ◌<◌, [], ◌∷◌, ◌≡◌, refl, inl, inr, some, arith, ◌==◌,
  Bool-cases,
}
use libfabric_benchmark.Base.Int.{pos}
use libfabric_benchmark.Config.{Bytes}
use libfabric_benchmark.Text.{digits_value, digits, signed, skip_space, format, stoi, atoi, ok}

digits_value-digits :
    (fuel n : ℕ) (out : Bytes) → n < fuel → digits_value 0 (digits fuel n out) ≡ digits_value n out
unfolding digits digits_value
digits_value-digits zero n out h = absurd (omega arith)
digits_value-digits (suc fuel) n out h = elim (Bool-cases (n / 10 == 0)) [
  | inl last ↦ rw last (ground arith)
  | inr more ↦
      rw more
        (ground (arith, digits_value-digits fuel (n / 10) ((b'0' + n % 10) ∷ out) (ground arith)))
]

-- The first character of a print is a digit.
digits_head :
    (fuel n : ℕ) (out : Bytes)
    → (c : ℕ) × (s : Bytes) × (digits (suc fuel) n out ≡ c ∷ s) × (b'0' ≤ c) × (c ≤ b'9')
unfolding digits
digits_head zero n out = (b'0' + n % 10, out, ground arith, omega arith, omega arith)
digits_head (suc fuel) n out = elim (Bool-cases (n / 10 == 0)) [
  | inl last ↦ rw last (b'0' + n % 10, out, refl, omega arith, omega arith)
  | inr more ↦ rw more (digits_head fuel (n / 10) ((b'0' + n % 10) ∷ out))
]

pub format_head : (n : ℕ) → (c : ℕ) × (s : Bytes) × (format n ≡ c ∷ s) × (b'0' ≤ c) × (c ≤ b'9')
unfolding format
format_head n = digits_head n n []

signed_digits :
    (t : Bytes) (c : ℕ) (s : Bytes)
    → t ≡ c ∷ s
    → b'0' ≤ c
    → c ≤ b'9'
    → signed (skip_space t) ≡ some (pos (digits_value 0 t))
unfolding signed skip_space
signed_digits t c s e lo hi = rw e (ground arith)

signed-format : (n : ℕ) → signed (skip_space (format n)) ≡ some (pos n)
signed-format n =
    let (c, s, e, lo, hi) = format_head n in
    rw (signed_digits (format n) c s e lo hi)
      (unfold format digits_value in rw (digits_value-digits (suc n) n [] (omega arith)))

pub stoi-format : (n : ℕ) → n < 2 ^ 31 → stoi (format n) ≡ ok (pos n)
unfolding stoi
stoi-format n h = rw (signed-format n, stoi) (ground arith)

pub atoi-format : (n : ℕ) → atoi (format n) ≡ pos n
unfolding atoi
atoi-format n = rw (signed-format n, atoi)
