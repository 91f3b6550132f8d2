-- ===== src/Text/Width.antt =====
-- How many characters the decimal print of a number has.
use libfabric_benchmark.Base.{
  ℕ, zero, suc, ◌+◌, ◌*◌, ◌/◌, ◌%◌, ◌≤◌, ◌<◌, [], ◌∷◌, ◌≡◌, ◌==◌, length, leb, ltb, inl, inr,
  Bool-cases, arith,
}
use libfabric_benchmark.Config.{Bytes}
use libfabric_benchmark.Text.{digits, format}

power_of_ten : ℕ → ℕ
power_of_ten zero = 1
power_of_ten (suc d) = 10 * power_of_ten d

power_of_ten_pos : (d : ℕ) → 1 ≤ power_of_ten d
unfolding power_of_ten
power_of_ten_pos zero = omega arith
power_of_ten_pos (suc d) = ground (arith, power_of_ten_pos d)

length-digits_upper :
    (d fuel n : ℕ) (out : Bytes)
    → n < fuel
    → n < 10 * power_of_ten d
    → length (digits fuel n out) ≤ suc d + length out
unfolding digits power_of_ten
length-digits_upper d zero n out h k = absurd (omega arith)
length-digits_upper zero (suc fuel) n out h k = ground arith
length-digits_upper (suc d) (suc fuel) n out h k = elim (Bool-cases (n / 10 == 0)) [
  | inl last ↦ rw last (omega arith)
  | inr more ↦ rw more (
      ground (
        arith,
        length-digits_upper d fuel (n / 10) ((b'0' + n % 10) ∷ out) (ground arith) (omega arith),
      ))
]

length-digits_lower :
    (d fuel n : ℕ) (out : Bytes)
    → n < fuel
    → power_of_ten d ≤ n
    → suc d + length out ≤ length (digits fuel n out)
unfolding digits power_of_ten
length-digits_lower d zero n out h k = absurd (omega arith)
length-digits_lower zero (suc fuel) n out h k = elim (Bool-cases (n / 10 == 0)) [
  | inl last ↦ rw last (omega arith)
  | inr more ↦ rw more (
      ground (
        arith,
        length-digits_lower 0 fuel (n / 10) ((b'0' + n % 10) ∷ out) (ground arith) (ground arith),
      ))
]
length-digits_lower (suc d) (suc fuel) n out h k = elim (Bool-cases (n / 10 == 0)) [
  | inl last ↦ absurd (ground (arith, power_of_ten_pos d, last, k))
  | inr more ↦ rw more (
      ground (
        arith,
        length-digits_lower d fuel (n / 10) ((b'0' + n % 10) ∷ out) (ground arith) (omega arith),
      ))
]

-- A print has at most five characters exactly below 100000.
pub length-format_five : (n : ℕ) → leb (length (format n)) 5 ≡ ltb n 100000
unfolding format power_of_ten
length-format_five n = elim (Bool-cases (ltb n 100000)) [
  | inl small ↦
      ground
        (arith, small, length-digits_upper 4 (suc n) n [] (omega arith) (ground (arith, small)))
  | inr large ↦
      ground
        (arith, large, length-digits_lower 5 (suc n) n [] (omega arith) (ground (arith, large)))
]
