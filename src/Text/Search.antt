-- ===== src/Text/Search.antt =====
-- Where `find` finds something in texts built from parts.
use libfabric_benchmark.Base.{
  ℕ, zero, suc, ◌+◌, ◌/◌, ◌%◌, ◌<◌, [], ◌∷◌, ◌++◌, ◌≡◌, ◌≢◌, refl, ◌⊎◌, inl, inr, true, false, some,
  none, arith, ◌==◌, Bool-cases,
}
use libfabric_benchmark.Config.{Bytes}
use libfabric_benchmark.Text.{has_comment, split_eq, digits, format}

-- No character of a text is `b`.
abbrev pub Lacks : ℕ → Bytes → Type 0
Lacks b [] = Unit {0}
Lacks b (c ∷ s) = (c ≢ b) × Lacks b s

pub Lacks-append : (b : ℕ) (s t : Bytes) → Lacks b s → Lacks b t → Lacks b (s ++ t)
Lacks-append b [] t h k = k
Lacks-append b (c ∷ s) t h k = (h.0, Lacks-append b s t h.1 k)

pub has_comment-Lacks : (s : Bytes) → Lacks b'/' s → has_comment s ≡ false
unfolding has_comment
has_comment-Lacks [] h = refl
has_comment-Lacks (c ∷ []) h = refl
has_comment-Lacks (c ∷ d ∷ s) h = ground (arith, has_comment-Lacks (d ∷ s) h.1)

-- A comment mark anywhere is found.
pub has_comment-mark : (s t : Bytes) → has_comment (s ++ b'/' ∷ b'/' ∷ t) ≡ true
unfolding has_comment
has_comment-mark [] t = refl
has_comment-mark (c ∷ []) t = ground (arith, has_comment-mark [] t)
has_comment-mark (c ∷ d ∷ s) t = ground (arith, has_comment-mark (d ∷ s) t)

-- The first `=` splits a text.
pub split_eq-append :
    (key value : Bytes) → Lacks b'=' key → split_eq (key ++ b'=' ∷ value) ≡ some (key, value)
unfolding split_eq
split_eq-append [] value h = refl
split_eq-append (c ∷ key) value h = ground (arith, split_eq-append key value h.1)

pub split_eq-Lacks : (s : Bytes) → Lacks b'=' s → split_eq s ≡ none
unfolding split_eq
split_eq-Lacks [] h = refl
split_eq-Lacks (c ∷ s) h = ground (arith, split_eq-Lacks s h.1)

digits-Lacks :
    (b fuel n : ℕ) (out : Bytes)
    → (b < b'0') ⊎ (b'9' < b)
    → Lacks b out
    → Lacks b (digits fuel n out)
unfolding digits
digits-Lacks b zero n out far h = h
digits-Lacks b (suc fuel) n out far h = elim (Bool-cases (n / 10 == 0)) [
  | inl last ↦ rw last (omega arith, h)
  | inr more ↦ rw more (digits-Lacks b fuel (n / 10) ((b'0' + n % 10) ∷ out) far (omega arith, h))
]

-- A print of a number holds digits only.
pub format-Lacks : (b n : ℕ) → (b < b'0') ⊎ (b'9' < b) → Lacks b (format n)
unfolding format
format-Lacks b n far = digits-Lacks b (suc n) n [] far tt
