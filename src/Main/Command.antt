-- ===== src/Main/Command.antt =====
-- The command line of `main`.
use libfabric_benchmark.Base.{
  ℕ, ◌+◌, ◌^◌, [], ◌∷◌, ◌≡◌, Bool-cases, ltb, true, inl, inr, if◌then◌else◌, arith,
}
use libfabric_benchmark.Base.Int.{ℤ, pos, ◌+ℤ◌}
use libfabric_benchmark.Config.{Bytes, codes, Config}
use libfabric_benchmark.Text.{fits_int, format, format_int}
use libfabric_benchmark.Text.Number.{atoi-format}
use libfabric_benchmark.Text.Width.{length-format_five}
use libfabric_benchmark.Main.{
  Program, entry_node, processing_node, central_node, undefined, if_int, start_entry, dispatch,
}

pos_+ℤ : (a b : ℕ) → pos a +ℤ pos b ≡ pos (a + b)
unfolding ◌+ℤ◌
pos_+ℤ a b = ground arith

-- A sum with five digits is an `int`, and so are its terms.
sum_fits : (id start : ℕ) → ltb (id + start) 100000 ≡ true → ltb (id + start) (2 ^ 31) ≡ true
sum_fits id start h = ground arith

left_fits : (id start : ℕ) → ltb (id + start) 100000 ≡ true → ltb id (2 ^ 31) ≡ true
left_fits id start h = ground arith

right_fits : (id start : ℕ) → ltb (id + start) 100000 ≡ true → ltb start (2 ^ 31) ≡ true
right_fits id start h = ground arith

if_int-undefined : (v : ℤ) → if_int v undefined ≡ undefined
unfolding if_int
if_int-undefined v = elim (Bool-cases (fits_int v)) [ inl h ↦ rw h | inr h ↦ rw h ]

fits_in :
    (id start : ℕ)
    → ltb (id + start) 100000 ≡ true
    → (p : Program) → if_int (pos id) (if_int (pos start) (if_int (pos (id + start)) p)) ≡ p
unfolding if_int
fits_in id start small p =
    rw (left_fits id start small, right_fits id start small, sum_fits id start small)

start_entry-pos :
    (id start : ℕ)
    → start_entry (pos id) (pos start)
      ≡ (if ltb (id + start) 100000 then entry_node (pos id) (format (id + start)) else undefined)
unfolding start_entry format_int
start_entry-pos id start = elim (Bool-cases (ltb (id + start) 100000)) [
  | inl small ↦
      rw (pos_+ℤ id start, length-format_five (id + start), small)
        (fits_in id start small (entry_node (pos id) (format (id + start))))
  | inr large ↦ rw (
    pos_+ℤ id start,
    length-format_five (id + start),
    large,
    if_int-undefined (pos (id + start)),
    if_int-undefined (pos start),
    if_int-undefined (pos id),
  )
]

-- A printed number given as an argument is the node's id: the central and the processing node
-- start with it if it is an int, which it is below 2^31. The entry node starts with it exactly
-- when start_port + id is below 100000, and writes this sum as its own port; from there on the
-- program has no defined behaviour, since the port is longer than the text it is written over.
-- Here start_port is a printed number.
pub dispatch-format :
    (name : Bytes) (id start : ℕ) (c : Config)
    → c.start_port ≡ format start
    → (dispatch (name ∷ codes "en" ∷ format id ∷ []) c ≡ (
        if ltb (id + start) 100000 then entry_node (pos id) (format (id + start)) else undefined))
      × (dispatch (name ∷ codes "pn" ∷ format id ∷ []) c
          ≡ (if ltb id (2 ^ 31) then processing_node (pos id) else undefined))
      × (dispatch (name ∷ codes "cn" ∷ format id ∷ []) c
          ≡ (if ltb id (2 ^ 31) then central_node (pos id) else undefined))
unfolding dispatch
dispatch-format name id start c h = (
  rw (h, atoi-format id, atoi-format start) (start_entry-pos id start),
  rw (atoi-format id),
  rw (atoi-format id),
)
