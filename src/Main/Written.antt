-- ===== src/Main/Written.antt =====
-- That a table of transfers has a report.
use libfabric_benchmark.Base.{
  [], ℕ, zero, suc, ◌+◌, ◌*◌, ◌<◌, ◌≤◌, List, ◌∷◌, ◌++◌, Option, some, ◌≡◌, refl, length,
  get_elem?-total, arith,
}
use libfabric_benchmark.Config.{Config, Transfer}
use native.Mathlib.Nat.{mul-le-mul_right}
use libfabric_benchmark.Node.{rounds}
use libfabric_benchmark.Main.{Line, line_of, row_lines, table_lines, report}

-- A table with a place for each client and server has a report.
module _ (c : Config) (table : List Transfer) where
  abbrev Written : Option (List Line) → Type 0
  Written o = (ls : List Line) × (o ≡ some ls)

  row_lines-Written : (at left : ℕ) → at + left ≤ length table → Written (row_lines c table at left)
  unfolding row_lines
  row_lines-Written at zero h = ([], refl)
  row_lines-Written at (suc left) h =
      let (t, e) = get_elem?-total table at (omega arith) in
      let (ls, f) = row_lines-Written (suc at) left (omega arith) in
      (line_of c t ∷ ls, rw (e, row_lines, f) refl)

  row_inside : (i num m : ℕ) → i < num → num * m ≤ length table → i * m + m ≤ length table
  row_inside i num m lt room = ground (arith, mul-le-mul_right m lt)

  table_lines-Written :
      (num i left : ℕ)
      → i + left ≡ num
      → num * rounds c.num_pn ≤ length table
      → Written (table_lines c table i left)
  unfolding table_lines
  table_lines-Written num i zero e room = ([], refl)
  table_lines-Written num i (suc left) e room =
      let m = rounds c.num_pn in
      let (row, f) = row_lines-Written (i * m) m (row_inside i num m (omega arith) room) in
      let (ls, g) = table_lines-Written num (suc i) left (omega arith) room in
      (row ++ ls, rw (f, table_lines, g) refl)

pub report-Written :
    (c : Config) (table : List Transfer)
    → rounds c.num_en * rounds c.num_pn ≤ length table
    → Written c table (report table c)
unfolding report
report-Written c table room =
    table_lines-Written c table (rounds c.num_en) 0 (rounds c.num_en) (omega arith) room
