-- ===== src/Main.antt =====
-- CBM_Benchmark/Main.cpp: the three programs, the controller's timed loop with its report, and the
-- command line. The output file opens at once; `gigabit` and `throughput` are left out: they are
-- quotients of the numbers of a line.
pub mod Report
pub mod Timing
pub mod Campaign
pub mod Sessions
pub mod Command
pub mod Warning
pub mod Answers
pub mod Completing
mod Written
use libfabric_benchmark.Base.{
  ℕ, zero, suc, ◌+◌, ◌*◌, ◌/◌, ◌%◌, ◌^◌, ◌-◌, List, [], ◌∷◌, ◌++◌, Option, none, some, Bool, true,
  false, ltb, leb, ◌==◌, ◌&&◌, if◌then◌else◌, get_elem?, length,
}
use libfabric_benchmark.Base.Int.{ℤ, pos, negsuc, to_size_t, ◌+ℤ◌, leb_ℤ, ltb_ℤ, is_nonzero}
use libfabric_benchmark.Config.{Bytes, codes, Config, Transfer, bm_server, bm_client, bm_controller}
use libfabric_benchmark.Clock.{Timespec, nanos, billion}
use libfabric_benchmark.Text.{text_eq, atoi, fits_int, format_int}
use libfabric_benchmark.Fabric.{Fabric, Ref, Call}
use libfabric_benchmark.Machine.{
  Node, Outcome, done, fault, spin, Run, pure, abort, and_then, ◌>>=◌, ◌>>◌, or_return, get,
}
use libfabric_benchmark.Endpoint.{Raw}
use libfabric_benchmark.Node.{rounds, row_bytes}
use libfabric_benchmark.Node.Init.{init}
use libfabric_benchmark.Node.Listen.{listen_controller, listen_server}
use libfabric_benchmark.Node.Client.{connect_to_controller, connect_to_servers, set_data_buffers}
use libfabric_benchmark.Node.Client.Benchmark.{benchmark}
use libfabric_benchmark.Node.Controller.{
  controller_start, controller_connect, controller_checkpoint, controller_stop,
}

-- One line of the output.
pub record Line : Type 0 where
  pub from : ℤ
  pub to : ℤ
  pub n : ℤ
  pub m : ℤ
  pub delta_sec : ℤ
  pub time_sec : ℤ
  pub completions : ℤ
  pub msg_size : ℕ
  pub byte : ℤ

-- A `size_t` as a `long`.
abbrev pub to_long : ℕ → ℤ
to_long k = let w = k % 2 ^ 64 in if ltb w (2 ^ 63) then pos w else negsuc (2 ^ 64 - w - 1)

abbrev pub line_of : Config → Transfer → Line
line_of c t = record {
  from = t.from;
  to = t.to;
  n = c.num_en;
  m = c.num_pn;
  delta_sec = t.delta_sec;
  time_sec = t.time_sec;
  completions = t.completions;
  msg_size = c.msg_size;
  byte = to_long (to_size_t t.completions * c.msg_size);
}

-- The inner loop: `table[at]`, `table[at + 1]`, …: none behind the table.
unfoldable pub row_lines : Config → List Transfer → ℕ → ℕ → Option (List Line)
row_lines c table at zero = some []
row_lines c table at (suc left) = elim (get_elem? table at) [
  | none ↦ none
  | some t ↦ elim (row_lines c table (suc at) left) [
    | none ↦ none
    | some ls ↦ some (line_of c t ∷ ls)
  ]
]

-- The outer loop: `table[i * m + j]` for each i and j.
unfoldable pub table_lines : Config → List Transfer → ℕ → ℕ → Option (List Line)
unfolding row_lines
table_lines c table i zero = some []
table_lines c table i (suc left) =
    let m = rounds c.num_pn in
    elim (row_lines c table (i * m) m) [
      | none ↦ none
      | some row ↦ elim (table_lines c table (suc i) left) [
        | none ↦ none
        | some ls ↦ some (row ++ ls)
      ]
    ]

-- The report of a table.
unfoldable pub report : List Transfer → Config → Option (List Line)
unfolding table_lines
report table c = table_lines c table 0 (rounds c.num_en)

-- `(int) elapsed_seconds.count()`, of a number of nanoseconds: towards 0.
abbrev pub whole_seconds : ℤ → ℤ
whole_seconds (pos k) = pos (k / billion)
whole_seconds (negsuc k) = elim (suc k / billion) [ zero ↦ pos 0 | suc j ↦ negsuc j ]

-- What the timed loop carries: the first unused reading of the clock, the last one, `check`, and the
-- reports written.
pub record Schedule : Type 0 where
  pub readings : ℕ
  pub elapsed : ℤ
  pub check : ℤ
  pub reports : List (List Line)

module _ (fabric : Fabric) (fuel : ℕ) (clock : ℕ → ℤ) where
  -- A checkpoint is due: it is taken, its report written, and the next one set.
  unfoldable pub take_checkpoint : Schedule → Run (ℤ × Schedule)
  unfolding controller_checkpoint report
  take_checkpoint s = controller_checkpoint fabric fuel >>= λ ret.
      if is_nonzero ret
      then pure (ret, s)
      else (get >>= λ n. elim (report n.checkpoint n.config) [
        | none ↦ abort
        | some ls ↦ pure (
          pos 0,
          record s { check = s.check +ℤ n.config.checkpoint_intervall; reports = ls ∷ s.reports },
        )
      ])

  -- One turn after the loop's test: the clock is read, and a checkpoint taken if one is due.
  unfoldable pub tick : Schedule → Run (ℤ × Schedule)
  unfolding take_checkpoint
  tick s =
      let t = record s { readings = suc s.readings; elapsed = clock s.readings } in
      if leb_ℤ s.check (whole_seconds (clock s.readings))
      then take_checkpoint t
      else pure (pos 0, t)

  -- `while (elapsed_seconds.count() < config->max_duration)`
  unfoldable pub timed_loop : ℕ → Schedule → Run (ℤ × Schedule)
  unfolding tick
  timed_loop zero s = λ n. spin
  timed_loop (suc turns) s = get >>= λ n.
      if ltb_ℤ s.elapsed (nanos n.config.max_duration)
      then (tick s >>= λ p. if is_nonzero p.0 then pure p else timed_loop turns p.1)
      else pure (pos 0, s)

  -- `if (ret) return ret;`, with the reports written so far.
  abbrev on_success : ℤ → List (List Line) → Run (ℤ × List (List Line)) → Run (ℤ × List (List Line))
  on_success ret reports rest = if is_nonzero ret then pure (ret, reports) else rest

  abbrev pub count_endpoints : Run (Unit {0})
  count_endpoints n =
      done tt
        (record n { config = record (n.config) { num_ep = n.config.num_pn +ℤ n.config.num_en } })

  abbrev first_schedule : ℤ → Config → Schedule
  first_schedule unset c = record {
    readings = 0;
    elapsed = unset;
    check = c.checkpoint_intervall;
    reports = [];
  }

  -- The last report, that of `summary`.
  abbrev final_report : List (List Line) → Run (ℤ × List (List Line))
  final_report reports = get >>= λ n. elim (report n.summary n.config) [
    | none ↦ abort
    | some ls ↦ pure (pos 0, ls ∷ reports)
  ]

  -- `controller`. The code leaves `elapsed_seconds` unset: `unset` is what it starts with.
  unfoldable pub controller :
      (Ref → Raw) → List Transfer → List Transfer → ℕ → ℤ → Run (ℤ × List (List Line))
  unfolding init listen_controller controller_connect controller_start timed_loop controller_stop
      report
  controller raw summary checkpoint turns unset =
      count_endpoints >> init raw fabric bm_controller summary checkpoint >>= λ a. on_success a [] (
        listen_controller fabric fuel turns >>= λ b. on_success b [] (
          controller_connect fabric fuel >>= λ c. on_success c [] (
            controller_start fabric fuel >>= λ d. on_success d [] (
              get >>= λ n. timed_loop turns (first_schedule unset n.config) >>= λ e.
              on_success e.0 e.1.reports (
                controller_stop fabric fuel turns >>= λ f.
                on_success f e.1.reports (final_report e.1.reports))))))

module _ (fabric : Fabric) (fuel : ℕ) where
  -- `server`
  unfoldable pub server : (Ref → Raw) → List Transfer → List Transfer → ℕ → Run ℤ
  unfolding init listen_server
  server raw summary checkpoint turns = init raw fabric bm_server summary checkpoint >>= λ a.
      or_return a (listen_server fabric fuel turns >>= λ b. or_return b (pure (pos 0)))

  -- `client`
  unfoldable pub client :
      (Ref → Raw)
      → List Transfer
      → List Transfer
      → (List Call → Option Timespec)
      → ℤ
      → ℤ
      → ℕ
      → Run ℤ
  unfolding init set_data_buffers connect_to_controller connect_to_servers benchmark
  client raw summary checkpoint now unset_ret unset turns =
      init raw fabric bm_client summary checkpoint >>= λ a. or_return a (
        set_data_buffers unset_ret >>= λ b. or_return b (
          connect_to_controller fabric fuel >>= λ c. or_return c (
            connect_to_servers fabric fuel >>= λ d.
            or_return d (benchmark fabric now unset turns >>= λ e. or_return e (pure (pos 0))))))

-- What `main` starts, from its arguments.
pub data Program : Type 0 where
  entry_node : ℤ → Bytes → Program
  processing_node : ℤ → Program
  central_node : ℤ → Program
  usage : Program
  undefined : Program

-- The number of an argument, if it is an `int`: else `atoi` has no defined result.
if_int : ℤ → Program → Program
if_int v p = if fits_int v then p else undefined

-- The entry node. Its own port is written over `strdup("10000")`, which has room for five characters
-- and the closing zero.
start_entry : ℤ → ℤ → Program
unfolding if_int
start_entry id int_port =
    let port = format_int (id +ℤ int_port) in
    if_int id (
      if_int int_port
        (if_int (id +ℤ int_port) (if leb (length port) 5 then entry_node id port else undefined)))

-- The switch of `main`: an unknown node type falls through to the usage message. `undefined` is a
-- program without a defined behaviour.
unfoldable pub dispatch : List Bytes → Config → Program
unfolding start_entry
dispatch (name ∷ mode ∷ arg ∷ []) c =
    if text_eq (codes "en") mode
    then start_entry (atoi arg) (atoi c.start_port)
    else if text_eq (codes "pn") mode
    then if_int (atoi arg) (processing_node (atoi arg))
    else if text_eq (codes "cn") mode
    then if_int (atoi arg) (central_node (atoi arg))
    else usage
dispatch _ c = usage

-- How `main` goes on after the first look at the network.
pub data Start : Type 0 where
  no_network : ℤ → Start
  starts : Program → Start

-- `config->ctrl_size < sizeof(struct transfer)*config->num_pn`: a warning, and nothing else.
abbrev pub warns : Config → Bool
warns c = ltb c.ctrl_size (row_bytes c)

-- `main`, up to the start of a program: whether it has warned, and how it goes on. `hinted` and
-- `unhinted` are the results of `fi_getinfo` with the program's hints and without.
unfoldable pub main : ℤ → ℤ → List Bytes → Config → Bool × Start
unfolding dispatch
main hinted unhinted argv c = (
  warns c,
  if is_nonzero hinted && is_nonzero unhinted
      then no_network unhinted
      else starts (dispatch argv c),
)

-- `while (fi->next)`: the names of the providers that are printed, all but the last.
unfoldable pub printed_providers : Bytes → List Bytes → List Bytes
printed_providers name [] = []
printed_providers name (other ∷ more) = name ∷ printed_providers other more
