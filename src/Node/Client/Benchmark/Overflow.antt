-- ===== src/Node/Client/Benchmark/Overflow.antt =====
-- The client's answer and the size of its control buffer.
use libfabric_benchmark.Base.{
  ℕ, ◌*◌, ◌^◌, ◌%◌, ◌≤◌, ◌<◌, List, Option, ◌≡◌, refl, Bool-cases, inl, inr, Bool, true, false, leb,
  arith,
}
use libfabric_benchmark.Base.Int.{ℤ, pos, ◌==ℤ◌}
use libfabric_benchmark.Config.{Config, bm_stop, bm_checkpoint, sizeof_int, sizeof_transfer}
use libfabric_benchmark.Clock.{Timespec, stop, get_delta}
use libfabric_benchmark.Fabric.{Fabric, Call, clock_gettime, Completion, first_int, cep}
use libfabric_benchmark.Machine.{Node, Outcome, done, fault, spin, and_then, note}
use libfabric_benchmark.Endpoint.{ctrl_recv, ctrl_send}
use libfabric_benchmark.Node.{row_bytes}
use libfabric_benchmark.Node.Client.Benchmark.{Tally, switch, send_rows, reply, on_command, stamp}

too_long : (p : ℕ) → 26 ≤ p → p < 2 ^ 31 → leb ((sizeof_transfer * p) % 2 ^ 64) 1024 ≡ false
too_long p h k = ground arith

abbrev is_done : {A : Type 0} → Outcome A → Bool
is_done (done a m) = true
is_done fault = false
is_done spin = false

and_then-is_done :
    {A B : Type 0} (r : Outcome A) (k : A → Node → Outcome B)
    → is_done r ≡ true
    → ((a : A) (m : Node) → (b : B) × (m' : Node) × (k a m ≡ done b m'))
    → (b : B) × (m' : Node) × (and_then r k ≡ done b m')
and_then-is_done (done a m) k h f = f a m
and_then-is_done fault k h f = absurd (ground (arith, h))
and_then-is_done spin k h f = absurd (ground (arith, h))

module _ (fabric : Fabric) (now : List Call → Option Timespec) (c : Config) where
  -- The node's answer to a command, with the time taken.
  abbrev timed : Tally → Node → Tally
  timed s n =
      let timer = (stop (now n.log) s.timer).1 in
      record s { timer = timer; transfer = stamp (get_delta timer) s.transfer }

  module _ (over : leb (row_bytes c) c.ctrl_size ≡ false) where
    send_rows-fault : (s : Tally) (n : Node) → n.config ≡ c → send_rows fabric now s n ≡ fault
    unfolding send_rows
    send_rows-fault s n e = rw (e, over)

    reply-fault :
        (command : ℤ) (s : Tally) (n : Node) → n.config ≡ c → reply fabric now command s n ≡ fault
    unfolding reply switch ctrl_recv
    reply-fault command s n e = elim (Bool-cases (command ==ℤ bm_stop)) [
      | inl is_stop ↦ rw is_stop (send_rows-fault _ n e)
      | inr not_stop ↦ rw not_stop (elim (Bool-cases (command ==ℤ bm_checkpoint)) [
        | inl is_check ↦ rw is_check (send_rows-fault _ _ e)
        | inr unknown ↦ rw unknown (send_rows-fault s n e)
      ])
    ]

    -- A row that does not fit the control buffer makes every answer go wrong.
    pub on_command-over :
        (e : Completion) (s : Tally) (n : Node)
        → n.config ≡ c
        → e.len ≡ sizeof_int
        → on_command fabric now e s n ≡ fault
    unfolding on_command
    on_command-over e s n same size = rw (
      size,
      reply-fault (first_int (n.endpoint cep).ctrl_buff) (timed s n) (note clock_gettime n) same,
      and_then,
    )

  module _ (fits : leb (row_bytes c) c.ctrl_size ≡ true) where
    send_rows-fits :
        (s : Tally) (n : Node) → n.config ≡ c → is_done (send_rows fabric now s n) ≡ true
    unfolding send_rows ctrl_send
    send_rows-fits s n e = rw (e, fits)

    reply-fits :
        (command : ℤ) (s : Tally) (n : Node)
        → n.config ≡ c
        → is_done (reply fabric now command s n) ≡ true
    unfolding reply switch ctrl_recv
    reply-fits command s n e = elim (Bool-cases (command ==ℤ bm_stop)) [
      | inl is_stop ↦ rw is_stop (send_rows-fits _ n e)
      | inr not_stop ↦ rw not_stop (elim (Bool-cases (command ==ℤ bm_checkpoint)) [
        | inl is_check ↦ rw is_check (send_rows-fits _ _ e)
        | inr unknown ↦ rw unknown (send_rows-fits s n e)
      ])
    ]

    pub on_command-fits :
        (e : Completion) (s : Tally) (n : Node)
        → n.config ≡ c
        → e.len ≡ sizeof_int
        → (r : ℤ × Bool × Tally) × (m : Node) × (on_command fabric now e s n ≡ done r m)
    unfolding on_command
    on_command-fits e s n same size = rw size (
        and_then-is_done
          (reply fabric now (first_int (n.endpoint cep).ctrl_buff) (timed s n)
            (note clock_gettime n))
          _
          (reply-fits (first_int (n.endpoint cep).ctrl_buff) (timed s n) (note clock_gettime n)
            same)
          (λ a m. (_, m, refl)))

-- With the default control buffer of 1024 bytes and more than 25 servers, fewer than 2^31, a
-- client goes wrong at a command of 4 bytes that it receives, whatever the command: its row of
-- transfers is copied behind the end of the buffer.
pub on_command-fault :
    (fabric : Fabric) (now : List Call → Option Timespec) (p : ℕ) (e : Completion) (s : Tally)
    (n : Node)
    → 26 ≤ p
    → p < 2 ^ 31
    → n.config.num_pn ≡ pos p
    → n.config.ctrl_size ≡ 1024
    → e.len ≡ sizeof_int
    → on_command fabric now e s n ≡ fault
on_command-fault fabric now p e s n h k servers buffer size =
    on_command-over fabric now n.config (rw (servers, buffer) (too_long p h k)) e s n refl size
