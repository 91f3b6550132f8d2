-- ===== src/Host.antt =====
-- CBM_Benchmark/host2ip.cpp: the address of a host as text. Nothing in the program calls it.
-- `gethostbyname` is the system's: its answer is the argument `host`. On Linux `initialise` and
-- `uninitialise` are empty.
use libfabric_benchmark.Base.{ℕ, List, [], ◌∷◌, ◌++◌, Option, none, some, if◌then◌else◌}
use libfabric_benchmark.Base.Int.{ℤ, pos, ◌==ℤ◌}
use libfabric_benchmark.Config.{Bytes, codes}
use libfabric_benchmark.Text.{format}

-- `struct in_addr`, its four bytes in the order of the network.
pub record Addr : Type 0 where
  pub a : ℕ
  pub b : ℕ
  pub c : ℕ
  pub d : ℕ

-- What `gethostbyname` answers: the addresses, or the value of `h_errno`.
pub data Host : Type 0 where
  found : Addr → List Addr → Host
  missing : ℤ → Host

-- The values of `h_errno` in netdb.h.
abbrev host_not_found : ℤ
host_not_found = pos 1

abbrev try_again : ℤ
try_again = pos 2

abbrev no_recovery : ℤ
no_recovery = pos 3

abbrev no_address : ℤ
no_address = pos 4

-- The message to `stderr`.
pub host_error : ℤ → Bytes
host_error e =
    if e ==ℤ host_not_found
    then codes "The host was not found.\n"
    else if e ==ℤ no_address
    then codes "The name is valid but it has no address.\n"
    else if e ==ℤ no_recovery
    then codes "A non-recoverable name server error occurred.\n"
    else if e ==ℤ try_again
    then codes "The name server is temporarily unavailable."
    else codes "unknown error"

-- `inet_ntoa`
pub inet_ntoa : Addr → Bytes
unfolding format
inet_ntoa x = format x.a ++ (b'.' ∷ (format x.b ++ (b'.' ∷ (format x.c ++ (b'.' ∷ format x.d)))))

-- `resolve`: the text or a null pointer, and what is written to `stderr`.
unfoldable pub resolve : Host → Option Bytes × List Bytes
unfolding host_error inet_ntoa
resolve (found first others) = (some (inet_ntoa first), [])
resolve (missing e) = (none, host_error e ∷ [])
