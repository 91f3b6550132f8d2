-- ===== src/Tests/Settings.antt =====
-- Configuration files and the clock.
use libfabric_benchmark.Base.{[], ◌∷◌, ◌++◌, none, some, ◌≡◌, refl, inl, arith}
use libfabric_benchmark.Base.Int.{pos, ◌+ℤ◌, ◌-ℤ◌}
use libfabric_benchmark.Config.{Bytes, codes}
use libfabric_benchmark.Host.{resolve, found, missing}
use libfabric_benchmark.Config.Read.{read_lines, read_servers, read_config}
use libfabric_benchmark.Config.Lines.{read_lines-idle, uncommented, addr_v-read_config}
use libfabric_benchmark.Config.RoundTrip.{Settings, IsValid, print, apply, read_config-print}
use libfabric_benchmark.Text.{ok, has_comment, get_lines}
use libfabric_benchmark.Text.Lines.{unlines}
use libfabric_benchmark.Clock.{Timespec, new_clock, start, stop, get_delta}
use libfabric_benchmark.Clock.{get_delta-stop-start}
use libfabric_benchmark.Tests.Network.{two_clients}

abbrev shown : Settings
shown = record {
  start_port = codes "10000";
  controller_port = codes "30000";
  server_offset = 10000;
  controller_addr = codes "192.168.1.1";
  msg_size = 1048576;
  num_en = 2;
  num_pn = 3;
  max_duration = 60;
  checkpoint_intervall = 10;
}

shown-IsValid : IsValid shown
shown-IsValid = record {
  start_port = (omega arith, omega arith);
  controller_port = (omega arith, omega arith);
  server_offset = omega arith;
  controller_addr = (omega arith, omega arith);
  msg_size = omega arith;
  num_en = omega arith;
  num_pn = omega arith;
  max_duration = omega arith;
  checkpoint_intervall = omega arith;
}

read_config-print_example :
    read_config (some (unlines (print shown))) none two_clients ≡ ok (apply shown two_clients)
read_config-print_example = read_config-print shown two_clients shown-IsValid

abbrev clients : Bytes
clients = codes "num_en=4"

abbrev remark : Bytes
remark = codes "// num_en=5"

read_lines-idle_example :
    read_lines (clients ∷ remark ∷ clients ∷ []) two_clients
    ≡ read_lines (clients ∷ clients ∷ []) two_clients
unfolding has_comment
read_lines-idle_example =
    read_lines-idle (clients ∷ []) remark (clients ∷ []) two_clients (inl refl)

abbrev hosts : Bytes
hosts = codes "host1\n// host2\nhost3"

addr_v-read_config_example :
    (codes "host1" ∷ codes "host3" ∷ []) ≡ two_clients.addr_v ++ uncommented (get_lines hosts)
unfolding read_config read_servers get_lines has_comment
addr_v-read_config_example =
    addr_v-read_config none hosts two_clients
      (record two_clients { addr_v = codes "host1" ∷ codes "host3" ∷ [] }) refl

abbrev early : Timespec
early = record { tv_sec = pos 5; tv_nsec = pos 900000000 }

abbrev late : Timespec
late = record { tv_sec = pos 7; tv_nsec = pos 100000000 }

get_delta-stop-start_example :
    get_delta (stop (some late) (start (some early) new_clock).1).1 ≡ pos 1200000000
unfolding ◌+ℤ◌ ◌-ℤ◌
get_delta-stop-start_example = get_delta-stop-start early late new_clock

local_host :
    resolve (found (record { a = 127; b = 0; c = 0; d = 1 }) []) ≡ (some (codes "127.0.0.1"), [])
unfolding resolve
local_host = refl

unknown_name : resolve (missing (pos 1)) ≡ (none, codes "The host was not found.\n" ∷ [])
unfolding resolve
unknown_name = refl
