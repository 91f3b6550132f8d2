-- ===== src/Config.antt =====
-- CBM_Benchmark/Config.h and the constructor of CBM_Benchmark/Config.cpp: the settings, the mode and
-- command numbers, and the defaults. Texts are lists of character codes.
pub mod Read
pub mod Lines
pub mod RoundTrip
use Prim.Native.Char.{code}
use Prim.Native.String.{String}
use libfabric_benchmark.Base.{ℕ, ◌*◌, List, [], ◌∷◌, Option, none}
use libfabric_benchmark.Base.Int.{ℤ, pos}

abbrev pub Bytes : Type 0
Bytes = List ℕ

abbrev pub codes : String → Bytes
codes String.[] = []
codes (String.◌∷◌ c s) = code c ∷ codes s

-- The fields that the program reads. `threads`, `buff_size` and `option` are never set or read, and
-- `eq_attr`, `cq_attr` and `hints` are only handed to libfabric.
pub record Config : Type 0 where
  pub controller_addr : Option Bytes
  pub start_port : Bytes
  pub port : Bytes
  pub controller_port : Bytes
  pub server_offset : ℤ
  pub addr_v : List Bytes
  pub num_pn : ℤ
  pub num_en : ℤ
  pub num_ep : ℤ
  pub slot : ℤ
  pub max_packet_size : ℤ
  pub max_duration : ℤ
  pub checkpoint_intervall : ℤ
  pub ctrl_size : ℕ
  pub msg_size : ℕ

-- What `Config::Config` assigns before it calls `readConfig`.
unfoldable pub default_config : Config
default_config = record {
  controller_addr = none;
  start_port = codes "10000";
  port = codes "10000";
  controller_port = codes "30000";
  server_offset = pos 10000;
  addr_v = [];
  num_pn = pos 10;
  num_en = pos 10;
  num_ep = pos 0;
  slot = pos 0;
  max_packet_size = pos (1024 * 1024 * 1024);
  max_duration = pos 60;
  checkpoint_intervall = pos 10;
  ctrl_size = 1024;
  msg_size = 1024 * 1024;
}

-- The enumeration of modes and commands.
abbrev pub bm_server : ℤ
bm_server = pos 0

abbrev pub bm_client : ℤ
bm_client = pos 1

abbrev pub bm_controller : ℤ
bm_controller = pos 2

abbrev pub bm_stop : ℤ
bm_stop = pos 100

abbrev pub bm_start : ℤ
bm_start = pos 101

abbrev pub bm_connect : ℤ
bm_connect = pos 102

abbrev pub bm_connected : ℤ
bm_connected = pos 103

abbrev pub bm_checkpoint : ℤ
bm_checkpoint = pos 104

-- `struct keys`.
pub record Keys : Type 0 where
  pub id : ℤ
  pub rkey : ℕ
  pub addr : ℕ

-- `struct transfer`. A `double` of seconds is held as the whole number of nanoseconds that the clock
-- delivers; the deprecated `data_byte` is never written or read.
pub record Transfer : Type 0 where
  pub from : ℤ
  pub to : ℤ
  pub delta_sec : ℤ
  pub time_sec : ℤ
  pub completions : ℤ

-- `struct ctx`.
pub record Ctx : Type 0 where
  pub id : ℤ
  pub mode : ℤ
  pub size : ℤ

-- `sizeof` on the 64-bit ABI that the program is built for.
abbrev pub sizeof_int : ℕ
sizeof_int = 4

abbrev pub sizeof_keys : ℕ
sizeof_keys = 24

abbrev pub sizeof_transfer : ℕ
sizeof_transfer = 40
