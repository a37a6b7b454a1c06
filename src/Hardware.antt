-- ===== src/Hardware.antt =====
-- internal/hardware: the five endpoints. The readings of gopsutil, each absent where the library
-- reports an error, and the printing of float64 are arguments.
pub mod Totals
use ahlyx_labs.Common.{
  ℕ, ◌+◌, ◌*◌, ◌^◌, ◌%◌, Bool, true, false, Option, none, some, List, [], ◌∷◌, ◌++◌, Bytes, str,
  str_eq, ltb, show_decimal, if◌then◌else◌,
}
use ahlyx_labs.Json.{Json, number, text, object, end, member}
use ahlyx_labs.Json.Render.{render}
use ahlyx_labs.Enrichment.{fields}

-- float64(a) / float64(b), and the verb %.nf.
pub record Floats (D : Type 0) : Type 0 where
  pub quotient : (a b : ℕ) → D
  pub fixed : (n : ℕ) → D → Bytes

pub record Answer : Type 0 where
  pub status : ℕ
  pub body : Bytes

abbrev pub write_json : ℕ → Json → Answer
write_json status j = record { status = status; body = render j ++ 10 ∷ [] }

abbrev write_error : ℕ → Bytes → Answer
write_error status msg = write_json status (fields ((str "error", text msg) ∷ []))

abbrev pub unavailable : Answer
unavailable = write_error 500 (str "hardware telemetry unavailable")

-- A sum of uint64.
abbrev pub add64 : ℕ → ℕ → ℕ
add64 a b = (a + b) % 2 ^ 64

-- What host.Info has of the host.
pub record HostInfo : Type 0 where
  pub platform : Bytes
  pub uptime : ℕ

pub record SystemInfo : Type 0 where
  pub host_os : Bytes
  pub platform : Bytes
  pub architecture : Bytes
  pub uptime : ℕ

abbrev system_json : SystemInfo → Json
system_json s = fields (
    (str "host_os", text s.host_os)
    ∷ (str "platform", text s.platform)
    ∷ (str "architecture", text s.architecture)
    ∷ (str "uptime_seconds", number (show_decimal s.uptime))
    ∷ [])

abbrev with_host : SystemInfo → Option HostInfo → SystemInfo
with_host s none = s
with_host s (some info) = record s { platform = info.platform; uptime = info.uptime }

-- `goos` and `goarch` are the constants of package runtime.
unfoldable pub handle_system : (goos goarch : Bytes) → Option HostInfo → Answer
handle_system goos goarch info =
    let bare : SystemInfo = record {
      host_os = goos;
      platform = [];
      architecture = if str_eq goarch (str "amd64") then str "64bit" else goarch;
      uptime = 0;
    } in
    write_json 200 (system_json (with_host bare info))

-- mem.VirtualMemory, mem.SwapMemory and disk.Usage, as far as the handlers read them.
pub record Memory (D : Type 0) : Type 0 where
  pub total : ℕ
  pub used : ℕ
  pub free : ℕ
  pub used_percent : D

-- The counters of a device.
pub record DiskCounters : Type 0 where
  pub read_bytes : ℕ
  pub write_bytes : ℕ
  pub read_count : ℕ
  pub write_count : ℕ

unfoldable pub no_counters : DiskCounters
no_counters = record { read_bytes = 0; write_bytes = 0; read_count = 0; write_count = 0 }

abbrev pub add_counters : DiskCounters → DiskCounters → DiskCounters
add_counters t c = record {
  read_bytes = add64 t.read_bytes c.read_bytes;
  write_bytes = add64 t.write_bytes c.write_bytes;
  read_count = add64 t.read_count c.read_count;
  write_count = add64 t.write_count c.write_count;
}

-- The loop over the devices, in the order in which the map gives them.
unfoldable pub totals_from : DiskCounters → List DiskCounters → DiskCounters
totals_from t [] = t
totals_from t (c ∷ cs) = totals_from (add_counters t c) cs

unfoldable pub totals : Option (List DiskCounters) → DiskCounters
unfolding totals_from no_counters
totals none = no_counters
totals (some cs) = totals_from no_counters cs

-- The counters of all network interfaces together.
pub record NetworkCounters : Type 0 where
  pub bytes_sent : ℕ
  pub bytes_recv : ℕ
  pub packets_sent : ℕ
  pub packets_recv : ℕ

abbrev first_counters : Option (List NetworkCounters) → NetworkCounters
first_counters (some (c ∷ cs)) = c
first_counters _ = record { bytes_sent = 0; bytes_recv = 0; packets_sent = 0; packets_recv = 0 }

abbrev first_or : {D : Type 0} → Bytes → (D → Bytes) → Option (List D) → Bytes
first_or otherwise show (some (d ∷ ds)) = show d
first_or otherwise show _ = otherwise

module _ {D : Type 0} (floats : Floats D) where
  unfoldable pub fmt_gb : ℕ → Bytes
  fmt_gb bytes = floats.fixed 2 (floats.quotient bytes 1073741824) ++ str " GB"

  unfoldable pub fmt_data_size : ℕ → Bytes
  fmt_data_size bytes =
      if ltb bytes (2 ^ 40)
      then floats.fixed 1 (floats.quotient bytes (2 ^ 30)) ++ str " GiB"
      else floats.fixed 1 (floats.quotient bytes (2 ^ 40)) ++ str " TiB"

  unfoldable pub fmt_mb : ℕ → Bytes
  fmt_mb bytes = floats.fixed 2 (floats.quotient bytes 1048576) ++ str " MB"

  unfoldable pub fmt_pct : D → Bytes
  fmt_pct pct = floats.fixed 1 pct ++ str "%"

  unfoldable pub fmt_mhz : D → Bytes
  fmt_mhz mhz = floats.fixed 2 mhz ++ str " MHz"

  abbrev cpu_json : (physical logical : Bytes) → Option (List D) → Option (List D) → Json
  cpu_json physical logical percents speeds = fields (
      (str "physical_cores", number physical)
      ∷ (str "total_cores", number logical)
      ∷ (str "current_speed", text (first_or (str "0.00 MHz") fmt_mhz speeds))
      ∷ (str "cpu_usage", text (first_or (str "0.0%") fmt_pct percents))
      ∷ [])

  -- The numbers of cores are positive; `speeds` are the fields Mhz of cpu.Info.
  unfoldable pub handle_cpu :
      (physical logical : Option ℕ) → (percents speeds : Option (List D)) → Answer
  unfolding fmt_pct fmt_mhz
  handle_cpu (some physical) (some logical) percents speeds =
      write_json 200 (cpu_json (show_decimal physical) (show_decimal logical) percents speeds)
  handle_cpu (some physical) none percents speeds = unavailable
  handle_cpu none logical percents speeds = unavailable

  -- `free` is the field Available of the first.
  unfoldable pub handle_ram : Option (Memory D) → Option (Memory D) → Answer
  unfolding fmt_gb fmt_pct
  handle_ram (some vm) (some sw) = write_json 200 (
      fields (
        (str "total", text (fmt_gb vm.total))
        ∷ (str "used", text (fmt_gb vm.used))
        ∷ (str "available", text (fmt_gb vm.free))
        ∷ (str "usage", text (fmt_pct vm.used_percent))
        ∷ (str "swap_total", text (fmt_gb sw.total))
        ∷ (str "swap_used", text (fmt_gb sw.used))
        ∷ (str "swap_usage", text (fmt_pct sw.used_percent))
        ∷ []))
  handle_ram (some vm) none = unavailable
  handle_ram none sw = unavailable

  unfoldable pub disk_json : Memory D → DiskCounters → Json
  unfolding fmt_gb fmt_data_size fmt_pct
  disk_json usage t = fields (
      (str "total", text (fmt_gb usage.total))
      ∷ (str "used", text (fmt_gb usage.used))
      ∷ (str "free", text (fmt_gb usage.free))
      ∷ (str "usage", text (fmt_pct usage.used_percent))
      ∷ (str "total_read", text (fmt_data_size t.read_bytes))
      ∷ (str "total_written", text (fmt_data_size t.write_bytes))
      ∷ (str "read_ops", text (show_decimal t.read_count))
      ∷ (str "write_ops", text (show_decimal t.write_count))
      ∷ [])

  unfoldable pub handle_disk : Option (Memory D) → Option (List DiskCounters) → Answer
  unfolding disk_json totals
  handle_disk none counters = unavailable
  handle_disk (some usage) counters = write_json 200 (disk_json usage (totals counters))

  unfoldable pub handle_network : Option (List NetworkCounters) → Answer
  unfolding fmt_mb
  handle_network counters =
      let c = first_counters counters in
      write_json 200 (
        fields (
          (str "bytes_sent", text (fmt_mb c.bytes_sent))
          ∷ (str "bytes_received", text (fmt_mb c.bytes_recv))
          ∷ (str "packets_sent", number (show_decimal c.packets_sent))
          ∷ (str "packets_received", number (show_decimal c.packets_recv))
          ∷ []))
