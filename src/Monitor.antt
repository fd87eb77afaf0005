-- ===== src/Monitor.antt =====
-- gleanflow/monitor.py: the sampler of memory and CPU time. A `Machine` is what the operating system
-- shows at one moment. Sizes and times are whole numbers; the floats of the report are a parameter.
pub mod Peak
pub mod Cpu
use Prim.Native.Char.{Char, code}
use gleanflow.Prelude.{
  ℕ, suc, ◌*◌, ◌/◌, ◌-◌, max, leb, String, Option, none, some, Bool, List, [], ◌∷◌, nat_beq, ◌||◌,
  if◌then◌else◌, ◌==◌,
}
use gleanflow.Prelude.Dict.{Dict, get_or}
use gleanflow.Decimal
use gleanflow.Json.{Json, null, float, ◌>>=◌}
use gleanflow.Text.{add_to_head, starts_with}

-- `file` is `none` where a file cannot be read, `rss` and `process_usec` where the calls raise.
pub record Machine : Type 0 where
  pub file : String → Option String
  pub rss : Option ℕ
  pub is_darwin : Bool
  pub process_usec : Option ℕ

-- a space, a tab or the end of a line
unfoldable pub is_blank : ℕ → Bool
is_blank c = nat_beq c b' ' || nat_beq c b'\t' || nat_beq c b'\n' || nat_beq c b'\r'

-- The text up to the first blank.
unfoldable pub word : String → String
word String.[] = ""
word (String.◌∷◌ c s) = let rest = word s in if is_blank (code c) then "" else String.◌∷◌ c rest

-- `s.split()[0]`, or "" where there is no word
unfoldable pub first_word : String → String
first_word String.[] = ""
first_word (String.◌∷◌ c s) =
    let rest = first_word s in if is_blank (code c) then rest else word (String.◌∷◌ c s)

-- The text behind the first word.
unfoldable pub behind_word : String → String
behind_word String.[] = ""
behind_word (String.◌∷◌ c s) =
    let rest = behind_word s in if is_blank (code c) then String.◌∷◌ c s else rest

unfoldable pub number_word : String → Option ℕ
number_word w = if w == "max" || w == "" then none else Decimal.int w

-- `_read_int`
unfoldable pub read_int : Machine → String → Option ℕ
read_int m path = do text ← m.file path; number_word (first_word text)

-- What `_mem` has read: current use, peak and limit.
pub record Memory : Type 0 where
  pub cur : Option ℕ
  pub peak : Option ℕ
  pub limit : Option ℕ

unfoldable pub cgroup_v2 : Machine → Memory
cgroup_v2 m = record {
  cur = read_int m "/sys/fs/cgroup/memory.current";
  peak = read_int m "/sys/fs/cgroup/memory.peak";
  limit = read_int m "/sys/fs/cgroup/memory.max";
}

unfoldable pub cgroup_v1 : Machine → Memory
cgroup_v1 m = record {
  cur = read_int m "/sys/fs/cgroup/memory/memory.usage_in_bytes";
  peak = read_int m "/sys/fs/cgroup/memory/memory.max_usage_in_bytes";
  limit = read_int m "/sys/fs/cgroup/memory/memory.limit_in_bytes";
}

-- `ru_maxrss` in bytes
unfoldable pub rss_bytes : Machine → Option ℕ → ℕ
rss_bytes m none = 0
rss_bytes m (some rss) = if m.is_darwin then rss else rss * 1024

unfoldable pub or_rss : Machine → Option ℕ → Memory → Memory
or_rss m (some n) v1 = v1
or_rss m none v1 =
    let n = rss_bytes m m.rss in record { cur = some n; peak = some n; limit = v1.limit }

unfoldable pub or_v1 : Machine → Option ℕ → Memory → Memory
or_v1 m none v2 = let v1 = cgroup_v1 m in or_rss m v1.cur v1
or_v1 m (some n) v2 = v2

-- `_mem`
unfoldable pub mem : Machine → Memory
mem m = let v2 = cgroup_v2 m in or_v1 m v2.cur v2

-- `Monitor`; `started` is the clock at its start.
pub record Monitor (W : Type 0) : Type 0 where
  pub peak_mem : ℕ
  pub limit : ℕ
  pub cpu0 : ℕ
  pub started : W

-- `peak or cur`, each with `or 0`
unfoldable pub peak_or_cur : ℕ → ℕ → ℕ
peak_or_cur peak cur = if nat_beq peak 0 then cur else peak

-- What one sample has seen.
unfoldable pub used : Machine → ℕ
used m = let x = mem m in peak_or_cur (get_or 0 x.peak) (get_or 0 x.cur)

-- The lines of `cpu.stat`; the first that begins with `usage_usec` decides, and what it raises is
-- caught.
unfoldable pub lines : String → List String
lines String.[] = "" ∷ []
lines (String.◌∷◌ c s) =
    let rest = lines s in if nat_beq (code c) b'\n' then "" ∷ rest else add_to_head c rest

unfoldable pub usage_line : List String → Option ℕ
usage_line [] = none
usage_line (l ∷ ls) =
    let rest = usage_line ls in
    if starts_with "usage_usec" l then Decimal.int (first_word (behind_word l)) else rest

unfoldable pub v2_usec : Option String → Option ℕ
v2_usec none = none
v2_usec (some text) = usage_line (lines text)

-- `_cpu_usec` behind the first file, and behind the second
unfoldable pub or_process : Machine → Option ℕ → ℕ
or_process m (some v) = v / 1000
or_process m none = get_or 0 m.process_usec

unfoldable pub or_cpuacct : Machine → Option ℕ → ℕ
or_cpuacct m (some n) = n
or_cpuacct m none = or_process m (read_int m "/sys/fs/cgroup/cpuacct/cpuacct.usage")

-- The first test reads the file as one number, and only then for its lines.
unfoldable pub when_number : Machine → Option ℕ → Option ℕ
when_number m none = none
when_number m (some v) = v2_usec (m.file "/sys/fs/cgroup/cpu.stat")

-- `_cpu_usec`
unfoldable pub cpu_usec : Machine → ℕ
cpu_usec m = or_cpuacct m (when_number m (read_int m "/sys/fs/cgroup/cpu.stat"))

module _ {W : Type 0} where
  -- `_sample`
  unfoldable pub sample : Machine → Monitor W → Monitor W
  sample m mon = record mon { peak_mem = max mon.peak_mem (used m); limit = get_or 0 (mem m).limit }

  -- `_loop`, woken once for each of the machines
  unfoldable pub sample_all : List Machine → Monitor W → Monitor W
  sample_all [] mon = mon
  sample_all (m ∷ ms) mon = sample_all ms (sample m mon)

  -- The constructor and `start`.
  unfoldable pub start : W → Machine → Monitor W
  start t0 m = sample m (record { peak_mem = 0; limit = 0; cpu0 = cpu_usec m; started = t0 })

  unfoldable pub float_or_null : Option W → Json W
  float_or_null none = null
  float_or_null (some x) = float x

  -- `round(n / 1e6, 1) if n else None`
  unfoldable pub rounded : (ℕ → W) → ℕ → Option W
  rounded megabytes n = if nat_beq n 0 then none else some (megabytes n)

  module _ (megabytes seconds : ℕ → W) (since : W → W) where
    -- `stop`: `megabytes` and `seconds` divide by a million and round, `since` gives the time since then
    unfoldable pub stop : Machine → Monitor W → Dict (Json W)
    stop m mon =
        let last = sample m mon in
        let now = cpu_usec m in
        let cpu = if leb mon.cpu0 now then some (seconds (now - mon.cpu0)) else none in
        ("peak_mem_mb", float_or_null (rounded megabytes last.peak_mem))
        ∷ ("limit_mb", float_or_null (rounded megabytes last.limit))
        ∷ ("cpu_seconds", float_or_null cpu)
        ∷ ("wall_seconds", float (since mon.started))
        ∷ []
