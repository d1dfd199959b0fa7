-- ===== src/Prelude/Durations.antt =====
-- `Duration` and `Instant` as nanosecond counts, and settings in seconds from the environment.
use Prim.Native.Nat.{ℕ, ◌*◌}
use mathlib.Core.Option.{Option, none, some}
use wrtg.Prelude.Tests.{ltb, if◌then◌else◌}
use wrtg.Prelude.Bytes.{Bytes, parse_u64, trim}

abbrev pub from_secs : ℕ → ℕ
from_secs s = s * 1_000_000_000

abbrev pub from_millis : ℕ → ℕ
from_millis ms = ms * 1_000_000

abbrev pub unwrap_or {ℓ} : {A : Type ℓ} → Option A → A → A
unwrap_or none d = d
unwrap_or (some a) d = a

-- `std::env::var(..).ok().and_then(|s| s.parse().ok())` at `u64`.
unfoldable pub env_secs : Option Bytes → Option ℕ
env_secs none = none
env_secs (some s) = parse_u64 s

-- `.and_then(|v| v.trim().parse::<u64>().ok()).filter(|&s| s > 0)`
unfoldable pub env_positive : Option Bytes → Option ℕ
env_positive none = none
env_positive (some s) = elim (parse_u64 (trim s)) [
  | none ↦ none
  | some n ↦ if ltb 0 n then some n else none
]
