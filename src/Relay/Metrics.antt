-- ===== src/Relay/Metrics.antt =====
-- The counters of relay/internal/metrics.go. Each is atomic; the unsigned ones wrap at 2 ^ 64.
use vpn_cloude.Base.{ℕ, ◌+◌, ◌-◌, ◌%◌, ◌^◌, leb, if◌then◌else◌}

pub record Metrics : Type 0 where
  pub active_sessions : ℕ
  pub total_bytes : ℕ
  pub packet_count : ℕ
  pub packets_per_sec : ℕ

unfoldable pub set_active_sessions : ℕ → Metrics → Metrics
set_active_sessions count m = record m { active_sessions = count }

-- A packet's size is a length, so it is not below 0.
unfoldable pub record_packet : ℕ → Metrics → Metrics
record_packet size m = record m {
  total_bytes = (m.total_bytes + size) % 2 ^ 64;
  packet_count = (m.packet_count + 1) % 2 ^ 64;
}

-- One tick of the loop that `Start` runs, from the count at the tick before.
pub rate_tick : ℕ → Metrics → ℕ × Metrics
rate_tick last m = (
  m.packet_count,
  record m { packets_per_sec = if leb last m.packet_count then m.packet_count - last else 0 },
)
