-- ===== src/Metrics.antt =====
-- internal/metrics/metrics.go: the counters and gauges. The clock is left out, and the round trip
-- stays in nanoseconds.
use faketunnel.Base.{
  ℕ, ◌+◌, ◌-◌, ◌%◌, ◌^◌, ◌≡◌, Bool, Option, none, some, arith, ◌==◌, if◌then◌else◌,
}
use faketunnel.Base.Integers.{ℤ, pos, negsuc}

pub record Registry : Type 0 where
  pub denies : ℕ
  pub active_sessions : ℕ
  pub agent_connected : Bool
  pub rtt_nanos : ℕ
  pub rtt_samples : ℕ

-- an atomic.Uint64
abbrev pub wrap64 : ℕ → ℕ
wrap64 n = n % 2 ^ 64

unfoldable pub inc_deny : Registry → Registry
inc_deny r = record r { denies = wrap64 (r.denies + 1) }

-- AddSessions never goes below 0
unfoldable pub add_sessions : ℤ → Registry → Registry
add_sessions (pos n) r = record r { active_sessions = r.active_sessions + n }
add_sessions (negsuc n) r = record r { active_sessions = r.active_sessions - (n + 1) }

abbrev pub set_agent_connected : Bool → Registry → Registry
set_agent_connected b r = record r { agent_connected = b }

unfoldable pub observe_rtt : ℤ → Registry → Registry
observe_rtt (pos d) r = record r { rtt_nanos = d; rtt_samples = wrap64 (r.rtt_samples + 1) }
observe_rtt (negsuc _) r = r

unfoldable pub last_rtt : Registry → Option ℕ
last_rtt r = if r.rtt_samples == 0 then none else some r.rtt_nanos

pub record Status : Type 0 where
  pub agent_connected : Bool
  pub active_sessions : ℕ
  pub acl_denies : ℕ
  pub temp_bans : ℕ
  pub permanent_bans : ℕ
  pub rtt : Option ℕ

unfoldable pub snapshot : Registry → Status
snapshot r = record {
  agent_connected = r.agent_connected;
  active_sessions = r.active_sessions;
  acl_denies = r.denies;
  temp_bans = 0;
  permanent_bans = 0;
  rtt = last_rtt r;
}

-- Server.status of internal/edge/server.go adds the counts of the ban store
abbrev pub status : ℕ × ℕ → Registry → Status
status (temporary, permanent) r = record (snapshot r) {
  temp_bans = temporary;
  permanent_bans = permanent;
}

-- a session that begins and ends leaves the gauge as it was
pub add_sessions_back :
    (n : ℕ) (r : Registry)
    → (add_sessions (negsuc n) (add_sessions (pos (n + 1)) r)).active_sessions ≡ r.active_sessions
unfolding add_sessions
add_sessions_back n r = ground arith
