-- ===== src/Relay/Sessions.antt =====
-- The session maps of relay/internal/relay_server.go. The cleanup takes the lock for one whole sweep, so it is one
-- step. `sessions` holds the sessions themselves: where the code writes through a session's pointer, the entry is
-- written.
use vpn_cloude.Base.{
  ℕ, zero, suc, ◌+◌, ◌-◌, ◌*◌, ◌/◌, ◌%◌, Bool, false, not, Option, none, some, List, [], ◌∷◌, ltb,
  leb, if◌then◌else◌, length, replicate, Bytes, copy_into,
}
use vpn_cloude.Base.Assoc.{lookup, insert, delete}
use vpn_cloude.Relay.Addr.{UdpAddr, same_addr}
use vpn_cloude.Relay.Metrics.{Metrics, set_active_sessions}

-- Five minutes. Times are counted in nanoseconds.
abbrev pub session_idle_timeout : ℕ
session_idle_timeout = 5 * 60 * 1_000_000_000

pub record Session : Type 0 where
  pub id : Bytes
  pub token : Bytes
  pub peer_a : Option UdpAddr
  pub peer_b : Option UdpAddr
  pub created_at : ℕ
  pub last_activity : ℕ

-- `conn` says whether the socket is open.
pub record RelayServer : Type 0 where
  pub sessions : List (Bytes × Session)
  pub token_to_session : List (Bytes × Bytes)
  pub conn : Bool
  pub metrics : Option Metrics

-- What one packet meets outside: the clock, a random session id (`none` if the source fails), the
-- socket's answer to each write, and the `session_token` that encoding/json reads from a payload.
pub record Env : Type 0 where
  pub now : ℕ
  pub random_id : Option Bytes
  pub write_ok : Bytes → UdpAddr → Bool
  pub parse_connect : Bytes → Option Bytes

abbrev pub new_relay_server : RelayServer
new_relay_server = record { sessions = []; token_to_session = []; conn = false; metrics = none }

abbrev pub on_metrics : (Metrics → Metrics) → RelayServer → RelayServer
on_metrics f srv = record srv { metrics = elim srv.metrics [ none ↦ none | some m ↦ some (f m) ] }

unfoldable pub update_active_session_gauge : RelayServer → RelayServer
update_active_session_gauge srv = on_metrics (set_active_sessions (length srv.sessions)) srv

-- Sixteen hex digits of a time, as `%016x` prints it.
hex_digit : ℕ → ℕ
hex_digit d = if ltb d 10 then 48 + d else 87 + d

hex_digits : ℕ → ℕ → Bytes → Bytes
hex_digits zero v acc = acc
hex_digits (suc n) v acc = hex_digits n (v / 16) (hex_digit (v % 16) ∷ acc)

-- A random id, or one made of the time.
unfoldable pub session_id : Env → Bytes
unfolding hex_digits hex_digit
session_id env = elim env.random_id [
  | some r ↦ copy_into (replicate 16 0) r
  | none ↦ copy_into (replicate 16 0) (hex_digits 16 env.now [])
]

unfoldable pub join_existing : ℕ → UdpAddr → Session → Session
join_existing now peer s = elim s.peer_a [
  | none ↦ record s { last_activity = now; peer_a = some peer }
  | some a ↦ elim s.peer_b [
    | none ↦
        if not (same_addr (some a) (some peer))
        then record s { last_activity = now; peer_b = some peer }
        else record s { last_activity = now }
    | some b ↦ record s { last_activity = now }
  ]
]

unfoldable pub fresh_session : Env → Bytes → UdpAddr → Session
fresh_session env token peer = record {
  id = session_id env;
  token = token;
  peer_a = some peer;
  peer_b = none;
  created_at = env.now;
  last_activity = env.now;
}

unfoldable pub add_session : Env → Bytes → UdpAddr → RelayServer → Session × RelayServer
add_session env token peer srv =
    let s = fresh_session env token peer in
    (
      s,
      update_active_session_gauge (record srv {
        sessions = insert s.id s srv.sessions;
        token_to_session = insert token s.id srv.token_to_session;
      }),
    )

-- The session that a token stands for, by both maps.
unfoldable pub session_of_token : Bytes → RelayServer → Option (Bytes × Session)
session_of_token token srv = elim (lookup token srv.token_to_session) [
  | none ↦ none
  | some key ↦ elim (lookup key srv.sessions) [ none ↦ none | some s ↦ some (key, s) ]
]

unfoldable pub create_session : Env → Bytes → UdpAddr → RelayServer → Session × RelayServer
create_session env token peer srv = elim (session_of_token token srv) [
  | some (key, existing) ↦
      let s = join_existing env.now peer existing in
      (s, update_active_session_gauge (record srv { sessions = insert key s srv.sessions }))
  | none ↦ add_session env token peer srv
]

unfoldable pub get_session_by_id : Bytes → RelayServer → Option Session
get_session_by_id id srv = lookup id srv.sessions

-- Writes the time through the pointer of a session that stands in the map.
unfoldable pub touch_session : ℕ → Session → RelayServer → RelayServer
touch_session now s srv = record srv {
  sessions = insert s.id (record s { last_activity = now }) srv.sessions;
}

unfoldable pub remove_session : Bytes → RelayServer → RelayServer
remove_session id srv = elim (lookup id srv.sessions) [
  | none ↦ srv
  | some s ↦ update_active_session_gauge (record srv {
    sessions = delete id srv.sessions;
    token_to_session = delete s.token srv.token_to_session;
  })
]

-- One sweep over the entries that the map had when it began.
unfoldable pub sweep : ℕ → List (Bytes × Session) → ℕ × RelayServer → ℕ × RelayServer
sweep now [] acc = acc
sweep now ((key, s) ∷ rest) (removed, srv) = sweep now rest (
    if leb (now - s.last_activity) session_idle_timeout then (removed, srv) else (
      removed + 1,
      record srv {
        sessions = delete key srv.sessions;
        token_to_session = delete s.token srv.token_to_session;
      },
    ))

unfoldable pub remove_stale_sessions : ℕ → RelayServer → ℕ × RelayServer
remove_stale_sessions now srv =
    let (removed, swept) = sweep now srv.sessions (0, srv) in
    (removed, if ltb 0 removed then update_active_session_gauge swept else swept)
