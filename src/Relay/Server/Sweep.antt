-- ===== src/Relay/Server/Sweep.antt =====
-- The cleanup of relay/internal/relay_server.go.
use vpn_cloude.Base.{
  ℕ, ◌+◌, ◌-◌, ◌≡◌, refl, ◌∙◌, Bool, Option, none, some, List, [], ◌∷◌, Bytes, leb, ltb,
  bytes_equal_iff, if_both, Bool-cases, inl, inr, arith, if◌then◌else◌,
}
use vpn_cloude.Base.Assoc.{
  lookup, delete, lookup-delete, Distinct, AllFound, AllFound-self, AllFound-delete,
}
use vpn_cloude.Relay.Sessions.{
  Session, RelayServer, sweep, remove_stale_sessions, session_idle_timeout,
  update_active_session_gauge,
}
use vpn_cloude.Relay.Server.Consistent.{remove-IsConsistent}
use vpn_cloude.Relay.Server.Keeps.{Consistent}

abbrev pub is_live : ℕ → Session → Bool
is_live now s = leb (now - s.last_activity) session_idle_timeout

-- The session that a sweep leaves of one.
abbrev pub kept : ℕ → Option Session → Option Session
kept now none = none
kept now (some s) = if is_live now s then some s else none

abbrev pub count_stale : ℕ → List (Bytes × Session) → ℕ
count_stale now [] = 0
count_stale now ((k, s) ∷ rest) =
    if is_live now s then count_stale now rest else 1 + count_stale now rest

-- What the sweep of `entries` leaves under a key where the map holds `there`.
abbrev left_of : ℕ → Option Session → Option Session → Option Session
left_of now none there = there
left_of now (some s) there = if is_live now s then there else none

record Swept (now : ℕ) (entries : List (Bytes × Session)) (removed : ℕ) (srv : RelayServer)
    (out : ℕ × RelayServer) : Type 0 where
  consistent : Consistent out.1
  left :
      (k : Bytes) → lookup k out.1.sessions ≡ left_of now (lookup k entries) (lookup k srv.sessions)
  count : out.0 ≡ removed + count_stale now entries

sweep-Swept :
    (now : ℕ) (entries : List (Bytes × Session)) (removed : ℕ) (srv : RelayServer)
    → Distinct entries
    → AllFound entries srv.sessions
    → Consistent srv
    → Swept now entries removed srv (sweep now entries (removed, srv))
unfolding sweep lookup
sweep-Swept now [] removed srv d a v = record {
  consistent = v;
  left = λ k. refl;
  count = omega arith;
}
sweep-Swept now ((key, s) ∷ rest) removed srv d a v = elim (Bool-cases (is_live now s)) [
  | inl live ↦
      let ih = sweep-Swept now rest removed srv d.1 a.1 v in
      rw live (record {
        consistent = ih.consistent;
        left = λ k. ih.left k ∙ ground (arith, bytes_equal_iff key k);
        count = ground (arith, ih.count);
      })
  | inr stale ↦
      let after = record srv {
        sessions = delete key srv.sessions;
        token_to_session = delete s.token srv.token_to_session;
      } in
      let ih =
        sweep-Swept now rest (removed + 1) after d.1 (AllFound-delete rest srv.sessions key d.0 a.1)
          (remove-IsConsistent _ _ v key s a.0) in
      rw stale (record {
        consistent = ih.consistent;
        left = λ k.
            ih.left k ∙ ground (arith, bytes_equal_iff key k, lookup-delete key k srv.sessions);
        count = ground (arith, ih.count);
      })
]

left_of_self : (now : ℕ) (o : Option Session) → left_of now o o ≡ kept now o
left_of_self now none = refl
left_of_self now (some s) = refl

-- In a consistent state the cleanup at a time keeps every session whose last activity is at most five minutes back as it is,
-- removes every other one, returns how many it removed, and leaves the maps consistent.
pub remove_stale_sessions_lem :
    (now : ℕ) (srv : RelayServer)
    → Consistent srv
    → let (removed, srv') = remove_stale_sessions now srv in
      ((k : Bytes) → lookup k srv'.sessions ≡ kept now (lookup k srv.sessions))
      × (removed ≡ count_stale now srv.sessions)
      × Consistent srv'
unfolding remove_stale_sessions update_active_session_gauge
remove_stale_sessions_lem now srv v =
    let w =
      sweep-Swept now srv.sessions 0 srv v.distinct (AllFound-self srv.sessions v.distinct) v in
    let (removed, swept) = sweep now srv.sessions (0, srv) in
    (
      (λ k.
          if_both (λ (x : RelayServer). lookup k x.sessions ≡ kept now (lookup k srv.sessions))
            (ltb 0 removed) (w.left k ∙ left_of_self now (lookup k srv.sessions))
            (w.left k ∙ left_of_self now (lookup k srv.sessions))),
      omega (arith, w.count),
      if_both Consistent (ltb 0 removed) w.consistent w.consistent,
    )
