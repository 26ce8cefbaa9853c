-- ===== src/Peer/Manager/Usable.antt =====
-- The endpoints of the connections in client/internal/peer/manager.go, through a sync.
use vpn_cloude.Base.{
  ◌≡◌, refl, sym, ◌∙◌, ap, subst, false, not, ◌&&◌, Option, none, some, List, [], ◌∷◌, Bytes,
  bytes_equal, All, All-append, Bool-cases, Option-cases, if_split, if_both, inl, inr, arith,
}
use mathlib.Core.Option.{some-injective}
use vpn_cloude.Base.Assoc.{lookup, insert, lookup-insert, lookup-delete}
use vpn_cloude.Stdlib.Text.{is_empty, trim_space}
use vpn_cloude.Peer.Endpoint.{PeerInfo, Via, p2p, lan, sanitize_endpoint}
use vpn_cloude.Peer.Endpoint.Chosen.{IsUsable, sanitize_endpoint-IsUsable}
use vpn_cloude.Peer.Manager.{
  PeerConnection, World, Manager, Candidate, PeerError, is_candidate, with_prefix, call, add_peer,
  add_candidate, try_candidates, fallback_candidates, add_peer_with_fallback, select_endpoint,
  connection, record_connection, is_observed, connect_to_peer, refresh_peer, is_listed, sync_peer,
  sync_each, disconnect_peer, drop_unobserved, sync_fetched, sync_peers_once,
}

abbrev pub UsablePeers : World → List (Bytes × PeerConnection) → Type 0
UsablePeers w peers =
    (id : Bytes) (conn : PeerConnection)
    → lookup id peers ≡ some conn
    → IsUsable w.env.v6 conn.endpoint

-- The endpoint of every connection has a host that is not internal and a port from 1 to 65535.
abbrev pub AllUsable : World → Manager → Type 0
AllUsable w m = UsablePeers w m.peers

abbrev UsableCandidates : World → List Candidate → Type 0
UsableCandidates w candidates = All (λ (c : Candidate). IsUsable w.env.v6 c.0) candidates

sanitized-IsUsable :
    (w : World) (raw : Bytes)
    → is_empty (sanitize_endpoint w.env raw 51820) ≡ false
    → IsUsable w.env.v6 (sanitize_endpoint w.env raw 51820)
sanitized-IsUsable w raw there =
    elim (sanitize_endpoint-IsUsable w.env raw 51820 (omega arith) (omega arith)) [
      | inl gone ↦ absurd (ground (arith, there, gone))
      | inr usable ↦ usable
    ]

add_candidate-usable :
    (w : World) (raw : Bytes) (via : Via) (candidates : List Candidate)
    → UsableCandidates w candidates
    → UsableCandidates w (add_candidate w raw via candidates)
unfolding add_candidate
add_candidate-usable w raw via candidates h =
    if_split (UsableCandidates w) (is_empty (sanitize_endpoint w.env raw 51820)) (λ gone. h)
      (λ there.
        if_split (UsableCandidates w) (is_candidate (sanitize_endpoint w.env raw 51820) candidates)
          (λ seen. h)
          (λ new.
            All-append (λ (c : Candidate). IsUsable w.env.v6 c.0) candidates
              ((sanitize_endpoint w.env raw 51820, via) ∷ []) h
              (sanitized-IsUsable w raw there, tt)))

fallback_candidates-usable :
    (w : World) (peer : PeerInfo) (endpoint : Bytes) (via : Via)
    → UsableCandidates w (fallback_candidates w peer endpoint via)
unfolding fallback_candidates
fallback_candidates-usable w peer endpoint via =
    add_candidate-usable w _ lan _
      (add_candidate-usable w _ p2p _ (add_candidate-usable w endpoint via [] tt))

-- The tunnel was asked, and took a usable candidate or none; the connections are as before.
abbrev Taken : World → Manager → Option Candidate × Manager → Type 0
Taken w m (taken, m') =
    (m'.peers ≡ m.peers) × ((c : Candidate) → taken ≡ some c → IsUsable w.env.v6 c.0)

try_candidates-Taken :
    (w : World) (key allowed_ip : Bytes) (candidates : List Candidate) (m : Manager)
    → UsableCandidates w candidates
    → Taken w m (try_candidates w key allowed_ip candidates m)
unfolding try_candidates
try_candidates-Taken w key allowed_ip [] m h = (refl, λ c e. absurd (ground (arith, e)))
try_candidates-Taken w key allowed_ip ((endpoint, via) ∷ rest) m (usable, h) =
    let asked = call (add_peer key endpoint allowed_ip) m in
    if_both (Taken w m) (w.add_ok key endpoint allowed_ip)
      (refl, λ c e. subst (λ (t : Candidate). IsUsable w.env.v6 t.0) (some-injective _ _ e) usable)
      (try_candidates-Taken w key allowed_ip rest asked h)

insert-UsablePeers :
    (w : World) (id : Bytes) (conn : PeerConnection) (peers : List (Bytes × PeerConnection))
    → IsUsable w.env.v6 conn.endpoint
    → UsablePeers w peers
    → UsablePeers w (insert id conn peers)
insert-UsablePeers w id conn peers usable h = λ k other e. elim (Bool-cases (bytes_equal id k)) [
  | inl hit ↦
      let there : some conn ≡ some other = ground (arith, lookup-insert id k conn peers, hit, e) in
      subst (λ (t : PeerConnection). IsUsable w.env.v6 t.endpoint) (some-injective _ _ there) usable
  | inr miss ↦ h k other (ground (arith, lookup-insert id k conn peers, miss, e))
]

same-AllUsable : (w : World) (m m' : Manager) → m'.peers ≡ m.peers → AllUsable w m → AllUsable w m'
same-AllUsable w m m' same h = λ k conn e. h k conn (ap (lookup k) (sym same) ∙ e)

record_connection-AllUsable :
    (w : World) (peer : PeerInfo) (m : Manager) (r : Option Candidate × Manager)
    → Taken w m r
    → AllUsable w m
    → AllUsable w (record_connection w peer r).1
unfolding record_connection connection
record_connection-AllUsable w peer m (none, asked) (same, usable) h =
    same-AllUsable w m asked same h
record_connection-AllUsable w peer m (some (endpoint, via), asked) (same, usable) h =
    insert-UsablePeers w peer.id (connection w peer (endpoint, via)) asked.peers
      (usable (endpoint, via) refl) (same-AllUsable w m asked same h)

connect_to_peer-AllUsable :
    (w : World) (peer : PeerInfo) (m : Manager)
    → AllUsable w m
    → AllUsable w (connect_to_peer w peer m).1
unfolding connect_to_peer add_peer_with_fallback
connect_to_peer-AllUsable w peer m h =
    let P = (λ (o : Option PeerError × Manager). AllUsable w o.1) in
    let (selected, via) = select_endpoint w peer in
    let endpoint = sanitize_endpoint w.env selected 51820 in
    let allowed_ip = trim_space peer.virtual_ip in
    let taken =
      try_candidates-Taken w peer.public_key (with_prefix allowed_ip)
        (fallback_candidates w peer endpoint via) m
        (fallback_candidates-usable w peer endpoint via) in
    if_both P (not w.tunnel_there) h (
      if_both P (is_empty selected) h (
        if_both P (is_empty endpoint) h
          (if_both P (is_empty allowed_ip) h (record_connection-AllUsable w peer m _ taken h))))

refresh_peer-AllUsable :
    (w : World) (peer : PeerInfo) (existing : PeerConnection) (m : Manager)
    → lookup peer.id m.peers ≡ some existing
    → AllUsable w m
    → AllUsable w (refresh_peer w peer existing m)
unfolding refresh_peer
refresh_peer-AllUsable w peer existing m found h =
    let (selected, via) = select_endpoint w peer in
    let endpoint = sanitize_endpoint w.env selected 51820 in
    let moved = record existing { endpoint = endpoint; connected_via = via; last_seen = w.now } in
    let seen = record existing { last_seen = w.now } in
    if_split (AllUsable w) (not (is_empty endpoint) && not (bytes_equal endpoint existing.endpoint))
      (λ change.
        insert-UsablePeers w peer.id moved m.peers
          (sanitized-IsUsable w selected (ground (arith, change))) h)
      (λ stays. insert-UsablePeers w peer.id seen m.peers (h peer.id existing found) h)

sync_peer-AllUsable :
    (w : World) (peer : PeerInfo) (m : Manager) → AllUsable w m → AllUsable w (sync_peer w peer m)
unfolding sync_peer
sync_peer-AllUsable w peer m h =
    if_both (AllUsable w) (not (is_listed w peer)) h (elim (Option-cases (lookup peer.id m.peers)) [
      | inl absent ↦ rw absent (connect_to_peer-AllUsable w peer m h)
      | inr (existing, found) ↦ rw found (refresh_peer-AllUsable w peer existing m found h)
    ])

sync_each-AllUsable :
    (w : World) (peers : List PeerInfo) (m : Manager)
    → AllUsable w m
    → AllUsable w (sync_each w peers m)
unfolding sync_each
sync_each-AllUsable w [] m h = h
sync_each-AllUsable w (peer ∷ peers) m h =
    sync_each-AllUsable w peers (sync_peer w peer m) (sync_peer-AllUsable w peer m h)

disconnect_peer-AllUsable :
    (w : World) (id : Bytes) (m : Manager) → AllUsable w m → AllUsable w (disconnect_peer id m)
unfolding disconnect_peer
disconnect_peer-AllUsable w id m h =
    λ k conn e. h k conn (ground (arith, e, lookup-delete id k m.peers))

drop_unobserved-AllUsable :
    (w : World) (listed : List PeerInfo) (entries : List (Bytes × PeerConnection)) (m : Manager)
    → AllUsable w m
    → AllUsable w (drop_unobserved w listed entries m)
unfolding drop_unobserved
drop_unobserved-AllUsable w listed [] m h = h
drop_unobserved-AllUsable w listed ((id, conn) ∷ rest) m h =
    drop_unobserved-AllUsable w listed rest _
      (if_both (AllUsable w) (is_observed w id listed) h (disconnect_peer-AllUsable w id m h))

sync_fetched-AllUsable :
    (w : World) (client : Option Bytes) (fetched : Option (List PeerInfo)) (m : Manager)
    → AllUsable w m
    → AllUsable w (sync_fetched w client fetched m).1
unfolding sync_fetched
sync_fetched-AllUsable w none fetched m h = h
sync_fetched-AllUsable w (some host) none m h = h
sync_fetched-AllUsable w (some host) (some listed) m h =
    drop_unobserved-AllUsable w listed (sync_each w listed m).peers (sync_each w listed m)
      (sync_each-AllUsable w listed m h)

-- A sync keeps every connection at an endpoint whose host is not internal and whose port is from 1 to 65535,
-- whatever the server, the peers and the tunnel answer.
pub sync_peers_once-AllUsable :
    (w : World) (m : Manager) → AllUsable w m → AllUsable w (sync_peers_once w m).1
unfolding sync_peers_once
sync_peers_once-AllUsable w m h = sync_fetched-AllUsable w w.env.public_host w.fetched m h
