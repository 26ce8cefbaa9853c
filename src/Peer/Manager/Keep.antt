-- ===== src/Peer/Manager/Keep.antt =====
-- The connections of client/internal/peer/manager.go that a sync leaves in place.
use vpn_cloude.Base.{
  ◌≡◌, refl, ◌∙◌, ap, true, false, not, ◌&&◌, Option, none, some, List, [], ◌∷◌, Bytes, bytes_equal,
  bytes_equal_iff, Bool-cases, Option-cases, if_both, inl, inr, arith,
}
use mathlib.Core.Option.{some-injective}
use vpn_cloude.Base.Assoc.{lookup, insert, lookup-insert}
use vpn_cloude.Stdlib.Text.{is_empty, trim_space}
use vpn_cloude.Peer.Endpoint.{PeerInfo, sanitize_endpoint}
use vpn_cloude.Peer.Manager.{
  PeerConnection, World, Manager, Candidate, PeerError, with_prefix, call, add_peer, try_candidates,
  fallback_candidates, add_peer_with_fallback, select_endpoint, connection, record_connection,
  connect_to_peer, refresh_peer, is_listed, sync_peer, sync_each, is_observed, sync_fetched,
  sync_peers_once,
}
use vpn_cloude.Peer.Manager.Sync.{drop_unobserved_lem}

-- The connection is there, with the key and the address of `conn`.
abbrev pub Kept : Bytes → PeerConnection → List (Bytes × PeerConnection) → Type 0
Kept id conn peers =
    (conn' : PeerConnection) × (lookup id peers ≡ some conn')
    × (conn'.public_key ≡ conn.public_key)
    × (conn'.virtual_ip ≡ conn.virtual_ip)

try_candidates-same :
    (w : World) (key allowed_ip : Bytes) (candidates : List Candidate) (m : Manager)
    → (try_candidates w key allowed_ip candidates m).1.peers ≡ m.peers
unfolding try_candidates
try_candidates-same w key allowed_ip [] m = refl
try_candidates-same w key allowed_ip ((endpoint, via) ∷ rest) m =
    let asked = call (add_peer key endpoint allowed_ip) m in
    if_both (λ (r : Option Candidate × Manager). r.1.peers ≡ m.peers)
      (w.add_ok key endpoint allowed_ip) refl (try_candidates-same w key allowed_ip rest asked)

-- Connecting to a peer leaves every other entry.
record_connection-others :
    (w : World) (peer : PeerInfo) (id : Bytes) (r : Option Candidate × Manager)
    → bytes_equal peer.id id ≡ false
    → lookup id (record_connection w peer r).1.peers ≡ lookup id r.1.peers
unfolding record_connection
record_connection-others w peer id (none, asked) other = refl
record_connection-others w peer id (some final, asked) other =
    ground (arith, other, lookup-insert peer.id id (connection w peer final) asked.peers)

connect_to_peer-others :
    (w : World) (peer : PeerInfo) (id : Bytes) (m : Manager)
    → bytes_equal peer.id id ≡ false
    → lookup id (connect_to_peer w peer m).1.peers ≡ lookup id m.peers
unfolding connect_to_peer add_peer_with_fallback
connect_to_peer-others w peer id m other =
    let P = (λ (o : Option PeerError × Manager). lookup id o.1.peers ≡ lookup id m.peers) in
    let (selected, via) = select_endpoint w peer in
    let endpoint = sanitize_endpoint w.env selected 51820 in
    let allowed_ip = trim_space peer.virtual_ip in
    let candidates = fallback_candidates w peer endpoint via in
    let key = with_prefix allowed_ip in
    if_both P (not w.tunnel_there) refl (
      if_both P (is_empty selected) refl (
        if_both P (is_empty endpoint) refl (
          if_both P (is_empty allowed_ip) refl (
            record_connection-others w peer id (try_candidates w peer.public_key key candidates m)
              other
            ∙ ap (lookup id) (try_candidates-same w peer.public_key key candidates m)))))

insert-Kept :
    (j id : Bytes) (old new conn : PeerConnection) (peers : List (Bytes × PeerConnection))
    → lookup j peers ≡ some old
    → new.public_key ≡ old.public_key
    → new.virtual_ip ≡ old.virtual_ip
    → Kept id conn peers
    → Kept id conn (insert j new peers)
insert-Kept j id old new conn peers present same_key same_ip (conn', found, key, ip) =
    elim (Bool-cases (bytes_equal j id)) [
      | inl hit ↦
          let there : some old ≡ some conn' =
            ground (arith, present, found, hit, bytes_equal_iff j id) in
          let same = some-injective _ _ there in
          (
            new,
            ground (arith, hit, lookup-insert j id new peers),
            same_key ∙ ap (λ (c : PeerConnection). c.public_key) same ∙ key,
            same_ip ∙ ap (λ (c : PeerConnection). c.virtual_ip) same ∙ ip,
          )
      | inr miss ↦ (conn', ground (arith, miss, found, lookup-insert j id new peers), key, ip)
    ]

refresh_peer-Kept :
    (w : World) (peer : PeerInfo) (existing : PeerConnection) (id : Bytes) (conn : PeerConnection)
    (m : Manager)
    → lookup peer.id m.peers ≡ some existing
    → Kept id conn m.peers
    → Kept id conn (refresh_peer w peer existing m).peers
unfolding refresh_peer
refresh_peer-Kept w peer existing id conn m present h =
    let (selected, via) = select_endpoint w peer in
    let endpoint = sanitize_endpoint w.env selected 51820 in
    let moved = record existing { endpoint = endpoint; connected_via = via; last_seen = w.now } in
    let seen = record existing { last_seen = w.now } in
    if_both (λ (x : Manager). Kept id conn x.peers)
      (not (is_empty endpoint) && not (bytes_equal endpoint existing.endpoint))
      (insert-Kept peer.id id existing moved conn m.peers present refl refl h)
      (insert-Kept peer.id id existing seen conn m.peers present refl refl h)

sync_peer-Kept :
    (w : World) (peer : PeerInfo) (id : Bytes) (conn : PeerConnection) (m : Manager)
    → Kept id conn m.peers
    → Kept id conn (sync_peer w peer m).peers
unfolding sync_peer
sync_peer-Kept w peer id conn m (conn', found, key, ip) =
    if_both (λ (x : Manager). Kept id conn x.peers) (not (is_listed w peer)) (conn', found, key, ip)
      (elim (Option-cases (lookup peer.id m.peers)) [
        | inl absent ↦ rw absent (
          conn',
          connect_to_peer-others w peer id m
                (ground (arith, bytes_equal_iff peer.id id, absent, found))
              ∙ found,
          key,
          ip,
        )
        | inr (existing, present) ↦
            rw present (refresh_peer-Kept w peer existing id conn m present (conn', found, key, ip))
      ])

sync_each-Kept :
    (w : World) (listed : List PeerInfo) (id : Bytes) (conn : PeerConnection) (m : Manager)
    → Kept id conn m.peers
    → Kept id conn (sync_each w listed m).peers
unfolding sync_each
sync_each-Kept w [] id conn m h = h
sync_each-Kept w (peer ∷ listed) id conn m h =
    sync_each-Kept w listed id conn (sync_peer w peer m) (sync_peer-Kept w peer id conn m h)

sync_fetched-Kept :
    (w : World) (client : Option Bytes) (fetched : Option (List PeerInfo)) (id : Bytes)
    (conn : PeerConnection) (m : Manager)
    → lookup id m.peers ≡ some conn
    → ((listed : List PeerInfo) → fetched ≡ some listed → is_observed w id listed ≡ true)
    → Kept id conn (sync_fetched w client fetched m).1.peers
unfolding sync_fetched
sync_fetched-Kept w none fetched id conn m found observed = (conn, found, refl, refl)
sync_fetched-Kept w (some host) none id conn m found observed = (conn, found, refl, refl)
sync_fetched-Kept w (some host) (some listed) id conn m found observed =
    let synced = sync_each w listed m in
    let (conn', found', key, ip) = sync_each-Kept w listed id conn m (conn, found, refl, refl) in
    (
      conn',
      ground (
        arith,
        observed listed refl,
        found',
        drop_unobserved_lem w listed synced.peers id synced,
      ),
      key,
      ip,
    )

-- A sync keeps a connection with its key and its address, unless the server sends a list without the peer.
pub sync_peers_once-Kept :
    (w : World) (m : Manager) (id : Bytes) (conn : PeerConnection)
    → lookup id m.peers ≡ some conn
    → ((listed : List PeerInfo) → w.fetched ≡ some listed → is_observed w id listed ≡ true)
    → Kept id conn (sync_peers_once w m).1.peers
unfolding sync_peers_once
sync_peers_once-Kept w m id conn found observed =
    sync_fetched-Kept w w.env.public_host w.fetched id conn m found observed
