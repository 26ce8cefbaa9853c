-- ===== src/Api/Refusals.antt =====
-- Requests that the handlers of server/internal/api refuse.
use vpn_cloude.Base.{
  ℕ, refl, Bool, not, ◌||◌, Option, none, some, List, [], ltb, length, Bytes, bytes_equal, codes,
  if_split,
}
use vpn_cloude.Stdlib.Text.{is_empty}
use vpn_cloude.Stdlib.Ip.{V6Text}
use vpn_cloude.Store.{Network, Row, Peer, Database, Answer, answer, fault}
use vpn_cloude.Store.Register.{Moment}
use vpn_cloude.Store.Updates.{PeerStatusUpdate}
use vpn_cloude.Store.Atomic.{IsAtomic, register_peer-IsAtomic, register_pending_peer-IsAtomic}
use vpn_cloude.Api.Members.{approved, approve_member, reject_member, kick_member}
use vpn_cloude.Api.Devices.{member_heartbeat, member_announce}
use vpn_cloude.Api.Join.{
  JoinRequest, JoinResponse, joined, join_at, join_beside, join_new, join_known, join_network,
  join_clean, join, clean_request,
}
use vpn_cloude.Api.Agents.{unregister_peer, heartbeat}
use vpn_cloude.Api.Tunnel.{tunnel_heartbeat}
use vpn_cloude.Api.Safe.{
  IsSafe, approve_checked-IsSafe, reject_checked-IsSafe, kick_checked-IsSafe, update_checked-IsSafe,
  heartbeat_checked-IsSafe, unregister_checked-IsSafe, tunnel_heartbeat_checked-IsSafe,
}

joined-IsSafe :
    (network : Network) (status ip : Bytes) (rows : List Row) (out : Answer Peer × List Row)
    → IsAtomic rows out
    → IsSafe rows (joined network status ip out)
unfolding joined
joined-IsSafe network status ip rows (fault e, after) h = h
joined-IsSafe network status ip rows (answer peer, after) h = tt

join_at-IsSafe :
    (v6 : V6Text) (m : Moment) (down : Bool) (network : Network) (req : JoinRequest)
    (rows : List Row) (ip : Option Bytes)
    → IsSafe rows (join_at v6 m down network req rows ip)
unfolding join_at
join_at-IsSafe v6 m down network req rows none = refl
join_at-IsSafe v6 m down network req rows (some ip) =
    joined-IsSafe network approved ip rows _ (register_peer-IsAtomic v6 m down _ rows)

join_beside-IsSafe :
    (v6 : V6Text) (m : Moment) (down : Bool) (network : Network) (req : JoinRequest)
    (rows : List Row) (current : Answer (List Peer))
    → IsSafe rows (join_beside v6 m down network req rows current)
unfolding join_beside
join_beside-IsSafe v6 m down network req rows (fault e) = refl
join_beside-IsSafe v6 m down network req rows (answer current) =
    join_at-IsSafe v6 m down network req rows _

join_new-IsSafe :
    (v6 : V6Text) (m : Moment) (down : ℕ → Bool) (network : Network) (req : JoinRequest)
    (db : Database)
    → IsSafe db.peers (join_new v6 m down network req db)
unfolding join_new
join_new-IsSafe v6 m down network req db =
    if_split (IsSafe {A = JoinResponse} db.peers) (ltb (length req.wg_public_key) 12)
      (λ short. refl)
      (λ long.
        if_split (IsSafe {A = JoinResponse} db.peers)
          (bytes_equal network.access_control (codes "auto"))
          (λ auto. join_beside-IsSafe v6 m (down 3) network req db.peers _)
          (λ manual.
            joined-IsSafe network (codes "pending") [] db.peers _
              (register_pending_peer-IsAtomic v6 m (down 2) _ db.peers)))

join_known-IsSafe :
    (v6 : V6Text) (m : Moment) (down : ℕ → Bool) (network : Network) (req : JoinRequest)
    (db : Database) (existing : Answer Peer)
    → IsSafe db.peers (join_known v6 m down network req db existing)
unfolding join_known
join_known-IsSafe v6 m down network req db (answer existing) = tt
join_known-IsSafe v6 m down network req db (fault e) = join_new-IsSafe v6 m down network req db

join_network-IsSafe :
    (v6 : V6Text) (m : Moment) (down : ℕ → Bool) (req : JoinRequest) (db : Database)
    (network : Answer Network)
    → IsSafe db.peers (join_network v6 m down req db network)
unfolding join_network
join_network-IsSafe v6 m down req db (fault e) = refl
join_network-IsSafe v6 m down req db (answer network) =
    if_split (IsSafe {A = JoinResponse} db.peers) (not network.is_active) (λ inactive. refl)
      (λ active. join_known-IsSafe v6 m down network req db _)

join_clean-IsSafe :
    (v6 : V6Text) (m : Moment) (down : ℕ → Bool) (req : JoinRequest) (db : Database)
    → IsSafe db.peers (join_clean v6 m down req db)
unfolding join_clean
join_clean-IsSafe v6 m down req db =
    if_split (IsSafe {A = JoinResponse} db.peers)
      (is_empty req.network_id || is_empty req.wg_public_key) (λ empty. refl)
      (λ full. join_network-IsSafe v6 m down req db _)

join-IsSafe :
    (v6 : V6Text) (goos goarch : Bytes) (m : Moment) (down : ℕ → Bool) (body : Option JoinRequest)
    (db : Database)
    → IsSafe db.peers (join v6 goos goarch m down body db)
unfolding join
join-IsSafe v6 goos goarch m down none db = refl
join-IsSafe v6 goos goarch m down (some req) db =
    join_clean-IsSafe v6 m down (clean_request goos goarch req) db

-- Whoever asks and whatever statement fails, a refused request to approve, reject or kick a member, to
-- report a status, to unregister or to join leaves the table of peers as it was.
pub refusals-IsSafe :
    (v6 : V6Text) (now : ℕ) (m : Moment) (down : ℕ → Bool) (user : Option Bytes)
    (id peer_id header goos goarch : Bytes) (machine_id : Option Bytes)
    (status : Option PeerStatusUpdate) (body : Option JoinRequest) (db : Database)
    → IsSafe db.peers (approve_member v6 down user id peer_id db)
      × IsSafe db.peers (reject_member v6 down user id peer_id db)
      × IsSafe db.peers (kick_member v6 down user id peer_id db)
      × IsSafe db.peers (heartbeat v6 now down user id peer_id status db)
      × IsSafe db.peers (unregister_peer down user id machine_id db)
      × IsSafe db.peers (member_heartbeat v6 now down peer_id header status db)
      × IsSafe db.peers (member_announce v6 now down peer_id header status db)
      × IsSafe db.peers (tunnel_heartbeat v6 now down peer_id header status db.peers)
      × IsSafe db.peers (join v6 goos goarch m down body db)
unfolding approve_member reject_member kick_member heartbeat unregister_peer member_heartbeat
    member_announce tunnel_heartbeat
refusals-IsSafe v6 now m down user id peer_id header goos goarch machine_id status body db = (
  approve_checked-IsSafe v6 down peer_id db _,
  reject_checked-IsSafe v6 (down 1) peer_id db.peers _,
  kick_checked-IsSafe (down 2) peer_id db.peers _,
  heartbeat_checked-IsSafe v6 now (down 2) peer_id db.peers status _,
  unregister_checked-IsSafe (down 1) db machine_id _,
  update_checked-IsSafe v6 now (down 1) _ _ db.peers status _,
  update_checked-IsSafe v6 now (down 1) _ _ db.peers status _,
  tunnel_heartbeat_checked-IsSafe v6 now (down 1) status db.peers _,
  join-IsSafe v6 goos goarch m down body db,
)
