-- ===== src/Api/Safe.antt =====
-- Refusals by the handlers of server/internal/api for members and agents.
use vpn_cloude.Base.{
  ℕ, ◌≡◌, refl, Bool, Option, none, some, List, Bytes, bytes_equal, codes, if_split,
}
use vpn_cloude.Stdlib.Text.{is_empty, trim_space}
use vpn_cloude.Stdlib.Ip.{V6Text}
use vpn_cloude.Store.{
  Network, Row, Peer, Database, DbError, Answer, answer, fault, not_found, ip_conflict, failed,
}
use vpn_cloude.Store.Updates.{
  PeerStatusUpdate, approve_peer, reject_peer, delete_peer, update_peer_status,
  delete_peer_by_machine_id,
}
use vpn_cloude.Store.Atomic.{
  IsAtomic, IsAtomicUpdate, update_row-IsAtomic, update_peer_status-IsAtomic, delete_rows-IsAtomic,
}
use vpn_cloude.Api.{Reply, refused, success, Checked, refuse, pass}
use vpn_cloude.Api.Members.{
  approved, approved_reply, approve_at, approve_beside, approve_checked, rejected_reply,
  reject_checked, done_reply, kick_checked,
}
use vpn_cloude.Api.Devices.{update_checked}
use vpn_cloude.Api.Agents.{unregistered_reply, unregister_checked, heartbeat_checked}
use vpn_cloude.Api.Tunnel.{tunnel_updated, tunnel_heartbeat_checked}

-- A request that is refused leaves the table as it was.
abbrev pub IsSafe {ℓ} : {A : Type ℓ} → List Row → Reply A × List Row → Type 0
IsSafe rows (refused status, after) = after ≡ rows
IsSafe rows (success status a, after) = Unit

pub approved_reply-IsSafe :
    (rows : List Row) (out : Answer Peer × List Row)
    → IsAtomic rows out
    → IsSafe rows (approved_reply out)
unfolding approved_reply
approved_reply-IsSafe rows (fault e, after) h = h
approved_reply-IsSafe rows (answer peer, after) h = tt

pub approve_at-IsSafe :
    (v6 : V6Text) (down : Bool) (id : Bytes) (rows : List Row) (ip : Option Bytes)
    → IsSafe rows (approve_at v6 down id rows ip)
unfolding approve_at approve_peer
approve_at-IsSafe v6 down id rows none = refl
approve_at-IsSafe v6 down id rows (some ip) =
    approved_reply-IsSafe rows (approve_peer v6 down id ip rows)
      (update_row-IsAtomic v6 down id _ rows)

pub approve_beside-IsSafe :
    (v6 : V6Text) (down : Bool) (id cidr : Bytes) (rows : List Row) (current : Answer (List Peer))
    → IsSafe rows (approve_beside v6 down id cidr rows current)
unfolding approve_beside
approve_beside-IsSafe v6 down id cidr rows (fault e) = refl
approve_beside-IsSafe v6 down id cidr rows (answer current) = approve_at-IsSafe v6 down id rows _

pub approve_checked-IsSafe :
    (v6 : V6Text) (down : ℕ → Bool) (id : Bytes) (db : Database) (member : Checked (Network × Peer))
    → IsSafe db.peers (approve_checked v6 down id db member)
unfolding approve_checked
approve_checked-IsSafe v6 down id db (refuse status) = refl
approve_checked-IsSafe v6 down id db (pass (network, member)) =
    if_split (IsSafe {A = Peer} db.peers) (bytes_equal member.status approved) (λ yes. tt)
      (λ no. approve_beside-IsSafe v6 (down 3) id network.cidr db.peers _)

pub rejected_reply-IsSafe :
    (rows : List Row) (out : Answer Peer × List Row)
    → IsAtomic rows out
    → IsSafe rows (rejected_reply out)
unfolding rejected_reply
rejected_reply-IsSafe rows (fault e, after) h = h
rejected_reply-IsSafe rows (answer peer, after) h = tt

pub reject_checked-IsSafe :
    (v6 : V6Text) (down : Bool) (id : Bytes) (rows : List Row) (network : Checked Network)
    → IsSafe rows (reject_checked v6 down id rows network)
unfolding reject_checked reject_peer
reject_checked-IsSafe v6 down id rows (refuse status) = refl
reject_checked-IsSafe v6 down id rows (pass network) =
    rejected_reply-IsSafe rows (reject_peer v6 down id rows) (update_row-IsAtomic v6 down id _ rows)

pub done_reply-IsSafe :
    (word : Bytes) (rows : List Row) (out : Option DbError × List Row)
    → IsAtomicUpdate rows out
    → IsSafe rows (done_reply word out)
unfolding done_reply
done_reply-IsSafe word rows (some e, after) h = h
done_reply-IsSafe word rows (none, after) h = tt

pub kick_checked-IsSafe :
    (down : Bool) (id : Bytes) (rows : List Row) (member : Checked (Network × Peer))
    → IsSafe rows (kick_checked down id rows member)
unfolding kick_checked delete_peer
kick_checked-IsSafe down id rows (refuse status) = refl
kick_checked-IsSafe down id rows (pass member) =
    done_reply-IsSafe (codes "removed") rows (delete_peer down id rows)
      (delete_rows-IsAtomic down _ rows)

pub update_checked-IsSafe :
    (v6 : V6Text) (now : ℕ) (down : Bool) (word : Bytes)
    (status : PeerStatusUpdate → PeerStatusUpdate) (rows : List Row)
    (body : Option PeerStatusUpdate) (peer : Checked Peer)
    → IsSafe rows (update_checked v6 now down word status rows body peer)
unfolding update_checked
update_checked-IsSafe v6 now down word status rows body (refuse code) = refl
update_checked-IsSafe v6 now down word status rows none (pass peer) = refl
update_checked-IsSafe v6 now down word status rows (some req) (pass peer) =
    done_reply-IsSafe word rows (update_peer_status v6 now down peer.id (status req) rows)
      (update_peer_status-IsAtomic v6 now down peer.id (status req) rows)

pub heartbeat_checked-IsSafe :
    (v6 : V6Text) (now : ℕ) (down : Bool) (id : Bytes) (rows : List Row)
    (body : Option PeerStatusUpdate) (member : Checked (Network × Peer))
    → IsSafe rows (heartbeat_checked v6 now down id rows body member)
unfolding heartbeat_checked
heartbeat_checked-IsSafe v6 now down id rows body (refuse code) = refl
heartbeat_checked-IsSafe v6 now down id rows none (pass member) = refl
heartbeat_checked-IsSafe v6 now down id rows (some req) (pass member) =
    done_reply-IsSafe (codes "updated") rows _ (update_peer_status-IsAtomic v6 now down id _ rows)

pub unregistered_reply-IsSafe :
    (rows : List Row) (out : Option DbError × List Row)
    → IsAtomicUpdate rows out
    → IsSafe rows (unregistered_reply out)
unfolding unregistered_reply
unregistered_reply-IsSafe rows (none, after) h = tt
unregistered_reply-IsSafe rows (some not_found, after) h = tt
unregistered_reply-IsSafe rows (some ip_conflict, after) h = h
unregistered_reply-IsSafe rows (some failed, after) h = h

pub unregister_checked-IsSafe :
    (down : Bool) (db : Database) (body : Option Bytes) (network : Checked Network)
    → IsSafe db.peers (unregister_checked down db body network)
unfolding unregister_checked delete_peer_by_machine_id
unregister_checked-IsSafe down db body (refuse status) = refl
unregister_checked-IsSafe down db none (pass network) = refl
unregister_checked-IsSafe down db (some machine_id) (pass network) =
    if_split (IsSafe {A = Bytes} db.peers) (is_empty (trim_space machine_id)) (λ yes. refl)
      (λ no. unregistered_reply-IsSafe db.peers _ (delete_rows-IsAtomic down _ db.peers))

pub tunnel_updated-IsSafe :
    (rows : List Row) (out : Option DbError × List Row)
    → IsAtomicUpdate rows out
    → IsSafe rows (tunnel_updated out)
unfolding tunnel_updated
tunnel_updated-IsSafe rows (some e, after) h = h
tunnel_updated-IsSafe rows (none, after) h = tt

pub tunnel_heartbeat_checked-IsSafe :
    (v6 : V6Text) (now : ℕ) (down : Bool) (body : Option PeerStatusUpdate) (rows : List Row)
    (peer : Checked Peer)
    → IsSafe rows (tunnel_heartbeat_checked v6 now down body rows peer)
unfolding tunnel_heartbeat_checked
tunnel_heartbeat_checked-IsSafe v6 now down body rows (refuse code) = refl
tunnel_heartbeat_checked-IsSafe v6 now down none rows (pass peer) = refl
tunnel_heartbeat_checked-IsSafe v6 now down (some req) rows (pass peer) =
    tunnel_updated-IsSafe rows _ (update_peer_status-IsAtomic v6 now down peer.id _ rows)
