-- ===== src/Api.antt =====
-- What the handlers of server/internal/api share: replies, the check of the owner and the choice of an
-- address (server/internal/coordinator/ip_allocator.go). The statements of a request are numbered in the order
-- in which the handler issues them, and `down n` tells that statement n fails for a reason outside the tables.
pub mod Members
pub mod Devices
pub mod Join
pub mod Registration
pub mod Apart
pub mod Registered
pub mod Agents
pub mod Tunnel
pub mod Coordination
pub mod Safe
mod Refusals
pub mod Owner
pub mod Approval
pub mod Visible
pub mod Access
pub mod Samples
mod Tests
mod DeviceTests
mod MachineTests
pub mod Networks
use vpn_cloude.Base.{
  ℕ, Bool, not, ◌&&◌, Option, none, some, List, [], ◌∷◌, if◌then◌else◌, Bytes, bytes_equal, codes,
}
use vpn_cloude.Base.Select.{keep}
use vpn_cloude.Stdlib.Text.{is_empty}
use vpn_cloude.Stdlib.Ip.{V6Text}
use vpn_cloude.Netutil.{allocate_ip}
use vpn_cloude.Store.{
  Network, Row, Peer, DbError, Answer, answer, fault, not_found, ip_conflict, failed,
}
use vpn_cloude.Store.Networks.{get_network}
use vpn_cloude.Store.Queries.{get_peer}

-- `writeError` with a status, or `writeSuccess` with a status and the data.
pub data Reply {ℓ} (A : Type ℓ) : Type ℓ where
  refused : ℕ → Reply A
  success : ℕ → A → Reply A

-- A guard of a handler: it ends the request with a status, or lets it go on.
pub data Checked {ℓ} (A : Type ℓ) : Type ℓ where
  refuse : ℕ → Checked A
  pass : A → Checked A

abbrev pub missing_status : DbError → ℕ
missing_status not_found = 404
missing_status ip_conflict = 500
missing_status failed = 500

-- The network, if the user owns it.
unfoldable pub owned_network : Bytes → Answer Network → Checked Network
owned_network user (fault e) = refuse (missing_status e)
owned_network user (answer network) =
    if bytes_equal network.owner_id user then pass network else refuse 403

unfoldable pub user_network : Bool → Option Bytes → Bytes → List Network → Checked Network
user_network down none id networks = refuse 401
user_network down (some user) id networks = owned_network user (get_network down id networks)

-- The peer of a network.
unfoldable pub network_member : Network → Answer Peer → Checked (Network × Peer)
network_member network (fault e) = refuse (missing_status e)
network_member network (answer member) =
    if bytes_equal member.network_id network.id then pass (network, member) else refuse 404

-- The member that the guard of the network lets through.
unfoldable pub checked_member :
    V6Text → Bool → Bytes → List Row → Checked Network → Checked (Network × Peer)
checked_member v6 down id rows (refuse status) = refuse status
checked_member v6 down id rows (pass network) = network_member network (get_peer v6 down id rows)

unfoldable pub hide_token : Peer → Peer
hide_token peer = record peer { member_token = [] }

unfoldable pub hide_tokens : List Peer → List Peer
hide_tokens [] = []
hide_tokens (peer ∷ peers) = hide_token peer ∷ hide_tokens peers

-- The addresses that are assigned.
unfoldable pub used_ips : List Peer → List Bytes
used_ips [] = []
used_ips (peer ∷ peers) =
    let rest = used_ips peers in
    if not (is_empty peer.virtual_ip) && not (bytes_equal peer.virtual_ip (codes "0.0.0.0"))
    then peer.virtual_ip ∷ rest
    else rest

-- `AllocateIP` of the coordinator: an error if no address is left.
unfoldable pub coordinator_ip : V6Text → Bytes → List Bytes → Option Bytes
coordinator_ip v6 cidr used =
    let allocated = allocate_ip v6 cidr used in if is_empty allocated then none else some allocated
