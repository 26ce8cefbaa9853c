-- ===== src/Api/Members.antt =====
-- The handlers of server/internal/api/member_handler.go.
use vpn_cloude.Base.{ℕ, Bool, Option, none, some, List, if◌then◌else◌, Bytes, bytes_equal, codes}
use vpn_cloude.Stdlib.Ip.{V6Text}
use vpn_cloude.Store.{Network, Row, Peer, Database, DbError, Answer, answer, fault}
use vpn_cloude.Store.Queries.{list_members, list_network_peers}
use vpn_cloude.Store.Updates.{approve_peer, reject_peer, delete_peer}
use vpn_cloude.Api.{
  Reply, refused, success, Checked, refuse, pass, missing_status, user_network, checked_member,
  hide_token, hide_tokens, used_ips, coordinator_ip,
}

abbrev pub approved : Bytes
approved = codes "approved"

unfoldable pub listed_members : Answer (List Peer) → Reply (List Peer)
listed_members (fault e) = refused 500
listed_members (answer members) = success 200 (hide_tokens members)

unfoldable pub list_checked : V6Text → Bool → List Row → Checked Network → Reply (List Peer)
list_checked v6 down rows (refuse status) = refused status
list_checked v6 down rows (pass network) = listed_members (list_members v6 down network.id rows)

unfoldable pub handle_list_members :
    V6Text → (ℕ → Bool) → Option Bytes → Bytes → Database → Reply (List Peer)
handle_list_members v6 down user id db =
    list_checked v6 (down 1) db.peers (user_network (down 0) user id db.networks)

unfoldable pub approved_reply : Answer Peer × List Row → Reply Peer × List Row
approved_reply (fault e, rows) = (refused 500, rows)
approved_reply (answer peer, rows) = (success 200 (hide_token peer), rows)

unfoldable pub approve_at : V6Text → Bool → Bytes → List Row → Option Bytes → Reply Peer × List Row
approve_at v6 down id rows none = (refused 409, rows)
approve_at v6 down id rows (some ip) = approved_reply (approve_peer v6 down id ip rows)

unfoldable pub approve_beside :
    V6Text → Bool → Bytes → Bytes → List Row → Answer (List Peer) → Reply Peer × List Row
approve_beside v6 down id cidr rows (fault e) = (refused 500, rows)
approve_beside v6 down id cidr rows (answer current) =
    approve_at v6 down id rows (coordinator_ip v6 cidr (used_ips current))

unfoldable pub approve_checked :
    V6Text → (ℕ → Bool) → Bytes → Database → Checked (Network × Peer) → Reply Peer × List Row
approve_checked v6 down id db (refuse status) = (refused status, db.peers)
approve_checked v6 down id db (pass (network, member)) =
    if bytes_equal member.status approved
    then (success 200 (hide_token member), db.peers)
    else approve_beside v6 (down 3) id network.cidr db.peers
        (list_network_peers v6 (down 2) db.networks network.id db.peers)

unfoldable pub approve_member :
    V6Text → (ℕ → Bool) → Option Bytes → Bytes → Bytes → Database → Reply Peer × List Row
approve_member v6 down user id member_id db =
    approve_checked v6 down member_id db
      (checked_member v6 (down 1) member_id db.peers (user_network (down 0) user id db.networks))

unfoldable pub rejected_reply : Answer Peer × List Row → Reply Bytes × List Row
rejected_reply (fault e, rows) = (refused (missing_status e), rows)
rejected_reply (answer peer, rows) = (success 200 (codes "rejected"), rows)

unfoldable pub reject_checked :
    V6Text → Bool → Bytes → List Row → Checked Network → Reply Bytes × List Row
reject_checked v6 down id rows (refuse status) = (refused status, rows)
reject_checked v6 down id rows (pass network) = rejected_reply (reject_peer v6 down id rows)

unfoldable pub reject_member :
    V6Text → (ℕ → Bool) → Option Bytes → Bytes → Bytes → Database → Reply Bytes × List Row
reject_member v6 down user id member_id db =
    reject_checked v6 (down 1) member_id db.peers (user_network (down 0) user id db.networks)

-- The reply of a statement that has no result.
unfoldable pub done_reply : Bytes → Option DbError × List Row → Reply Bytes × List Row
done_reply word (some e, rows) = (refused (missing_status e), rows)
done_reply word (none, rows) = (success 200 word, rows)

unfoldable pub kick_checked :
    Bool → Bytes → List Row → Checked (Network × Peer) → Reply Bytes × List Row
kick_checked down id rows (refuse status) = (refused status, rows)
kick_checked down id rows (pass member) = done_reply (codes "removed") (delete_peer down id rows)

unfoldable pub kick_member :
    V6Text → (ℕ → Bool) → Option Bytes → Bytes → Bytes → Database → Reply Bytes × List Row
kick_member v6 down user id member_id db =
    kick_checked (down 2) member_id db.peers
      (checked_member v6 (down 1) member_id db.peers (user_network (down 0) user id db.networks))
