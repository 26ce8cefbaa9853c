-- ===== src/Store/Queries.antt =====
-- The queries of server/internal/database/queries/peers.go, as functions of the tables.
use vpn_cloude.Base.{
  ℕ, Bool, true, false, ◌&&◌, Option, none, some, List, [], ◌∷◌, ltb, Bytes, bytes_equal, codes,
}
use vpn_cloude.Base.Select.{any, find, keep, order_by}
use vpn_cloude.Stdlib.Ip.{V6Text}
use vpn_cloude.Store.{Network, Row, Peer, Answer, answer, fault, not_found, unless_down, scan_peer}
use vpn_cloude.Store.Constraints.{has_id, is_token}
use vpn_cloude.Store.Networks.{is_named}

abbrev pub scanned : V6Text → Option Row → Answer Peer
scanned v6 none = fault not_found
scanned v6 (some row) = answer (scan_peer v6 row)

unfoldable pub scan_all : V6Text → List Row → List Peer
scan_all v6 [] = []
scan_all v6 (row ∷ rows) = scan_peer v6 row ∷ scan_all v6 rows

unfoldable pub get_peer : V6Text → Bool → Bytes → List Row → Answer Peer
get_peer v6 down id rows = unless_down down (scanned v6 (find (has_id id) rows))

unfoldable pub get_peer_by_member_token : V6Text → Bool → Bytes → List Row → Answer Peer
get_peer_by_member_token v6 down token rows =
    unless_down down (scanned v6 (find (λ row. is_token token row.member_token) rows))

unfoldable pub get_peer_by_public_key : V6Text → Bool → Bytes → Bytes → List Row → Answer Peer
get_peer_by_public_key v6 down network_id public_key rows = unless_down down (
    scanned v6 (
      find (λ row. bytes_equal row.network_id network_id && bytes_equal row.public_key public_key)
        rows))

-- `network_id IN (SELECT id FROM networks ...)`.
abbrev pub in_network : List Network → Bytes → Row → Bool
in_network networks id row =
    any (λ network. is_named id network && bytes_equal network.id row.network_id) networks

unfoldable pub list_network_peers :
    V6Text → Bool → List Network → Bytes → List Row → Answer (List Peer)
list_network_peers v6 down networks id rows = unless_down down (
    answer (
      scan_all v6
        (order_by (λ a b. ltb a.created_at b.created_at) (keep (in_network networks id) rows))))

unfoldable pub list_members : V6Text → Bool → Bytes → List Row → Answer (List Peer)
list_members v6 down id rows = unless_down down (
    answer (
      scan_all v6 (
        order_by (λ a b. ltb a.created_at b.created_at)
          (keep (λ row. bytes_equal row.network_id id) rows))))

-- Later first, and NULL before all, as in ORDER BY last_seen DESC.
abbrev seen_later : Option ℕ → Option ℕ → Bool
seen_later none none = false
seen_later none (some t) = true
seen_later (some s) none = false
seen_later (some s) (some t) = ltb t s

abbrev pub is_listed_online : List Network → Bytes → Row → Bool
is_listed_online networks id row =
    in_network networks id row && row.is_online && bytes_equal row.status (codes "approved")

abbrev pub online_rows : List Network → Bytes → List Row → List Row
online_rows networks id rows =
    order_by (λ a b. seen_later a.last_seen b.last_seen) (keep (is_listed_online networks id) rows)

unfoldable pub get_online_peers :
    V6Text → Bool → List Network → Bytes → List Row → Answer (List Peer)
get_online_peers v6 down networks id rows =
    unless_down down (answer (scan_all v6 (online_rows networks id rows)))
