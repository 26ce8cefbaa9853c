-- ===== src/Store/Updates.antt =====
-- The updates and deletions of server/internal/database/queries/peers.go, as functions of the tables.
use vpn_cloude.Base.{
  ℕ, ◌+◌, Bool, true, false, not, ◌&&◌, Option, none, some, List, [], ◌∷◌, ltb, if◌then◌else◌,
  Bytes, bytes_equal, codes,
}
use vpn_cloude.Base.Select.{any, find, keep}
use vpn_cloude.Stdlib.Ip.{V6Text}
use vpn_cloude.Store.{
  Network, Row, Peer, DbError, Answer, answer, fault, not_found, ip_conflict, failed,
}
use vpn_cloude.Store.Constraints.{has_id, null_if_empty, put_row}
use vpn_cloude.Store.Queries.{in_network}

pub record PeerStatusUpdate : Type 0 where
  pub public_endpoint : Bytes
  pub local_endpoints : List Bytes
  pub vnc_available : Bool
  pub rx_bytes : ℕ
  pub tx_bytes : ℕ
  pub relay_id : Bytes

-- UPDATE of a row, if it is there.
unfoldable pub update_found : V6Text → (Row → Row) → List Row → Option Row → Answer Peer × List Row
update_found v6 f rows none = (fault not_found, rows)
update_found v6 f rows (some row) = put_row v6 (f row) rows

-- UPDATE of the row with an id.
unfoldable pub update_row : V6Text → Bool → Bytes → (Row → Row) → List Row → Answer Peer × List Row
update_row v6 down id f rows =
    if down then (fault failed, rows) else update_found v6 f rows (find (has_id id) rows)

abbrev pub approved_row : Bytes → Row → Row
approved_row virtual_ip row = record row {
  status = codes "approved";
  virtual_ip = virtual_ip;
  is_online = false;
}

unfoldable pub approve_peer : V6Text → Bool → Bytes → Bytes → List Row → Answer Peer × List Row
approve_peer v6 down id virtual_ip = update_row v6 down id (approved_row virtual_ip)

unfoldable pub reject_peer : V6Text → Bool → Bytes → List Row → Answer Peer × List Row
reject_peer v6 down id = update_row v6 down id (λ row. record row { status = codes "rejected" })

unfoldable pub mark_peer_offline : V6Text → Bool → Bytes → List Row → Answer Peer × List Row
mark_peer_offline v6 down id = update_row v6 down id (λ row. record row { is_online = false })

unfoldable pub updated_row : ℕ → PeerStatusUpdate → Row → Row
updated_row now s row = record row {
  public_endpoint = some s.public_endpoint;
  local_endpoints = s.local_endpoints;
  vnc_available = s.vnc_available;
  rx_bytes = s.rx_bytes;
  tx_bytes = s.tx_bytes;
  relay_id = null_if_empty s.relay_id;
  is_online = true;
  last_seen = some now;
}

-- The code does not look at the number of rows: a missing row is no error.
abbrev pub ignore_missing : List Row → Answer Peer × List Row → Option DbError × List Row
ignore_missing rows (answer peer, after) = (none, after)
ignore_missing rows (fault not_found, after) = (none, after)
ignore_missing rows (fault ip_conflict, after) = (some ip_conflict, after)
ignore_missing rows (fault failed, after) = (some failed, after)

unfoldable pub update_peer_status :
    V6Text → ℕ → Bool → Bytes → PeerStatusUpdate → List Row → Option DbError × List Row
update_peer_status v6 now down id s rows =
    ignore_missing rows (update_row v6 down id (updated_row now s) rows)

-- DELETE of the rows that pass a test, with the error if there is none.
unfoldable pub delete_rows : Bool → (Row → Bool) → List Row → Option DbError × List Row
delete_rows down test rows =
    if down
    then (some failed, rows)
    else if any test rows
    then (none, keep (λ row. not (test row)) rows)
    else (some not_found, rows)

unfoldable pub delete_peer : Bool → Bytes → List Row → Option DbError × List Row
delete_peer down id = delete_rows down (has_id id)

unfoldable pub delete_peer_by_machine_id :
    Bool → List Network → Bytes → Bytes → List Row → Option DbError × List Row
delete_peer_by_machine_id down networks id machine_id =
    delete_rows down (λ row. bytes_equal row.machine_id machine_id && in_network networks id row)

-- A row that was never seen has NULL there, which is before no time.
abbrev pub is_stale : ℕ → ℕ → Option ℕ → Bool
is_stale now stale_after none = false
is_stale now stale_after (some seen) = ltb (seen + stale_after) now

unfoldable pub expire_row : ℕ → ℕ → Row → Row
expire_row now stale_after row =
    if row.is_online && is_stale now stale_after row.last_seen
    then record row { is_online = false }
    else row

unfoldable pub expire_stale_peers : ℕ → ℕ → List Row → List Row
expire_stale_peers now stale_after [] = []
expire_stale_peers now stale_after (row ∷ rows) =
    expire_row now stale_after row ∷ expire_stale_peers now stale_after rows
