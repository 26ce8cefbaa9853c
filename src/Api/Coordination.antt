-- ===== src/Api/Coordination.antt =====
-- The handlers of server/internal/api/coord_handler.go. What Redis returns is an input.
mod Listed
mod Tests
use vpn_cloude.Base.{
  ◌+◌, Bool, true, false, not, ◌&&◌, ◌||◌, Option, none, some, List, [], ◌∷◌, ltb, ◌==◌,
  if◌then◌else◌, Bytes, bytes_equal, codes,
}
use vpn_cloude.Base.Select.{keep, order_by}
use vpn_cloude.Stdlib.Text.{is_empty, trim_space}
use vpn_cloude.Stdlib.Ip.{V6Text}
use vpn_cloude.Store.{Peer, Database, Answer, answer, fault}
use vpn_cloude.Store.Queries.{get_online_peers}
use vpn_cloude.Api.{Reply, refused, success}
use vpn_cloude.Api.Tunnel.{CoordEntry, CacheCommand, put_entry}

-- The entry that is stored for 60 seconds.
unfoldable pub announced_entry : CoordEntry → CoordEntry
announced_entry req = record req {
  peer_id = trim_space req.peer_id;
  network_id = trim_space req.network_id;
  public_endpoint = trim_space req.public_endpoint;
}

unfoldable pub store_entry : Bool → CoordEntry → Reply Bytes × List CacheCommand
store_entry stored entry =
    if is_empty entry.peer_id || is_empty entry.network_id || is_empty entry.public_endpoint
    then (refused 400, [])
    else (if stored then success 200 (codes "announced") else refused 500, put_entry entry ∷ [])

unfoldable pub announce_body : Bool → Option CoordEntry → Reply Bytes × List CacheCommand
announce_body stored none = (refused 400, [])
announce_body stored (some req) = store_entry stored (announced_entry req)

-- `Announce`, with whether there is a cache and whether it took the pipeline.
unfoldable pub coord_announce : Bool → Bool → Option CoordEntry → Reply Bytes × List CacheCommand
coord_announce redis stored body = if redis then announce_body stored body else (refused 503, [])

-- The entry of an id in the index: it is gone and leaves the index, it cannot be read, or it is read.
pub data CachedEntry : Type 0 where
  expired unreadable_entry : CachedEntry
  cached : CoordEntry → CachedEntry

unfoldable pub update_endpoints : CoordEntry → List Peer → List Peer
update_endpoints entry [] = []
update_endpoints entry (peer ∷ peers) =
    (if bytes_equal peer.id entry.peer_id
      then record peer {
        public_endpoint = entry.public_endpoint;
        local_endpoints = entry.local_endpoints;
      }
      else peer)
    ∷ update_endpoints entry peers

-- The peers with what one entry of the index gave, and the ids that left the index.
unfoldable pub apply_entry : Bytes → CachedEntry → List Peer × List Bytes → List Peer × List Bytes
apply_entry id expired (peers, removed) = (peers, id ∷ removed)
apply_entry id unreadable_entry (peers, removed) = (peers, removed)
apply_entry id (cached entry) (peers, removed) = (update_endpoints entry peers, removed)

unfoldable pub apply_index :
    (Bytes → CachedEntry) → List Bytes → List Peer × List Bytes → List Peer × List Bytes
apply_index entry_of [] found = found
apply_index entry_of (id ∷ ids) found =
    apply_index entry_of ids (apply_entry id (entry_of id) found)

-- `<` on strings.
unfoldable pub text_before : Bytes → Bytes → Bool
text_before s [] = false
text_before [] (d ∷ t) = true
text_before (c ∷ s) (d ∷ t) = ltb c d || ((c == d) && text_before s t)

-- Peers of one name are in an order that the code leaves to its map.
unfoldable pub coord_items : Bytes → List Peer × List Bytes → Reply (List Peer) × List Bytes
coord_items exclude (peers, removed) = (
  success 200 (
      order_by (λ a b. text_before a.name b.name)
        (keep (λ peer. is_empty exclude || not (bytes_equal peer.id exclude)) peers)),
  removed,
)

unfoldable pub coord_index :
    (Bytes → CachedEntry)
    → Bytes
    → Option (List Bytes)
    → Answer (List Peer)
    → Reply (List Peer) × List Bytes
coord_index entry_of exclude index (fault e) = (refused 500, [])
coord_index entry_of exclude none (answer online) = (refused 500, [])
coord_index entry_of exclude (some ids) (answer online) =
    coord_items exclude (apply_index entry_of ids (online, []))

-- `ListPeers`: the reply, and the ids that are removed from the index.
unfoldable pub coord_list_peers :
    V6Text
    → Bool
    → Bool
    → (Bytes → Option (List Bytes))
    → (Bytes → CachedEntry)
    → Bytes
    → Bytes
    → Database
    → Reply (List Peer) × List Bytes
coord_list_peers v6 redis down index entry_of id peer_id db =
    let network_id = trim_space id in
    if not redis
    then (refused 503, [])
    else if is_empty network_id
    then (refused 400, [])
    else coord_index entry_of (trim_space peer_id) (index network_id)
        (get_online_peers v6 down db.networks network_id db.peers)
