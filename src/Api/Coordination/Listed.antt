-- ===== src/Api/Coordination/Listed.antt =====
-- Which peers ListPeers of server/internal/api/coord_handler.go shows.
use vpn_cloude.Base.{
  ◌≡◌, refl, subst, Bool, true, not, ◌||◌, Option, none, some, List, [], ◌∷◌, Bytes, bytes_equal,
  All, if_both, arith, ℕ,
}
use vpn_cloude.Base.Select.{keep, keep-All, All-keep, order_by-All}
use vpn_cloude.Stdlib.Text.{is_empty, trim_space}
use vpn_cloude.Stdlib.Ip.{V6Text}
use vpn_cloude.Store.{Network, Peer, Database, Answer, answer, fault}
use vpn_cloude.Store.Queries.{get_online_peers}
use vpn_cloude.Api.{success}
use vpn_cloude.Api.Tunnel.{CoordEntry}
use vpn_cloude.Api.Visible.{IsOnlineIn, get_online_peers-IsOnlineIn}
use vpn_cloude.Api.Coordination.{
  CachedEntry, expired, unreadable_entry, cached, update_endpoints, apply_entry, apply_index,
  text_before, coord_items, coord_index, coord_list_peers,
}

module _ (networks : List Network) (id : Bytes) where
  update_endpoints-IsOnlineIn :
      (entry : CoordEntry) (peers : List Peer)
      → All (IsOnlineIn networks id) peers
      → All (IsOnlineIn networks id) (update_endpoints entry peers)
  unfolding update_endpoints
  update_endpoints-IsOnlineIn entry [] h = tt
  update_endpoints-IsOnlineIn entry (peer ∷ peers) h = (
    if_both (IsOnlineIn networks id) (bytes_equal peer.id entry.peer_id)
        (record { online = h.0.online; status = h.0.status; inside = h.0.inside }) h.0,
    update_endpoints-IsOnlineIn entry peers h.1,
  )

  apply_entry-IsOnlineIn :
      (key : Bytes) (found : CachedEntry) (peers : List Peer) (removed : List Bytes)
      → All (IsOnlineIn networks id) peers
      → All (IsOnlineIn networks id) (apply_entry key found (peers, removed)).0
  unfolding apply_entry
  apply_entry-IsOnlineIn key expired peers removed h = h
  apply_entry-IsOnlineIn key unreadable_entry peers removed h = h
  apply_entry-IsOnlineIn key (cached entry) peers removed h =
      update_endpoints-IsOnlineIn entry peers h

  apply_index-IsOnlineIn :
      (entry_of : Bytes → CachedEntry) (ids : List Bytes) (peers : List Peer) (removed : List Bytes)
      → All (IsOnlineIn networks id) peers
      → All (IsOnlineIn networks id) (apply_index entry_of ids (peers, removed)).0
  unfolding apply_index
  apply_index-IsOnlineIn entry_of [] peers removed h = h
  apply_index-IsOnlineIn entry_of (key ∷ ids) peers removed h =
      let next = apply_entry key (entry_of key) (peers, removed) in
      apply_index-IsOnlineIn entry_of ids next.0 next.1
        (apply_entry-IsOnlineIn key (entry_of key) peers removed h)

  -- Online and approved in the network, and not the one that is left out.
  abbrev pub IsItem : Bytes → Peer → Type 0
  IsItem exclude peer =
      IsOnlineIn networks id peer × ((is_empty exclude || not (bytes_equal peer.id exclude)) ≡ true)

  All-both :
      (P Q : Peer → Type 0) (peers : List Peer)
      → All P peers
      → All Q peers
      → All (λ peer. P peer × Q peer) peers
  All-both P Q [] p q = tt
  All-both P Q (peer ∷ peers) p q = ((p.0, q.0), All-both P Q peers p.1 q.1)

  coord_items-IsItem :
      (exclude : Bytes) (found : List Peer × List Bytes) (code : ℕ) (peers : List Peer)
      (gone : List Bytes)
      → All (IsOnlineIn networks id) found.0
      → coord_items exclude found ≡ (success code peers, gone)
      → All (IsItem exclude) peers
  unfolding coord_items
  coord_items-IsItem exclude (found, removed) code peers gone h shown =
      let test : Peer → Bool = λ peer. is_empty exclude || not (bytes_equal peer.id exclude) in
      let before : Peer → Peer → Bool = λ a b. text_before a.name b.name in
      subst (All (IsItem exclude)) (ground (arith, shown)) (
        order_by-All (IsItem exclude) before (keep test found) (
          All-both (IsOnlineIn networks id) (λ peer. test peer ≡ true) (keep test found)
            (All-keep (IsOnlineIn networks id) test found h)
            (keep-All (λ peer. test peer ≡ true) test found (λ peer passes. passes))))

  coord_index-IsItem :
      (entry_of : Bytes → CachedEntry) (exclude : Bytes) (index : Option (List Bytes))
      (found : Answer (List Peer)) (code : ℕ) (peers : List Peer) (gone : List Bytes)
      → ((online : List Peer) → found ≡ answer online → All (IsOnlineIn networks id) online)
      → coord_index entry_of exclude index found ≡ (success code peers, gone)
      → All (IsItem exclude) peers
  unfolding coord_index
  coord_index-IsItem entry_of exclude index (fault e) code peers gone h shown = absurd (cc shown)
  coord_index-IsItem entry_of exclude none (answer online) code peers gone h shown =
      absurd (cc shown)
  coord_index-IsItem entry_of exclude (some ids) (answer online) code peers gone h shown =
      coord_items-IsItem exclude (apply_index entry_of ids (online, [])) code peers gone
        (apply_index-IsOnlineIn entry_of ids online [] (h online refl)) shown

-- Whatever Redis holds, the coordinator lists only peers that are online and approved in the network that the path
-- names, and not the one that the query leaves out.
coord_list_peers-IsItem :
    (v6 : V6Text) (redis down : Bool) (index : Bytes → Option (List Bytes))
    (entry_of : Bytes → CachedEntry) (id peer_id : Bytes) (db : Database) (code : ℕ)
    (peers : List Peer) (gone : List Bytes)
    → coord_list_peers v6 redis down index entry_of id peer_id db ≡ (success code peers, gone)
    → All (IsItem db.networks (trim_space id) (trim_space peer_id)) peers
unfolding coord_list_peers
coord_list_peers-IsItem v6 redis down index entry_of id peer_id db code peers gone shown =
    coord_index-IsItem db.networks (trim_space id) entry_of (trim_space peer_id)
      (index (trim_space id)) (get_online_peers v6 down db.networks (trim_space id) db.peers) code
      peers gone (get_online_peers-IsOnlineIn v6 down db.networks (trim_space id) db.peers)
      (ground (arith, shown))
