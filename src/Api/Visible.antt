-- ===== src/Api/Visible.antt =====
-- What a device sees of the peers of its network (MemberPeers of server/internal/api/member_handler.go and
-- Peers of member_tunnel_handler.go).
use vpn_cloude.Base.{
  ℕ, ◌≡◌, ◌≢◌, refl, subst, Bool, true, false, not, ◌&&◌, List, [], ◌∷◌, Bytes, bytes_equal,
  bytes_equal_iff, All, if_both, arith,
}
use vpn_cloude.Base.Select.{any, keep, keep-All, All-keep, order_by-All}
use vpn_cloude.Stdlib.Text.{is_empty}
use vpn_cloude.Stdlib.Ip.{V6Text}
use vpn_cloude.Store.{Network, Row, Peer, Answer, answer, fault, scan_peer}
use vpn_cloude.Store.Networks.{is_named}
use vpn_cloude.Store.Queries.{scan_all, get_online_peers, is_listed_online, online_rows}
use vpn_cloude.Api.{success, hide_token, hide_tokens}
use vpn_cloude.Api.Members.{approved}
use vpn_cloude.Api.Devices.{other_approved, peers_listed}
use vpn_cloude.Api.Tunnel.{CoordEntry, merge_entry, merge_entries, tunnel_listed}

-- Online and approved, in an active network that the id names.
pub record IsOnlineIn (networks : List Network) (id : Bytes) (peer : Peer) : Type 0 where
  pub online : peer.is_online ≡ true
  pub status : peer.status ≡ approved
  pub inside :
      any (λ network. is_named id network && bytes_equal network.id peer.network_id) networks ≡ true

-- What a device may see: such a peer that is not itself, without its token.
pub record IsShown (networks : List Network) (id own : Bytes) (peer : Peer) : Type 0 where
  pub listed : IsOnlineIn networks id peer
  pub other : peer.id ≢ own
  pub hidden : peer.member_token ≡ []

approved_nonempty : (status : Bytes) → bytes_equal status approved ≡ true → is_empty status ≡ false
unfolding bytes_equal
approved_nonempty [] h = absurd (cc h)
approved_nonempty (c ∷ s) h = refl

scan_peer-IsOnlineIn :
    (v6 : V6Text) (networks : List Network) (id : Bytes) (row : Row)
    → is_listed_online networks id row ≡ true
    → IsOnlineIn networks id (scan_peer v6 row)
unfolding scan_peer
scan_peer-IsOnlineIn v6 networks id row h = record {
  online = ground (arith, h);
  status = ground (
    arith,
    h,
    bytes_equal_iff row.status approved,
    approved_nonempty row.status (ground (arith, h)),
  );
  inside = ground (arith, h);
}

scan_all-All :
    (v6 : V6Text) (P : Peer → Type 0) (rows : List Row)
    → All (λ row. P (scan_peer v6 row)) rows
    → All P (scan_all v6 rows)
unfolding scan_all
scan_all-All v6 P [] h = tt
scan_all-All v6 P (row ∷ rows) h = (h.0, scan_all-All v6 P rows h.1)

pub get_online_peers-IsOnlineIn :
    (v6 : V6Text) (down : Bool) (networks : List Network) (id : Bytes) (rows : List Row)
    (peers : List Peer)
    → get_online_peers v6 down networks id rows ≡ answer peers
    → All (IsOnlineIn networks id) peers
unfolding get_online_peers
get_online_peers-IsOnlineIn v6 true networks id rows peers h = absurd (cc h)
get_online_peers-IsOnlineIn v6 false networks id rows peers h =
    subst (All (IsOnlineIn networks id)) same (
      scan_all-All v6 (IsOnlineIn networks id) (online_rows networks id rows) (
        order_by-All (λ row. IsOnlineIn networks id (scan_peer v6 row)) _ _
          (keep-All (λ row. IsOnlineIn networks id (scan_peer v6 row))
            (is_listed_online networks id) rows (scan_peer-IsOnlineIn v6 networks id))))
  where
    same : scan_all v6 (online_rows networks id rows) ≡ peers
    same = ground (arith, h)

merge_entry-IsOnlineIn :
    (networks : List Network) (id : Bytes) (entry : CoordEntry) (peers : List Peer)
    → All (IsOnlineIn networks id) peers
    → All (IsOnlineIn networks id) (merge_entry entry peers)
unfolding merge_entry
merge_entry-IsOnlineIn networks id entry [] h = tt
merge_entry-IsOnlineIn networks id entry (peer ∷ peers) h = (
  if_both (IsOnlineIn networks id) (bytes_equal peer.id entry.peer_id)
      (record { online = h.0.online; status = h.0.status; inside = h.0.inside }) h.0,
  merge_entry-IsOnlineIn networks id entry peers h.1,
)

merge_entries-IsOnlineIn :
    (networks : List Network) (id : Bytes) (entries : List CoordEntry) (peers : List Peer)
    → All (IsOnlineIn networks id) peers
    → All (IsOnlineIn networks id) (merge_entries entries peers)
unfolding merge_entries
merge_entries-IsOnlineIn networks id [] peers h = h
merge_entries-IsOnlineIn networks id (entry ∷ entries) peers h =
    merge_entries-IsOnlineIn networks id entries (merge_entry entry peers)
      (merge_entry-IsOnlineIn networks id entry peers h)

-- Without the peer of an id, and without the tokens.
hide_tokens-IsShown :
    (networks : List Network) (id own : Bytes) (peers : List Peer)
    → All (IsOnlineIn networks id) peers
    → All (λ peer. not (bytes_equal peer.id own) ≡ true) peers
    → All (IsShown networks id own) (hide_tokens peers)
unfolding hide_tokens hide_token
hide_tokens-IsShown networks id own [] h other = tt
hide_tokens-IsShown networks id own (peer ∷ peers) h other = (
  record {
    listed = record { online = h.0.online; status = h.0.status; inside = h.0.inside };
    other = λ same. ground (arith, other.0, same, bytes_equal_iff peer.id own);
    hidden = refl;
  },
  hide_tokens-IsShown networks id own peers h.1 other.1,
)

-- What a query answers, shown to a device.
module _ (networks : List Network) (id own : Bytes) where
  pub tunnel_listed-IsShown :
      (entries : List CoordEntry) (found : Answer (List Peer)) (code : ℕ) (peers : List Peer)
      → ((listed : List Peer) → found ≡ answer listed → All (IsOnlineIn networks id) listed)
      → tunnel_listed own entries found ≡ (success code peers)
      → All (IsShown networks id own) peers
  unfolding tunnel_listed
  tunnel_listed-IsShown entries (fault e) code peers h shown = absurd (cc shown)
  tunnel_listed-IsShown entries (answer listed) code peers h shown =
      let merged = merge_entries entries listed in
      let test : Peer → Bool = λ peer. not (bytes_equal peer.id own) in
      subst (All (IsShown networks id own)) (ground (arith, shown)) (
        hide_tokens-IsShown networks id own (keep test merged)
          (All-keep (IsOnlineIn networks id) test merged
            (merge_entries-IsOnlineIn networks id entries listed (h listed refl)))
          (keep-All (λ peer. test peer ≡ true) test merged (λ peer passes. passes)))

  pub peers_listed-IsShown :
      (found : Answer (List Peer)) (code : ℕ) (peers : List Peer)
      → ((listed : List Peer) → found ≡ answer listed → All (IsOnlineIn networks id) listed)
      → peers_listed own found ≡ (success code peers)
      → All (IsShown networks id own) peers
  unfolding peers_listed other_approved
  peers_listed-IsShown (fault e) code peers h shown = absurd (cc shown)
  peers_listed-IsShown (answer listed) code peers h shown =
      let test : Peer → Bool =
        λ peer. not (bytes_equal peer.id own) && bytes_equal peer.status approved in
      subst (All (IsShown networks id own)) (ground (arith, shown)) (
        hide_tokens-IsShown networks id own (keep test listed)
          (All-keep (IsOnlineIn networks id) test listed (h listed refl))
          (keep-All (λ peer. not (bytes_equal peer.id own) ≡ true) test listed
            (λ peer passes. ground (arith, passes))))
