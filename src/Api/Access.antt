-- ===== src/Api/Access.antt =====
-- Who may call the handlers for devices (server/internal/api/member_handler.go and member_tunnel_handler.go).
use vpn_cloude.Base.{
  ℕ, ◌≡◌, refl, subst, ◌⊎◌, inl, inr, Bool, true, false, some, List, Bytes, bytes_equal_iff, All,
  Option-cases, arith,
}
use vpn_cloude.Base.Select.{find}
use vpn_cloude.Stdlib.Text.{is_empty, trim_space}
use vpn_cloude.Stdlib.Ip.{V6Text}
use vpn_cloude.Store.{Row, Peer, Database, Answer, answer, fault, scan_peer}
use vpn_cloude.Store.Constraints.{is_token}
use vpn_cloude.Store.Queries.{get_peer_by_member_token}
use vpn_cloude.Api.{success, Checked, refuse, pass}
use vpn_cloude.Api.Members.{approved}
use vpn_cloude.Api.Devices.{
  read_bearer_token, matching_member, authenticate_member, approved_only, approved_device,
  peers_checked, member_peers,
}
use vpn_cloude.Api.Tunnel.{CoordEntry, token_owner, auth_member, tunnel_peers_checked, tunnel_peers}
use vpn_cloude.Api.Visible.{
  IsShown, get_online_peers-IsOnlineIn, tunnel_listed-IsShown, peers_listed-IsShown,
}

-- The row that has the token.
abbrev pub Holds : Bytes → List Row → Row → Type 0
Holds token rows row = find (λ other. is_token token other.member_token) rows ≡ some row

get_peer_by_member_token-answer :
    (v6 : V6Text) (down : Bool) (token : Bytes) (rows : List Row) (peer : Peer)
    → get_peer_by_member_token v6 down token rows ≡ answer peer
    → (row : Row) × Holds token rows row × (peer ≡ scan_peer v6 row)
unfolding get_peer_by_member_token
get_peer_by_member_token-answer v6 true token rows peer h = absurd (cc h)
get_peer_by_member_token-answer v6 false token rows peer h =
    elim (Option-cases (find (λ other. is_token token other.member_token) rows)) [
      | inl missing ↦ absurd (ground (arith, missing, h))
      | inr (row, there) ↦ (row, there, ground (arith, there, h))
    ]

-- The id of the path is that of the peer, or there is none.
abbrev pub IsOwnId : Bytes → Bytes → Type 0
IsOwnId path_id id = (is_empty path_id ≡ true) ⊎ (id ≡ path_id)

token_owner-pass :
    (member_id : Bytes) (found : Answer Peer) (peer : Peer)
    → token_owner member_id found ≡ pass peer
    → (found ≡ answer peer) × IsOwnId member_id peer.id
unfolding token_owner
token_owner-pass member_id (fault e) peer h = absurd (cc h)
token_owner-pass member_id (answer other) peer h =
    ground (arith, h, bytes_equal_iff other.id member_id)

auth_member-pass :
    (v6 : V6Text) (down : Bool) (id header : Bytes) (rows : List Row) (peer : Peer)
    → auth_member v6 down id header rows ≡ pass peer
    → (row : Row) × Holds (read_bearer_token header) rows row
      × (peer ≡ scan_peer v6 row)
      × IsOwnId (trim_space id) peer.id
unfolding auth_member
auth_member-pass v6 down id header rows peer h =
    let token = read_bearer_token header in
    let (found, own) =
      token_owner-pass (trim_space id) (get_peer_by_member_token v6 down token rows) peer
        (ground (arith, h)) in
    let (row, holds, scanned) = get_peer_by_member_token-answer v6 down token rows peer found in
    (row, holds, scanned, own)

matching_member-pass :
    (id : Bytes) (found : Answer Peer) (peer : Peer)
    → matching_member id found ≡ pass peer
    → (found ≡ answer peer) × (peer.id ≡ id)
unfolding matching_member
matching_member-pass id (fault e) peer h = absurd (cc h)
matching_member-pass id (answer other) peer h = ground (arith, h, bytes_equal_iff other.id id)

approved_only-pass :
    (found : Checked Peer) (peer : Peer)
    → approved_only found ≡ pass peer
    → (found ≡ pass peer) × (peer.status ≡ approved)
unfolding approved_only
approved_only-pass (refuse status) peer h = absurd (cc h)
approved_only-pass (pass other) peer h = ground (arith, h, bytes_equal_iff other.status approved)

pub approved_device-pass :
    (v6 : V6Text) (down : Bool) (id header : Bytes) (rows : List Row) (peer : Peer)
    → approved_device v6 down id header rows ≡ pass peer
    → (row : Row) × Holds (trim_space (read_bearer_token header)) rows row
      × (peer ≡ scan_peer v6 row)
      × (peer.id ≡ trim_space id)
      × (peer.status ≡ approved)
unfolding authenticate_member
approved_device-pass v6 down id header rows peer h =
    let (known, status) =
      approved_only-pass (authenticate_member v6 down id (read_bearer_token header) rows) peer h in
    let token = trim_space (read_bearer_token header) in
    let (found, own) =
      matching_member-pass (trim_space id) (get_peer_by_member_token v6 down token rows) peer
        (ground (arith, known)) in
    let (row, holds, scanned) = get_peer_by_member_token-answer v6 down token rows peer found in
    (row, holds, scanned, own, status)

module _ (v6 : V6Text) (down : ℕ → Bool) (db : Database) where
  tunnel_peers_checked-success :
      (announced : Bytes → List CoordEntry) (found : Checked Peer) (code : ℕ) (peers : List Peer)
      → tunnel_peers_checked v6 (down 1) announced db found ≡ success code peers
      → (peer : Peer) × (found ≡ pass peer)
        × All (IsShown db.networks peer.network_id peer.id) peers
  unfolding tunnel_peers_checked
  tunnel_peers_checked-success announced (refuse status) code peers h = absurd (cc h)
  tunnel_peers_checked-success announced (pass peer) code peers h = (
    peer,
    refl,
    tunnel_listed-IsShown db.networks peer.network_id peer.id (announced peer.network_id) _ code
        peers (get_online_peers-IsOnlineIn v6 (down 1) db.networks peer.network_id db.peers) h,
  )

  peers_checked-success :
      (found : Checked Peer) (code : ℕ) (peers : List Peer)
      → peers_checked v6 (down 1) db found ≡ success code peers
      → (peer : Peer) × (found ≡ pass peer)
        × All (IsShown db.networks peer.network_id peer.id) peers
  unfolding peers_checked
  peers_checked-success (refuse status) code peers h = absurd (cc h)
  peers_checked-success (pass peer) code peers h = (
    peer,
    refl,
    peers_listed-IsShown db.networks peer.network_id peer.id _ code peers
        (get_online_peers-IsOnlineIn v6 (down 1) db.networks peer.network_id db.peers) h,
  )

  -- Peers of the tunnel handler answers only a request with the token of a peer, whose id is that of the
  -- path if the path has one; whatever Redis holds, it shows only other peers, which are approved, online and
  -- in the active network of that peer, and no token.
  pub tunnel_peers-IsShown :
      (announced : Bytes → List CoordEntry) (id header : Bytes) (code : ℕ) (peers : List Peer)
      → tunnel_peers v6 down announced id header db ≡ success code peers
      → (row : Row) × Holds (read_bearer_token header) db.peers row
        × IsOwnId (trim_space id) row.id
        × All (IsShown db.networks row.network_id row.id) peers
  unfolding tunnel_peers scan_peer
  tunnel_peers-IsShown announced id header code peers h =
      let (peer, authorised, shown) =
        tunnel_peers_checked-success announced (auth_member v6 (down 0) id header db.peers) code
          peers h in
      let (row, holds, scanned, own) =
        auth_member-pass v6 (down 0) id header db.peers peer authorised in
      (
        row,
        holds,
        subst (λ p. IsOwnId (trim_space id) p.id) scanned own,
        subst (λ p. All (IsShown db.networks p.network_id p.id) peers) scanned shown,
      )

  -- MemberPeers answers only a request with the token of an approved peer and its id; it shows only other
  -- peers, which are approved, online and in the active network of that peer, and no token.
  pub member_peers-IsShown :
      (id header : Bytes) (code : ℕ) (peers : List Peer)
      → member_peers v6 down id header db ≡ success code peers
      → (row : Row) × Holds (trim_space (read_bearer_token header)) db.peers row
        × (row.id ≡ trim_space id)
        × ((scan_peer v6 row).status ≡ approved)
        × All (IsShown db.networks row.network_id row.id) peers
  unfolding member_peers scan_peer
  member_peers-IsShown id header code peers h =
      let (peer, authorised, shown) =
        peers_checked-success (approved_device v6 (down 0) id header db.peers) code peers h in
      let (row, holds, scanned, own, status) =
        approved_device-pass v6 (down 0) id header db.peers peer authorised in
      (
        row,
        holds,
        subst (λ (p : Peer). p.id ≡ trim_space id) scanned own,
        subst (λ (p : Peer). p.status ≡ approved) scanned status,
        subst (λ p. All (IsShown db.networks p.network_id p.id) peers) scanned shown,
      )
