-- ===== src/Api/Owner.antt =====
-- What the owner of a network can do to its members (server/internal/api/member_handler.go).
use vpn_cloude.Base.{
  ℕ, ◌≡◌, refl, sym, ap, ◌∙◌, inl, inr, Bool, true, false, not, Option, none, some, List, Bytes,
  bytes_equal_iff, codes, Option-cases, arith,
}
use vpn_cloude.Base.Select.{find, keep}
use vpn_cloude.Stdlib.Ip.{V6Text}
use vpn_cloude.Store.{Network, Row, Peer, Database, DbError, Answer, answer, fault, scan_peer}
use vpn_cloude.Store.Constraints.{has_id}
use vpn_cloude.Store.Networks.{get_network}
use vpn_cloude.Store.Queries.{get_peer}
use vpn_cloude.Store.Updates.{delete_peer, delete_rows}
use vpn_cloude.Store.Writes.{delete_rows-none}
use vpn_cloude.Api.{
  success, Checked, refuse, pass, owned_network, user_network, network_member, checked_member,
}
use vpn_cloude.Api.Members.{done_reply, kick_checked, kick_member}

-- The user is the owner of the network that the id names.
pub record Owns (down : Bool) (user : Option Bytes) (id : Bytes) (networks : List Network)
    (network : Network) : Type 0 where
  pub signed_in : user ≡ some network.owner_id
  pub named : get_network down id networks ≡ answer network

owned_network-pass :
    (user : Bytes) (found : Answer Network) (network : Network)
    → owned_network user found ≡ pass network
    → (user ≡ network.owner_id) × (found ≡ answer network)
unfolding owned_network
owned_network-pass user (fault e) network h = absurd (cc h)
owned_network-pass user (answer other) network h =
    ground (arith, h, bytes_equal_iff other.owner_id user)

pub user_network-Owns :
    (down : Bool) (user : Option Bytes) (id : Bytes) (networks : List Network) (network : Network)
    → user_network down user id networks ≡ pass network
    → Owns down user id networks network
unfolding user_network
user_network-Owns down none id networks network h = absurd (cc h)
user_network-Owns down (some user) id networks network h =
    let (owner, named) = owned_network-pass user (get_network down id networks) network h in
    record { signed_in = ap some owner; named = named }

network_member-pass :
    (network : Network) (found : Answer Peer) (other : Network) (member : Peer)
    → network_member network found ≡ pass (other, member)
    → (network ≡ other) × (found ≡ answer member) × (member.network_id ≡ other.id)
unfolding network_member
network_member-pass network (fault e) other member h = absurd (cc h)
network_member-pass network (answer peer) other member h =
    ground (arith, h, bytes_equal_iff peer.network_id network.id)

-- The member that the guards let through: of a network of the user, with its row.
pub record Manages (v6 : V6Text) (down : ℕ → Bool) (user : Option Bytes) (id member_id : Bytes)
    (db : Database) (network : Network) (row : Row) : Type 0 where
  pub owns : Owns (down 0) user id db.networks network
  pub there : find (has_id member_id) db.peers ≡ some row
  pub inside : row.network_id ≡ network.id

get_peer-answer :
    (v6 : V6Text) (down : Bool) (id : Bytes) (rows : List Row) (peer : Peer)
    → get_peer v6 down id rows ≡ answer peer
    → (row : Row) × (find (has_id id) rows ≡ some row) × (peer ≡ scan_peer v6 row)
unfolding get_peer
get_peer-answer v6 true id rows peer h = absurd (cc h)
get_peer-answer v6 false id rows peer h = elim (Option-cases (find (has_id id) rows)) [
  | inl missing ↦ absurd (ground (arith, missing, h))
  | inr (row, there) ↦ (row, there, ground (arith, there, h))
]

pub checked_member-Manages :
    (v6 : V6Text) (down : ℕ → Bool) (user : Option Bytes) (id member_id : Bytes) (db : Database)
    (network : Network) (member : Peer)
    → checked_member v6 (down 1) member_id db.peers (user_network (down 0) user id db.networks)
      ≡ pass (network, member)
    → (row : Row) × Manages v6 down user id member_id db network row × (member ≡ scan_peer v6 row)
unfolding checked_member scan_peer
checked_member-Manages v6 down user id member_id db network member h =
    by_guard (user_network (down 0) user id db.networks) refl h
  where
    by_guard :
        (guard : Checked Network)
        → user_network (down 0) user id db.networks ≡ guard
        → checked_member v6 (down 1) member_id db.peers guard ≡ pass (network, member)
        → (row : Row) × Manages v6 down user id member_id db network row
          × (member ≡ scan_peer v6 row)
    by_guard (refuse status) e k = absurd (cc k)
    by_guard (pass other) e k =
        let (same, found, inside) =
          network_member-pass other (get_peer v6 (down 1) member_id db.peers) network member k in
        let (row, there, scanned) = get_peer-answer v6 (down 1) member_id db.peers member found in
        (
          row,
          record {
            owns = user_network-Owns (down 0) user id db.networks network (e ∙ ap pass same);
            there = there;
            inside = sym (ap (λ (peer : Peer). peer.network_id) scanned) ∙ inside;
          },
          scanned,
        )

kick_checked-success :
    (down : Bool) (id : Bytes) (rows : List Row) (member : Checked (Network × Peer)) (code : ℕ)
    (word : Bytes) (after : List Row)
    → kick_checked down id rows member ≡ (success code word, after)
    → (found : Network × Peer) × (member ≡ pass found)
      × (after ≡ keep (λ row. not (has_id id row)) rows)
unfolding kick_checked delete_peer
kick_checked-success down id rows (refuse status) code word after h = absurd (cc h)
kick_checked-success down id rows (pass found) code word after h =
    (found, refl, by_outcome (delete_rows down (has_id id) rows) refl h)
  where
    by_outcome :
        (out : Option DbError × List Row)
        → delete_rows down (has_id id) rows ≡ out
        → done_reply (codes "removed") out ≡ (success code word, after)
        → after ≡ keep (λ row. not (has_id id row)) rows
    by_outcome (some e, left) same k = absurd (unfold done_reply in cc k)
    by_outcome (none, left) same k =
        delete_rows-none down (has_id id) rows after (same ∙ unfold done_reply in ground (arith, k))

-- A member is kicked only by the owner of its network, and then its rows are gone and no other.
pub kick_member_lem :
    (v6 : V6Text) (down : ℕ → Bool) (user : Option Bytes) (id member_id : Bytes) (db : Database)
    (code : ℕ) (word : Bytes) (after : List Row)
    → kick_member v6 down user id member_id db ≡ (success code word, after)
    → (network : Network) × (row : Row) × Manages v6 down user id member_id db network row
      × (after ≡ keep (λ other. not (has_id member_id other)) db.peers)
unfolding kick_member
kick_member_lem v6 down user id member_id db code word after h =
    let ((network, member), checked, left) =
      kick_checked-success (down 2) member_id db.peers _ code word after h in
    let (row, manages, scanned) =
      checked_member-Manages v6 down user id member_id db network member checked in
    (network, row, manages, left)
