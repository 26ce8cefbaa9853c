-- ===== src/Api/Approval.antt =====
-- ApproveMember of server/internal/api/member_handler.go.
use vpn_cloude.Base.{
  ℕ, ◌≡◌, ◌≢◌, refl, ap, subst, ◌⊎◌, inl, inr, Bool, false, not, ◌&&◌, Option, none, some, List, [],
  ◌∷◌, if◌then◌else◌, Bytes, bytes_equal, bytes_equal_iff, codes, All, Bool-cases, arith,
}
use vpn_cloude.Stdlib.Text.{is_empty}
use vpn_cloude.Stdlib.Ip.{V6Text}
use vpn_cloude.Netutil.{allocate_ip, address_of}
use vpn_cloude.Netutil.Choice.{allocate_ip-unused}
use vpn_cloude.Store.{Network, Row, Peer, Database, Answer, answer, fault, scan_peer}
use vpn_cloude.Base.Select.{find}
use vpn_cloude.Store.Constraints.{has_id, replace}
use vpn_cloude.Store.Queries.{list_network_peers}
use vpn_cloude.Store.Updates.{approve_peer, approved_row}
use vpn_cloude.Store.Writes.{update_row-answer}
use vpn_cloude.Api.{success, Checked, refuse, pass, hide_token, used_ips, coordinator_ip}
use vpn_cloude.Api.Members.{
  approved, approved_reply, approve_at, approve_beside, approve_checked, approve_member,
}
use vpn_cloude.Api.Owner.{Manages, checked_member-Manages}

-- The text stands for an address for which no text of the list stands.
abbrev pub IsUnused : V6Text → List Bytes → Bytes → Type 0
IsUnused v6 used ip =
    (address : Bytes) × (address_of v6 ip ≡ some address)
    × All (λ other. address_of v6 other ≢ some address) used

-- The address of a peer is another one, or the peer has none yet.
abbrev pub IsElsewhere : V6Text → Bytes → Peer → Type 0
IsElsewhere v6 address peer =
    is_empty peer.virtual_ip ≡ false
    → bytes_equal peer.virtual_ip (codes "0.0.0.0") ≡ false
    → address_of v6 peer.virtual_ip ≢ some address

used_ips-IsElsewhere :
    (v6 : V6Text) (address : Bytes) (peers : List Peer)
    → All (λ other. address_of v6 other ≢ some address) (used_ips peers)
    → All (IsElsewhere v6 address) peers
unfolding used_ips
used_ips-IsElsewhere v6 address [] h = tt
used_ips-IsElsewhere v6 address (peer ∷ peers) h =
    let test =
      not (is_empty peer.virtual_ip) && not (bytes_equal peer.virtual_ip (codes "0.0.0.0")) in
    elim (Bool-cases test) [
      | inl used ↦
          let both : All (λ other. address_of v6 other ≢ some address)
              (peer.virtual_ip ∷ used_ips peers) =
            subst
              (λ t.
                All (λ other. address_of v6 other ≢ some address)
                  (if t then peer.virtual_ip ∷ used_ips peers else used_ips peers))
              used h in
          (λ there assigned. both.0, used_ips-IsElsewhere v6 address peers both.1)
      | inr unused ↦
          let rest : All (λ other. address_of v6 other ≢ some address) (used_ips peers) =
            subst
              (λ t.
                All (λ other. address_of v6 other ≢ some address)
                  (if t then peer.virtual_ip ∷ used_ips peers else used_ips peers))
              unused h in
          (
            λ there assigned. absurd (ground (arith, there, assigned, unused)),
            used_ips-IsElsewhere v6 address peers rest,
          )
    ]

pub coordinator_ip-IsUnused :
    (v6 : V6Text) (cidr : Bytes) (used : List Bytes) (ip : Bytes)
    → coordinator_ip v6 cidr used ≡ some ip
    → IsUnused v6 used ip
unfolding coordinator_ip
coordinator_ip-IsUnused v6 cidr used ip h =
    let (there, same) = parts in
    subst (IsUnused v6 used) same (allocate_ip-unused v6 cidr used there)
  where
    parts : (allocate_ip v6 cidr used ≢ []) × (allocate_ip v6 cidr used ≡ ip)
    parts = by_text (allocate_ip v6 cidr used) h
      where
        by_text :
            (text : Bytes)
            → (if is_empty text then none else some text) ≡ some ip
            → (text ≢ []) × (text ≡ ip)
        by_text [] k = absurd (cc k)
        by_text (c ∷ text) k = (λ e. cc e, ground (arith, k))

module _ (v6 : V6Text) (down : Bool) (id : Bytes) (rows after : List Row) (code : ℕ)
    (peer : Peer) where
  -- The row gets an address that is unused beside the peers of the network.
  pub record Assigned (current : List Peer) : Type 0 where
    pub ip : Bytes
    pub address : Bytes
    pub stands : address_of v6 ip ≡ some address
    pub elsewhere : All (IsElsewhere v6 address) current
    pub row : Row
    pub there : find (has_id id) rows ≡ some row
    pub written : after ≡ replace (approved_row ip row) rows

  approved_reply-success :
      (out : Answer Peer × List Row)
      → approved_reply out ≡ (success code peer, after)
      → (shown : Peer) × (out ≡ (answer shown, after))
  unfolding approved_reply
  approved_reply-success (fault e, left) h = absurd (cc h)
  approved_reply-success (answer shown, left) h =
      (shown, ap (λ (x : List Row). (answer shown, x)) (ground (arith, h)))

  approve_at-success :
      (cidr : Bytes) (current : List Peer) (ip : Option Bytes)
      → coordinator_ip v6 cidr (used_ips current) ≡ ip
      → approve_at v6 down id rows ip ≡ (success code peer, after)
      → Assigned current
  unfolding approve_at approve_peer
  approve_at-success cidr current none e h = absurd (cc h)
  approve_at-success cidr current (some ip) e h =
      let (shown, wrote) = approved_reply-success (approve_peer v6 down id ip rows) h in
      let (row, there, scanned, written) =
        update_row-answer v6 down id (approved_row ip) rows shown after wrote in
      let (address, stands, unused) = coordinator_ip-IsUnused v6 cidr (used_ips current) ip e in
      record {
        ip = ip;
        address = address;
        stands = stands;
        elsewhere = used_ips-IsElsewhere v6 address current unused;
        row = row;
        there = there;
        written = written;
      }

-- What an approval came to: the member had been approved, or it got an address.
abbrev pub Approved :
    V6Text → (ℕ → Bool) → Bytes → Database → Network → Peer → ℕ → Peer → List Row → Type 0
Approved v6 down id db network member code peer after =
    ((member.status ≡ approved) × (after ≡ db.peers))
    ⊎ ((current : List Peer) × (list_network_peers v6 (down 2) db.networks network.id db.peers
          ≡ answer current)
        × Assigned v6 (down 3) id db.peers after code peer current)

approve_beside-success :
    (v6 : V6Text) (down : Bool) (id cidr : Bytes) (rows : List Row) (listed : Answer (List Peer))
    (code : ℕ) (peer : Peer) (after : List Row)
    → approve_beside v6 down id cidr rows listed ≡ (success code peer, after)
    → (current : List Peer) × (listed ≡ answer current)
      × Assigned v6 down id rows after code peer current
unfolding approve_beside
approve_beside-success v6 down id cidr rows (fault e) code peer after h = absurd (cc h)
approve_beside-success v6 down id cidr rows (answer current) code peer after h = (
  current,
  refl,
  approve_at-success v6 down id rows after code peer cidr current
      (coordinator_ip v6 cidr (used_ips current)) refl h,
)

approve_checked-success :
    (v6 : V6Text) (down : ℕ → Bool) (id : Bytes) (db : Database) (found : Checked (Network × Peer))
    (code : ℕ) (peer : Peer) (after : List Row)
    → approve_checked v6 down id db found ≡ (success code peer, after)
    → (network : Network) × (member : Peer) × (found ≡ pass (network, member))
      × Approved v6 down id db network member code peer after
unfolding approve_checked
approve_checked-success v6 down id db (refuse status) code peer after h = absurd (cc h)
approve_checked-success v6 down id db (pass (network, member)) code peer after h =
    elim (Bool-cases (bytes_equal member.status approved)) [
      | inl was ↦ (
        network,
        member,
        refl,
        inl ((bytes_equal_iff member.status approved).0 was, ground (arith, was, h)),
      )
      | inr new ↦ (
        network,
        member,
        refl,
        inr (
            approve_beside-success v6 (down 3) id network.cidr db.peers
              (list_network_peers v6 (down 2) db.networks network.id db.peers) code peer after
              (subst
                (λ test.
                  (if test
                    then (success 200 (hide_token member), db.peers)
                    else approve_beside v6 (down 3) id network.cidr db.peers
                        (list_network_peers v6 (down 2) db.networks network.id db.peers))
                  ≡ (success code peer, after))
                new h)),
      )
    ]

-- Only the owner of the network of a member approves it; the member had been approved and nothing changes,
-- or its row gets an address that no peer listed for the network has, and no other row changes.
pub approve_member_lem :
    (v6 : V6Text) (down : ℕ → Bool) (user : Option Bytes) (id member_id : Bytes) (db : Database)
    (code : ℕ) (peer : Peer) (after : List Row)
    → approve_member v6 down user id member_id db ≡ (success code peer, after)
    → (network : Network) × (row : Row) × Manages v6 down user id member_id db network row
      × Approved v6 down member_id db network (scan_peer v6 row) code peer after
unfolding approve_member
approve_member_lem v6 down user id member_id db code peer after h =
    let (network, member, checked, outcome) =
      approve_checked-success v6 down member_id db _ code peer after h in
    let (row, manages, scanned) =
      checked_member-Manages v6 down user id member_id db network member checked in
    (
      network,
      row,
      manages,
      subst (λ m. Approved v6 down member_id db network m code peer after) scanned outcome,
    )
