-- ===== src/Api/Join/Manual.antt =====
-- Joins to a network whose admin approves its members (server/internal/api/join_handler.go).
use vpn_cloude.Base.{
  ℕ, ◌≡◌, ◌≢◌, refl, Bool, false, not, ◌||◌, some, List, [], ltb, length, Bytes, bytes_equal, codes,
  All, if_both,
}
use vpn_cloude.Stdlib.Text.{is_empty, trim_space}
use vpn_cloude.Stdlib.Ip.{V6Text}
use vpn_cloude.Store.{Network, Row, Peer, Database, Answer, answer, fault}
use vpn_cloude.Store.Networks.{get_network_by_public_id}
use vpn_cloude.Store.Register.{Moment, register_pending_peer}
use vpn_cloude.Store.Queries.{get_peer_by_public_key}
use vpn_cloude.Store.Pending.{WasApproved, WasApproved-self, register_pending_peer-WasApproved}
use vpn_cloude.Api.{Reply}
use vpn_cloude.Api.Join.{
  JoinRequest, JoinResponse, clean_request, new_peer, joined, join_new, join_known, join_network,
  join_clean, join,
}

-- The peer that a request asks to register.
abbrev pub asked_peer : Network → JoinRequest → Peer
asked_peer network req = new_peer network req [] (codes "pending")

-- Every row that a reply leaves approved is one that was approved before, less what the device of the request said
-- of itself.
abbrev pub NoApproval :
    ℕ → Network → JoinRequest → List Row → Reply JoinResponse × List Row → Type 0
NoApproval now network req rows out = All (WasApproved now (asked_peer network req) rows) out.1

joined-after :
    (network : Network) (status ip : Bytes) (out : Answer Peer × List Row)
    → (joined network status ip out).1 ≡ out.1
unfolding joined
joined-after network status ip (fault e, rows) = refl
joined-after network status ip (answer peer, rows) = refl

pending_peer-status :
    (network : Network) (req : JoinRequest) → (asked_peer network req).status ≢ codes "approved"
unfolding new_peer
pending_peer-status network req e = cc e

module _ (v6 : V6Text) (m : Moment) (down : ℕ → Bool) (network : Network) (req : JoinRequest)
    (db : Database) (manual : bytes_equal network.access_control (codes "auto") ≡ false) where
  join_new-NoApproval : NoApproval m.now network req db.peers (join_new v6 m down network req db)
  unfolding join_new
  join_new-NoApproval =
      let asked =
        register_pending_peer v6 m (down 2) (new_peer network req [] (codes "pending")) db.peers in
      if_both (NoApproval m.now network req db.peers) (ltb (length req.wg_public_key) 12)
        (WasApproved-self m.now (asked_peer network req) db.peers)
        (rw manual (
          rw (joined-after network (codes "pending") [] asked) (
            register_pending_peer-WasApproved v6 m (new_peer network req [] (codes "pending"))
              db.peers (pending_peer-status network req) (down 2))))

  join_known-NoApproval :
      (existing : Answer Peer)
      → NoApproval m.now network req db.peers (join_known v6 m down network req db existing)
  unfolding join_known
  join_known-NoApproval (answer existing) = WasApproved-self m.now (asked_peer network req) db.peers
  join_known-NoApproval (fault e) = join_new-NoApproval

  join_clean-NoApproval :
      get_network_by_public_id (down 0) req.network_id db.networks ≡ answer network
      → NoApproval m.now network req db.peers (join_clean v6 m down req db)
  unfolding join_clean join_network
  join_clean-NoApproval found =
      if_both (NoApproval m.now network req db.peers)
        (is_empty req.network_id || is_empty req.wg_public_key)
        (WasApproved-self m.now (asked_peer network req) db.peers)
        (rw found (
          if_both (NoApproval m.now network req db.peers) (not network.is_active)
            (WasApproved-self m.now (asked_peer network req) db.peers)
            (join_known-NoApproval
              (get_peer_by_public_key v6 (down 1) network.id req.wg_public_key db.peers))))

-- A join to a network that does not approve by itself approves no row: whatever the request and whatever fails,
-- every row that is approved afterwards was approved before. It is as it was, or it has the machine id of the first
-- 12 bytes of the key of the request, and then only the name, key, system and version of the request and
-- the time are new.
pub join-NoApproval :
    (v6 : V6Text) (goos goarch : Bytes) (m : Moment) (down : ℕ → Bool) (req : JoinRequest)
    (db : Database) (network : Network)
    → get_network_by_public_id (down 0) (trim_space req.network_id) db.networks ≡ answer network
    → bytes_equal network.access_control (codes "auto") ≡ false
    → NoApproval m.now network
        (clean_request goos goarch req)
        db.peers
        (join v6 goos goarch m down (some req) db)
unfolding join clean_request
join-NoApproval v6 goos goarch m down req db network found manual =
    join_clean-NoApproval v6 m down network (clean_request goos goarch req) db manual found
