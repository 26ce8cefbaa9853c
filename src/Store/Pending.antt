-- ===== src/Store/Pending.antt =====
-- RegisterPendingPeer of server/internal/database/queries/peers.go and the status of the peers.
use vpn_cloude.Base.{
  ℕ, ◌≡◌, ◌≢◌, refl, ◌⊎◌, inl, inr, Any, Bool, true, false, Option, none, some, List, [], ◌∷◌,
  Bytes, bytes_equal, bytes_equal_iff, codes, All, All-map,
}
use vpn_cloude.Base.Select.{find, find-test, find-Any}
use vpn_cloude.Stdlib.Ip.{V6Text}
use vpn_cloude.Store.{Row, Peer}
use vpn_cloude.Store.Constraints.{write_row, upsert}
use vpn_cloude.Store.Writes.{put_row-All, insert_row-All}
use vpn_cloude.Store.Register.{
  Moment, register_pending_with, register_pending_peer, pending_row, pending_again, registered_row,
}

-- The row as it was, or an approved row of the same machine, of which nothing is new but what the device said of
-- itself and the time.
abbrev pub Continues : ℕ → Peer → Row → Row → Type 0
Continues now peer old row =
    (row ≡ old)
    ⊎ ((old.status ≡ codes "approved")
        × (old.machine_id ≡ peer.machine_id)
        × (row ≡ record old {
          name = some peer.name;
          public_key = peer.public_key;
          os = some peer.os;
          version = some peer.version;
          last_seen = some now;
        }))

-- A row that is approved continues one of these.
abbrev pub WasApproved : ℕ → Peer → List Row → Row → Type 0
WasApproved now peer rows row =
    row.status ≡ codes "approved" → Any (λ old. Continues now peer old row) rows

pub WasApproved-self :
    (now : ℕ) (peer : Peer) (rows : List Row) → All (WasApproved now peer rows) rows
WasApproved-self now peer [] = tt
WasApproved-self now peer (x ∷ rows) = (
  λ approved. inl (inl refl),
  All-map rows (λ row h approved. inr (h approved)) (WasApproved-self now peer rows),
)

module _ (v6 : V6Text) (m : Moment) (peer : Peer) (rows : List Row)
    (pending : peer.status ≢ codes "approved") where
  pending_again-WasApproved :
      (row : Row)
      → find (λ row. bytes_equal row.machine_id peer.machine_id) rows ≡ some row
      → WasApproved m.now peer rows (pending_again m.now peer row)
  unfolding pending_again
  pending_again-WasApproved row there approved =
      let machine : row.machine_id ≡ peer.machine_id =
        (bytes_equal_iff row.machine_id peer.machine_id).0
          (find-test (λ row. bytes_equal row.machine_id peer.machine_id) rows row there) in
      find-Any (λ old. Continues m.now peer old (pending_again m.now peer row))
        (λ row. bytes_equal row.machine_id peer.machine_id) rows row (inr (approved, machine, refl))
        there

  write_row-WasApproved :
      (token : Bytes) (found : Option Row)
      → find (λ row. bytes_equal row.machine_id peer.machine_id) rows ≡ found
      → All
          (WasApproved m.now peer rows)
          (write_row v6 (pending_row m token peer) (pending_again m.now peer) rows found).1
  unfolding write_row pending_row registered_row
  write_row-WasApproved token none h =
      insert_row-All (WasApproved m.now peer rows) v6 (pending_row m token peer) rows
        (λ approved. absurd (pending approved)) (WasApproved-self m.now peer rows)
  write_row-WasApproved token (some row) h =
      put_row-All (WasApproved m.now peer rows) v6 (pending_again m.now peer row) rows
        (pending_again-WasApproved row h) (WasApproved-self m.now peer rows)

  register_pending_with-WasApproved :
      (down : Bool) (token : Option Bytes)
      → All (WasApproved m.now peer rows) (register_pending_with v6 m down peer rows token).1
  unfolding register_pending_with upsert
  register_pending_with-WasApproved down none = WasApproved-self m.now peer rows
  register_pending_with-WasApproved true (some token) = WasApproved-self m.now peer rows
  register_pending_with-WasApproved false (some token) = write_row-WasApproved token _ refl

  pub register_pending_peer-WasApproved :
      (down : Bool)
      → All (WasApproved m.now peer rows) (register_pending_peer v6 m down peer rows).1
  unfolding register_pending_peer
  register_pending_peer-WasApproved down = register_pending_with-WasApproved down _
