-- ===== src/Store/Statements.antt =====
-- The statements of server/internal/database/queries/peers.go, and what they keep of the devices.
use vpn_cloude.Base.{
  ℕ, ◌≡◌, refl, ◌⊎◌, inl, inr, Bool, true, false, not, ◌&&◌, Option, none, some, List, [], ◌∷◌,
  Bytes, bytes_equal, bytes_equal_iff, codes, All, All-map, Any, if_both, arith,
}
use vpn_cloude.Base.Select.{any, find, find-Any, find-test, All-keep}
use vpn_cloude.Stdlib.Ip.{V6Text}
use vpn_cloude.Store.{
  Network, Row, Peer, DbError, Answer, answer, fault, failed, not_found, ip_conflict,
}
use vpn_cloude.Store.Constraints.{has_id, put_row, upsert, write_row}
use vpn_cloude.Store.Writes.{put_row-All, insert_row-All}
use vpn_cloude.Store.Register.{
  Moment, register_peer, register_pending_peer, registered_row, registered_again, pending_row,
  pending_again, register_with, register_pending_with,
}
use vpn_cloude.Store.Updates.{
  PeerStatusUpdate, update_row, update_found, approve_peer, approved_row, reject_peer,
  mark_peer_offline, update_peer_status, updated_row, ignore_missing, delete_rows, delete_peer,
  delete_peer_by_machine_id, expire_row, is_stale, expire_stale_peers,
}

-- One statement.
pub data Statement (rows : List Row) : List Row → Type 0 where
  register :
      (v6 : V6Text) (m : Moment) (down : Bool) (peer : Peer)
      → Statement rows (register_peer v6 m down peer rows).1
  register_pending :
      (v6 : V6Text) (m : Moment) (down : Bool) (peer : Peer)
      → Statement rows (register_pending_peer v6 m down peer rows).1
  approve :
      (v6 : V6Text) (down : Bool) (id virtual_ip : Bytes)
      → Statement rows (approve_peer v6 down id virtual_ip rows).1
  reject : (v6 : V6Text) (down : Bool) (id : Bytes) → Statement rows (reject_peer v6 down id rows).1
  mark_offline :
      (v6 : V6Text) (down : Bool) (id : Bytes)
      → Statement rows (mark_peer_offline v6 down id rows).1
  update_status :
      (v6 : V6Text) (now : ℕ) (down : Bool) (id : Bytes) (s : PeerStatusUpdate)
      → Statement rows (update_peer_status v6 now down id s rows).1
  delete : (down : Bool) (id : Bytes) → Statement rows (delete_peer down id rows).1
  delete_by_machine_id :
      (down : Bool) (networks : List Network) (id machine_id : Bytes)
      → Statement rows (delete_peer_by_machine_id down networks id machine_id rows).1
  expire : (now stale_after : ℕ) → Statement rows (expire_stale_peers now stale_after rows)

-- The row that a statement decides: an approval and a rejection do, of the row with their id, and no other.
abbrev pub Decides : {a b : List Row} → Statement a b → Row → Type 0
Decides (approve v6 down id virtual_ip) row = (row.id ≡ id) × (row.status ≡ codes "approved")
Decides (reject v6 down id) row = (row.id ≡ id) × (row.status ≡ codes "rejected")
Decides s row = ⊥

-- The row is the same device: its id, machine, token and creation are as they were, and its status is unless
-- `D` holds of the row.
pub record SameDevice (D : Row → Type 0) (old row : Row) : Type 0 where
  pub id : row.id ≡ old.id
  pub machine : row.machine_id ≡ old.machine_id
  pub token : row.member_token ≡ old.member_token
  pub created : row.created_at ≡ old.created_at
  pub status : (row.status ≡ old.status) ⊎ D row

abbrev pub IsNew : List Row → Row → Type 0
IsNew rows row = any (λ old. bytes_equal old.machine_id row.machine_id) rows ≡ false

-- A row is one that was there, or its machine was not.
abbrev pub Stays : (Row → Type 0) → List Row → Row → Type 0
Stays D rows row = Any (λ old. SameDevice D old row) rows ⊎ IsNew rows row

same : (D : Row → Type 0) (row : Row) → SameDevice D row row
same D row = record { id = refl; machine = refl; token = refl; created = refl; status = inl refl }

Any-self :
    (R : Row → Row → Type 0) (f : Row → Row) (rows : List Row)
    → ((row : Row) → R row (f row))
    → All (λ row. Any (λ old. R old (f row)) rows) rows
Any-self R f [] h = tt
Any-self R f (row ∷ rows) h = (inl (h row), All-map rows (λ r. inr) (Any-self R f rows h))

find-none : (test : Row → Bool) (rows : List Row) → find test rows ≡ none → any test rows ≡ false
unfolding find any
find-none test [] h = refl
find-none test (row ∷ rows) h = ground (arith, h, find-none test rows)

module _ (D : Row → Type 0) (rows : List Row) where
  self-Stays : All (Stays D rows) rows
  self-Stays = All-map rows (λ row. inl) (Any-self (SameDevice D) (λ row. row) rows (same D))

  found-Stays :
      (v6 : V6Text) (test : Row → Bool) (f : Row → Row) (row : Row)
      → find test rows ≡ some row
      → SameDevice D row (f row)
      → All (Stays D rows) (put_row v6 (f row) rows).1
  found-Stays v6 test f row there h =
      put_row-All (Stays D rows) v6 (f row) rows
        (inl (find-Any (λ old. SameDevice D old (f row)) test rows row h there)) self-Stays

  -- An upsert: the row of the machine that was found, or a new one.
  upsert-Stays :
      (v6 : V6Text) (machine_id : Bytes) (fresh : Row) (again : Row → Row)
      → fresh.machine_id ≡ machine_id
      → ((row : Row) → SameDevice D row (again row))
      → All (Stays D rows) (upsert v6 machine_id fresh again rows).1
  unfolding upsert
  upsert-Stays v6 machine_id fresh again same_machine h =
      by_row (find (λ row. bytes_equal row.machine_id machine_id) rows) refl
    where
      by_row :
          (found : Option Row)
          → find (λ row. bytes_equal row.machine_id machine_id) rows ≡ found
          → All (Stays D rows) (write_row v6 fresh again rows found).1
      by_row none missing =
          unfold write_row in
          insert_row-All (Stays D rows) v6 fresh rows
            (inr (
              rw same_machine
                (find-none (λ row. bytes_equal row.machine_id machine_id) rows missing)))
            self-Stays
      by_row (some row) there =
          unfold write_row in
          found-Stays v6 (λ row. bytes_equal row.machine_id machine_id) again row there (h row)

  update-Stays :
      (v6 : V6Text) (down : Bool) (id : Bytes) (f : Row → Row)
      → ((row : Row) → row.id ≡ id → SameDevice D row (f row))
      → All (Stays D rows) (update_row v6 down id f rows).1
  unfolding update_row
  update-Stays v6 true id f h = self-Stays
  update-Stays v6 false id f h = by_row (find (has_id id) rows) refl
    where
      by_row :
          (found : Option Row)
          → find (has_id id) rows ≡ found
          → All (Stays D rows) (update_found v6 f rows found).1
      by_row none missing = unfold update_found in self-Stays
      by_row (some row) there =
          unfold update_found in
          found-Stays v6 (has_id id) f row there
            (h row ((bytes_equal_iff row.id id).0 (find-test (has_id id) rows row there)))

  delete-Stays :
      (down : Bool) (test : Row → Bool) → All (Stays D rows) (delete_rows down test rows).1
  unfolding delete_rows
  delete-Stays down test =
      if_both (λ (out : Option DbError × List Row). All (Stays D rows) out.1) down self-Stays
        (if_both (λ (out : Option DbError × List Row). All (Stays D rows) out.1) (any test rows)
          (All-keep (Stays D rows) (λ row. not (test row)) rows self-Stays) self-Stays)

ignore_missing-after :
    (rows : List Row) (out : Answer Peer × List Row) → (ignore_missing rows out).1 ≡ out.1
ignore_missing-after rows (answer peer, after) = refl
ignore_missing-after rows (fault not_found, after) = refl
ignore_missing-after rows (fault ip_conflict, after) = refl
ignore_missing-after rows (fault failed, after) = refl

expire-same :
    (D : Row → Type 0) (now stale_after : ℕ) (row : Row)
    → SameDevice D row (expire_row now stale_after row)
unfolding expire_row
expire-same D now stale_after row =
    if_both (λ (new : Row). SameDevice D row new)
      (row.is_online && is_stale now stale_after row.last_seen)
      (record { id = refl; machine = refl; token = refl; created = refl; status = inl refl })
      (same D row)

expire-Stays :
    (D : Row → Type 0) (now stale_after : ℕ) (rows : List Row)
    → All (λ row. Any (λ old. SameDevice D old row) rows) (expire_stale_peers now stale_after rows)
unfolding expire_stale_peers
expire-Stays D now stale_after [] = tt
expire-Stays D now stale_after (row ∷ rows) = (
  inl (expire-same D now stale_after row),
  All-map (expire_stale_peers now stale_after rows) (λ r. inr)
      (expire-Stays D now stale_after rows),
)

registered-same :
    (D : Row → Type 0) (now : ℕ) (peer : Peer) (row : Row)
    → SameDevice D row (registered_again now peer row)
unfolding registered_again
registered-same D now peer row = record {
  id = refl;
  machine = refl;
  token = refl;
  created = refl;
  status = inl refl;
}

pending-same :
    (D : Row → Type 0) (now : ℕ) (peer : Peer) (row : Row)
    → SameDevice D row (pending_again now peer row)
unfolding pending_again
pending-same D now peer row = record {
  id = refl;
  machine = refl;
  token = refl;
  created = refl;
  status = inl refl;
}

updated-same :
    (D : Row → Type 0) (now : ℕ) (s : PeerStatusUpdate) (row : Row)
    → SameDevice D row (updated_row now s row)
unfolding updated_row
updated-same D now s row = record {
  id = refl;
  machine = refl;
  token = refl;
  created = refl;
  status = inl refl;
}

module _ (D : Row → Type 0) (v6 : V6Text) (m : Moment) (peer : Peer) (rows : List Row) where
  register_with-Stays :
      (down : Bool) (token : Option Bytes)
      → All (Stays D rows) (register_with v6 m down peer rows token).1
  unfolding register_with registered_row
  register_with-Stays down none = self-Stays D rows
  register_with-Stays true (some token) = self-Stays D rows
  register_with-Stays false (some token) =
      upsert-Stays D rows v6 peer.machine_id (registered_row m token peer)
        (registered_again m.now peer) refl (registered-same D m.now peer)

  register_pending_with-Stays :
      (down : Bool) (token : Option Bytes)
      → All (Stays D rows) (register_pending_with v6 m down peer rows token).1
  unfolding register_pending_with pending_row registered_row
  register_pending_with-Stays down none = self-Stays D rows
  register_pending_with-Stays true (some token) = self-Stays D rows
  register_pending_with-Stays false (some token) =
      upsert-Stays D rows v6 peer.machine_id (pending_row m token peer) (pending_again m.now peer)
        refl (pending-same D m.now peer)

-- A row after a statement is one that was there before, with its id, machine, token and time of creation, or that of
-- a machine which was not there. The status of a row that was there changes only by an approval or a rejection
-- with its id, and then it is approved or rejected.
pub Statement-Stays : {a b : List Row} (s : Statement a b) → All (Stays (Decides s) a) b
unfolding register_peer register_pending_peer approve_peer reject_peer mark_peer_offline
    update_peer_status delete_peer delete_peer_by_machine_id
Statement-Stays {a} (register v6 m down peer) = register_with-Stays _ v6 m peer a down _
Statement-Stays {a} (register_pending v6 m down peer) =
    register_pending_with-Stays _ v6 m peer a down _
Statement-Stays {a} (approve v6 down id virtual_ip) =
    update-Stays _ a v6 down id (approved_row virtual_ip) (λ row same. record {
      id = refl;
      machine = refl;
      token = refl;
      created = refl;
      status = inr (same, refl);
    })
Statement-Stays {a} (reject v6 down id) =
    update-Stays _ a v6 down id (λ row. record row { status = codes "rejected" })
      (λ row same. record {
        id = refl;
        machine = refl;
        token = refl;
        created = refl;
        status = inr (same, refl);
      })
Statement-Stays {a} (mark_offline v6 down id) =
    update-Stays _ a v6 down id (λ row. record row { is_online = false })
      (λ row e. record {
        id = refl;
        machine = refl;
        token = refl;
        created = refl;
        status = inl refl;
      })
Statement-Stays {a} (update_status v6 now down id s) =
    rw (ignore_missing-after a (update_row v6 down id (updated_row now s) a))
      (update-Stays _ a v6 down id (updated_row now s) (λ row e. updated-same _ now s row))
Statement-Stays {a} (delete down id) = delete-Stays _ a down _
Statement-Stays {a} (delete_by_machine_id down networks id machine_id) = delete-Stays _ a down _
Statement-Stays {a} (expire now stale_after) =
    All-map (expire_stale_peers now stale_after a) (λ row. inl) (expire-Stays _ now stale_after a)
