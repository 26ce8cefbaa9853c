-- ===== src/Store/Atomic.antt =====
-- A statement of server/internal/database/queries/peers.go that fails.
use vpn_cloude.Base.{
  ℕ, ◌≡◌, refl, Bool, true, false, ◌&&◌, Option, none, some, List, Bytes, if_split,
}
use vpn_cloude.Base.Select.{any}
use vpn_cloude.Stdlib.Ip.{V6Text}
use vpn_cloude.Store.{Row, Peer, DbError, Answer, answer, fault, not_found, ip_conflict, failed}
use vpn_cloude.Store.Constraints.{
  same_key, same_address, is_other, insert_row, put_row, write_row, upsert,
}
use vpn_cloude.Store.Register.{
  Moment, register_with, register_peer, register_pending_with, register_pending_peer,
  registered_row, registered_again, pending_row, pending_again,
}
use vpn_cloude.Store.Updates.{
  PeerStatusUpdate, update_found, update_row, updated_row, ignore_missing, update_peer_status,
  delete_rows,
}

-- After an error the table is what it was.
abbrev pub IsAtomic {ℓ} : {A : Type ℓ} → List Row → Answer A × List Row → Type 0
IsAtomic rows (fault e, after) = after ≡ rows
IsAtomic rows (answer a, after) = Unit

abbrev pub IsAtomicUpdate : List Row → Option DbError × List Row → Type 0
IsAtomicUpdate rows (some e, after) = after ≡ rows
IsAtomicUpdate rows (none, after) = Unit

insert_row-IsAtomic :
    (v6 : V6Text) (row : Row) (rows : List Row) → IsAtomic rows (insert_row v6 row rows)
unfolding insert_row
insert_row-IsAtomic v6 row rows =
    if_split (IsAtomic {A = Peer} rows) (any (same_key row) rows) (λ key. refl)
      (λ no_key.
        if_split (IsAtomic {A = Peer} rows) (any (same_address v6 row) rows) (λ address. refl)
          (λ no_address. tt))

put_row-IsAtomic : (v6 : V6Text) (row : Row) (rows : List Row) → IsAtomic rows (put_row v6 row rows)
unfolding put_row
put_row-IsAtomic v6 row rows =
    if_split (IsAtomic {A = Peer} rows)
      (any (λ other. is_other row other && same_key row other) rows) (λ key. refl)
      (λ no_key.
        if_split (IsAtomic {A = Peer} rows)
          (any (λ other. is_other row other && same_address v6 row other) rows) (λ address. refl)
          (λ no_address. tt))

write_row-IsAtomic :
    (v6 : V6Text) (fresh : Row) (again : Row → Row) (rows : List Row) (found : Option Row)
    → IsAtomic rows (write_row v6 fresh again rows found)
unfolding write_row
write_row-IsAtomic v6 fresh again rows none = insert_row-IsAtomic v6 fresh rows
write_row-IsAtomic v6 fresh again rows (some row) = put_row-IsAtomic v6 (again row) rows

pub register_with-IsAtomic :
    (v6 : V6Text) (m : Moment) (down : Bool) (peer : Peer) (rows : List Row) (token : Option Bytes)
    → IsAtomic rows (register_with v6 m down peer rows token)
unfolding register_with upsert
register_with-IsAtomic v6 m down peer rows none = refl
register_with-IsAtomic v6 m true peer rows (some token) = refl
register_with-IsAtomic v6 m false peer rows (some token) =
    write_row-IsAtomic v6 (registered_row m token peer) (registered_again m.now peer) rows _

pub register_peer-IsAtomic :
    (v6 : V6Text) (m : Moment) (down : Bool) (peer : Peer) (rows : List Row)
    → IsAtomic rows (register_peer v6 m down peer rows)
unfolding register_peer
register_peer-IsAtomic v6 m down peer rows = register_with-IsAtomic v6 m down peer rows _

register_pending_with-IsAtomic :
    (v6 : V6Text) (m : Moment) (down : Bool) (peer : Peer) (rows : List Row) (token : Option Bytes)
    → IsAtomic rows (register_pending_with v6 m down peer rows token)
unfolding register_pending_with upsert
register_pending_with-IsAtomic v6 m down peer rows none = refl
register_pending_with-IsAtomic v6 m true peer rows (some token) = refl
register_pending_with-IsAtomic v6 m false peer rows (some token) =
    write_row-IsAtomic v6 (pending_row m token peer) (pending_again m.now peer) rows _

pub register_pending_peer-IsAtomic :
    (v6 : V6Text) (m : Moment) (down : Bool) (peer : Peer) (rows : List Row)
    → IsAtomic rows (register_pending_peer v6 m down peer rows)
unfolding register_pending_peer
register_pending_peer-IsAtomic v6 m down peer rows =
    register_pending_with-IsAtomic v6 m down peer rows _

update_found-IsAtomic :
    (v6 : V6Text) (f : Row → Row) (rows : List Row) (found : Option Row)
    → IsAtomic rows (update_found v6 f rows found)
unfolding update_found
update_found-IsAtomic v6 f rows none = refl
update_found-IsAtomic v6 f rows (some row) = put_row-IsAtomic v6 (f row) rows

pub update_row-IsAtomic :
    (v6 : V6Text) (down : Bool) (id : Bytes) (f : Row → Row) (rows : List Row)
    → IsAtomic rows (update_row v6 down id f rows)
unfolding update_row
update_row-IsAtomic v6 true id f rows = refl
update_row-IsAtomic v6 false id f rows = update_found-IsAtomic v6 f rows _

ignore_missing-IsAtomic :
    (rows : List Row) (out : Answer Peer × List Row)
    → IsAtomic rows out
    → IsAtomicUpdate rows (ignore_missing rows out)
ignore_missing-IsAtomic rows (answer peer, after) h = tt
ignore_missing-IsAtomic rows (fault not_found, after) h = tt
ignore_missing-IsAtomic rows (fault ip_conflict, after) h = h
ignore_missing-IsAtomic rows (fault failed, after) h = h

pub update_peer_status-IsAtomic :
    (v6 : V6Text) (now : ℕ) (down : Bool) (id : Bytes) (s : PeerStatusUpdate) (rows : List Row)
    → IsAtomicUpdate rows (update_peer_status v6 now down id s rows)
unfolding update_peer_status
update_peer_status-IsAtomic v6 now down id s rows =
    ignore_missing-IsAtomic rows (update_row v6 down id (updated_row now s) rows)
      (update_row-IsAtomic v6 down id (updated_row now s) rows)

pub delete_rows-IsAtomic :
    (down : Bool) (test : Row → Bool) (rows : List Row)
    → IsAtomicUpdate rows (delete_rows down test rows)
unfolding delete_rows
delete_rows-IsAtomic true test rows = refl
delete_rows-IsAtomic false test rows =
    if_split (IsAtomicUpdate rows) (any test rows) (λ there. tt) (λ missing. refl)
