-- ===== src/Store/Writes.antt =====
-- Statements of server/internal/database/queries/peers.go that succeed.
use vpn_cloude.Base.{
  ◌≡◌, refl, Bool, true, false, not, Option, none, some, List, [], ◌∷◌, ◌&&◌, Bytes, bytes_equal,
  All, All-append, if_both, arith,
}
use vpn_cloude.Base.Select.{any, find, keep}
use vpn_cloude.Stdlib.Ip.{V6Text}
use vpn_cloude.Store.{Row, Peer, Answer, answer, scan_peer}
use vpn_cloude.Store.Constraints.{
  has_id, same_key, same_address, is_other, replace, insert_row, put_row,
}
use vpn_cloude.Store.Updates.{update_found, update_row, delete_rows}

pub put_row-answer :
    (v6 : V6Text) (row : Row) (rows : List Row) (peer : Peer) (after : List Row)
    → put_row v6 row rows ≡ (answer peer, after)
    → (peer ≡ scan_peer v6 row) × (after ≡ replace row rows)
unfolding put_row
put_row-answer v6 row rows peer after h = ground (arith, h)

pub update_row-answer :
    (v6 : V6Text) (down : Bool) (id : Bytes) (f : Row → Row) (rows : List Row) (peer : Peer)
    (after : List Row)
    → update_row v6 down id f rows ≡ (answer peer, after)
    → (row : Row) × (find (has_id id) rows ≡ some row)
      × (peer ≡ scan_peer v6 (f row))
      × (after ≡ replace (f row) rows)
unfolding update_row
update_row-answer v6 true id f rows peer after h = absurd (cc h)
update_row-answer v6 false id f rows peer after h = by_row (find (has_id id) rows) refl h
  where
    by_row :
        (found : Option Row)
        → find (has_id id) rows ≡ found
        → update_found v6 f rows found ≡ (answer peer, after)
        → (row : Row) × (find (has_id id) rows ≡ some row)
          × (peer ≡ scan_peer v6 (f row))
          × (after ≡ replace (f row) rows)
    by_row none e k = absurd (unfold update_found in cc k)
    by_row (some row) e k =
        let (scanned, left) =
          put_row-answer v6 (f row) rows peer after (unfold update_found in k) in
        (row, e, scanned, left)

pub delete_rows-none :
    (down : Bool) (test : Row → Bool) (rows after : List Row)
    → delete_rows down test rows ≡ (none, after)
    → after ≡ keep (λ row. not (test row)) rows
unfolding delete_rows
delete_rows-none true test rows after h = absurd (cc h)
delete_rows-none false test rows after h = ground (arith, h)

replace-All :
    (P : Row → Type 0) (row : Row) (rows : List Row) → P row → All P rows → All P (replace row rows)
unfolding replace
replace-All P row [] h hs = tt
replace-All P row (other ∷ rows) h hs =
    (if_both P (bytes_equal other.id row.id) h hs.0, replace-All P row rows h hs.1)

pub put_row-All :
    (P : Row → Type 0) (v6 : V6Text) (row : Row) (rows : List Row)
    → P row
    → All P rows
    → All P (put_row v6 row rows).1
unfolding put_row
put_row-All P v6 row rows h hs =
    if_both (λ (out : Answer Peer × List Row). All P out.1)
      (any (λ other. is_other row other && same_key row other) rows) hs
      (if_both (λ (out : Answer Peer × List Row). All P out.1)
        (any (λ other. is_other row other && same_address v6 row other) rows) hs
        (replace-All P row rows h hs))

pub insert_row-All :
    (P : Row → Type 0) (v6 : V6Text) (row : Row) (rows : List Row)
    → P row
    → All P rows
    → All P (insert_row v6 row rows).1
unfolding insert_row
insert_row-All P v6 row rows h hs =
    if_both (λ (out : Answer Peer × List Row). All P out.1) (any (same_key row) rows) hs
      (if_both (λ (out : Answer Peer × List Row). All P out.1) (any (same_address v6 row) rows) hs
        (All-append P rows (row ∷ []) hs (h, tt)))
