-- ===== src/Store/Constraints.antt =====
-- The keys and unique columns of peers (server/internal/database/migrations), and how a row is written under
-- them.
use vpn_cloude.Base.{
  Bool, false, not, ◌&&◌, ◌||◌, Option, none, some, List, [], ◌∷◌, ◌++◌, if◌then◌else◌, Bytes,
  bytes_equal, codes, length, replicate,
}
use vpn_cloude.Base.Select.{any, find}
use vpn_cloude.Stdlib.Text.{is_empty}
use vpn_cloude.Stdlib.Ip.{V6Text, parse_ip, parse_cidr}
use vpn_cloude.Store.{
  Row, Peer, Answer, answer, fault, ip_conflict, failed, scan_peer, cidr_address,
}

abbrev pub null_if_empty : Bytes → Option Bytes
null_if_empty s = if is_empty s then none else some s

abbrev pub has_id : Bytes → Row → Bool
has_id id row = bytes_equal row.id id

abbrev pub is_token : Bytes → Option Bytes → Bool
is_token token none = false
is_token token (some other) = bytes_equal other token

abbrev pub same_token : Option Bytes → Option Bytes → Bool
same_token a none = false
same_token a (some token) = is_token token a

-- Two rows that may not stand together for a key or a UNIQUE column.
abbrev pub same_key : Row → Row → Bool
same_key a b =
    bytes_equal a.id b.id
    || bytes_equal a.machine_id b.machine_id
    || same_token a.member_token b.member_token

-- The value of a text as an `inet`: the address, and the mask if it is not that of a single host. A text that is no
-- address stands for itself.
unfoldable pub inet_of : V6Text → Bytes → Bytes × Bytes
inet_of v6 text = elim (parse_ip v6 text) [
  | some ip ↦ (ip, [])
  | none ↦ elim (cidr_address v6 text) [
    | none ↦ (text, [])
    | some ip ↦ elim (parse_cidr v6 text) [
      | none ↦ (text, [])
      | some net ↦
          (ip, if bytes_equal net.mask (replicate (length net.mask) 255) then [] else net.mask)
    ]
  ]
]

abbrev pub same_inet : V6Text → Bytes → Bytes → Bool
same_inet v6 s t =
    bytes_equal (inet_of v6 s).0 (inet_of v6 t).0 && bytes_equal (inet_of v6 s).1 (inet_of v6 t).1

-- The same for the index on (network_id, virtual_ip), which leaves out 0.0.0.0.
abbrev pub same_address : V6Text → Row → Row → Bool
same_address v6 a b =
    bytes_equal a.network_id b.network_id
    && same_inet v6 a.virtual_ip b.virtual_ip
    && not (same_inet v6 a.virtual_ip (codes "0.0.0.0"))

abbrev pub is_other : Row → Row → Bool
is_other row other = not (bytes_equal other.id row.id)

-- The rows with one replaced by the row of the same id.
unfoldable pub replace : Row → List Row → List Row
replace row [] = []
replace row (other ∷ rows) = (if bytes_equal other.id row.id then row else other) ∷ replace row rows

-- A new row, if the constraints allow it.
unfoldable pub insert_row : V6Text → Row → List Row → Answer Peer × List Row
insert_row v6 row rows =
    if any (same_key row) rows
    then (fault failed, rows)
    else if any (same_address v6 row) rows
    then (fault ip_conflict, rows)
    else (answer (scan_peer v6 row), rows ++ (row ∷ []))

-- The new content of a row that is there, if the constraints allow it.
unfoldable pub put_row : V6Text → Row → List Row → Answer Peer × List Row
put_row v6 row rows =
    if any (λ other. is_other row other && same_key row other) rows
    then (fault failed, rows)
    else if any (λ other. is_other row other && same_address v6 row other) rows
    then (fault ip_conflict, rows)
    else (answer (scan_peer v6 row), replace row rows)

-- INSERT, or DO UPDATE of the row with the machine.
unfoldable pub write_row :
    V6Text → Row → (Row → Row) → List Row → Option Row → Answer Peer × List Row
write_row v6 fresh again rows none = insert_row v6 fresh rows
write_row v6 fresh again rows (some row) = put_row v6 (again row) rows

-- INSERT ... ON CONFLICT (machine_id) DO UPDATE.
unfoldable pub upsert : V6Text → Bytes → Row → (Row → Row) → List Row → Answer Peer × List Row
upsert v6 machine_id fresh again rows =
    write_row v6 fresh again rows (find (λ row. bytes_equal row.machine_id machine_id) rows)
