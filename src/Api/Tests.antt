-- ===== src/Api/Tests.antt =====
-- The theorems on members at a small database.
use vpn_cloude.Base.{◌≡◌, refl, not, some, [], ◌∷◌, codes, bytes_equal}
use vpn_cloude.Base.Select.{any, keep, find, order_by}
use vpn_cloude.Stdlib.Text.{trim_space, trim, trim_left, trim_right, index_byte}
use vpn_cloude.Stdlib.Number.{digits_value}
use vpn_cloude.Stdlib.Ip.{
  to4, parse_v4_from, parse_v4, family_mark, parse_ip, dotted, ip_string, cidr_mask, and_bytes,
  mask_ip, parse_cidr, contains_ip,
}
use vpn_cloude.Netutil.{
  word_of_octets, ip_to_uint32, uint32_to_ip, mask_to_uint32, address_of, used_words, is_used,
  first_free, host_range, allocate_ip,
}
use vpn_cloude.Store.{Network, Row, normalize_host_ipv4, scan_peer}
use vpn_cloude.Store.Constraints.{inet_of, has_id, replace, put_row}
use vpn_cloude.Store.Networks.{get_network}
use vpn_cloude.Store.Queries.{scan_all, get_peer, list_network_peers}
use vpn_cloude.Store.Updates.{update_found, update_row, approve_peer, delete_rows, delete_peer}
use vpn_cloude.Api.Samples.{only_v4, laptop, phone, database, never_down, phone_after, phone_shown}
use vpn_cloude.Api.{
  success, owned_network, user_network, network_member, checked_member, hide_token, used_ips,
  coordinator_ip,
}
use vpn_cloude.Api.Members.{
  approved_reply, approve_at, approve_beside, approve_checked, approve_member, done_reply,
  kick_checked, kick_member,
}
use vpn_cloude.Api.Owner.{Manages, kick_member_lem}
use vpn_cloude.Api.Approval.{Approved, approve_member_lem}

phone_approved :
    approve_member only_v4 never_down (some (codes "ann")) (codes "abc") (codes "p2") database
    ≡ (success 200 phone_shown, laptop ∷ phone_after ∷ [])
unfolding inet_of approve_member approve_checked approve_beside approve_at approved_reply
    user_network owned_network checked_member network_member get_network get_peer list_network_peers
    scan_all scan_peer normalize_host_ipv4 find any keep order_by bytes_equal trim_space trim
    trim_left trim_right coordinator_ip used_ips approve_peer update_row update_found put_row
    replace hide_token allocate_ip parse_cidr index_byte family_mark parse_ip parse_v4 parse_v4_from
    digits_value cidr_mask mask_ip and_bytes host_range to4 ip_to_uint32 mask_to_uint32
    word_of_octets used_words address_of is_used first_free uint32_to_ip contains_ip ip_string
    dotted
phone_approved = refl

approve_member_lem_example :
    (network : Network) × (row : Row) × Manages only_v4 never_down
      (some (codes "ann"))
      (codes "abc")
      (codes "p2")
      database
      network
      row
    × Approved only_v4 never_down
        (codes "p2")
        database
        network
        (scan_peer only_v4 row)
        200
        phone_shown
        (laptop ∷ phone_after ∷ [])
approve_member_lem_example =
    approve_member_lem only_v4 never_down (some (codes "ann")) (codes "abc") (codes "p2") database
      200 phone_shown (laptop ∷ phone_after ∷ []) phone_approved

laptop_kicked :
    kick_member only_v4 never_down (some (codes "ann")) (codes "n1") (codes "p1") database
    ≡ (success 200 (codes "removed"), phone ∷ [])
unfolding kick_member kick_checked done_reply user_network owned_network checked_member
    network_member get_network get_peer scan_peer normalize_host_ipv4 find any keep bytes_equal
    trim_space trim trim_left trim_right delete_peer delete_rows family_mark parse_ip parse_v4
    parse_v4_from to4 ip_string dotted
laptop_kicked = refl

kick_member_lem_example :
    (network : Network) × (row : Row) × Manages only_v4 never_down
      (some (codes "ann"))
      (codes "n1")
      (codes "p1")
      database
      network
      row
    × ((phone ∷ []) ≡ keep (λ other. not (has_id (codes "p1") other)) (laptop ∷ phone ∷ []))
kick_member_lem_example =
    kick_member_lem only_v4 never_down (some (codes "ann")) (codes "n1") (codes "p1") database 200
      (codes "removed") (phone ∷ []) laptop_kicked
