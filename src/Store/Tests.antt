-- ===== src/Store/Tests.antt =====
-- The theorems on the table of peers after three statements.
use vpn_cloude.Base.{◌≡◌, refl, false, none, some, List, [], ◌∷◌, codes, bytes_equal, All}
use vpn_cloude.Base.Select.{find, keep, any}
use vpn_cloude.Stdlib.Text.{trim_space, trim, trim_left, trim_right}
use vpn_cloude.Stdlib.Ip.{V6Text, parse_ip, parse_v4, parse_v4_from, family_mark}
use vpn_cloude.Stdlib.Hex.{hex_text}
use vpn_cloude.Store.{Row, Peer}
use vpn_cloude.Store.Constraints.{inet_of, insert_row, put_row, write_row, upsert, replace}
use vpn_cloude.Store.Register.{
  Moment, register_with, register_peer, register_pending_with, register_pending_peer,
  registered_row, pending_row,
}
use vpn_cloude.Store.Updates.{
  approve_peer, expire_stale_peers, expire_row, update_row, update_found,
}
use vpn_cloude.Store.Statements.{Statement, approve, Decides, Stays, Statement-Stays}
use vpn_cloude.Store.Stale.{IsFresh, never_seen, expire_stale_peers-IsFresh}

abbrev only_v4 : V6Text
only_v4 = record { parse = λ text. none; print = λ ip. [] }

abbrev machine : Peer
machine = record {
  id = [];
  network_id = codes "n1";
  name = codes "laptop";
  machine_id = codes "m1";
  public_key = codes "k1";
  virtual_ip = codes "10.0.0.2";
  public_endpoint = [];
  local_endpoints = [];
  os = [];
  version = [];
  is_online = false;
  last_seen = 0;
  last_handshake = 0;
  rx_bytes = 0;
  tx_bytes = 0;
  vnc_port = 5900;
  vnc_available = false;
  relay_id = [];
  status = codes "approved";
  member_token = [];
  created_at = 0;
}

abbrev device : Peer
device = record machine { machine_id = codes "m2"; virtual_ip = []; status = codes "pending" }

abbrev first_moment : Moment
first_moment = record { now = 1; id = codes "p1"; random = some (1 ∷ []) }

abbrev second_moment : Moment
second_moment = record { now = 2; id = codes "p2"; random = some (2 ∷ []) }

abbrev after_register : List Row
after_register = (register_peer only_v4 first_moment false machine []).1

abbrev after_pending : List Row
after_pending = (register_pending_peer only_v4 second_moment false device after_register).1

-- An approval with the address of the other peer is turned down.
abbrev after_approve : List Row
after_approve = (approve_peer only_v4 false (codes "p2") (codes "10.0.0.2") after_pending).1

clash_turned_down : after_approve ≡ after_pending
unfolding inet_of parse_ip parse_v4 parse_v4_from family_mark register_peer register_with
    register_pending_peer register_pending_with upsert write_row insert_row put_row replace
    registered_row pending_row approve_peer update_row update_found find any bytes_equal trim_space
    trim trim_left trim_right hex_text
clash_turned_down = refl

-- The approval with an address that is free.
abbrev approval :
    Statement after_pending
      (approve_peer only_v4 false (codes "p2") (codes "10.0.0.3") after_pending).1
approval = approve only_v4 false (codes "p2") (codes "10.0.0.3")

Statement-Stays_example :
    All
      (Stays (Decides approval) after_pending)
      (approve_peer only_v4 false (codes "p2") (codes "10.0.0.3") after_pending).1
Statement-Stays_example = Statement-Stays approval

abbrev seen_row : Row
seen_row = registered_row first_moment [] machine

-- A peer that registered and never reported a status stays online.
never_expires : expire_stale_peers 1000000 60 (seen_row ∷ []) ≡ seen_row ∷ []
unfolding expire_stale_peers expire_row registered_row
never_expires = refl

expire_stale_peers-IsFresh_example :
    All (IsFresh 100 60) (expire_stale_peers 100 60 (record seen_row { last_seen = some 7 } ∷ []))
    × (keep never_seen (expire_stale_peers 100 60 (record seen_row { last_seen = some 7 } ∷ []))
        ≡ keep never_seen (record seen_row { last_seen = some 7 } ∷ []))
expire_stale_peers-IsFresh_example =
    expire_stale_peers-IsFresh 100 60 (record seen_row { last_seen = some 7 } ∷ [])
