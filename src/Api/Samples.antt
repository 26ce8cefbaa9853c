-- ===== src/Api/Samples.antt =====
-- A small database for the tests of the handlers.
use vpn_cloude.Base.{ℕ, true, false, none, some, [], ◌∷◌, Bool, codes}
use vpn_cloude.Stdlib.Ip.{V6Text}
use vpn_cloude.Store.{Network, Row, Peer, Database}
use vpn_cloude.Store.Updates.{approved_row}

abbrev pub only_v4 : V6Text
only_v4 = record { parse = λ text. none; print = λ ip. [] }

abbrev pub home : Network
home = record {
  id = codes "n1";
  owner_id = codes "ann";
  name = codes "home";
  network_id = codes "abc";
  cidr = codes "10.0.0.0/29";
  description = [];
  max_peers = 25;
  is_active = true;
  access_control = codes "approve";
  created_at = 1;
}

abbrev pub laptop : Row
laptop = record {
  id = codes "p1";
  network_id = codes "n1";
  name = some (codes "laptop");
  machine_id = codes "m1";
  public_key = codes "key-of-the-laptop";
  virtual_ip = codes "10.0.0.2";
  public_endpoint = none;
  local_endpoints = [];
  os = none;
  version = none;
  is_online = true;
  last_seen = some 7;
  last_handshake = none;
  rx_bytes = 0;
  tx_bytes = 0;
  vnc_port = 5900;
  vnc_available = false;
  relay_id = none;
  status = codes "approved";
  member_token = some (codes "t1");
  created_at = 2;
}

abbrev pub phone : Row
phone = record laptop {
  id = codes "p2";
  machine_id = codes "m2";
  public_key = codes "key-of-the-phone";
  virtual_ip = codes "0.0.0.0";
  is_online = false;
  last_seen = none;
  status = codes "pending";
  member_token = some (codes "t2");
  created_at = 3;
}

abbrev pub database : Database
database = record { networks = home ∷ []; peers = laptop ∷ phone ∷ [] }

abbrev pub never_down : ℕ → Bool
never_down n = false

abbrev pub phone_after : Row
phone_after = approved_row (codes "10.0.0.3") phone

abbrev pub phone_shown : Peer
phone_shown = record {
  id = codes "p2";
  network_id = codes "n1";
  name = codes "laptop";
  machine_id = codes "m2";
  public_key = codes "key-of-the-phone";
  virtual_ip = codes "10.0.0.3";
  public_endpoint = [];
  local_endpoints = [];
  os = [];
  version = [];
  is_online = false;
  last_seen = 0;
  last_handshake = 0;
  rx_bytes = 0;
  tx_bytes = 0;
  vnc_port = 5900;
  vnc_available = false;
  relay_id = [];
  status = codes "approved";
  member_token = [];
  created_at = 3;
}
