-- ===== src/Client/Tests.antt =====
-- The theorems on the API client at concrete answers.
use vpn_cloude.Base.{
  ℕ, zero, suc, ◌≤◌, ◌≡◌, ◌⊎◌, ◌&&◌, ◌||◌, ◌==◌, ltb, refl, true, false, none, some, [], Bytes,
  codes, bytes_equal,
}
use vpn_cloude.Stdlib.Text.{is_empty, trim_space, trim, trim_left, trim_right}
use vpn_cloude.Stdlib.Ip.{V6Text}
use vpn_cloude.Peer.Manager.Relay.{RelayInfo}
use vpn_cloude.Client.{
  Client, ApiRequest, call_get_peers, request_of, apply_auth, Codec, Exchange, no_response,
  response, completed, judge, judge_envelope, read_data, error_of, call_attempts, perform, do_json,
}
use vpn_cloude.Client.Trace.{Called, do_json-Trace}
use vpn_cloude.Client.RelayHost.{
  is_internal_relay_host, relay_host_from_base_url, host_from_endpoint, normalize_relay_info,
  normalize_relay_info_lem,
}

abbrev client : Client
client = record {
  base_url = codes "https://vpn.example.com";
  api_key = codes "k";
  token = [];
  member_token = [];
}

-- The envelope of each body is a success with the body as its data.
abbrev codec : Codec
codec = record {
  builds = λ method url. true;
  envelope = λ body. some (record { success = true; data_text = body; error_text = [] });
  decodes = λ text. true;
  status_text = λ status. codes "error";
}

-- No response, then a failure of the server, then a success.
abbrev send : ℕ → Exchange
send n = elim n [
  | zero ↦ no_response
  | suc m ↦ elim m as (λ _. Exchange) [
    | zero ↦ response 503 (codes "busy")
    | suc k ↦ response 200 (codes "data")
  ]
]

abbrev peers_request : ApiRequest
peers_request = request_of (λ text. text) (call_get_peers (codes "abc"))

third_time :
    do_json codec client peers_request true send (λ n. false) ≡ (completed (codes "data"), 3)
unfolding do_json perform apply_auth call_attempts judge judge_envelope read_data error_of
    request_of bytes_equal trim_space trim trim_left trim_right
third_time = refl

do_json-Trace_example :
    Called codec send client peers_request true
      (do_json codec client peers_request true send (λ n. false))
do_json-Trace_example = do_json-Trace codec send (λ n. false) client peers_request true (λ n. refl)

abbrev only_v4 : V6Text
only_v4 = record { parse = λ text. none; print = λ ip. [] }

abbrev hostname : Bytes → Bytes
hostname url = codes "vpn.example.com"

abbrev info : RelayInfo
info = record { relay_host = codes "relay"; relay_port = 0; relay_endpoint = [] }

normalize_relay_info_lem_example :
    let shown = normalize_relay_info only_v4 hostname (codes "https://vpn.example.com") info in
    (1 ≤ shown.relay_port)
    × (shown.relay_port ≤ 65535)
    × ((shown.relay_port ≡ 0)
        ⊎ ((ltb 65535 info.relay_port || (info.relay_port == 0)) ≡ true)
          × (shown.relay_port ≡ 3478))
    × ((shown.relay_host ≡ codes "relay") ⊎ (is_internal_relay_host only_v4 (codes "relay") ≡ true))
    × (is_internal_relay_host only_v4 shown.relay_host ≡ (
        is_internal_relay_host only_v4 (codes "relay")
        && is_internal_relay_host only_v4 (host_from_endpoint [])
        && is_empty (relay_host_from_base_url only_v4 hostname (codes "https://vpn.example.com"))))
normalize_relay_info_lem_example =
    normalize_relay_info_lem only_v4 hostname (codes "https://vpn.example.com") info
