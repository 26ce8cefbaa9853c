-- ===== src/Client.antt =====
-- The API client of client/internal/api_client/client.go: credentials, requests and the retries of doJSON.
-- The answer of the server to each attempt, encoding/json, url.PathEscape and the texts of
-- the statuses are parameters.
pub mod RelayHost
pub mod Trace
mod Tests
use vpn_cloude.Base.{
  ℕ, zero, suc, ◌+◌, Bool, true, false, not, ◌&&◌, ◌||◌, Option, none, some, List, [], ◌∷◌, ◌++◌,
  leb, ltb, ◌==◌, if◌then◌else◌, Bytes, bytes_equal, codes,
}
use vpn_cloude.Stdlib.Text.{is_empty, trim_space, trim_right}

pub record Client : Type 0 where
  pub base_url : Bytes
  pub api_key : Bytes
  pub token : Bytes
  pub member_token : Bytes

unfoldable pub new_client : Bytes → Bytes → Client
new_client server_url api_key = record {
  base_url = trim_right (λ c. c == 47) (trim_space server_url);
  api_key = trim_space api_key;
  token = [];
  member_token = [];
}

abbrev pub set_token : Bytes → Client → Client
set_token token client = record client { token = trim_space token }

abbrev pub set_api_key : Bytes → Client → Client
set_api_key api_key client = record client { api_key = trim_space api_key }

abbrev pub set_member_token : Bytes → Client → Client
set_member_token token client = record client { member_token = trim_space token }

pub data RequestAuthMode : Type 0 where
  auth_none auth_jwt auth_api_key auth_member_token : RequestAuthMode

abbrev pub Headers : Type 0
Headers = List (Bytes × Bytes)

-- The headers with the credentials of a request, or none if they are missing.
unfoldable pub apply_auth : Client → RequestAuthMode → Option Headers
apply_auth client auth_none = some []
apply_auth client auth_jwt =
    if is_empty client.token
    then none
    else some ((codes "Authorization", codes "Bearer " ++ client.token) ∷ [])
apply_auth client auth_api_key =
    if is_empty client.api_key
    then none
    else some (
        (codes "X-API-Key", client.api_key)
        ∷ (codes "Authorization", codes "ApiKey " ++ client.api_key)
        ∷ [])
apply_auth client auth_member_token =
    if is_empty client.member_token
    then none
    else some ((codes "Authorization", codes "Bearer " ++ client.member_token) ∷ [])

pub record HttpError : Type 0 where
  pub status_code : ℕ
  pub message : Bytes
  pub body : Bytes
  pub temporary : Bool

pub data ClientError : Type 0 where
  no_credentials not_marshalled not_built cancelled not_performed not_read not_decoded
        data_not_decoded exhausted :
      ClientError
  http_error : HttpError → ClientError

pub record ResponseEnvelope : Type 0 where
  pub success : Bool
  pub data_text : Bytes
  pub error_text : Bytes

-- One attempt: no response, a body that could not be read, or a response.
pub data Exchange : Type 0 where
  no_response no_body : Exchange
  response : ℕ → Bytes → Exchange

-- A request without its body. `has_target` tells that the data of the response is read.
pub record ApiRequest : Type 0 where
  pub method : Bytes
  pub path : Bytes
  pub mode : RequestAuthMode
  pub has_target : Bool

-- The functions of Go's packages that doJSON calls: whether `http.NewRequestWithContext` takes a method and an
-- address, decoding of the envelope, whether the data decodes into the
-- target of the call, and `http.StatusText`.
pub record Codec : Type 0 where
  pub builds : Bytes → Bytes → Bool
  pub envelope : Bytes → Option ResponseEnvelope
  pub decodes : Bytes → Bool
  pub status_text : ℕ → Bytes

-- The text of the data, or an error.
pub data CallResult : Type 0 where
  completed : Bytes → CallResult
  errored : ClientError → CallResult

pub data Verdict : Type 0 where
  retry : ClientError → Verdict
  final : CallResult → Verdict

abbrev pub max_retries : ℕ
max_retries = 3

-- An empty body leaves the envelope at its zero value.
abbrev pub read_envelope : Codec → Bytes → Option ResponseEnvelope
read_envelope codec body =
    if is_empty body
    then some (record { success = false; data_text = []; error_text = [] })
    else codec.envelope body

abbrev pub or_else : Bytes → Bytes → Bytes
or_else s other = if is_empty s then other else s

unfoldable pub error_of : Codec → ℕ → Bytes → ResponseEnvelope → HttpError
error_of codec status body envelope = record {
  status_code = status;
  message = or_else envelope.error_text (or_else (trim_space body) (codec.status_text status));
  body = trim_space body;
  temporary = leb 500 status;
}

-- The data goes to the target of the call, if it has one and there is data.
unfoldable pub read_data : Codec → Bool → ResponseEnvelope → CallResult
read_data codec has_target envelope =
    if has_target
      && not (is_empty envelope.data_text)
      && not (bytes_equal envelope.data_text (codes "null"))
      && not (codec.decodes envelope.data_text)
    then errored data_not_decoded
    else completed envelope.data_text

unfoldable pub judge_envelope : Codec → Bool → Bool → ℕ → Bytes → Option ResponseEnvelope → Verdict
judge_envelope codec has_target last status body none =
    if leb 500 status && not last then retry not_decoded else final (errored not_decoded)
judge_envelope codec has_target last status body (some envelope) =
    let failure = http_error (error_of codec status body envelope) in
    if leb 400 status || not envelope.success
    then (if leb 500 status && not last then retry failure else final (errored failure))
    else final (read_data codec has_target envelope)

-- The body of the loop, after the request was performed.
unfoldable pub judge : Codec → Bool → Bool → Exchange → Verdict
judge codec has_target last no_response = retry not_performed
judge codec has_target last no_body = retry not_read
judge codec has_target last (response status body) =
    judge_envelope codec has_target last status body (read_envelope codec body)

abbrev pub after_verdict : (ClientError → CallResult × ℕ) → ℕ → Verdict → CallResult × ℕ
after_verdict again n (retry e) = again e
after_verdict again n (final result) = (result, n + 1)

-- The result, and how many requests were performed. `send n` is what comes of attempt n, and `stop n` tells
-- that the context ends in the pause before it.
unfoldable pub call_attempts :
    Codec → Bool → (ℕ → Exchange) → (ℕ → Bool) → ℕ → ℕ → ClientError → CallResult × ℕ
call_attempts codec has_target send stop zero n last_error = (errored last_error, n)
call_attempts codec has_target send stop (suc left) n last_error =
    let verdict = judge codec has_target (left == 0) (send n) in
    let again = call_attempts codec has_target send stop left (n + 1) in
    if ltb 0 n && stop n then (errored cancelled, n) else after_verdict again n verdict

-- The attempts, after the first of them has built the request and found its credentials: each one does so in
-- the same way.
unfoldable pub perform :
    Codec → Bool → (ℕ → Exchange) → (ℕ → Bool) → Bool → Option Headers → CallResult × ℕ
perform codec has_target send stop false headers = (errored not_built, 0)
perform codec has_target send stop true none = (errored no_credentials, 0)
perform codec has_target send stop true (some headers) =
    call_attempts codec has_target send stop max_retries 0 exhausted

-- `doJSON`. `encoded` tells that the request has no body or that the body was encoded.
unfoldable pub do_json :
    Codec → Client → ApiRequest → Bool → (ℕ → Exchange) → (ℕ → Bool) → CallResult × ℕ
do_json codec client request encoded send stop =
    if encoded
    then perform codec request.has_target send stop
        (codec.builds request.method (client.base_url ++ request.path))
        (apply_auth client request.mode)
    else (errored not_marshalled, 0)

-- `Login`, with the tokens of the response if it succeeded.
unfoldable pub use_login : Option (Bytes × Bytes) → Client → Client
use_login none client = client
use_login (some (access_token, api_key)) client =
    let logged = set_token access_token client in
    if is_empty api_key then logged else set_api_key api_key logged

-- The calls of the client; query texts are those of `url.Values.Encode`.
pub data ApiCall : Type 0 where
  call_login call_announce : ApiCall
  call_register_peer call_get_peers : Bytes → ApiCall
  call_heartbeat : Bytes → Bytes → ApiCall
  call_nearest_relay : Bytes → ApiCall
  call_member_relay : Bytes → Bytes → ApiCall
  call_member_heartbeat call_member_peers call_member_announce call_member_offline : Bytes → ApiCall

-- The request of a call; `escape` is `url.PathEscape`.
unfoldable pub request_of : (Bytes → Bytes) → ApiCall → ApiRequest
request_of escape call_login = record {
  method = codes "POST";
  path = codes "/api/v1/auth/login";
  mode = auth_none;
  has_target = true;
}
request_of escape (call_register_peer network) = record {
  method = codes "POST";
  path = codes "/api/v1/networks/" ++ (escape network ++ codes "/peers/register");
  mode = auth_api_key;
  has_target = true;
}
request_of escape (call_heartbeat network peer) = record {
  method = codes "PUT";
  path =
      codes "/api/v1/networks/"
      ++ (escape network ++ (codes "/peers/" ++ (escape peer ++ codes "/heartbeat")));
  mode = auth_api_key;
  has_target = false;
}
request_of escape (call_get_peers network) = record {
  method = codes "GET";
  path = codes "/api/v1/coord/peers/" ++ escape network;
  mode = auth_api_key;
  has_target = true;
}
request_of escape call_announce = record {
  method = codes "POST";
  path = codes "/api/v1/coord/announce";
  mode = auth_api_key;
  has_target = false;
}
request_of escape (call_nearest_relay query) = record {
  method = codes "GET";
  path = codes "/api/v1/coord/relay/assign?" ++ query;
  mode = auth_api_key;
  has_target = true;
}
request_of escape (call_member_relay member query) = record {
  method = codes "GET";
  path = codes "/api/v1/members/" ++ (escape member ++ (codes "/relay?" ++ query));
  mode = auth_member_token;
  has_target = true;
}
request_of escape (call_member_heartbeat member) = record {
  method = codes "PUT";
  path = codes "/api/v1/members/" ++ (escape member ++ codes "/heartbeat");
  mode = auth_member_token;
  has_target = false;
}
request_of escape (call_member_peers member) = record {
  method = codes "GET";
  path = codes "/api/v1/members/" ++ (escape member ++ codes "/peers");
  mode = auth_member_token;
  has_target = true;
}
request_of escape (call_member_announce member) = record {
  method = codes "POST";
  path = codes "/api/v1/members/" ++ (escape member ++ codes "/announce");
  mode = auth_member_token;
  has_target = false;
}
request_of escape (call_member_offline member) = record {
  method = codes "POST";
  path = codes "/api/v1/members/" ++ (escape member ++ codes "/offline");
  mode = auth_member_token;
  has_target = false;
}
