-- ===== src/Api/Networks.antt =====
-- The handlers of server/internal/api/network_handler.go.
pub mod Owned
use vpn_cloude.Base.{
  ℕ, zero, suc, ◌+◌, ◌%◌, Bool, true, not, ◌&&◌, Option, none, some, List, [], ◌∷◌, ◌==◌, ltb,
  if◌then◌else◌, length, get_or, Bytes, bytes_equal, codes,
}
use vpn_cloude.Stdlib.Text.{is_empty, trim_space}
use vpn_cloude.Stdlib.Ip.{V6Text}
use vpn_cloude.Store.{Network, Row, Peer, Database, DbError, Answer, answer, fault}
use vpn_cloude.Store.Networks.{create_network, list_user_networks, update_network, delete_network}
use vpn_cloude.Store.Queries.{list_network_peers}
use vpn_cloude.Api.{Reply, refused, success, Checked, refuse, pass, missing_status, user_network}
use vpn_cloude.Api.Join.{text_or}

pub record CreateNetworkRequest : Type 0 where
  pub name : Bytes
  pub description : Bytes
  pub max_peers : ℕ
  pub cidr : Bytes
  pub access_control : Bytes

-- The clock, the id of the row, and the random indices below 36 for the public id, if they were drawn.
pub record Draw : Type 0 where
  pub now : ℕ
  pub id : Bytes
  pub indices : Option (List ℕ)

abbrev pub alphabet : Bytes
alphabet = codes "abcdefghijklmnopqrstuvwxyz0123456789"

unfoldable pub letters_at : List ℕ → Bytes
letters_at [] = []
letters_at (i ∷ indices) = get_or alphabet i 0 ∷ letters_at indices

unfoldable pub generate_network_id : Option (List ℕ) → Option Bytes
generate_network_id none = none
generate_network_id (some indices) = some (letters_at indices)

unfoldable pub clean_create : CreateNetworkRequest → CreateNetworkRequest
clean_create req = record {
  name = trim_space req.name;
  description = trim_space req.description;
  max_peers = if req.max_peers == 0 then 25 else req.max_peers;
  cidr = text_or (codes "10.7.0.0/16") req.cidr;
  access_control = text_or (codes "approve") req.access_control;
}

abbrev pub is_access_control : Bytes → Bool
is_access_control access_control = not (
    not (bytes_equal access_control (codes "approve"))
    && not (bytes_equal access_control (codes "auto")))

unfoldable pub created_reply : Answer Network × List Network → Reply Network × List Network
created_reply (fault e, networks) = (refused 500, networks)
created_reply (answer network, networks) = (success 201 network, networks)

unfoldable pub create_under :
    Draw
    → Bool
    → Bytes
    → CreateNetworkRequest
    → List Network
    → Option Bytes
    → Reply Network × List Network
create_under draw down user req networks none = (refused 500, networks)
create_under draw down user req networks (some public_id) = created_reply (
    create_network draw.now draw.id down
      (record {
        id = [];
        owner_id = user;
        name = req.name;
        network_id = public_id;
        cidr = req.cidr;
        description = req.description;
        max_peers = req.max_peers;
        is_active = true;
        access_control = req.access_control;
        created_at = 0;
      })
      networks)

unfoldable pub create_clean :
    Draw → Bool → Bytes → CreateNetworkRequest → List Network → Reply Network × List Network
create_clean draw down user req networks =
    if is_empty req.name
    then (refused 400, networks)
    else if not (is_access_control req.access_control)
    then (refused 400, networks)
    else create_under draw down user req networks (generate_network_id draw.indices)

-- `CreateNetwork` of the handler.
unfoldable pub handle_create_network :
    Draw
    → (ℕ → Bool)
    → Option Bytes
    → Option CreateNetworkRequest
    → List Network
    → Reply Network × List Network
handle_create_network draw down none body networks = (refused 401, networks)
handle_create_network draw down (some user) none networks = (refused 400, networks)
handle_create_network draw down (some user) (some req) networks =
    create_clean draw (down 0) user (clean_create req) networks

unfoldable pub networks_reply : Answer (List Network) → Reply (List Network)
networks_reply (fault e) = refused 500
networks_reply (answer networks) = success 200 networks

unfoldable pub list_networks : (ℕ → Bool) → Option Bytes → List Network → Reply (List Network)
list_networks down none networks = refused 401
list_networks down (some user) networks = networks_reply (list_user_networks (down 0) user networks)

unfoldable pub counted : Network → Answer (List Peer) → Reply (Network × ℕ)
counted network (fault e) = refused 500
counted network (answer peers) = success 200 (network, length peers)

unfoldable pub get_checked : V6Text → Bool → Database → Checked Network → Reply (Network × ℕ)
get_checked v6 down db (refuse status) = refused status
get_checked v6 down db (pass network) =
    counted network (list_network_peers v6 down db.networks network.id db.peers)

-- `GetNetwork` of the handler.
unfoldable pub handle_get_network :
    V6Text → (ℕ → Bool) → Option Bytes → Bytes → Database → Reply (Network × ℕ)
handle_get_network v6 down user id db =
    get_checked v6 (down 1) db (user_network (down 0) user id db.networks)

unfoldable pub changed_reply : Answer Network × List Network → Reply Network × List Network
changed_reply (fault e, networks) = (refused (missing_status e), networks)
changed_reply (answer network, networks) = (success 200 network, networks)

-- The new name and description: an empty one leaves what was there.
unfoldable pub update_network_checked :
    Bool
    → Bytes
    → Option (Bytes × Bytes)
    → List Network
    → Checked Network
    → Reply Network × List Network
update_network_checked down id body networks (refuse status) = (refused status, networks)
update_network_checked down id none networks (pass existing) = (refused 400, networks)
update_network_checked down id (some (name, description)) networks (pass existing) = changed_reply (
    update_network down id (text_or existing.name (trim_space name))
      (text_or existing.description (trim_space description)) networks)

-- `UpdateNetwork` of the handler.
unfoldable pub handle_update_network :
    (ℕ → Bool)
    → Option Bytes
    → Bytes
    → Option (Bytes × Bytes)
    → List Network
    → Reply Network × List Network
handle_update_network down user id body networks =
    update_network_checked (down 1) id body networks (user_network (down 0) user id networks)

unfoldable pub delete_network_checked :
    Bool → Bytes → List Network → Checked Network → Reply Network × List Network
delete_network_checked down id networks (refuse status) = (refused status, networks)
delete_network_checked down id networks (pass network) =
    changed_reply (delete_network down id networks)

-- `DeleteNetwork` of the handler, whose reply has only the word "deleted" for data.
unfoldable pub handle_delete_network :
    (ℕ → Bool) → Option Bytes → Bytes → List Network → Reply Network × List Network
handle_delete_network down user id networks =
    delete_network_checked (down 1) id networks (user_network (down 0) user id networks)
