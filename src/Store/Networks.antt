-- ===== src/Store/Networks.antt =====
-- The statements of server/internal/database/queries/networks.go, as functions of the table.
use vpn_cloude.Base.{
  ℕ, Bool, false, ◌&&◌, ◌||◌, none, some, List, [], ◌∷◌, ◌++◌, ltb, if◌then◌else◌, Bytes,
  bytes_equal,
}
use vpn_cloude.Base.Select.{any, find, keep, order_by}
use vpn_cloude.Store.{Network, Answer, answer, fault, not_found, failed, unless_down, one_row}

-- `id::text = $1 OR network_id = $1`, of the networks that are active.
abbrev pub is_named : Bytes → Network → Bool
is_named id network =
    network.is_active && (bytes_equal network.id id || bytes_equal network.network_id id)

unfoldable pub get_network : Bool → Bytes → List Network → Answer Network
get_network down id networks = unless_down down (one_row (find (is_named id) networks))

unfoldable pub get_network_by_public_id : Bool → Bytes → List Network → Answer Network
get_network_by_public_id down public_id networks = unless_down down (
    one_row
      (find (λ network. network.is_active && bytes_equal network.network_id public_id) networks))

unfoldable pub list_user_networks : Bool → Bytes → List Network → Answer (List Network)
list_user_networks down user networks = unless_down down (
    answer (
      order_by (λ a b. ltb b.created_at a.created_at)
        (keep (λ network. bytes_equal network.owner_id user && network.is_active) networks)))

-- The network as it is stored, under the new id. Neither its id nor its public id may be in use.
unfoldable pub create_network :
    ℕ → Bytes → Bool → Network → List Network → Answer Network × List Network
create_network now id down network networks =
    let row = record network { id = id; created_at = now } in
    let in_use =
      any (λ other. bytes_equal other.id id || bytes_equal other.network_id network.network_id)
        networks in
    if down || in_use then (fault failed, networks) else (answer row, networks ++ (row ∷ []))

-- The networks with those that pass the test changed.
unfoldable pub update_networks :
    (Network → Bool) → (Network → Network) → List Network → List Network
update_networks test f [] = []
update_networks test f (network ∷ networks) =
    (if test network then f network else network) ∷ update_networks test f networks

-- UPDATE of the network with an id, and what it returns.
abbrev pub update_one :
    Bool → (Network → Bool) → (Network → Network) → List Network → Answer Network × List Network
update_one down test f networks =
    if down then (fault failed, networks) else (elim (find test networks) [
      | none ↦ (fault not_found, networks)
      | some network ↦ (answer (f network), update_networks test f networks)
    ])

unfoldable pub delete_network : Bool → Bytes → List Network → Answer Network × List Network
delete_network down id =
    update_one down (λ network. bytes_equal network.id id)
      (λ network. record network { is_active = false })

unfoldable pub update_network :
    Bool → Bytes → Bytes → Bytes → List Network → Answer Network × List Network
update_network down id name description =
    update_one down (λ network. bytes_equal network.id id && network.is_active)
      (λ network. record network { name = name; description = description })

unfoldable pub update_network_access_control :
    Bool → Bytes → Bytes → List Network → Answer Network × List Network
update_network_access_control down id access_control =
    update_one down (λ network. bytes_equal network.id id && network.is_active)
      (λ network. record network { access_control = access_control })
