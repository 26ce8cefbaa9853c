-- ===== src/Api/Networks/Owned.antt =====
-- Changes of a network (server/internal/api/network_handler.go) and who can make them.
use vpn_cloude.Base.{
  ℕ, ◌≡◌, ◌≢◌, refl, sym, subst, ◌∙◌, ◌⊎◌, All, if_split, bytes_equal_iff, Bool-cases, Bool, true,
  false, ◌&&◌, Option, none, some, List, [], ◌∷◌, Bytes, bytes_equal, Option-cases, inl, inr, arith,
}
use vpn_cloude.Base.Select.{find, find-test, find-All}
use vpn_cloude.Stdlib.Text.{trim_space}
use vpn_cloude.Store.{Network, DbError, Answer, answer, fault, unless_down, one_row}
use vpn_cloude.Store.Networks.{
  is_named, get_network, update_one, update_networks, delete_network, update_network,
}
use vpn_cloude.Api.{Reply, refused, success, Checked, refuse, pass, user_network}
use vpn_cloude.Api.Owner.{Owns, user_network-Owns}
use vpn_cloude.Api.Join.{text_or}
use vpn_cloude.Api.Networks.{
  changed_reply, delete_network_checked, handle_delete_network, update_network_checked,
  handle_update_network,
}

-- A refused request leaves the networks as they were; one that succeeds came from the owner of the
-- network, and what it leaves meets `P` of that network.
abbrev pub IsOwned :
    (ℕ → Bool)
    → Option Bytes
    → Bytes
    → List Network
    → (Network → List Network → Type 0)
    → Reply Network × List Network
    → Type 0
IsOwned down user id networks P (refused code, after) = after ≡ networks
IsOwned down user id networks P (success code shown, after) =
    (network : Network) × Owns (down 0) user id networks network × P network after

changed_reply-out :
    (P : Reply Network × List Network → Type 0) (out : Answer Network × List Network)
    → ((e : DbError) (after : List Network) (status : ℕ)
        → out ≡ (fault e, after)
        → P (refused status, after))
    → ((network : Network) (after : List Network)
        → out ≡ (answer network, after)
        → P (success 200 network, after))
    → P (changed_reply out)
unfolding changed_reply
changed_reply-out P (fault e, after) hf ha = hf e after _ refl
changed_reply-out P (answer network, after) hf ha = ha network after refl

update_one-fault :
    (down : Bool) (test : Network → Bool) (f : Network → Network) (networks : List Network)
    (e : DbError) (after : List Network)
    → update_one down test f networks ≡ (fault e, after)
    → after ≡ networks
update_one-fault true test f networks e after h = ground (arith, h)
update_one-fault false test f networks e after h = elim (Option-cases (find test networks)) [
  | inl missing ↦ ground (arith, missing, h)
  | inr (network, there) ↦ absurd (ground (arith, there, h))
]

update_one-answer :
    (down : Bool) (test : Network → Bool) (f : Network → Network) (networks : List Network)
    (shown : Network) (after : List Network)
    → update_one down test f networks ≡ (answer shown, after)
    → (row : Network) × (find test networks ≡ some row) × (after ≡ update_networks test f networks)
update_one-answer true test f networks shown after h = absurd (cc h)
update_one-answer false test f networks shown after h = elim (Option-cases (find test networks)) [
  | inl missing ↦ absurd (ground (arith, missing, h))
  | inr (row, there) ↦ (row, there, ground (arith, there, h))
]

-- Each network before and the one in its place afterwards.
abbrev pub Pairs : (Network → Network → Type 0) → List Network → List Network → Type 0
Pairs R [] [] = Unit
Pairs R (old ∷ before) (new ∷ after) = R old new × Pairs R before after
Pairs R [] (new ∷ after) = ⊥
Pairs R (old ∷ before) [] = ⊥

update_networks-Pairs :
    (R : Network → Network → Type 0) (test : Network → Bool) (f : Network → Network)
    (networks : List Network)
    → ((network : Network) → test network ≡ true → R network (f network))
    → ((network : Network) → test network ≡ false → R network network)
    → Pairs R networks (update_networks test f networks)
unfolding update_networks
update_networks-Pairs R test f [] changed kept = tt
update_networks-Pairs R test f (network ∷ networks) changed kept = (
  if_split (λ (new : Network). R network new) (test network) (changed network) (kept network),
  update_networks-Pairs R test f networks changed kept,
)

-- Only the network itself changes: it is not active any more.
abbrev pub Deletes : Network → Network → Network → Type 0
Deletes network old new =
    ((old.id ≡ network.id) × (new ≡ record old { is_active = false }))
    ⊎ ((old.id ≢ network.id) × (new ≡ old))

-- Only the network itself changes, if it is active: it gets the texts of the request that are not blank.
abbrev pub Renames : Bytes → Bytes → Network → Network → Network → Type 0
Renames name description network old new =
    ((old.id ≡ network.id)
      × (old.is_active ≡ true)
      × (new.name ≡ text_or network.name (trim_space name))
      × (new.description ≡ text_or network.description (trim_space description))
      × (new ≡ record old { name = new.name; description = new.description }))
    ⊎ (((old.id ≢ network.id) ⊎ (old.is_active ≡ false)) × (new ≡ old))

-- No public id is the id of a network.
abbrev pub IsSeparate : List Network → Type 0
IsSeparate networks =
    All (λ network. All (λ other. network.network_id ≢ other.id) networks) networks

one_row-answer :
    (down : Bool) (found : Option Network) (network : Network)
    → unless_down down (one_row found) ≡ answer network
    → found ≡ some network
one_row-answer true found network h = absurd (cc h)
one_row-answer false none network h = absurd (cc h)
one_row-answer false (some other) network h = ground (arith, h)

module _ (down : ℕ → Bool) (user : Option Bytes) (id : Bytes) (networks : List Network)
    (separate : IsSeparate networks) where
  -- The owned network is the one whose row a statement found by its id.
  owned-id :
      (network row : Network) (test : Network → Bool)
      → Owns (down 0) user id networks network
      → find test networks ≡ some row
      → row.id ≡ id
      → network.id ≡ id
  unfolding get_network
  owned-id network row test owns there same =
      let found : find (is_named id) networks ≡ some network =
        one_row-answer (down 0) (find (is_named id) networks) network owns.named in
      let named : is_named id network ≡ true = find-test (is_named id) networks network found in
      let apart : network.network_id ≢ row.id =
        find-All (λ other. network.network_id ≢ other.id) test networks row
          (find-All (λ n. All (λ other. n.network_id ≢ other.id) networks) (is_named id) networks
            network separate found)
          there in
      elim (Bool-cases (bytes_equal network.id id)) [
        | inl own ↦ (bytes_equal_iff network.id id).0 own
        | inr public ↦
            let by_public : network.network_id ≡ id =
              (bytes_equal_iff network.network_id id).0 (ground (arith, named, public)) in
            absurd (apart (by_public ∙ sym same))
      ]

  changed-IsOwned :
      (test : Network → Bool) (f : Network → Network) (R : Network → Network → Network → Type 0)
      (network : Network)
      → Owns (down 0) user id networks network
      → ((row : Network) → test row ≡ true → row.id ≡ id)
      → ((row : Network) → network.id ≡ id → test row ≡ true → R network row (f row))
      → ((row : Network) → network.id ≡ id → test row ≡ false → R network row row)
      → IsOwned down user id networks
          (λ owned. Pairs (R owned) networks)
          (changed_reply (update_one (down 1) test f networks))
  changed-IsOwned test f R network owns by_id changed kept =
      changed_reply-out (IsOwned down user id networks (λ owned. Pairs (R owned) networks))
        (update_one (down 1) test f networks)
        (λ failure after status out. update_one-fault (down 1) test f networks failure after out)
        (λ shown after out.
          let (row, there, written) = update_one-answer (down 1) test f networks shown after out in
          let same =
            owned-id network row test owns there (by_id row (find-test test networks row there)) in
          (
            network,
            owns,
            subst (Pairs (R network) networks) (sym written) (
                update_networks-Pairs (R network) test f networks (λ r. changed r same)
                  (λ r. kept r same)),
          ))

  delete_network_checked-IsOwned :
      (guard : Checked Network)
      → user_network (down 0) user id networks ≡ guard
      → IsOwned down user id networks
          (λ network. Pairs (Deletes network) networks)
          (delete_network_checked (down 1) id networks guard)
  unfolding delete_network_checked delete_network
  delete_network_checked-IsOwned (refuse status) e = refl
  delete_network_checked-IsOwned (pass network) e =
      changed-IsOwned (λ row. bytes_equal row.id id) (λ row. record row { is_active = false })
        Deletes network (user_network-Owns (down 0) user id networks network e)
        (λ row h. (bytes_equal_iff row.id id).0 h)
        (λ row same h. inl ((bytes_equal_iff row.id id).0 h ∙ sym same, refl))
        (λ row same h.
          inr (λ other. absurd (ground (arith, h, bytes_equal_iff row.id id, other, same)), refl))

  spared :
      (network row : Network)
      → network.id ≡ id
      → (bytes_equal row.id id && row.is_active) ≡ false
      → (row.id ≢ network.id) ⊎ (row.is_active ≡ false)
  spared network row same h = elim (Bool-cases (bytes_equal row.id id)) [
    | inl own ↦ inr (ground (arith, h, own))
    | inr apart ↦ inl (λ e. absurd (ground (arith, apart, bytes_equal_iff row.id id, e, same)))
  ]

  update_network_checked-IsOwned :
      (name description : Bytes) (guard : Checked Network)
      → user_network (down 0) user id networks ≡ guard
      → IsOwned down user id networks
          (λ network. Pairs (Renames name description network) networks)
          (update_network_checked (down 1) id (some (name, description)) networks guard)
  unfolding update_network_checked update_network
  update_network_checked-IsOwned name description (refuse status) e = refl
  update_network_checked-IsOwned name description (pass network) e =
      changed-IsOwned (λ row. bytes_equal row.id id && row.is_active)
        (λ row. record row {
          name = text_or network.name (trim_space name);
          description = text_or network.description (trim_space description);
        })
        (Renames name description) network (user_network-Owns (down 0) user id networks network e)
        (λ row h. (bytes_equal_iff row.id id).0 (ground (arith, h)))
        (λ row same h. inl (
          (bytes_equal_iff row.id id).0 (ground (arith, h)) ∙ sym same,
          ground (arith, h),
          refl,
          refl,
          refl,
        ))
        (λ row same h. inr (spared network row same h, refl))

  -- If no public id is the id of a network, a network is deleted or renamed only by its owner, and a request that is
  -- refused changes nothing. A deletion leaves the network inactive, an update gives it the new name and description, or the
  -- old ones where the request has none, and no other network changes.
  pub network_changes-IsOwned :
      (name description : Bytes)
      → IsOwned down user id networks
          (λ network. Pairs (Deletes network) networks)
          (handle_delete_network down user id networks)
        × IsOwned down user id networks
            (λ network. Pairs (Renames name description network) networks)
            (handle_update_network down user id (some (name, description)) networks)
  unfolding handle_delete_network handle_update_network
  network_changes-IsOwned name description = (
    delete_network_checked-IsOwned (user_network (down 0) user id networks) refl,
    update_network_checked-IsOwned name description (user_network (down 0) user id networks) refl,
  )
