-- ===== src/Api/Apart.antt =====
-- The address that RegisterPeer of server/internal/api/peer_handler.go chooses for a machine.
use vpn_cloude.Base.{
  ◌≡◌, ◌≢◌, refl, sym, ap, subst, ◌∙◌, ◌⊎◌, inl, inr, false, ◌||◌, none, some, List, [], ◌∷◌,
  if◌then◌else◌, Bytes, bytes_equal, bytes_equal_iff, All, Bool-cases, arith,
}
use vpn_cloude.Base.Select.{any}
use vpn_cloude.Stdlib.Text.{is_empty}
use vpn_cloude.Stdlib.Text.Trim.{is_empty-nil}
use vpn_cloude.Stdlib.Ip.{V6Text, parse_ip, family_mark}
use vpn_cloude.Netutil.{address_of}
use vpn_cloude.Store.{Peer}
use vpn_cloude.Api.Approval.{coordinator_ip-IsUnused}
use vpn_cloude.Api.Registration.{
  normalize_peer_virtual_ipv4, normalized_ips, machine_ip, holds_ip, choose_ip,
}

-- The peer is of the machine, or it has another address.
abbrev pub IsApart : V6Text → Bytes → Bytes → Peer → Type 0
IsApart v6 machine_id ip peer =
    (peer.machine_id ≡ machine_id) ⊎ (normalize_peer_virtual_ipv4 v6 peer.virtual_ip ≢ ip)

holds_ip-IsApart :
    (v6 : V6Text) (machine_id ip : Bytes) (peers : List Peer)
    → any (holds_ip v6 machine_id ip) peers ≡ false
    → All (IsApart v6 machine_id ip) peers
unfolding any
holds_ip-IsApart v6 machine_id ip [] h = tt
holds_ip-IsApart v6 machine_id ip (peer ∷ peers) h =
    let rest = holds_ip-IsApart v6 machine_id ip peers (ground (arith, h)) in
    elim (Bool-cases (bytes_equal peer.machine_id machine_id)) [
      | inl own ↦ (inl ((bytes_equal_iff peer.machine_id machine_id).0 own), rest)
      | inr other ↦ (
        inr (λ same.
            let holds =
              (bytes_equal_iff (normalize_peer_virtual_ipv4 v6 peer.virtual_ip) ip).1 same in
            absurd (ground (arith, other, holds, h))),
        rest,
      )
    ]

address_of-nil : (v6 : V6Text) → address_of v6 [] ≡ none
unfolding address_of parse_ip family_mark
address_of-nil v6 = refl

normalized_ips-IsApart :
    (v6 : V6Text) (machine_id ip address : Bytes) (peers : List Peer)
    → address_of v6 ip ≡ some address
    → All (λ other. address_of v6 other ≢ some address) (normalized_ips v6 peers)
    → All (IsApart v6 machine_id ip) peers
unfolding normalized_ips
normalized_ips-IsApart v6 machine_id ip address [] stands unused = tt
normalized_ips-IsApart v6 machine_id ip address (peer ∷ peers) stands unused =
    let text = normalize_peer_virtual_ipv4 v6 peer.virtual_ip in
    elim (Bool-cases (is_empty text)) [
      | inl blank ↦
          let later : All (λ other. address_of v6 other ≢ some address) (normalized_ips v6 peers) =
            subst
              (λ t.
                All (λ other. address_of v6 other ≢ some address)
                  (if t then normalized_ips v6 peers else text ∷ normalized_ips v6 peers))
              blank unused in
          let nowhere = ap (address_of v6) (is_empty-nil text blank) ∙ address_of-nil v6 in
          (
            inr (λ same. absurd (cc (sym stands ∙ ap (address_of v6) (sym same) ∙ nowhere))),
            normalized_ips-IsApart v6 machine_id ip address peers stands later,
          )
      | inr there ↦
          let both : All (λ other. address_of v6 other ≢ some address)
              (text ∷ normalized_ips v6 peers) =
            subst
              (λ t.
                All (λ other. address_of v6 other ≢ some address)
                  (if t then normalized_ips v6 peers else text ∷ normalized_ips v6 peers))
              there unused in
          (
            inr (λ same. both.0 (ap (address_of v6) same ∙ stands)),
            normalized_ips-IsApart v6 machine_id ip address peers stands both.1,
          )
    ]

-- The address that is chosen is one that no other machine of the list has.
pub choose_ip-IsApart :
    (v6 : V6Text) (cidr machine_id ip : Bytes) (current : List Peer)
    → choose_ip v6 cidr machine_id current ≡ some ip
    → All (IsApart v6 machine_id ip) current
unfolding choose_ip
choose_ip-IsApart v6 cidr machine_id ip current h =
    let kept = machine_ip v6 machine_id [] current in
    elim (Bool-cases (is_empty kept || any (holds_ip v6 machine_id kept) current)) [
      | inl fresh ↦
          let (address, stands, unused) =
            coordinator_ip-IsUnused v6 cidr (normalized_ips v6 current) ip
              (ground (arith, fresh, h)) in
          normalized_ips-IsApart v6 machine_id ip address current stands unused
      | inr free ↦
          let same : kept ≡ ip = ground (arith, free, h) in
          subst (λ a. All (IsApart v6 machine_id a) current) same
            (holds_ip-IsApart v6 machine_id kept current (ground (arith, free)))
    ]
