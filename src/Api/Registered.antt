-- ===== src/Api/Registered.antt =====
-- What stands behind a machine that RegisterPeer of server/internal/api/peer_handler.go has registered.
use vpn_cloude.Base.{
  ℕ, zero, suc, ◌+◌, ◌≡◌, refl, sym, ap, subst, Bool, ◌||◌, Option, none, some, List, Bytes,
  bytes_equal, All, arith,
}
use vpn_cloude.Base.Select.{keep}
use vpn_cloude.Stdlib.Ip.{V6Text}
use vpn_cloude.Store.{Network, Row, Peer, Answer, answer, fault, not_found, ip_conflict, failed}
use vpn_cloude.Store.Register.{Moment, register_peer}
use vpn_cloude.Store.Queries.{list_network_peers}
use vpn_cloude.Api.{Reply, success, Checked, refuse, pass, user_network}
use vpn_cloude.Api.Owner.{Owns, user_network-Owns}
use vpn_cloude.Api.Registration.{
  PeerRegisterRequest, PeerRegistrationResponse, choose_ip, registration, Attempt, stopped, clashed,
  registered, attempt_outcome, attempt_at, attempt_beside, attempt, register_attempts,
  snapshot_reply, registered_reply, after_attempt, max_register_attempts, clean_registration,
  register_clean, register_checked, handle_register_peer,
}
use vpn_cloude.Api.Apart.{IsApart, choose_ip-IsApart}

module _ (v6 : V6Text) (m : Moment) (down : ℕ → Bool) (others : ℕ → List Row → List Row)
    (networks : List Network) (network : Network) (req : PeerRegisterRequest) where
  -- The statement that wrote the machine: the list that was read before it, the address that was chosen from it, and
  -- the rows that it found.
  pub record IsWritten (peer : Peer) (written : List Row) : Type 0 where
    pub number : ℕ
    pub listed : List Row
    pub current : List Peer
    pub ip : Bytes
    pub read : list_network_peers v6 (down number) networks network.id listed ≡ answer current
    pub chosen : choose_ip v6 network.cidr req.machine_id current ≡ some ip
    pub apart : All (IsApart v6 req.machine_id ip) current
    pub wrote :
        register_peer v6 m
          (down (number + 1))
          (registration network req ip)
          (others (number + 1) listed)
        ≡ (answer peer, written)

  attempt_outcome-registered :
      (out : Answer Peer × List Row) (peer : Peer) (written : List Row)
      → attempt_outcome out ≡ (registered peer, written)
      → out ≡ (answer peer, written)
  unfolding attempt_outcome
  attempt_outcome-registered (answer shown, rows) peer written h = ground (arith, h)
  attempt_outcome-registered (fault ip_conflict, rows) peer written h = absurd (cc h)
  attempt_outcome-registered (fault not_found, rows) peer written h = absurd (cc h)
  attempt_outcome-registered (fault failed, rows) peer written h = absurd (cc h)

  attempt_beside-IsWritten :
      (number : ℕ) (listed : List Row) (found : Answer (List Peer)) (peer : Peer)
      (written : List Row)
      → list_network_peers v6 (down number) networks network.id listed ≡ found
      → attempt_beside v6 m down others networks network req (number + 1) listed found
        ≡ (registered peer, written)
      → IsWritten peer written
  unfolding attempt_beside attempt_at
  attempt_beside-IsWritten number listed (fault e) peer written read h = absurd (cc h)
  attempt_beside-IsWritten number listed (answer current) peer written read h =
      by_choice (choose_ip v6 network.cidr req.machine_id current) refl h
    where
      by_choice :
          (choice : Option Bytes)
          → choose_ip v6 network.cidr req.machine_id current ≡ choice
          → attempt_at v6 m down others networks network req (number + 1) listed choice
            ≡ (registered peer, written)
          → IsWritten peer written
      by_choice none chosen k = absurd (cc k)
      by_choice (some ip) chosen k = record {
        number = number;
        listed = listed;
        current = current;
        ip = ip;
        read = read;
        chosen = chosen;
        apart = choose_ip-IsApart v6 network.cidr req.machine_id ip current chosen;
        wrote = attempt_outcome-registered _ peer written k;
      }

  after_attempt-IsWritten :
      (again : List Row → Attempt × List Row) (out : Attempt × List Row) (peer : Peer)
      (written : List Row)
      → (out ≡ (registered peer, written) → IsWritten peer written)
      → ((rows : List Row) → again rows ≡ (registered peer, written) → IsWritten peer written)
      → after_attempt again out ≡ (registered peer, written)
      → IsWritten peer written
  unfolding after_attempt
  after_attempt-IsWritten again (clashed, rows) peer written first later h = later rows h
  after_attempt-IsWritten again (stopped status, rows) peer written first later h = absurd (cc h)
  after_attempt-IsWritten again (registered shown, rows) peer written first later h = first h

  register_attempts-IsWritten :
      (left number : ℕ) (rows : List Row) (peer : Peer) (written : List Row)
      → register_attempts v6 m down others networks network req left number rows
        ≡ (registered peer, written)
      → IsWritten peer written
  unfolding register_attempts attempt
  register_attempts-IsWritten zero number rows peer written h = absurd (cc h)
  register_attempts-IsWritten (suc left) number rows peer written h =
      after_attempt-IsWritten _ _ peer written
        (λ k.
          attempt_beside-IsWritten number (others number rows)
            (list_network_peers v6 (down number) networks network.id (others number rows)) peer
            written refl k)
        (λ after k. register_attempts-IsWritten left (number + 2) after peer written k) h

  -- The reply shows the peer that was written, and of the peers of the network that a later statement listed
  -- those that are online and itself; the rows are those of that statement.
  pub record IsReplied (shown : PeerRegistrationResponse) (after : List Row) : Type 0 where
    pub peer : Peer
    pub written : List Row
    pub by : IsWritten peer written
    pub later : after ≡ others 7 written
    pub listed : List Peer
    pub read : list_network_peers v6 (down 7) networks network.id after ≡ answer listed
    pub address : shown.virtual_ip ≡ peer.virtual_ip
    pub id : shown.peer_id ≡ peer.id
    pub cidr : shown.network_cidr ≡ network.cidr
    pub peers :
        shown.peers
        ≡ keep (λ candidate. bytes_equal candidate.id peer.id || candidate.is_online) listed

  snapshot_reply-IsReplied :
      (peer : Peer) (written after : List Row) (found : Answer (List Peer)) (code : ℕ)
      (shown : PeerRegistrationResponse)
      → IsWritten peer written
      → after ≡ others 7 written
      → list_network_peers v6 (down 7) networks network.id after ≡ found
      → snapshot_reply v6 m down others networks network req peer found ≡ success code shown
      → IsReplied shown after
  unfolding snapshot_reply
  snapshot_reply-IsReplied peer written after (fault e) code shown by later read h = absurd (cc h)
  snapshot_reply-IsReplied peer written after (answer listed) code shown by later read h = record {
    peer = peer;
    written = written;
    by = by;
    later = later;
    listed = listed;
    read = read;
    address = ground (arith, h);
    id = ground (arith, h);
    cidr = ground (arith, h);
    peers = ground (arith, h);
  }

  registered_reply-IsReplied :
      (out : Attempt × List Row) (code : ℕ) (shown : PeerRegistrationResponse) (after : List Row)
      → ((peer : Peer) (written : List Row)
          → out ≡ (registered peer, written)
          → IsWritten peer written)
      → registered_reply v6 m down others networks network req out ≡ (success code shown, after)
      → IsReplied shown after
  unfolding registered_reply
  registered_reply-IsReplied (stopped status, rows) code shown after by h = absurd (cc h)
  registered_reply-IsReplied (clashed, rows) code shown after by h = absurd (cc h)
  registered_reply-IsReplied (registered peer, written) code shown after by h =
      let later : after ≡ others 7 written =
        sym (ap (λ (r : Reply PeerRegistrationResponse × List Row). r.1) h) in
      snapshot_reply-IsReplied peer written after _ code shown (by peer written refl) later refl (
        subst
          (λ found.
            snapshot_reply v6 m down others networks network req peer
              (list_network_peers v6 (down 7) networks network.id found)
            ≡ success code shown)
          (sym later) (ap (λ (r : Reply PeerRegistrationResponse × List Row). r.0) h))

  register_clean-IsReplied :
      (rows : List Row) (code : ℕ) (shown : PeerRegistrationResponse) (after : List Row)
      → register_clean v6 m down others networks network req rows ≡ (success code shown, after)
      → IsReplied shown after
  unfolding register_clean
  register_clean-IsReplied rows code shown after h =
      registered_reply-IsReplied _ code shown after
        (register_attempts-IsWritten max_register_attempts 1 rows) (ground (arith, h))

-- A machine is registered only by the owner of the network: a statement wrote it with an address that, among the
-- peers listed right before, no other machine has, whatever other requests do between the statements; the reply shows
-- that peer, and beside it peers of the network that are online.
pub handle_register_peer_lem :
    (v6 : V6Text) (m : Moment) (down : ℕ → Bool) (others : ℕ → List Row → List Row)
    (user : Option Bytes) (id : Bytes) (req : PeerRegisterRequest) (networks : List Network)
    (rows : List Row) (code : ℕ) (shown : PeerRegistrationResponse) (after : List Row)
    → handle_register_peer v6 m down others user id (some req) networks rows
      ≡ (success code shown, after)
    → (network : Network) × Owns (down 0) user id networks network
      × IsReplied v6 m down others networks network (clean_registration req) shown after
unfolding handle_register_peer register_checked
handle_register_peer_lem v6 m down others user id req networks rows code shown after h =
    by_guard (user_network (down 0) user id networks) refl h
  where
    by_guard :
        (guard : Checked Network)
        → user_network (down 0) user id networks ≡ guard
        → register_checked v6 m down others networks (some req) rows guard
          ≡ (success code shown, after)
        → (network : Network) × Owns (down 0) user id networks network
          × IsReplied v6 m down others networks network (clean_registration req) shown after
    by_guard (refuse status) e k = absurd (cc k)
    by_guard (pass network) e k = (
      network,
      user_network-Owns (down 0) user id networks network e,
      register_clean-IsReplied v6 m down others networks network (clean_registration req) rows code
          shown after k,
    )
