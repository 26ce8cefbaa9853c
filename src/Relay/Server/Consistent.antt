-- ===== src/Relay/Server/Consistent.antt =====
-- The invariant of the two maps: a session stands under its own id, its token leads to it and to
-- nothing else, and its two peers have different addresses.
use vpn_cloude.Base.{
  ◌≡◌, true, false, none, some, List, Bytes, bytes_equal, bytes_equal_iff, Bool-cases, inl, inr,
  arith, if◌then◌else◌,
}
use vpn_cloude.Base.Assoc.{
  lookup, insert, delete, lookup-insert, lookup-delete, Distinct, insert-Distinct, delete-Distinct,
}
use vpn_cloude.Relay.Addr.{same_addr}
use vpn_cloude.Relay.Sessions.{Session}
use vpn_cloude.Relay.Server.{is_some}

pub record IsSession (s : Session) : Type 0 where
  pub has_a : is_some s.peer_a ≡ true
  pub apart : same_addr s.peer_a s.peer_b ≡ false

pub record IsConsistent (ss : List (Bytes × Session)) (ts : List (Bytes × Bytes)) : Type 0 where
  pub distinct : Distinct ss
  pub own_id : (k : Bytes) (s : Session) → lookup k ss ≡ some s → s.id ≡ k
  pub own_token : (k : Bytes) (s : Session) → lookup k ss ≡ some s → lookup s.token ts ≡ some k
  pub valid : (k : Bytes) (s : Session) → lookup k ss ≡ some s → IsSession s
  pub leads :
      (t k : Bytes) → lookup t ts ≡ some k → (s : Session) × (lookup k ss ≡ some s) × (s.token ≡ t)

module _ (ss : List (Bytes × Session)) (ts : List (Bytes × Bytes)) (v : IsConsistent ss ts) where
  -- A session is changed but for its id and token.
  pub update-IsConsistent :
      (k : Bytes) (old new : Session)
      → lookup k ss ≡ some old
      → new.id ≡ old.id
      → new.token ≡ old.token
      → IsSession new
      → IsConsistent (insert k new ss) ts
  update-IsConsistent k old new found same_id same_token ok = record {
    distinct = insert-Distinct k new ss v.distinct;
    own_id = λ j s e.
        ground (
          arith,
          lookup-insert k j new ss,
          bytes_equal_iff k j,
          v.own_id k old found,
          v.own_id j s,
        );
    own_token = λ j s e. ground (
      arith,
      lookup-insert k j new ss,
      bytes_equal_iff k j,
      v.own_token k old found,
      v.own_token j s,
    );
    valid = λ j s e. ground (arith, lookup-insert k j new ss, bytes_equal_iff k j, v.valid j s);
    leads = λ t j e.
        let (s, at_j, its_token) = v.leads t j e in
        (
          if bytes_equal k j then new else s,
          ground (arith, lookup-insert k j new ss, bytes_equal_iff k j),
          ground (arith, lookup-insert k j new ss, bytes_equal_iff k j),
        );
  }

  -- A session is added under a new id and a new token.
  pub add-IsConsistent :
      (new : Session)
      → lookup new.id ss ≡ none
      → lookup new.token ts ≡ none
      → IsSession new
      → IsConsistent (insert new.id new ss) (insert new.token new.id ts)
  add-IsConsistent new fresh_id fresh_token ok = record {
    distinct = insert-Distinct new.id new ss v.distinct;
    own_id = λ j s e.
        ground (arith, lookup-insert new.id j new ss, bytes_equal_iff new.id j, v.own_id j s);
    own_token = λ j s e. ground (
      arith,
      lookup-insert new.id j new ss,
      bytes_equal_iff new.id j,
      lookup-insert new.token s.token new.id ts,
      bytes_equal_iff new.token s.token,
      v.own_token j s,
    );
    valid = λ j s e.
        ground (arith, lookup-insert new.id j new ss, bytes_equal_iff new.id j, v.valid j s);
    leads = λ t j e. elim (Bool-cases (bytes_equal new.token t)) [
      | inl hit ↦ (
        new,
        ground (
          arith,
          lookup-insert new.token t new.id ts,
          bytes_equal_iff new.id j,
          lookup-insert new.id j new ss,
        ),
        (bytes_equal_iff new.token t).0 hit,
      )
      | inr miss ↦
          let old : lookup t ts ≡ some j = ground (arith, lookup-insert new.token t new.id ts) in
          let (s, at_j, its_token) = v.leads t j old in
          (s, ground (arith, lookup-insert new.id j new ss, bytes_equal_iff new.id j), its_token)
    ];
  }

  -- A session is removed with its token.
  pub remove-IsConsistent :
      (k : Bytes) (old : Session)
      → lookup k ss ≡ some old
      → IsConsistent (delete k ss) (delete old.token ts)
  remove-IsConsistent k old found = record {
    distinct = delete-Distinct k ss v.distinct;
    own_id = λ j s e. ground (arith, lookup-delete k j ss, v.own_id j s);
    own_token = λ j s e. ground (
      arith,
      lookup-delete k j ss,
      bytes_equal_iff k j,
      lookup-delete old.token s.token ts,
      bytes_equal_iff old.token s.token,
      v.own_token j s,
      v.own_token k old found,
    );
    valid = λ j s e. ground (arith, lookup-delete k j ss, v.valid j s);
    leads = λ t j e.
        let kept : lookup t ts ≡ some j = ground (arith, lookup-delete old.token t ts) in
        let (s, at_j, its_token) = v.leads t j kept in
        (
          s,
          ground (
            arith,
            lookup-delete old.token t ts,
            bytes_equal_iff old.token t,
            lookup-delete k j ss,
            bytes_equal_iff k j,
          ),
          its_token,
        );
  }
