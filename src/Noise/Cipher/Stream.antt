-- ===== src/Noise/Cipher/Stream.antt =====
-- A series of messages over one direction: the sender encrypts in order, the receiver decrypts in
-- order, from the same state.
use vpn_cloude.Base.{
  ℕ, zero, suc, ◌+◌, ◌-◌, ◌*◌, ◌/◌, ◌%◌, ◌^◌, ◌≤◌, ◌<◌, ◌≡◌, ◌≢◌, ap, true, some, List, [], ◌∷◌,
  length, Bytes, arith, All, drop, min, leb, ◌==◌, if◌then◌else◌, Bool-cases, inl, inr,
}
use native.Mathlib.Nat.{pow-suc}
use vpn_cloude.Noise.Errors.{ok, err, nonce_exhausted, Method, ◌>>=◌, return, bind_ok}
use vpn_cloude.Noise.Crypto.{Crypto, CryptoLaws}
use vpn_cloude.Noise.Cipher.{
  CipherState, max_uint64, format_nonce, little_endian, encrypt_with_ad, decrypt_with_ad,
}
use vpn_cloude.Noise.Cipher.RoundTrip.{decrypt-encrypt}

-- A message or a sealed message, behind its associated data.
abbrev pub Framed : Type 0
Framed = Bytes × Bytes

module _ (c : Crypto) where
  unfoldable pub send_all : List Framed → Method CipherState (List Framed)
  send_all [] = return []
  send_all ((ad, plaintext) ∷ rest) = do
    ciphertext ← encrypt_with_ad c ad plaintext
    sent ← send_all rest
    return ((ad, ciphertext) ∷ sent)

  unfoldable pub receive_all : List Framed → Method CipherState (List Framed)
  receive_all [] = return []
  receive_all ((ad, ciphertext) ∷ rest) = do
    plaintext ← decrypt_with_ad c ad ciphertext
    received ← receive_all rest
    return ((ad, plaintext) ∷ received)

module _ (c : Crypto) (laws : CryptoLaws c) where
  -- The receiver gets exactly the messages that were sent, and both end in the same state.
  pub receive_all-send_all :
      (messages : List Framed) (cs : CipherState) {sent : List Framed} {cs' : CipherState}
      → send_all c messages cs ≡ (ok sent, cs')
      → receive_all c sent cs ≡ (ok messages, cs')
  unfolding send_all receive_all
  receive_all-send_all [] cs e = ground arith
  receive_all-send_all ((ad, plaintext) ∷ rest) cs {sent} e =
      let frame : Bytes → List Framed → Method CipherState (List Framed) =
        λ ciphertext tail. return ((ad, ciphertext) ∷ tail) in
      let others_of : Bytes → Method CipherState (List Framed) =
        λ ciphertext. send_all c rest >>= frame ciphertext in
      let (ciphertext, cs1, first, e1) = bind_ok (encrypt_with_ad c ad plaintext) others_of cs e in
      let (tail, cs2, others, e2) = bind_ok (send_all c rest) (frame ciphertext) cs1 e1 in
      let sent_eq : sent ≡ (ad, ciphertext) ∷ tail = cc in
      rw (sent_eq) (
        ground (
          arith,
          decrypt-encrypt c laws ad plaintext cs first,
          receive_all-send_all rest cs1 others,
        ))

-- The nonces from a counter on.
abbrev pub nonces : ℕ → ℕ → List Bytes
nonces counter zero = []
nonces counter (suc count) = format_nonce counter ∷ nonces (counter + 1) count

abbrev pub IsDistinct : List Bytes → Type 0
IsDistinct [] = Unit
IsDistinct (x ∷ xs) = All (λ y. x ≢ y) xs × IsDistinct xs

little_endian-injective :
    (n v w : ℕ) → v < 256 ^ n → w < 256 ^ n → little_endian n v ≡ little_endian n w → v ≡ w
unfolding little_endian
little_endian-injective zero v w hv hw e = omega arith
little_endian-injective (suc n) v w hv hw e =
    let power : 256 ^ suc n ≡ 256 * 256 ^ n = omega (arith, pow-suc 256 n) in
    let low : v % 256 ≡ w % 256 = ground (arith, e) in
    let high : v / 256 ≡ w / 256 =
      little_endian-injective n (v / 256) (w / 256) (omega arith) (omega arith)
        (ground (arith, e)) in
    omega arith

format_nonce-injective :
    (v w : ℕ) → v < 2 ^ 64 → w < 2 ^ 64 → format_nonce v ≡ format_nonce w → v ≡ w
unfolding format_nonce
format_nonce-injective v w hv hw e = little_endian-injective 8 v w hv hw (ap (drop 4) e)

nonces-apart :
    (first counter count : ℕ)
    → first < counter
    → counter + count ≤ 2 ^ 64
    → All (λ nonce. format_nonce first ≢ nonce) (nonces counter count)
nonces-apart first counter zero low room = tt
nonces-apart first counter (suc count) low room = (
  λ same.
      absurd (omega (arith, format_nonce-injective first counter (omega arith) (omega arith) same)),
  nonces-apart first (counter + 1) count (omega arith) (omega arith),
)

nonces-IsDistinct :
    (counter count : ℕ) → counter + count ≤ 2 ^ 64 → IsDistinct (nonces counter count)
nonces-IsDistinct counter zero room = tt
nonces-IsDistinct counter (suc count) room = (
  nonces-apart counter (counter + 1) count (omega arith) (omega arith),
  nonces-IsDistinct (counter + 1) count (omega arith),
)

module _ (c : Crypto) (h : Bytes) where
  -- The messages, each sealed under its nonce.
  abbrev pub sealed_under : List Bytes → List Framed → List Framed
  sealed_under [] messages = []
  sealed_under (nonce ∷ later) [] = []
  sealed_under (nonce ∷ later) ((ad, plaintext) ∷ rest) =
      (ad, c.seal h nonce plaintext ad) ∷ sealed_under later rest

  send_all-room :
      (messages : List Framed) (cs : CipherState)
      → cs.has_key ≡ true
      → cs.aead ≡ some h
      → cs.nonce + length messages ≤ max_uint64
      → send_all c messages cs ≡ (
        ok (sealed_under (nonces cs.nonce (length messages)) messages),
        record cs { nonce = cs.nonce + length messages },
      )
  unfolding send_all encrypt_with_ad
  send_all-room [] cs keyed is_aead room = ground arith
  send_all-room ((ad, plaintext) ∷ rest) cs keyed is_aead room =
      let later =
        send_all-room rest (record cs { nonce = cs.nonce + 1 }) keyed is_aead (omega arith) in
      ground (arith, later)

  send_all-exhausted :
      (messages : List Framed) (cs : CipherState)
      → cs.has_key ≡ true
      → cs.aead ≡ some h
      → cs.nonce ≤ max_uint64
      → max_uint64 < cs.nonce + length messages
      → send_all c messages cs ≡ (err nonce_exhausted, record cs { nonce = max_uint64 })
  unfolding send_all encrypt_with_ad
  send_all-exhausted [] cs keyed is_aead bound over = absurd (omega arith)
  send_all-exhausted ((ad, plaintext) ∷ rest) cs keyed is_aead bound over =
      elim (Bool-cases (cs.nonce == max_uint64)) [
        | inl last ↦ ground (arith, last, keyed)
        | inr more ↦
            let later =
              send_all-exhausted rest (record cs { nonce = cs.nonce + 1 }) keyed is_aead
                (ground arith) (omega arith) in
            ground (arith, later)
      ]

  -- A keyed cipher state encrypts as many messages as its nonce has values left, each under the next nonce, and
  -- these nonces are different; if there are more messages, it fails when they are used up, and its nonce
  -- stays at the largest value.
  pub send_all_total :
      (messages : List Framed) (cs : CipherState)
      → cs.has_key ≡ true
      → cs.aead ≡ some h
      → cs.nonce ≤ max_uint64
      → (send_all c messages cs ≡ (
          if leb (cs.nonce + length messages) max_uint64
          then (
            ok (sealed_under (nonces cs.nonce (length messages)) messages),
            record cs { nonce = cs.nonce + length messages },
          )
          else (err nonce_exhausted, record cs { nonce = max_uint64 })))
        × IsDistinct (nonces cs.nonce (min (length messages) (max_uint64 - cs.nonce)))
  send_all_total messages cs keyed is_aead bound = (
    elim (Bool-cases (leb (cs.nonce + length messages) max_uint64)) [
      | inl room ↦ rw room (send_all-room messages cs keyed is_aead (ground arith))
      | inr over ↦ rw over (send_all-exhausted messages cs keyed is_aead bound (ground arith))
    ],
    nonces-IsDistinct cs.nonce (min (length messages) (max_uint64 - cs.nonce)) (omega arith),
  )
