-- ===== src/Noise/Cipher/Tests.antt =====
-- The cipher theorems at concrete messages, over the stand-in cryptography.
use vpn_cloude.Base.{◌≡◌, refl, true, some, List, [], ◌∷◌, ◌++◌, ◌-◌, replicate, codes, arith}
use vpn_cloude.Noise.Errors.{ok, err, nonce_exhausted}
use vpn_cloude.Noise.Crypto.Toy.{toy, toy_laws}
use vpn_cloude.Noise.Cipher.{CipherState, max_uint64, encrypt_with_ad, format_nonce}
use vpn_cloude.Noise.Cipher.Stream.{
  Framed, send_all, receive_all, receive_all-send_all, nonces, IsDistinct, send_all_total,
}

abbrev keyed : CipherState
keyed = record { key = replicate 32 1; nonce = 254; has_key = true; aead = some (replicate 32 1) }

abbrev messages : List Framed
messages = (codes "ad", codes "hello") ∷ ([], codes "again") ∷ []

abbrev sealed : List Framed
sealed = (codes "ad", codes "hello" ++ replicate 16 7) ∷ ([], codes "again" ++ replicate 16 7) ∷ []

receive_all-send_all_example :
    receive_all toy sealed keyed ≡ (ok messages, record keyed { nonce = 256 })
unfolding send_all encrypt_with_ad
receive_all-send_all_example = receive_all-send_all toy toy_laws messages keyed refl

-- Of two messages at the last nonce the second one fails.
abbrev almost_used : CipherState
almost_used = record keyed { nonce = max_uint64 - 1 }

send_all_total_example :
    (send_all toy messages almost_used ≡ (err nonce_exhausted, record keyed { nonce = max_uint64 }))
    × IsDistinct (nonces (max_uint64 - 1) 1)
send_all_total_example =
    send_all_total toy (replicate 32 1) messages almost_used refl refl (omega arith)

nonce_bytes : format_nonce 0x0102 ≡ 0 ∷ 0 ∷ 0 ∷ 0 ∷ 2 ∷ 1 ∷ 0 ∷ 0 ∷ 0 ∷ 0 ∷ 0 ∷ 0 ∷ []
unfolding format_nonce
nonce_bytes = refl
