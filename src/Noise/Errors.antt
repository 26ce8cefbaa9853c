-- ===== src/Noise/Errors.antt =====
-- The errors of pkg/noise, one for each cause, without the prefixes that callers wrap round them.
-- A Go method that may fail is a function from the receiver to the result and the receiver after it:
-- what it wrote before it failed stays written.
use vpn_cloude.Base.{◌≡◌, refl, ap, Bool, true, false, Option, none, some}

pub data NoiseError : Type 0 where
  bad_key_length aead_failed nonce_exhausted open_failed not_keyed short_material : NoiseError
  parts_not_positive hkdf_failed : NoiseError
  invalid_role bad_psk_length x25519_failed no_random : NoiseError
  message_too_short missing_static bad_static_length static_mismatch : NoiseError
  message_a_not_read message_a_not_written nil_dereference : NoiseError

pub data Result {ℓ} (A : Type ℓ) : Type ℓ where
  ok : A → Result A
  err : NoiseError → Result A

abbrev pub or_fail {ℓ} : {A : Type ℓ} → Option A → NoiseError → Result A
or_fail none e = err e
or_fail (some a) e = ok a

-- A method of a receiver `S`.
abbrev pub Method : Type 0 → Type 0 → Type 0
Method S A = S → Result A × S

module _ {S : Type 0} where
  infixl 5 ◌>>=◌ ◌>>◌
  abbrev pub ◌>>=◌ : {A B : Type 0} → Method S A → (A → Method S B) → Method S B
  ◌>>=◌ m f s = elim (m s).0 [ ok a ↦ f a (m s).1 | err e ↦ (err e, (m s).1) ]

  abbrev pub ◌>>◌ : {B : Type 0} → Method S (Unit {0}) → Method S B → Method S B
  m >> k = m >>= λ _. k

  abbrev pub return : {A : Type 0} → A → Method S A
  return a s = (ok a, s)

  abbrev pub fail : {A : Type 0} → NoiseError → Method S A
  fail e s = (err e, s)

  abbrev pub get : Method S S
  get s = (ok s, s)

  abbrev pub update : (S → S) → Method S (Unit {0})
  update f s = (ok tt, f s)

  -- A call that does not touch the receiver.
  abbrev pub try : {A : Type 0} → Result A → Method S A
  try r s = (r, s)

  abbrev pub fail_if : Bool → NoiseError → Method S (Unit {0})
  fail_if true e = fail e
  fail_if false e = return tt

  abbrev pub when : Bool → Method S (Unit {0}) → Method S (Unit {0})
  when true m = m
  when false m = return tt

-- What the parts of a successful call did.
pub bind_ok :
    {S A B : Type 0} (m : Method S A) (f : A → Method S B) (s : S) {b : B} {s'' : S}
    → (m >>= f) s ≡ (ok b, s'')
    → (a : A) × (s' : S) × (m s ≡ (ok a, s')) × (f a s' ≡ (ok b, s''))
bind_ok {S} {A} {B} m f s {b} {s''} e = by_result (m s).0 refl e
  where
    by_result :
        (r : Result A)
        → (m s).0 ≡ r
        → (elim r [ ok a ↦ f a (m s).1 | err x ↦ (err x, (m s).1) ]) ≡ (ok b, s'')
        → (a : A) × (s' : S) × (m s ≡ (ok a, s')) × (f a s' ≡ (ok b, s''))
    by_result (ok a) h k = (a, (m s).1, (λ i. (h i, (m s).1)), k)
    by_result (err x) h k = absurd (cc (ap (λ (p : Result B × S). p.0) k))
