-- ===== src/Client/Trace.antt =====
-- The loop of doJSON in client/internal/api_client/client.go.
use vpn_cloude.Base.{
  ℕ, zero, suc, ◌+◌, ◌<◌, ◌≡◌, refl, sym, ap, subst, ◌∙◌, ◌⊎◌, inl, inr, Bool, true, false, Option,
  none, some, ◌++◌, if◌then◌else◌, ◌==◌, arith,
}
use vpn_cloude.Client.{
  Client, Headers, apply_auth, ClientError, exhausted, Exchange, Codec, CallResult, errored,
  not_marshalled, not_built, no_credentials, ApiRequest, Verdict, retry, final, judge,
  after_verdict, call_attempts, perform, do_json, max_retries,
}

module _ (codec : Codec) (has_target : Bool) (send : ℕ → Exchange) where
  -- Attempt n may be followed by another one.
  abbrev pub IsRetried : ℕ → Type 0
  IsRetried n = (e : ClientError) × (judge codec has_target false (send n) ≡ retry e)

  -- Attempt n ends the call with a result: it is final, or it is the last one and its error is the result.
  abbrev pub Ends : Bool → ℕ → CallResult → Type 0
  Ends last n result =
      (judge codec has_target last (send n) ≡ final result)
      ⊎ ((e : ClientError) × (last ≡ true)
          × (judge codec has_target last (send n) ≡ retry e)
          × (result ≡ errored e))

  -- Of the call_attempts from n on, at most `left`, the last one made is n + k, and all before it were retried.
  abbrev pub Trace : ℕ → ℕ → CallResult × ℕ → Type 0
  Trace left n out =
      (k : ℕ) × (k < left)
      × (out.1 ≡ n + k + 1)
      × ((j : ℕ) → j < k → IsRetried (n + j))
      × Ends (left == k + 1) (n + k) out.0

  Ends-at :
      {last last' : Bool} {m n : ℕ} {result : CallResult}
      → last ≡ last'
      → m ≡ n
      → Ends last m result
      → Ends last' n result
  Ends-at {m} {n} {result} same place h = rw (sym same, sym place) h

  Trace-final :
      (left n : ℕ) (result : CallResult)
      → Ends (left == 0) n result
      → Trace (suc left) n (result, n + 1)
  Trace-final left n result h = (
    0,
    omega arith,
    omega arith,
    λ j low. absurd (omega arith),
    Ends-at (ground arith) (omega arith) h,
  )

  Trace-later :
      (left n : ℕ) (out : CallResult × ℕ)
      → IsRetried n
      → Trace left (n + 1) out
      → Trace (suc left) n out
  Trace-later left n out first (k, low, count, before, ends) = (
    k + 1,
    omega arith,
    omega arith,
    λ j small. by_place j small,
    Ends-at (ground arith) (omega arith) ends,
  )
    where
      by_place : (j : ℕ) → j < k + 1 → IsRetried (n + j)
      by_place zero small = subst IsRetried (omega arith) first
      by_place (suc j) small = subst IsRetried (omega arith) (before j (omega arith))

  module _ (stop : ℕ → Bool) (runs : (n : ℕ) → stop n ≡ false) where
    call_attempts-verdict :
        (left n : ℕ) (last_error : ClientError) (verdict : Verdict)
        → judge codec has_target (left == 0) (send n) ≡ verdict
        → call_attempts codec has_target send stop (suc left) n last_error
          ≡ after_verdict (call_attempts codec has_target send stop left (n + 1)) n verdict
    unfolding call_attempts
    call_attempts-verdict left n last_error verdict h = rw h (ground (arith, runs n))

    last-Trace :
        (n : ℕ) (last_error : ClientError) (verdict : Verdict)
        → judge codec has_target true (send n) ≡ verdict
        → Trace 1 n (after_verdict (call_attempts codec has_target send stop 0 (n + 1)) n verdict)
    unfolding call_attempts
    last-Trace n last_error (final result) h = Trace-final 0 n result (inl h)
    last-Trace n last_error (retry e) h = Trace-final 0 n (errored e) (inr (e, refl, h, refl))

    next-Trace :
        (left n : ℕ) (verdict : Verdict)
        → judge codec has_target (suc left == 0) (send n) ≡ verdict
        → ((e : ClientError)
            → Trace
                (suc left)
                (n + 1)
                (call_attempts codec has_target send stop (suc left) (n + 1) e))
        → Trace
            (suc (suc left))
            n
            (after_verdict (call_attempts codec has_target send stop (suc left) (n + 1)) n verdict)
    next-Trace left n (final result) h later = Trace-final (suc left) n result (inl h)
    next-Trace left n (retry e) h later =
        Trace-later (suc left) n _
          (e, ap (λ last. judge codec has_target last (send n)) (sym not_last) ∙ h) (later e)
      where
        not_last : (suc left == 0) ≡ false
        not_last = ground arith

    call_attempts-Trace :
        (left n : ℕ) (last_error : ClientError)
        → Trace (suc left) n (call_attempts codec has_target send stop (suc left) n last_error)
    call_attempts-Trace zero n last_error =
        let verdict = judge codec has_target true (send n) in
        subst (Trace 1 n) (sym (call_attempts-verdict zero n last_error verdict refl))
          (last-Trace n last_error verdict refl)
    call_attempts-Trace (suc left) n last_error =
        let verdict = judge codec has_target (suc left == 0) (send n) in
        subst (Trace (suc (suc left)) n)
          (sym (call_attempts-verdict (suc left) n last_error verdict refl))
          (next-Trace left n verdict refl (λ e. call_attempts-Trace left (n + 1) e))

-- What a call comes to: the requests of the trace, or none.
abbrev pub Called : Codec → (ℕ → Exchange) → Client → ApiRequest → Bool → CallResult × ℕ → Type 0
Called codec send client request encoded out =
    ((headers : Headers) × (encoded ≡ true)
      × (codec.builds request.method (client.base_url ++ request.path) ≡ true)
      × (apply_auth client request.mode ≡ some headers)
      × Trace codec request.has_target send max_retries 0 out)
    ⊎ ((encoded ≡ false) × (out ≡ (errored not_marshalled, 0)))
    ⊎ ((codec.builds request.method (client.base_url ++ request.path) ≡ false)
        × (out ≡ (errored not_built, 0)))
    ⊎ ((apply_auth client request.mode ≡ none) × (out ≡ (errored no_credentials, 0)))

-- A call whose body can be encoded, whose method and address make a request, and whose credentials are there performs
-- one, two or three requests, if the context does not end: all before the last one failed in a way that may pass, and
-- the last one gave the result or was the third. Without one of these it performs none, and tells which is
-- missing.
pub do_json-Trace :
    (codec : Codec) (send : ℕ → Exchange) (stop : ℕ → Bool) (client : Client) (request : ApiRequest)
    (encoded : Bool)
    → ((n : ℕ) → stop n ≡ false)
    → Called codec send client request encoded (do_json codec client request encoded send stop)
unfolding do_json perform
do_json-Trace codec send stop client request encoded runs =
    by_parts encoded refl (codec.builds request.method (client.base_url ++ request.path)) refl
      (apply_auth client request.mode) refl
  where
    by_parts :
        (e : Bool)
        → encoded ≡ e
        → (b : Bool) → codec.builds request.method (client.base_url ++ request.path) ≡ b
        → (given : Option Headers) → apply_auth client request.mode ≡ given
        → Called codec send client request encoded (
            if e
            then perform codec request.has_target send stop b given
            else (errored not_marshalled, 0))
    by_parts false he b hb given hg = inr (inl (he, refl))
    by_parts true he false hb given hg = inr (inr (inl (hb, refl)))
    by_parts true he true hb none hg = inr (inr (inr (hg, refl)))
    by_parts true he true hb (some headers) hg = inl (
      headers,
      he,
      hb,
      hg,
      call_attempts-Trace codec request.has_target send stop runs 2 0 exhausted,
    )
