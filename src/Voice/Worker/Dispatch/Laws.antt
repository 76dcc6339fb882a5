-- ===== src/Voice/Worker/Dispatch/Laws.antt =====
-- A session starts for a console room or signed metadata only, and retries find what is there.
use hire_os_be.Prelude.{
  ◌&&◌, ◌+◌, ◌<◌, [], arith, Bool, false, List, none, Option, refl, some, String, subst, suc, true,
  zero, ◌||◌, ℕ, ◌∷◌, ◌≡◌,
}
use hire_os_be.Prelude.{is_ok, ok, or_else, raise, Result, Result-cases}
use hire_os_be.Prelude.{inl, inr}
use hire_os_be.Prelude.Json.{Json}
use hire_os_be.Voice.Signing.{verify_metadata_signature}
use hire_os_be.Voice.Worker.Dispatch.{
  add_shutdown_callback, dispatch, Effect, entrypoint, is_console_room, is_session_type, plan,
  raw_metadata, Read, reported, retry_metadata, RoomMetadata, start_call, start_session,
}

abbrev pub starts : List Effect → Bool
starts [] = false
starts (start_session p ∷ l) = true
starts (_ ∷ l) = starts l

abbrev pub delivers : List Effect → Bool
delivers [] = false
delivers (add_shutdown_callback t s ∷ l) = true
delivers (_ ∷ l) = delivers l

abbrev pub is_verified : Result Bool → Bool
is_verified (ok b) = b
is_verified (raise e) = false

-- A console room, or metadata that carry a valid signature.
abbrev pub accepted : (String → String → String) → String → String → Option RoomMetadata → Bool
accepted hmac secret room none = false
accepted hmac secret room (some m) =
    is_console_room room || is_verified (verify_metadata_signature hmac m.signed secret)

abbrev pub is_interview : Option RoomMetadata → Bool
is_interview none = false
is_interview (some m) = is_session_type "candidate_interview" m.signed

module _ (show : Json → String) (loads : String → Option Json) where
  abbrev pub is_planned : Option RoomMetadata → Bool → Bool
  is_planned none has_vad = false
  is_planned (some m) has_vad = is_ok (plan show loads m has_vad)

  starts-dispatch :
      (hmac : String → String → String) (secret : String) (dev : Bool) (room : String)
      (m : RoomMetadata) (vad : Bool)
      → let effects = dispatch show loads hmac secret dev room m vad in
        let ready = accepted hmac secret room (some m) && is_ok (plan show loads m vad) in
        (starts effects ≡ ready)
        × (delivers effects ≡ (ready && is_session_type "candidate_interview" m.signed))
  unfolding dispatch start_call
  starts-dispatch hmac secret dev room m vad =
      elim (Result-cases (verify_metadata_signature hmac m.signed secret)) [
        | inl (b, v) ↦ elim (Result-cases (plan show loads m vad)) [
          | inl (p, e) ↦ rw (e, v) (ground arith)
          | inr (x, e) ↦ rw (e, v) (ground arith)
        ]
        | inr (y, v) ↦ elim (Result-cases (plan show loads m vad)) [
          | inl (p, e) ↦ rw (e, v) (ground arith)
          | inr (x, e) ↦ rw (e, v) (ground arith)
        ]
      ]

  -- A dispatch starts a session exactly if its metadata are an object, the room is a console room or the
  -- metadata carry a valid signature, and the prompts can be made; it registers the transcript's
  -- delivery exactly if the session is a candidate interview, too.
  pub entrypoint-starts :
      (hmac : String → String → String) (secret : String) (dev_metrics : Bool) (room : String)
      (metadata : Option RoomMetadata) (has_vad : Bool)
      → let effects = entrypoint show loads hmac secret dev_metrics room metadata has_vad in
        let ready = accepted hmac secret room metadata && is_planned metadata has_vad in
        (starts effects ≡ ready) × (delivers effects ≡ (ready && is_interview metadata))
  unfolding entrypoint
  entrypoint-starts hmac secret true room none vad = (refl, refl)
  entrypoint-starts hmac secret false room none vad = (refl, refl)
  entrypoint-starts hmac secret true room (some m) vad = starts-dispatch hmac secret true room m vad
  entrypoint-starts hmac secret false room (some m) vad =
      starts-dispatch hmac secret false room m vad

-- No attempt before `k` reports metadata.
abbrev pub SilentBefore : ℕ → (ℕ → Read) → Type 0
SilentBefore k reads = (j : ℕ) → j < k → reported (reads j) ≡ none

plus_zero : (i : ℕ) → i + 0 ≡ i
plus_zero i = omega arith

zero_plus : (i : ℕ) → i ≡ 0 + i
zero_plus i = omega arith

plus_suc : (i j : ℕ) → i + suc j ≡ suc i + j
plus_suc i j = omega arith

retry_metadata-first :
    (left i k : ℕ) (reads : ℕ → Read) (raw : String)
    → k < left
    → ((j : ℕ) → j < k → reported (reads (i + j)) ≡ none)
    → reported (reads (i + k)) ≡ some raw
    → retry_metadata left i reads ≡ raw
unfolding retry_metadata
retry_metadata-first zero i k reads raw h quiet found = absurd (omega arith)
retry_metadata-first (suc left) i zero reads raw h quiet found =
    let e = subst (λ n. reported (reads n) ≡ some raw) (plus_zero i) found in
    rw (retry_metadata, e) refl
retry_metadata-first (suc left) i (suc k) reads raw h quiet found =
    let e = subst (λ n. reported (reads n) ≡ none) (plus_zero i) (quiet 0 (omega arith)) in
    let rest =
      retry_metadata-first left (suc i) k reads raw (omega (arith, h))
        (λ j b.
          subst (λ n. reported (reads n) ≡ none) (plus_suc i j) (quiet (suc j) (omega (arith, b))))
        (subst (λ n. reported (reads n) ≡ some raw) (plus_suc i k) found) in
    rw (retry_metadata, e) rest

-- If the room's snapshot has no metadata, then the first of the five attempts that reports any gives
-- the metadata, and none of the later ones counts.
pub raw_metadata-first :
    (snapshot : Option String) (reads : ℕ → Read) (k : ℕ) (raw : String)
    → or_else snapshot "{}" ≡ "{}"
    → k < 5
    → SilentBefore k reads
    → reported (reads k) ≡ some raw
    → raw_metadata snapshot reads ≡ raw
unfolding raw_metadata
raw_metadata-first snapshot reads k raw h b quiet found = rw h (
    retry_metadata-first 5 0 k reads raw b
      (λ j c. subst (λ n. reported (reads n) ≡ none) (zero_plus j) (quiet j c))
      (subst (λ n. reported (reads n) ≡ some raw) (zero_plus k) found))
