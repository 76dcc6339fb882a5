-- ===== src/Voice/Delivery/Laws.antt =====
-- No transcript leaves the outbox unless the platform confirmed it.
use hire_os_be.Prelude.{
  ◌&&◌, ◌++◌, ◌==◌, [], ap, arith, Bool, Bool-cases, eq_iff, eq_refl, false, if◌then◌else◌, inl,
  inr, none, not, Option, refl, some, String, sym, true, ◌∙◌, ◌∷◌, ◌≡◌,
}
use hire_os_be.Prelude.{eqb, is_ok, length, ok, other, raise, Result, Result-cases, ◌⊎◌}
use hire_os_be.Prelude.Dict
use hire_os_be.Prelude.Dict.{Dict, get-has, get-none, get-put, get-remove}
use hire_os_be.Voice.Delivery.{
  answered, confirmed, deliver_transcript, File, flush_files, flush_pending, http_error,
  invalid_url, not_utf8, Outbox, payload, post, Reply, retry, settle, status, unreadable,
  write_to_outbox,
}

abbrev pub is_invalid : Reply → Bool
is_invalid (status code) = false
is_invalid http_error = false
is_invalid invalid_url = true

-- Whether the platform confirmed, or what was raised.
answered-cases :
    (r : Reply)
    → ((answered r ≡ ok (confirmed r)) × (is_invalid r ≡ false))
      ⊎ ((answered r ≡ raise (other "InvalidURL")) × (confirmed r ≡ false) × (is_invalid r ≡ true))
answered-cases (status code) = inl (refl, refl)
answered-cases http_error = inl (refl, refl)
answered-cases invalid_url = inr (refl, refl, refl)

-- What a post leaves of the session's file.
settle-get :
    (platform : String → String → Reply) (id j body : String) (box : Outbox)
    → Dict.get id box.files ≡ some (payload body)
    → (Dict.get j (settle id (post platform id body box)).1.files ≡ (
        if id == j
        then (if confirmed (platform id body) then none else some (payload body))
        else Dict.get j box.files))
      × (is_ok (settle id (post platform id body box)).0 ≡ not (is_invalid (platform id body)))
unfolding post settle
settle-get platform id j body box h = elim (answered-cases (platform id body)) [
  | inr (e, c, v) ↦ rw (e, c, v, settle) (ground (arith, eq_iff id j), refl)
  | inl (e, v) ↦ elim (Bool-cases (confirmed (platform id body))) [
    | inl done ↦ rw (e, v, done, settle) (get-remove id j box.files, refl)
    | inr failed ↦ rw (e, v, failed, settle) (ground (arith, eq_iff id j), refl)
  ]
]

posted-settle :
    (id : String) (r : Result Bool) (box : Outbox) → (settle id (r, box)).1.posted ≡ box.posted
unfolding settle
posted-settle id (raise e) box = refl
posted-settle id (ok true) box = refl
posted-settle id (ok false) box = refl

-- What a delivery leaves in the outbox under any session id: nothing under its own if the platform
-- confirmed, and its payload otherwise; the other sessions' files are as they were. The payload is
-- posted once.
pub deliver_transcript_lem :
    (platform : String → String → Reply) (session_id body other : String) (box : Outbox)
    → let after = (deliver_transcript platform session_id body box).1 in
      (Dict.get other after.files ≡ (
        if session_id == other
        then (if confirmed (platform session_id body) then none else some (payload body))
        else Dict.get other box.files))
      × (after.posted ≡ box.posted ++ (session_id, body) ∷ [])
unfolding deliver_transcript write_to_outbox post
deliver_transcript_lem platform id body j box =
    let written = write_to_outbox id body box in
    let (files, _) =
      settle-get platform id j body written
        (get-put id id (payload body) box.files ∙ rw (eq_refl id) refl) in
    (
      files ∙ ground (arith, get-put id j (payload body) box.files),
      posted-settle id (answered (platform id body)) _,
    )

-- What a retry leaves of a file.
abbrev pub kept : (String → String → Reply) → String → File → Option File
kept platform id unreadable = some unreadable
kept platform id not_utf8 = some not_utf8
kept platform id (payload body) = if confirmed (platform id body) then none else some (payload body)

-- Whether the retry of a file raises.
abbrev pub stops : (String → String → Reply) → String → File → Bool
stops platform id unreadable = false
stops platform id not_utf8 = true
stops platform id (payload body) = is_invalid (platform id body)

-- The files before the first one that raises.
abbrev pub tried : (String → String → Reply) → Dict File → Dict File
tried platform [] = []
tried platform ((id, file) ∷ l) =
    let rest = tried platform l in if stops platform id file then [] else (id, file) ∷ rest

retry-get :
    (platform : String → String → Reply) (id j : String) (file : File) (box : Outbox)
    → Dict.get id box.files ≡ some file
    → (Dict.get j (retry platform id file box).1.files
        ≡ (if id == j then kept platform id file else Dict.get j box.files))
      × (is_ok (retry platform id file box).0 ≡ not (stops platform id file))
unfolding retry
retry-get platform id j unreadable box h = (ground (arith, eq_iff id j), refl)
retry-get platform id j not_utf8 box h = (ground (arith, eq_iff id j), refl)
retry-get platform id j (payload body) box h = settle-get platform id j body box h

-- One file per session id.
abbrev pub distinct : Dict File → Bool
distinct [] = true
distinct ((id, file) ∷ l) = not (Dict.has id l) && distinct l

-- ... and of a session's place in the outbox, where `before` stands if the file was not retried.
abbrev pub outcome : (String → String → Reply) → String → Option File → Option File → Option File
outcome platform j before none = before
outcome platform j before (some file) = kept platform j file

not_later :
    (id k : String) (file found : File) (l : Dict File)
    → distinct ((id, file) ∷ l) ≡ true
    → Dict.get k l ≡ some found
    → id == k ≡ false
not_later id k file found l d h = ground (arith, eq_iff id k, get-has k l found h)

stops-kept :
    (platform : String → String → Reply) (id : String) (file : File)
    → stops platform id file ≡ true
    → kept platform id file ≡ some file
stops-kept platform id unreadable h = cc
stops-kept platform id not_utf8 h = refl
stops-kept platform id (payload body) h = elim (answered-cases (platform id body)) [
  | inl (e, v) ↦ absurd (ground (arith, v, h))
  | inr (e, c, v) ↦ rw c refl
]

get-tried :
    (platform : String → String → Reply) (k : String) (l : Dict File)
    → Dict.has k l ≡ false
    → Dict.get k (tried platform l) ≡ none
unfolding Dict.has Dict.get
get-tried platform k [] h = refl
get-tried platform k ((id, file) ∷ l) h = elim (Bool-cases (stops platform id file)) [
  | inl s ↦ rw s refl
  | inr s ↦ rw s (ground (arith, get-tried platform k l))
]

flush_files-get :
    (platform : String → String → Reply) (j : String) (l : Dict File) (box : Outbox)
    → distinct l ≡ true
    → ((k : String) (file : File) → Dict.get k l ≡ some file → Dict.get k box.files ≡ some file)
    → (Dict.get j (flush_files platform l box).1.files
        ≡ outcome platform j (Dict.get j box.files) (Dict.get j (tried platform l)))
      × (is_ok (flush_files platform l box).0 ≡ eqb (length (tried platform l)) (length l))
unfolding flush_files Dict.get
flush_files-get platform j [] box d h = (refl, refl)
flush_files-get platform j ((id, file) ∷ l) box d h =
    let head : Dict.get id box.files ≡ some file = h id file (rw (eq_refl id) refl) in
    let (here, fine) = retry-get platform id j file box head in
    elim (Bool-cases (stops platform id file)) [
      | inl stop ↦ elim (Result-cases (retry platform id file box).0) [
        | inl (u, e) ↦ absurd (ground (arith, ap is_ok e, fine, stop))
        | inr (x, e) ↦
            let untouched =
              here ∙ ground (arith, eq_iff id j, stops-kept platform id file stop, head) in
            rw (e, stop, flush_files) (untouched, ground arith)
      ]
      | inr on ↦ elim (Result-cases (retry platform id file box).0) [
        | inr (x, e) ↦ absurd (ground (arith, ap is_ok e, fine, on))
        | inl (u, e) ↦
            let (later, all) =
              flush_files-get platform j l (retry platform id file box).1 (ground arith)
                (λ k found e.
                  let apart = not_later id k file found l d e in
                  (retry-get platform id k file box head).0 ∙ rw apart (h k found (rw apart e))) in
            rw (e, on, flush_files)
              (
                elim (Bool-cases (id == j)) [
                  | inr apart ↦ rw apart (rw (here, apart) at later)
                  | inl same ↦
                      let eq = (eq_iff id j).0 same in
                      let gone : Dict.get j (tried platform l) ≡ none =
                        get-tried platform j l (ap (λ k. Dict.has k l) (sym eq) ∙ ground arith) in
                      rw same ((rw (gone, here, same) at later) ∙ ap (λ k. kept platform k file) eq)
                ],
                all ∙ ground arith,
              )
      ]
    ]

-- A retry of the pending transcripts, in whatever order their paths are sorted, tries the files up to
-- the first one that is not UTF-8 or whose session id makes no valid URL, and raises exactly if there is
-- one. Of the files that it tried it removes exactly those whose payload the platform confirms; every
-- other file, the unreadable ones and those after the exception included, stays as it is, and no file
-- is added.
pub flush_pending_lem :
    (sorted : Dict File → Dict File) (platform : String → String → Reply) (j : String)
    (box : Outbox)
    → distinct (sorted box.files) ≡ true
    → ((k : String) → Dict.get k (sorted box.files) ≡ Dict.get k box.files)
    → let (result, after) = flush_pending sorted platform box in
      let before_stop = tried platform (sorted box.files) in
      (Dict.get j after.files ≡ outcome platform j (Dict.get j box.files) (Dict.get j before_stop))
      × (is_ok result ≡ eqb (length before_stop) (length (sorted box.files)))
unfolding flush_pending
flush_pending_lem sorted platform j box d same =
    flush_files-get platform j (sorted box.files) box d (λ k file e. sym (same k) ∙ e)
