-- ===== src/Voice/Delivery.antt =====
-- ai-service/app/voice_agent/transcript_delivery.py: the outbox and its retries. The file system and
-- the platform are the environment: the outbox is a dictionary from session ids to files.
pub mod Laws
use hire_os_be.Prelude.{◌&&◌, ◌+◌, ◌++◌, [], Bool, false, leb, List, ltb, String, true, ℕ, ◌∷◌}
use hire_os_be.Prelude.{ok, other, raise, Result}
use hire_os_be.Prelude.Dict
use hire_os_be.Prelude.Dict.{Dict}

-- What answers a POST: the HTTP status, an `httpx.HTTPError`, or `httpx.InvalidURL`, which is not one.
pub data Reply : Type 0 where
  status : ℕ → Reply
  http_error invalid_url : Reply

-- A file of the outbox: a payload, what raises OSError or JSONDecodeError when it is read, and what is
-- not UTF-8, which raises UnicodeDecodeError.
pub data File : Type 0 where
  payload : String → File
  unreadable not_utf8 : File

-- `posted` lists the (session, payload) pairs that were given to `client.post`, in order.
pub record Outbox : Type 0 where
  pub files : Dict File
  pub posted : List (String × String)

-- Whether the platform confirmed.
abbrev pub confirmed : Reply → Bool
confirmed (status code) = leb 200 code && ltb code 300
confirmed http_error = false
confirmed invalid_url = false

-- What `_post` makes of the answer: only an `httpx.HTTPError` is caught.
abbrev pub answered : Reply → Result Bool
answered (status code) = ok (leb 200 code && ltb code 300)
answered http_error = ok false
answered invalid_url = raise (other "InvalidURL")

-- `_post`
unfoldable pub post : (String → String → Reply) → String → String → Outbox → Result Bool × Outbox
post platform session_id body box = (
  answered (platform session_id body),
  record box { posted = box.posted ++ (session_id, body) ∷ [] },
)

-- `write_to_outbox`
unfoldable pub write_to_outbox : String → String → Outbox → Outbox
unfolding Dict.put
write_to_outbox session_id body box = record box {
  files = Dict.put session_id (payload body) box.files;
}

-- What follows `_post`: `path.unlink(missing_ok=True)` if the delivery was confirmed.
unfoldable pub settle : String → Result Bool × Outbox → Result (Unit {0}) × Outbox
unfolding Dict.remove
settle session_id (raise e, box) = (raise e, box)
settle session_id (ok true, box) = (ok tt, record box { files = Dict.remove session_id box.files })
settle session_id (ok false, box) = (ok tt, box)

unfoldable pub deliver_transcript :
    (String → String → Reply) → String → String → Outbox → Result (Unit {0}) × Outbox
unfolding write_to_outbox post settle
deliver_transcript platform session_id body box =
    settle session_id (post platform session_id body (write_to_outbox session_id body box))

-- One round of the loop of `flush_pending`, for one file.
unfoldable pub retry :
    (String → String → Reply) → String → File → Outbox → Result (Unit {0}) × Outbox
unfolding post settle
retry platform session_id unreadable box = (ok tt, box)
retry platform session_id not_utf8 box = (raise (other "UnicodeDecodeError"), box)
retry platform session_id (payload body) box = settle session_id (post platform session_id body box)

-- An exception ends the loop.
unfoldable pub flush_files :
    (String → String → Reply) → Dict File → Outbox → Result (Unit {0}) × Outbox
unfolding retry
flush_files platform [] box = (ok tt, box)
flush_files platform ((session_id, file) ∷ more) box =
    let after = retry platform session_id file box in
    let rest = flush_files platform more after.1 in
    elim after.0 [ raise e ↦ (raise e, after.1) | ok u ↦ rest ]

-- `flush_pending`; `sorted` puts the paths in order.
unfoldable pub flush_pending :
    (Dict File → Dict File) → (String → String → Reply) → Outbox → Result (Unit {0}) × Outbox
unfolding flush_files
flush_pending sorted platform box = flush_files platform (sorted box.files) box
