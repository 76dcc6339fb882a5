-- ===== src/Voice/Signing.antt =====
-- ai-service/app/voice_agent/metadata_signing.py. The keyed hash (HMAC-SHA256, in hex) is a library's:
-- it is a parameter, from the secret and the message to the digest. A digest is ASCII.
pub mod Laws
use hire_os_be.Prelude.{
  ◌&&◌, ◌==◌, [], Bool, false, if◌then◌else◌, ltb, none, Option, some, String, true, ◌∷◌,
}
use hire_os_be.Prelude.{◌>>=◌, join, ok, or_else, other, raise, Result}
use Prim.Native.Char.{code}
use hire_os_be.Prelude.Json.{is_true, Json, json_text}

-- The entries of the metadata that are read here: JSON values, or missing.
pub record Metadata : Type 0 where
  pub metadata_signature : Option Json
  pub tenant_id : Option Json
  pub session_id : Option Json
  pub session_type : Option Json
  pub resume_context : Option Json

abbrev pub field_separator : String
field_separator = "\u{1}"

unfoldable pub canonical_string : String → String → String → Option String → String
canonical_string tenant_id session_id session_type resume_context =
    join field_separator (tenant_id ∷ session_id ∷ session_type ∷ or_else resume_context "" ∷ [])

-- `bool(value)` of an entry
unfoldable pub is_filled : Option Json → Bool
unfolding is_true
is_filled none = false
is_filled (some v) = is_true v

-- `not signature or not tenant_id or ...`, negated
abbrev pub complete : Metadata → Bool
complete m =
    is_filled m.metadata_signature
    && is_filled m.tenant_id
    && is_filled m.session_id
    && is_filled m.session_type

-- `value or ""`, where it must be a text.
unfoldable pub text_of : Option Json → Result String
unfolding is_true
text_of none = ok ""
text_of (some (json_text s)) = ok s
text_of (some v) = if is_true v then raise (other "TypeError") else ok ""

-- The four texts that are joined: `join` raises a TypeError for a value that is no text.
unfoldable pub signed_text : Metadata → Result String
unfolding text_of canonical_string
signed_text m = do
  tenant_id ← text_of m.tenant_id
  session_id ← text_of m.session_id
  session_type ← text_of m.session_type
  resume_context ← text_of m.resume_context
  ok (canonical_string tenant_id session_id session_type (some resume_context))

unfoldable pub is_ascii : String → Bool
is_ascii String.[] = true
is_ascii (String.◌∷◌ c s) = ltb (code c) 128 && is_ascii s

-- `hmac.compare_digest`, which takes ASCII texts only.
unfoldable pub compare_digest : String → Option Json → Result Bool
unfolding is_ascii
compare_digest expected (some (json_text signature)) =
    if is_ascii signature then ok (expected == signature) else raise (other "TypeError")
compare_digest expected signature = raise (other "TypeError")

unfoldable pub verify_metadata_signature :
    (String → String → String) → Metadata → String → Result Bool
unfolding signed_text compare_digest is_filled
verify_metadata_signature hmac m secret =
    let compared =
      signed_text m >>= λ message. compare_digest (hmac secret message) m.metadata_signature in
    if complete m then compared else ok false
