-- ===== src/GroundApi/Requests.antt =====
-- services/ground_api.py: what the gateway reads from a request before it touches a store:
-- `_canonical_uuid4`, `_bounded_body`, the tokens and the content type.
use cislunar_ground_platform.Base.{
  ℕ, Bool, false, ◌&&◌, ◌||◌, Option, none, some, List, [], ◌∷◌, ◌++◌, Bytes, bytes_eq, length, leb,
  if◌then◌else◌, String, Result, ok, err, ◌>>=◌, ◌>>◌, raise_if, or_raise,
}
use cislunar_ground_platform.Base.Int.{ℤ, pos, ltb_ℤ}
use cislunar_ground_platform.Std.Text.{
  codes, strip, before, lower, int_of, without_prefix, compare_digest,
}
use cislunar_ground_platform.Std.Uuid.{uuid_of}
use cislunar_ground_platform.Telemetry.Codec.{CodecError}
use cislunar_ground_platform.Telemetry.Queue.Messages.{
  QueueError, full_match, times, is, is_lower_hex,
}
use cislunar_ground_platform.Telemetry.Storage.Records.{Uuid, StorageError}
use cislunar_ground_platform.Telemetry.Settings.{GroundSettings}

-- The exceptions that a handler may meet. `http` is an `HTTPException` with its status.
pub data ApiError : Type 0 where
  redis_error : ApiError
  database_error : ApiError
  codec : CodecError → ApiError
  storage : StorageError → ApiError
  queue : QueueError → ApiError
  runtime_error : ApiError
  type_error : ApiError
  http : ℕ → ApiError

-- A POST of telemetry: the headers that are looked at, and the chunks of the body.
pub record Request : Type 0 where
  pub vendor_token : Option Bytes
  pub request_id : Option String
  pub content_length : Option Bytes
  pub content_type : Option String
  pub chunks : List Bytes

-- One of 8, 9, a and b: the variant of RFC 4122.
abbrev is_variant : ℕ → Bool
is_variant c = (leb 56 c && leb c 57) || (leb 97 c && leb c 98)

-- The canonical text of a UUID of version 4.
unfoldable pub canonical_uuid4 : List (ℕ → Bool)
unfolding times
canonical_uuid4 =
    times 8 is_lower_hex
    ++ (is b'-'
        ∷ (times 4 is_lower_hex
            ++ (is b'-'
                ∷ is b'4'
                ∷ (times 3 is_lower_hex
                    ++ (is b'-'
                        ∷ is_variant
                        ∷ (times 3 is_lower_hex ++ (is b'-' ∷ times 12 is_lower_hex)))))))

-- `_canonical_uuid4`: what `uuid.UUID` reads, of version 4, and printed as it was presented.
unfoldable pub canonical_uuid4_of : Option String → Option Uuid
unfolding full_match canonical_uuid4 uuid_of
canonical_uuid4_of none = none
canonical_uuid4_of (some presented) =
    if full_match canonical_uuid4 (codes presented)
    then some (uuid_of 0 (codes presented))
    else none

-- The loop of `_bounded_body` over the chunks of the stream.
unfoldable pub read_chunks : ℤ → Bytes → List Bytes → Result ApiError Bytes
read_chunks maximum body [] = ok body
read_chunks maximum body (chunk ∷ chunks) =
    let rest = read_chunks maximum (body ++ chunk) chunks in
    if ltb_ℤ maximum (pos (length (body ++ chunk))) then err (http 413) else rest

unfoldable pub check_content_length : ℤ → Option Bytes → Result ApiError (Unit {0})
check_content_length maximum none = ok tt
check_content_length maximum (some content_length) = do
  size ← or_raise (int_of content_length) (http 400)
  raise_if (ltb_ℤ maximum size) (http 413)

-- `_bounded_body`
unfoldable pub bounded_body : Request → ℤ → Result ApiError Bytes
unfolding check_content_length read_chunks
bounded_body request maximum = do
  check_content_length maximum request.content_length
  read_chunks maximum [] request.chunks

-- The header `X-Vendor-Token` is the vendor's token.
unfoldable pub vendor_is_known : Request → GroundSettings → Result ApiError Bool
vendor_is_known request settings = elim request.vendor_token [
  | none ↦ ok false
  | some token ↦ or_raise (compare_digest token settings.vendor_token) type_error
]

pub data Identity : Type 0 where
  operator administrator : Identity

unfoldable pub administrator_identity : Bytes → GroundSettings → Result ApiError Identity
administrator_identity token settings = do
  is_admin ← or_raise (compare_digest token settings.admin_token) type_error
  if is_admin then ok administrator else err (http 401)

-- `_bearer_identity`
unfoldable pub bearer_identity : Option Bytes → GroundSettings → Result ApiError Identity
unfolding administrator_identity
bearer_identity none settings = err (http 401)
bearer_identity (some authorization) settings = do
  token ← or_raise (without_prefix (codes "Bearer ") authorization) (http 401)
  is_operator ← or_raise (compare_digest token settings.operator_token) type_error
  if is_operator then ok operator else administrator_identity token settings

-- The media type without its parameters.
unfoldable pub is_octet_stream : Option String → Bool
is_octet_stream none = false
is_octet_stream (some content_type) =
    bytes_eq (lower (strip (before b';' (codes content_type)))) (codes "application/octet-stream")
