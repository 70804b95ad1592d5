-- ===== src/Telemetry/Queue/Messages.antt =====
-- queue.py: `QueueMessage` with its checks and its JSON text. Texts are lists of code points.
-- `json.loads` is an argument `loads`: what it makes of the bytes of an entry, or `none` where it
-- raises one of the three exceptions that `from_json_bytes` catches; another exception, by nesting
-- too deep or by an integer of too many digits, is `uncaught`.
use cislunar_ground_platform.Base.{
  ℕ, zero, suc, ◌+◌, ◌-◌, ◌/◌, ◌%◌, Bool, true, false, not, ◌&&◌, ◌||◌, Option, none, some, List,
  [], ◌∷◌, ◌++◌, Bytes, bytes_eq, length, reverse, map, ltb, leb, ◌==◌, if◌then◌else◌, Result, ok,
  err, ◌>>=◌, ◌>>◌, raise_if, or_raise,
}
use cislunar_ground_platform.Base.Digits.{be_digits}
use cislunar_ground_platform.Std.Unicode.{is_decimal, is_space}

-- The three exceptions of the module, `ValueError`, and what `json.loads` raises uncaught.
pub data QueueError : Type 0 where
  message_error conflict_error state_error value_error json_error : QueueError

pub record QueueMessage : Type 0 where
  pub job_id : Bytes
  pub packet_id : Bytes

-- Neither end of the text is white space; an empty text has no ends.
unfoldable pub is_trimmed : Bytes → Bool
is_trimmed [] = false
is_trimmed (c ∷ cs) =
    not (is_space c) && elim (reverse (c ∷ cs)) [ [] ↦ false | d ∷ ds ↦ not (is_space d) ]

abbrev pub is_lower_hex : ℕ → Bool
is_lower_hex c = (leb 48 c && leb c 57) || (leb 97 c && leb c 102)

abbrev pub is_upper_hex : ℕ → Bool
is_upper_hex c = (leb 48 c && leb c 57) || (leb 65 c && leb c 70)

-- A pattern as one test for each character.
unfoldable pub full_match : List (ℕ → Bool) → Bytes → Bool
full_match [] [] = true
full_match [] (c ∷ cs) = false
full_match (p ∷ ps) [] = false
full_match (p ∷ ps) (c ∷ cs) = p c && full_match ps cs

abbrev pub is : ℕ → ℕ → Bool
is x c = c == x

unfoldable pub times : ℕ → (ℕ → Bool) → List (ℕ → Bool)
times zero p = []
times (suc n) p = p ∷ times n p

-- `str(UUID(x)) == x`: groups of 8, 4, 4, 4 and 12 lower-case hexadecimal digits.
unfoldable pub canonical_uuid : List (ℕ → Bool)
unfolding times
canonical_uuid =
    times 8 is_lower_hex
    ++ (is b'-' ∷ times 4 is_lower_hex)
    ++ (is b'-' ∷ times 4 is_lower_hex)
    ++ (is b'-' ∷ times 4 is_lower_hex)
    ++ (is b'-' ∷ times 12 is_lower_hex)

-- r"TLM-P\d{2}-B[0-9A-F]{8}-S[0-9A-F]{8}", where `\d` is any decimal digit of Unicode
unfoldable pub packet_pattern : List (ℕ → Bool)
unfolding times
packet_pattern =
    (is b'T' ∷ is b'L' ∷ is b'M' ∷ is b'-' ∷ is b'P' ∷ times 2 is_decimal)
    ++ (is b'-' ∷ is b'B' ∷ times 8 is_upper_hex)
    ++ (is b'-' ∷ is b'S' ∷ times 8 is_upper_hex)

abbrev pub check_text : Bytes → Result QueueError (Unit {0})
check_text value = do
  raise_if (not (is_trimmed value)) message_error
  raise_if (ltb 128 (length value)) message_error

-- `QueueMessage(job_id, packet_id)` with `__post_init__`
unfoldable pub queue_message : Bytes → Bytes → Result QueueError QueueMessage
unfolding is_trimmed full_match canonical_uuid packet_pattern
queue_message job_id packet_id = do
  check_text job_id
  check_text packet_id
  raise_if (not (full_match canonical_uuid job_id)) message_error
  raise_if (not (full_match packet_pattern packet_id)) message_error
  ok (record { job_id = job_id; packet_id = packet_id })

abbrev hex_char : ℕ → ℕ
hex_char d = if ltb d 10 then 48 + d else 87 + d

-- `\u` and four hexadecimal digits
unfoldable pub escaped : ℕ → Bytes
escaped c = b'\\' ∷ b'u' ∷ map hex_char (be_digits 15 4 c)

-- A character in `json.dumps(..., ensure_ascii=True)`. A message has no quotation mark, backslash or
-- control character; beyond 0xFFFF stand two surrogates.
unfoldable pub dumps_char : ℕ → Bytes
unfolding escaped
dumps_char c =
    if ltb c 128
    then c ∷ []
    else if ltb c 0x10000
    then escaped c
    else escaped (0xD800 + (c - 0x10000) / 0x400) ++ escaped (0xDC00 + (c - 0x10000) % 0x400)

unfoldable pub dumps_text : Bytes → Bytes
unfolding dumps_char
dumps_text [] = []
dumps_text (c ∷ cs) = dumps_char c ++ dumps_text cs

-- {"job_id":"
abbrev before_job : Bytes
before_job = b'{' ∷ b'"' ∷ b'j' ∷ b'o' ∷ b'b' ∷ b'_' ∷ b'i' ∷ b'd' ∷ b'"' ∷ b':' ∷ b'"' ∷ []

-- ","packet_id":"
abbrev before_packet : Bytes
before_packet =
    b'"' ∷ b',' ∷ b'"' ∷ b'p' ∷ b'a' ∷ b'c' ∷ b'k' ∷ b'e' ∷ b't' ∷ b'_' ∷ b'i' ∷ b'd' ∷ b'"' ∷ b':'
    ∷ b'"' ∷ []

unfoldable pub to_json_bytes : QueueMessage → Bytes
unfolding dumps_text
to_json_bytes m =
    before_job
    ++ (dumps_text m.job_id ++ (before_packet ++ (dumps_text m.packet_id ++ (b'"' ∷ b'}' ∷ []))))

-- What `json.loads` returns, as far as the code looks at it: a dict with distinct keys, or anything
-- else; a member is a text or anything else.
pub data Member : Type 0 where
  text : Bytes → Member
  not_text : Member

pub data Loaded : Type 0 where
  object : List (Bytes × Member) → Loaded
  not_object : Loaded
  uncaught : Loaded

abbrev pub job_key : Bytes
job_key = b'j' ∷ b'o' ∷ b'b' ∷ b'_' ∷ b'i' ∷ b'd' ∷ []

abbrev pub packet_key : Bytes
packet_key = b'p' ∷ b'a' ∷ b'c' ∷ b'k' ∷ b'e' ∷ b't' ∷ b'_' ∷ b'i' ∷ b'd' ∷ []

unfoldable pub member : Bytes → List (Bytes × Member) → Option Member
member key [] = none
member key ((k, v) ∷ rest) = if bytes_eq k key then some v else member key rest

abbrev members_of : Loaded → Result QueueError (List (Bytes × Member))
members_of (object members) = ok members
members_of not_object = err message_error
members_of uncaught = err json_error

abbrev text_of : Member → Result QueueError Bytes
text_of (text t) = ok t
text_of not_text = err message_error

-- Two distinct keys that include both names are exactly the two names.
unfoldable pub from_json_bytes : (Bytes → Option Loaded) → Bytes → Result QueueError QueueMessage
unfolding member queue_message
from_json_bytes loads raw = do
  decoded ← or_raise (loads raw) message_error
  members ← members_of decoded
  raise_if (not (length members == 2)) message_error
  job ← or_raise (member job_key members) message_error
  packet ← or_raise (member packet_key members) message_error
  job_id ← text_of job
  packet_id ← text_of packet
  queue_message job_id packet_id
