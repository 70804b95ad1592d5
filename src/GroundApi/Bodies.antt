-- ===== src/GroundApi/Bodies.antt =====
-- services/ground_api.py, `_bounded_body`: the chunks of the stream and the limit.
use cislunar_ground_platform.Base.{
  ◌>>=◌, or_raise, or_raise-eq-ok, raise_if, raise_if-eq-ok, ℕ, ◌≤◌, ◌<◌, ◌↔◌, Bool, true, false,
  Option, none, some, List, [], ◌∷◌, ◌++◌, Bytes, length, length-append, leb, if◌then◌else◌, Result,
  ok, err, ◌≡◌, refl, sym, ap, ◌∙◌, subst, arith, ok-injective, >>=-eq-ok,
}
use cislunar_ground_platform.Base.Int.{ℤ, pos, ltb_ℤ, leb_ℤ}
use cislunar_ground_platform.Std.Text.{int_of}
use mathlib.Core.List.{append_assoc, append-nil}
use cislunar_ground_platform.GroundApi.Requests.{
  ApiError, http, Request, read_chunks, check_content_length, bounded_body,
}

-- The bytes that the client sends.
unfoldable pub sent : List Bytes → Bytes
sent [] = []
sent (chunk ∷ chunks) = chunk ++ sent chunks

abbrev within : ℕ → Bytes → Result ApiError Bytes
within most body = if leb (length body) most then ok body else err (http 413)

within_limit : (most : ℕ) (body : Bytes) → length body ≤ most → within most body ≡ ok body
within_limit most body h = ground arith

beyond_limit : (most : ℕ) (body : Bytes) → most < length body → within most body ≡ err (http 413)
beyond_limit most body h = ground arith

one_chunk :
    (most : ℕ) (body rest : Bytes) (read : Result ApiError Bytes)
    → (length body ≤ most → read ≡ within most (body ++ rest))
    → (if ltb_ℤ (pos most) (pos (length body)) then err (http 413) else read)
      ≡ within most (body ++ rest)
one_chunk most body rest read h = go (ltb_ℤ (pos most) (pos (length body))) refl
  where
    go :
        (b : Bool)
        → ltb_ℤ (pos most) (pos (length body)) ≡ b
        → (if b then err (http 413) else read) ≡ within most (body ++ rest)
    go true large =
        let over : most < length body = ground arith in
        sym (beyond_limit most (body ++ rest) (omega (arith, over, length-append body rest)))
    go false fits = h (ground arith)

-- The stream is read to its end exactly where all of it is within the limit.
read_chunks-sent :
    (chunks : List Bytes) (most : ℕ) (body : Bytes)
    → length body ≤ most
    → read_chunks (pos most) body chunks ≡ within most (body ++ sent chunks)
unfolding read_chunks sent
read_chunks-sent [] most body h = rw append-nil (sym (within_limit most body h))
read_chunks-sent (chunk ∷ chunks) most body h =
    one_chunk most (body ++ chunk) (sent chunks) (read_chunks (pos most) (body ++ chunk) chunks)
      (read_chunks-sent chunks most (body ++ chunk))
    ∙ ap (within most) (append_assoc body chunk (sent chunks))

-- The header allows the body: there is none, or an integer not above the limit.
abbrev pub Allows : ℕ → Option Bytes → Type 0
Allows most none = Unit {0}
Allows most (some content_length) =
    (size : ℤ) × (int_of content_length ≡ some size) × (leb_ℤ size (pos most) ≡ true)

check_content_length-Allows :
    (most : ℕ) (o : Option Bytes) → check_content_length (pos most) o ≡ ok tt → Allows most o
unfolding check_content_length
check_content_length-Allows most none h = tt
check_content_length-Allows most (some header) h =
    let (size, read, rest) =
      >>=-eq-ok (or_raise (int_of header) (http 400))
        (λ z. raise_if (ltb_ℤ (pos most) z) (http 413)) h in
    (
      size,
      or_raise-eq-ok (int_of header) (http 400) read,
      not_above size (raise_if-eq-ok (ltb_ℤ (pos most) size) (http 413) rest),
    )
  where
    not_above : (z : ℤ) → ltb_ℤ (pos most) z ≡ false → leb_ℤ z (pos most) ≡ true
    not_above z k = ground arith

Allows-check :
    (most : ℕ) (o : Option Bytes) → Allows most o → check_content_length (pos most) o ≡ ok tt
unfolding check_content_length
Allows-check most none h = refl
Allows-check most (some header) (size, read, small) =
    let fits : ltb_ℤ (pos most) size ≡ false = ground arith in
    rw read (ap (λ b. raise_if b (http 413)) fits)

within-eq-ok :
    (most : ℕ) (b body : Bytes) → within most b ≡ ok body → (body ≡ b) × (length body ≤ most)
within-eq-ok most b body h = go (leb (length b) most) refl
  where
    go : (t : Bool) → leb (length b) most ≡ t → (body ≡ b) × (length body ≤ most)
    go true fits =
        let same : b ≡ body = ok-injective (rw fits at h) in
        (sym same, subst (λ x. length x ≤ most) same (ground arith))
    go false over = cc (rw over at h)

-- A body is accepted exactly if the header allows it, and then it is all that the client sent, in
-- order, and no longer than the limit.
pub bounded_body_iff :
    (request : Request) (most : ℕ) (body : Bytes)
    → (bounded_body request (pos most) ≡ ok body)
      ↔ (Allows most request.content_length × (body ≡ sent request.chunks) × (length body ≤ most))
unfolding bounded_body
bounded_body_iff request most body = (
  λ h.
      let (u, checked, read) =
        >>=-eq-ok (check_content_length (pos most) request.content_length)
          (λ passed. read_chunks (pos most) [] request.chunks) h in
      let (same, small) =
        within-eq-ok most (sent request.chunks) body
          (sym (read_chunks-sent request.chunks most [] (omega arith)) ∙ read) in
      (check_content_length-Allows most request.content_length checked, same, small),
  λ (allowed, same, small). rw (Allows-check most request.content_length allowed) (
      read_chunks-sent request.chunks most [] (omega arith)
      ∙ ap (within most) (sym same)
      ∙ within_limit most body small),
)

-- A stream beyond the limit is refused with 413, where the header allowed it.
pub bounded_body_beyond :
    (request : Request) (most : ℕ)
    → Allows most request.content_length
    → most < length (sent request.chunks)
    → bounded_body request (pos most) ≡ err (http 413)
unfolding bounded_body
bounded_body_beyond request most allowed large =
    rw (Allows-check most request.content_length allowed) (
      read_chunks-sent request.chunks most [] (omega arith)
      ∙ beyond_limit most (sent request.chunks) large)

-- A header that announces more than the limit is refused with 413, whatever is sent.
pub bounded_body_announced :
    (request : Request) (most : ℕ) (header : Bytes) (size : ℤ)
    → request.content_length ≡ some header
    → int_of header ≡ some size
    → ltb_ℤ (pos most) size ≡ true
    → bounded_body request (pos most) ≡ err (http 413)
unfolding bounded_body check_content_length
bounded_body_announced request most header size shown read large = rw shown (
    rw read (
      ap (λ b. raise_if b (http 413) >>= λ passed. read_chunks (pos most) [] request.chunks) large))

-- A header that is no integer is refused with 400.
pub bounded_body_unreadable :
    (request : Request) (most : ℕ) (header : Bytes)
    → request.content_length ≡ some header
    → int_of header ≡ none
    → bounded_body request (pos most) ≡ err (http 400)
unfolding bounded_body check_content_length
bounded_body_unreadable request most header shown read = rw shown (rw read refl)
