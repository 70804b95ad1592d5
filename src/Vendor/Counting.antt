-- ===== src/Vendor/Counting.antt =====
-- services/vendor_simulator.py: how the boot identifier and the counter of `PayloadSimulator`
-- go on.
use cislunar_ground_platform.Base.{
  subst, ℕ, suc, ◌+◌, ◌≤◌, ◌<◌, ◌≡◌, refl, sym, ap, ◌∙◌, Bool, none, Bytes, Result, ok, err, ◌⊎◌,
  inl, inr, leb, ◌==◌, Bool-cases, arith, >>=-eq-ok, ok-injective,
}
use cislunar_ground_platform.Base.Int.{ℤ, pos}
use cislunar_ground_platform.Telemetry.Codec.{
  uint32_max, packet_id_text, format_packet_id, encode_telemetry,
}
use cislunar_ground_platform.Vendor.Readings.{TelemetryRequest, FailureMode}
use cislunar_ground_platform.Vendor.Payload.{
  from_codec, VendorError, File, PayloadSimulator, new_payload, rolled, roll_session_if_needed,
  frame_of, encoded, counted, skipped, make_frame,
}
use cislunar_ground_platform.Vendor.BootFile.{Written, persist-cases}

-- Every frame to come has an identifier above `(b, q)`: the boot identifiers in use are written, and
-- counting goes on from there, or the counter has run out.
pub record Above (b q : ℕ) (s : PayloadSimulator) : Type 0 where
  pub written : ℕ
  pub is_written : Written s.file written
  pub not_below : b ≤ written
  pub in_use : written ≤ s.boot_id
  pub fits : s.boot_id ≤ uint32_max
  pub counts :
      s.next_sequence ≤ uint32_max
      → (written ≡ s.boot_id) × ((b < s.boot_id) ⊎ (q < s.next_sequence))

pub new_payload-Above :
    (b q p : ℕ) (file : File) → b < p → Written file p → Above b q (new_payload p file)
unfolding new_payload Written
new_payload-Above b q p file h w = record {
  written = p;
  is_written = w;
  not_below = omega arith;
  in_use = omega arith;
  fits = w.1;
  counts = λ l. (refl, inl h);
}

skipped-Above :
    (b q : ℕ) (mode : FailureMode) (s : PayloadSimulator) → Above b q s → Above b q (skipped mode s)
unfolding skipped
skipped-Above b q FailureMode.skip_sequence s a = record {
  written = a.written;
  is_written = a.is_written;
  not_below = a.not_below;
  in_use = a.in_use;
  fits = a.fits;
  counts = λ l.
      let (same, key) = a.counts (omega arith) in
      (same, elim key [ inl h ↦ inl h | inr h ↦ inr (omega arith) ]);
}
skipped-Above b q FailureMode.no_failure s a = a
skipped-Above b q FailureMode.corrupt_crc s a = a
skipped-Above b q FailureMode.unsupported_version s a = a
skipped-Above b q FailureMode.duplicate_last s a = a

counting :
    (b q : ℕ) (s u : PayloadSimulator)
    → Above b q s
    → u.file ≡ s.file
    → u.boot_id ≡ s.boot_id
    → s.next_sequence ≤ u.next_sequence
    → Above b q u
counting b q s u a f i n = record {
  written = a.written;
  is_written = subst (λ file. Written file a.written) (sym f) a.is_written;
  not_below = a.not_below;
  in_use = omega (arith, a.in_use);
  fits = omega (arith, a.fits);
  counts = λ l.
      let (same, key) = a.counts (omega arith) in
      (same ∙ sym i, elim key [ inl h ↦ inl (omega arith) | inr h ↦ inr (omega arith) ]);
}

-- The boot identifier has gone up, but could not be written: no frame is made before it is.
unwritten :
    (b q : ℕ) (s : PayloadSimulator)
    → Above b q s
    → uint32_max < s.next_sequence
    → s.boot_id < uint32_max
    → Above b q (record s { boot_id = suc s.boot_id })
unwritten b q s a n l = record {
  written = a.written;
  is_written = a.is_written;
  not_below = a.not_below;
  in_use = omega (arith, a.in_use);
  fits = omega arith;
  counts = λ h. absurd (omega arith);
}

IsRolled : ℕ → ℕ → Result VendorError (Unit {0}) × PayloadSimulator → Type 0
IsRolled b q (ok done, s) = Above b q s × (s.next_sequence ≤ uint32_max)
IsRolled b q (err e, s) = Above b q s

roll-IsRolled :
    (b q : ℕ) (writes : Bool) (s : PayloadSimulator)
    → Above b q s
    → IsRolled b q (roll_session_if_needed writes s)
unfolding roll_session_if_needed rolled IsRolled
roll-IsRolled b q writes s a = elim (Bool-cases (leb s.next_sequence uint32_max)) [
  | inl e ↦ rw e (a, ground arith)
  | inr e ↦ elim (Bool-cases (s.boot_id == uint32_max)) [
    | inl last ↦ rw (e, last) a
    | inr more ↦
        let fits = a.fits in
        let room : s.boot_id < uint32_max = ground arith in
        elim (persist-cases writes (suc s.boot_id) s.file (omega arith)) [
          | inl (later, done, w) ↦
              rw (e, more, done)
                (
                  record {
                    written = suc s.boot_id;
                    is_written = w;
                    not_below = omega (arith, a.not_below, a.in_use);
                    in_use = omega arith;
                    fits = omega arith;
                    counts = λ l. (refl, inl (omega (arith, a.not_below, a.in_use)));
                  },
                  omega arith,
                )
          | inr (failure, failed) ↦ rw (e, more, failed) (unwritten b q s a (ground arith) room)
        ]
  ]
]

named_lem :
    (p b s : ℤ) (name : Bytes)
    → from_codec (format_packet_id p b s) ≡ ok name
    → name ≡ packet_id_text p b s
unfolding format_packet_id
named_lem p b s name h = ground arith

encoded-name :
    (t : ℤ) (request : TelemetryRequest) (s : PayloadSimulator) (raw message_id : Bytes)
    → encoded (frame_of t request s) ≡ ok (raw, message_id)
    → message_id ≡ packet_id_text (pos 1) (pos s.boot_id) (pos s.next_sequence)
unfolding encoded frame_of
encoded-name t request s raw message_id h =
    let f = frame_of t request s in
    let (bytes, e, h₁) = >>=-eq-ok (from_codec (encode_telemetry f none)) _ h in
    let (name, named, h₂) =
      >>=-eq-ok (from_codec (format_packet_id f.payload_id f.boot_id f.sequence_number)) _ h₁ in
    ap (λ (x : Bytes × Bytes). x.1) (sym (ok-injective h₂))
    ∙ named_lem (pos 1) (pos s.boot_id) (pos s.next_sequence) name named

-- What making a frame does to the identifiers.
unfoldable pub IsMade : ℕ → ℕ → Result VendorError (Bytes × Bytes) × PayloadSimulator → Type 0
IsMade b q (ok (raw, message_id), s) =
    (i : ℕ) × (n : ℕ) × (message_id ≡ packet_id_text (pos 1) (pos i) (pos n))
    × (i ≤ uint32_max)
    × (n ≤ uint32_max)
    × ((b < i) ⊎ (q < n))
    × Above i n s
    × Above b q s
IsMade b q (err e, s) = Above b q s

encoded-IsMade :
    (b q : ℕ) (t : ℤ) (request : TelemetryRequest) (s : PayloadSimulator)
    (m : Result VendorError (Bytes × Bytes))
    → encoded (frame_of t request s) ≡ m
    → Above b q s
    → s.next_sequence ≤ uint32_max
    → IsMade b q (m, record s { next_sequence = s.next_sequence + 1 })
unfolding IsMade
encoded-IsMade b q t request s (err e) h a l = counting b q s _ a refl refl (omega arith)
encoded-IsMade b q t request s (ok (raw, message_id)) h a l =
    let (same, key) = a.counts l in
    (
      s.boot_id,
      s.next_sequence,
      encoded-name t request s raw message_id h,
      a.fits,
      l,
      key,
      record {
        written = a.written;
        is_written = a.is_written;
        not_below = omega arith;
        in_use = a.in_use;
        fits = a.fits;
        counts = λ m. (same, inr (omega arith));
      },
      counting b q s _ a refl refl (omega arith),
    )

counted-IsMade :
    (b q : ℕ) (t : ℤ) (request : TelemetryRequest)
    (r : Result VendorError (Unit {0}) × PayloadSimulator)
    → IsRolled b q r
    → IsMade b q (counted t request r)
unfolding counted IsRolled
counted-IsMade b q t request (ok done, s) (a, l) =
    encoded-IsMade b q t request s (encoded (frame_of t request s)) refl a l
counted-IsMade b q t request (err e, s) a = unfold IsMade in a

pub make_frame-IsMade :
    (b q : ℕ) (writes : Bool) (t : ℤ) (request : TelemetryRequest) (s : PayloadSimulator)
    → Above b q s
    → IsMade b q (make_frame writes t request s)
unfolding make_frame
make_frame-IsMade b q writes t request s a =
    counted-IsMade b q t request (roll_session_if_needed writes (skipped request.failure_mode s)) (
      roll-IsRolled b q writes (skipped request.failure_mode s)
        (skipped-Above b q request.failure_mode s a))
