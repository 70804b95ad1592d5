-- ===== src/Vendor/Sessions.antt =====
-- services/vendor_simulator.py: the identifiers of frames over a history of starts and requests.
use cislunar_ground_platform.Base.{
  ◌≢◌, subst, ℕ, suc, ◌≤◌, ◌<◌, sym, Bool, List, [], ◌∷◌, ◌++◌, Bytes, All, Result, ok, err, ◌⊎◌,
  inl, inr, arith,
}
use cislunar_ground_platform.Base.Int.{ℤ, pos}
use cislunar_ground_platform.Telemetry.Codec.{uint32_max, packet_id_text}
use cislunar_ground_platform.Telemetry.Codec.PacketId.{packet_id_text-injective}
use cislunar_ground_platform.Vendor.Readings.{TelemetryRequest}
use cislunar_ground_platform.Vendor.Payload.{
  VendorError, File, PayloadSimulator, load_next_boot_id, new_payload, make_frame,
}
use cislunar_ground_platform.Vendor.BootFile.{Written, checked_previous-Written, load-cases}
use cislunar_ground_platform.Vendor.Counting.{Above, new_payload-Above, IsMade, make_frame-IsMade}

-- The service starts, and its write of the boot identifier succeeds or fails; or it makes a frame,
-- with the same choice for a write, at a time of the clock.
pub data Event : Type 0 where
  starts : Bool → Event
  makes : Bool → ℤ → TelemetryRequest → Event

-- The file alone, or the source with its file.
pub data Site : Type 0 where
  stopped : File → Site
  running : PayloadSimulator → Site

abbrev file_of : Site → File
file_of (stopped file) = file
file_of (running s) = s.file

abbrev site_of : Result VendorError ℕ × File → Site
site_of (ok boot_id, file) = running (new_payload boot_id file)
site_of (err e, file) = stopped file

abbrev name_of : Result VendorError (Bytes × Bytes) → List Bytes
name_of (ok (raw, message_id)) = message_id ∷ []
name_of (err e) = []

-- The identifiers of the frames made in a history.
unfoldable pub message_ids : List Event → Site → List Bytes
unfolding load_next_boot_id make_frame
message_ids [] site = []
message_ids (starts writes ∷ events) site =
    message_ids events (site_of (load_next_boot_id writes (file_of site)))
message_ids (makes writes t request ∷ events) (stopped file) = message_ids events (stopped file)
message_ids (makes writes t request ∷ events) (running s) =
    let made = make_frame writes t request s in
    name_of made.0 ++ message_ids events (running made.1)

AboveAt : ℕ → ℕ → Site → Type 0
AboveAt b q (stopped file) = (p : ℕ) × Written file p × (b ≤ p)
AboveAt b q (running s) = Above b q s

-- No name in the list is that of the frame `(b, q)`.
abbrev pub IsFresh : ℕ → ℕ → List Bytes → Type 0
IsFresh b q names = All (λ name. packet_id_text (pos 1) (pos b) (pos q) ≢ name) names

start-Above :
    (b q : ℕ) (writes : Bool) (file : File) (p : ℕ)
    → Written file p
    → b ≤ p
    → AboveAt b q (site_of (load_next_boot_id writes file))
unfolding AboveAt
start-Above b q writes file p w h = elim (load-cases writes file) [
  | inl (previous, later, e, read, w') ↦
      let same = checked_previous-Written file p previous w read in
      rw e (new_payload-Above b q (suc previous) later (omega arith) w')
  | inr (failure, e) ↦ rw e (p, w, h)
]

file_of-Written :
    (b q : ℕ) (site : Site) → AboveAt b q site → (p : ℕ) × Written (file_of site) p × (b ≤ p)
unfolding AboveAt
file_of-Written b q (stopped file) h = h
file_of-Written b q (running s) a = (a.written, a.is_written, a.not_below)

different-names :
    (b q i n : ℕ)
    → b ≤ uint32_max
    → q ≤ uint32_max
    → i ≤ uint32_max
    → n ≤ uint32_max
    → (b < i) ⊎ (q < n)
    → packet_id_text (pos 1) (pos b) (pos q) ≢ packet_id_text (pos 1) (pos i) (pos n)
different-names b q i n hb hq hi hn key same =
    let (_, boot, count) =
      packet_id_text-injective 1 b q 1 i n (omega arith) (omega arith) (omega arith) (omega arith)
        (omega arith) (omega arith) same in
    elim key [ inl h ↦ absurd (omega arith) | inr h ↦ absurd (omega arith) ]

names-Fresh :
    (b q : ℕ) (r : Result VendorError (Bytes × Bytes) × PayloadSimulator) (rest : List Bytes)
    → b ≤ uint32_max
    → q ≤ uint32_max
    → IsMade b q r
    → (Above b q r.1 → IsFresh b q rest)
    → IsFresh b q (name_of r.0 ++ rest)
unfolding IsMade
names-Fresh b q (ok (raw, message_id), s) rest hb hq (i, n, e, hi, hn, key, later, a) fresh = (
  subst (λ name. packet_id_text (pos 1) (pos b) (pos q) ≢ name) (sym e)
      (different-names b q i n hb hq hi hn key),
  fresh a,
)
names-Fresh b q (err e, s) rest hb hq a fresh = fresh a

message_ids-Fresh :
    (b q : ℕ) (events : List Event) (site : Site)
    → b ≤ uint32_max
    → q ≤ uint32_max
    → AboveAt b q site
    → IsFresh b q (message_ids events site)
unfolding message_ids
message_ids-Fresh b q [] site hb hq a = tt
message_ids-Fresh b q (starts writes ∷ events) site hb hq a =
    let (p, w, h) = file_of-Written b q site a in
    message_ids-Fresh b q events _ hb hq (start-Above b q writes (file_of site) p w h)
message_ids-Fresh b q (makes writes t request ∷ events) (stopped file) hb hq a =
    message_ids-Fresh b q events (stopped file) hb hq a
message_ids-Fresh b q (makes writes t request ∷ events) (running s) hb hq a =
    let made = make_frame writes t request s in
    names-Fresh b q made _ hb hq (make_frame-IsMade b q writes t request s (unfold AboveAt in a))
      λ later. message_ids-Fresh b q events (running made.1) hb hq (unfold AboveAt in later)

-- No two entries of the list are equal.
abbrev pub AllDifferent : List Bytes → Type 0
AllDifferent [] = Unit {0}
AllDifferent (x ∷ xs) = All (λ y. x ≢ y) xs × AllDifferent xs

IsReady : Site → Type 0
IsReady (stopped file) = Unit {0}
IsReady (running s) = Above 0 0 s

start-IsReady : (writes : Bool) (file : File) → IsReady (site_of (load_next_boot_id writes file))
unfolding IsReady
start-IsReady writes file = elim (load-cases writes file) [
  | inl (p, later, e, read, w) ↦ rw e (new_payload-Above 0 0 (suc p) later (omega arith) w)
  | inr (failure, e) ↦ rw e tt
]

names-Different :
    (r : Result VendorError (Bytes × Bytes) × PayloadSimulator) (rest : List Bytes)
    → IsMade 0 0 r
    → ((b q : ℕ) → b ≤ uint32_max → q ≤ uint32_max → Above b q r.1 → IsFresh b q rest)
    → (Above 0 0 r.1 → AllDifferent rest)
    → AllDifferent (name_of r.0 ++ rest)
unfolding IsMade
names-Different (ok (raw, message_id), s) rest (i, n, e, hi, hn, key, later, a) fresh others =
    (subst (λ name. All (λ y. name ≢ y) rest) (sym e) (fresh i n hi hn later), others a)
names-Different (err e, s) rest a fresh others = others a

ready-Different :
    (events : List Event) (site : Site) → IsReady site → AllDifferent (message_ids events site)
unfolding message_ids
ready-Different [] site ready = tt
ready-Different (starts writes ∷ events) site ready =
    ready-Different events _ (start-IsReady writes (file_of site))
ready-Different (makes writes t request ∷ events) (stopped file) ready =
    ready-Different events (stopped file) ready
ready-Different (makes writes t request ∷ events) (running s) ready =
    let made = make_frame writes t request s in
    names-Different made _ (make_frame-IsMade 0 0 writes t request s (unfold IsReady in ready))
      (λ b q hb hq later.
        message_ids-Fresh b q events (running made.1) hb hq (unfold AboveAt in later))
      λ later. ready-Different events (running made.1) (unfold IsReady in later)

-- Over any history of starts and requests, from whatever the file holds, no two frames have the
-- same identifier: whichever requests ask for gaps or are refused by the encoder, whichever writes
-- of the boot identifier fail, and across restarts and the end of the 32-bit counter.
pub message_ids-Different :
    (events : List Event) (file : File) → AllDifferent (message_ids events (stopped file))
message_ids-Different events file = ready-Different events (stopped file) (unfold IsReady in tt)
