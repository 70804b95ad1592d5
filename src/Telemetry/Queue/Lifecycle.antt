-- ===== src/Telemetry/Queue/Lifecycle.antt =====
-- One reference from `enqueue` to `ack`, and repeated calls of `enqueue`.
use cislunar_ground_platform.Base.{
  ℕ, Bool, true, false, Option, none, some, List, [], ◌∷◌, Bytes, bytes_eq, bytes_eq_iff,
  if◌then◌else◌, ok, err, ◌≡◌, ◌≢◌, refl, sym, ap, ◌∙◌, subst, arith, inl, inr, Bool-cases,
}
use cislunar_ground_platform.Base.Int.{pos, negsuc, ltb_ℤ, eqb_ℤ}
use cislunar_ground_platform.Telemetry.Queue.Messages.{
  conflict_error, QueueMessage, queue_message, to_json_bytes, Loaded, object, text, job_key,
  packet_key, member, from_json_bytes,
}
use cislunar_ground_platform.Telemetry.Queue.Lists.{
  Redis, get, del, lrem, rpop, enqueue_marked, enqueue_script, ack_script, enqueue, ack, claimed,
  claim_taken, claim,
}

-- The job identifier is marked with the message.
enqueue_marked-marker :
    (o : Option Bytes) (m : QueueMessage) (b : Bool) (s : Redis)
    → get m.job_id s.markers ≡ o
    → (if eqb_ℤ (enqueue_marked o m.job_id (to_json_bytes m) s).0 (negsuc 0)
        then err conflict_error
        else ok (eqb_ℤ (enqueue_marked o m.job_id (to_json_bytes m) s).0 (pos 1)))
      ≡ ok b
    → get m.job_id (enqueue_marked o m.job_id (to_json_bytes m) s).1.markers
      ≡ some (to_json_bytes m)
unfolding enqueue_marked get
enqueue_marked-marker none m b s h e = rw ((bytes_eq_iff m.job_id m.job_id).1 refl) refl
enqueue_marked-marker (some existing) m b s h e =
    elim (Bool-cases (bytes_eq existing (to_json_bytes m))) [
      | inl same ↦ rw same (h ∙ ap some ((bytes_eq_iff existing (to_json_bytes m)).0 same))
      | inr different ↦ ground arith
    ]

enqueue-marker :
    (m : QueueMessage) (b : Bool) (s : Redis)
    → (enqueue m s).0 ≡ ok b
    → get m.job_id (enqueue m s).1.markers ≡ some (to_json_bytes m)
unfolding enqueue enqueue_script
enqueue-marker m b s h = enqueue_marked-marker (get m.job_id s.markers) m b s refl h

marked :
    (o : Option Bytes) (value : Bytes) (n : QueueMessage) (s : Redis)
    → get n.job_id s.markers ≡ some value
    → (to_json_bytes n ≡ value → enqueue n s ≡ (ok false, s))
      × (to_json_bytes n ≢ value → enqueue n s ≡ (err conflict_error, s))
unfolding enqueue enqueue_script enqueue_marked
marked o value n s h =
    let iff = bytes_eq_iff value (to_json_bytes n) in
    (
      λ e. rw (h, iff.1 (sym e)) refl,
      λ d. elim (Bool-cases (bytes_eq value (to_json_bytes n))) [
        | inl same ↦ absurd (d (sym (iff.0 same)))
        | inr different ↦ rw (h, different) refl
      ],
    )

-- Once `enqueue` has returned for a job, a further call for the job changes nothing: it returns
-- False for the same entry, and raises a conflict for another one.
pub enqueue-repeat :
    (m n : QueueMessage) (b : Bool) (s : Redis)
    → (enqueue m s).0 ≡ ok b
    → n.job_id ≡ m.job_id
    → (to_json_bytes n ≡ to_json_bytes m → enqueue n (enqueue m s).1 ≡ (ok false, (enqueue m s).1))
      × (to_json_bytes n ≢ to_json_bytes m
          → enqueue n (enqueue m s).1 ≡ (err conflict_error, (enqueue m s).1))
enqueue-repeat m n b s h same = marked none (to_json_bytes m) n (enqueue m s).1 (
    subst (λ k. get k (enqueue m s).1.markers ≡ some (to_json_bytes m)) (sym same)
      (enqueue-marker m b s h))

-- What `json.loads` makes of the entry of a message: the two members.
abbrev pub Reads : (Bytes → Option Loaded) → QueueMessage → Type 0
Reads loads m =
    loads (to_json_bytes m)
    ≡ some (object ((job_key, text m.job_id) ∷ (packet_key, text m.packet_id) ∷ []))

-- The message passes the checks of its constructor.
abbrev pub IsValidMessage : QueueMessage → Type 0
IsValidMessage m = queue_message m.job_id m.packet_id ≡ ok m

from_json-to_json :
    (loads : Bytes → Option Loaded) (m : QueueMessage)
    → IsValidMessage m
    → Reads loads m
    → from_json_bytes loads (to_json_bytes m) ≡ ok m
unfolding from_json_bytes member bytes_eq
from_json-to_json loads m valid reads = rw reads valid

-- A queue with an empty pending list.
abbrev pub idle_queue : List Bytes → List Bytes → List (Bytes × Bytes) → Redis
idle_queue processing failed markers = record {
  pending = [];
  processing = processing;
  failed = failed;
  markers = markers;
}

abbrev marked_queue :
    QueueMessage → List Bytes → List Bytes → List Bytes → List (Bytes × Bytes) → Redis
marked_queue m pending processing failed markers = record {
  pending = pending;
  processing = processing;
  failed = failed;
  markers = (m.job_id, to_json_bytes m) ∷ markers;
}

enqueue_new :
    (m : QueueMessage) (processing failed : List Bytes) (markers : List (Bytes × Bytes))
    → get m.job_id markers ≡ none
    → enqueue m (idle_queue processing failed markers)
      ≡ (ok true, marked_queue m (to_json_bytes m ∷ []) processing failed markers)
unfolding enqueue enqueue_script enqueue_marked
enqueue_new m processing failed markers new = rw new refl

claim_only :
    (loads : Bytes → Option Loaded) (m : QueueMessage) (timeout : ℕ)
    (processing failed : List Bytes) (markers : List (Bytes × Bytes))
    → from_json_bytes loads (to_json_bytes m) ≡ ok m
    → claim loads (pos timeout) (marked_queue m (to_json_bytes m ∷ []) processing failed markers)
      ≡ (ok (some m), marked_queue m [] (to_json_bytes m ∷ processing) failed markers)
unfolding claim claim_taken claimed rpop
claim_only loads m timeout processing failed markers back =
    let waits : ltb_ℤ (pos timeout) (pos 0) ≡ false = ground arith in rw (waits, back) refl

ack_first :
    (m : QueueMessage) (processing failed : List Bytes) (markers : List (Bytes × Bytes))
    → ack m (marked_queue m [] (to_json_bytes m ∷ processing) failed markers)
      ≡ (ok tt, idle_queue processing failed (del m.job_id markers))
unfolding ack ack_script lrem del
ack_first m processing failed markers =
    rw
      (
        (bytes_eq_iff (to_json_bytes m) (to_json_bytes m)).1 refl,
        (bytes_eq_iff m.job_id m.job_id).1 refl,
      )
      refl

-- A valid message that is enqueued for the first time on an empty pending list is what the next
-- claim returns, if `json.loads` reads the entry as the dict that was dumped; acknowledging it then
-- leaves the lists as they were and the job without a marker.
pub enqueue-claim-ack :
    (loads : Bytes → Option Loaded) (m : QueueMessage) (timeout : ℕ)
    (processing failed : List Bytes) (markers : List (Bytes × Bytes))
    → IsValidMessage m
    → Reads loads m
    → get m.job_id markers ≡ none
    → let s = idle_queue processing failed markers in
      ((enqueue m s).0 ≡ ok true)
      × ((claim loads (pos timeout) (enqueue m s).1).0 ≡ ok (some m))
      × (ack m (claim loads (pos timeout) (enqueue m s).1).1
          ≡ (ok tt, idle_queue processing failed (del m.job_id markers)))
enqueue-claim-ack loads m timeout processing failed markers valid reads new =
    let taken =
      claim_only loads m timeout processing failed markers
        (from_json-to_json loads m valid reads) in
    rw (enqueue_new m processing failed markers new, taken)
      (refl, refl, ack_first m processing failed markers)
