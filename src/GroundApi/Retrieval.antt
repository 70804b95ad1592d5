-- ===== src/GroundApi/Retrieval.antt =====
-- services/ground_api.py: what `get_raw_payload` answers is the saved evidence.
use cislunar_ground_platform.Base.{
  str_eq, Bool, true, false, Option, none, some, [], ◌∷◌, Bytes, Result, ok, err, ◌≡◌, refl, sym,
  ap, ◌∙◌, subst, if◌then◌else◌, ok-injective, raise_if, not,
}
use cislunar_ground_platform.Std.Uuid.{hex}
use cislunar_ground_platform.Telemetry.Queue.Messages.{full_match, packet_pattern}
use cislunar_ground_platform.Telemetry.Settings.{GroundSettings}
use cislunar_ground_platform.Telemetry.Storage.Records.{
  Value, Json, TelemetryDeliveryReceipt, LogicalTelemetryPacket, TelemetryProcessingJob,
}
use cislunar_ground_platform.Telemetry.Storage.Tables.{
  Db, get_packet, get_receipt, get_job_for_packet,
}
use cislunar_ground_platform.Telemetry.Storage.Tables.Rows.{row-key}
use cislunar_ground_platform.Telemetry.Storage.History.{Run}
use cislunar_ground_platform.Telemetry.Storage.History.Permanence.{Run-KeepsEvidence}
use cislunar_ground_platform.Telemetry.World.{World}
use cislunar_ground_platform.GroundApi.Requests.{
  database_error, ApiError, Identity, http, bearer_identity,
}
use cislunar_ground_platform.GroundApi.Responses.{Response}
use cislunar_ground_platform.GroundApi.Calls.{
  Call, Reply, Env, Api, and_then, committed, transaction, query,
}
use cislunar_ground_platform.GroundApi.Refines.{OthersRun}
use cislunar_ground_platform.GroundApi.Naming.{named_receipt}
use cislunar_ground_platform.Telemetry.Storage.History.Packets.{Run-get_packet}
use cislunar_ground_platform.GroundApi.Bearers.{IsBearer, bearer_identity-ok}
use cislunar_ground_platform.GroundApi.Reads.{
  or_not_found, with_source, read_packet, with_packet, or_unavailable, check_message, raw_answer,
  read_raw, get_raw_payload,
}

-- A step that returned has gone through its parts.
and_then-ok :
    {A B : Type 0} (r : Result ApiError A × World) (next : A → Api B) (b : B)
    → (and_then r next).0 ≡ ok b
    → (a : A) × (u : World) × (r ≡ (ok a, u)) × (and_then r next ≡ next a u)
and_then-ok (ok a, u) next b h = (a, u, refl, refl)
and_then-ok (err e, u) next b h = cc

impossible : {A : Type 0} (a : A) → ◌≡◌ {A = Result ApiError A} (err database_error) (ok a) → ⊥
impossible a e = cc

-- A read that is answered shows the database as other services have left it.
query-ok :
    {A : Type 0} (env : Env) (call : Call) (body : Db → A) (w u : World) (a : A)
    → OthersRun env
    → query env call body w ≡ (ok a, u)
    → (body u.db ≡ a) × Run w.db u.db
unfolding query transaction committed
query-ok {A = A} env call body w u a others h = read (env.reply call) h
  where
    read :
        (reply : Reply)
        → committed reply
            (ok (body (env.others call w).db, (env.others call w).db))
            (env.others call w)
          ≡ (ok a, u)
        → (body u.db ≡ a) × Run w.db u.db
    read Reply.answered e =
        let v = env.others call w in
        let same : v ≡ u = ap (λ (x : Result ApiError A × World). x.1) e in
        let value : ◌≡◌ {A = Result ApiError A} (ok (body v.db)) (ok a) =
          ap (λ (x : Result ApiError A × World). x.0) e in
        (
          subst (λ (z : World). body z.db ≡ a) same (ok-injective value),
          subst (λ (z : World). Run w.db z.db) same (others call w),
        )
    read Reply.refused e = absurd (impossible a (ap (λ (x : Result ApiError A × World). x.0) e))
    read Reply.lost e = absurd (impossible a (ap (λ (x : Result ApiError A × World). x.0) e))

-- The member of a response under a key.
abbrev pub raw_hex_of : Json → Option Bytes
raw_hex_of [] = none
raw_hex_of ((key, Value.code_points text) ∷ rest) =
    let later = raw_hex_of rest in if str_eq key "raw_hex" then some text else later
raw_hex_of (member ∷ rest) = raw_hex_of rest

-- The response is the evidence of the packet under a message identifier: the identifier and the bytes
-- of the packet's source receipt, as the database holds both.
abbrev pub ShowsEvidence : Bytes → Response → World → Type 0
ShowsEvidence message_id response w =
    (response.status_code ≡ 200)
    × (packet : LogicalTelemetryPacket) × (receipt : TelemetryDeliveryReceipt) × (get_packet
          message_id w.db
        ≡ some packet)
    × (get_receipt packet.source_receipt_id w.db ≡ some receipt)
    × (named_receipt response.content ≡ some packet.source_receipt_id)
    × (raw_hex_of response.content ≡ some (hex receipt.raw_body))

raw_answer-Evidence :
    (message_id : Bytes) (packet : LogicalTelemetryPacket) (o : Option TelemetryDeliveryReceipt)
    (job : Option TelemetryProcessingJob) (u v : World) (response : Response)
    → get_receipt packet.source_receipt_id u.db ≡ o
    → get_packet message_id v.db ≡ some packet
    → Run u.db v.db
    → (raw_answer packet o job v).0 ≡ ok response
    → ShowsEvidence message_id response (raw_answer packet o job v).1
unfolding raw_answer
raw_answer-Evidence message_id packet none job u v response found known run h = absurd cc
raw_answer-Evidence message_id packet (some receipt) job u v response found known run h =
    let (later, there, kept) =
      Run-KeepsEvidence u.db v.db run packet.source_receipt_id receipt found in
    let own = row-key (λ r. r.receipt_id) packet.source_receipt_id receipt u.db.receipts found in
    subst (λ r. ShowsEvidence message_id r v) (ok-injective h)
      (refl, packet, later, known, there, ap some own, ap (λ b. some (hex b)) (sym kept.raw))

result_of_equal :
    {A : Type 0} {x y : Result ApiError A × World} {r : Result ApiError A}
    → x ≡ y
    → x.0 ≡ r
    → y.0 ≡ r
result_of_equal {A = A} e h = ap (λ (z : Result ApiError A × World). z.0) (sym e) ∙ h

with_packet-Evidence :
    (env : Env) (message_id : Bytes) (packet : LogicalTelemetryPacket) (w : World)
    (response : Response)
    → OthersRun env
    → get_packet message_id w.db ≡ some packet
    → (with_packet env message_id packet w).0 ≡ ok response
    → ShowsEvidence message_id response (with_packet env message_id packet w).1
unfolding with_packet with_source
with_packet-Evidence env message_id packet w response others known h =
    let source = query env Call.reads_source (get_receipt packet.source_receipt_id) w in
    let (o, u, found, e) = and_then-ok source (with_source env message_id packet) response h in
    let h₁ = result_of_equal e h in
    let last = query env Call.reads_job (get_job_for_packet message_id) u in
    let (job, v, listed, e₁) = and_then-ok last (raw_answer packet o) response h₁ in
    let (read, before) =
      query-ok env Call.reads_source (get_receipt packet.source_receipt_id) w u o others found in
    let (jobs, run) =
      query-ok env Call.reads_job (get_job_for_packet message_id) u v job others listed in
    let stays : get_packet message_id v.db ≡ some packet =
      Run-get_packet u.db v.db message_id packet run
        (Run-get_packet w.db u.db message_id packet before known) in
    subst (λ (x : Result ApiError Response × World). ShowsEvidence message_id response x.1)
      (sym (e ∙ e₁))
      (raw_answer-Evidence message_id packet o job u v response read stays run
        (result_of_equal e₁ h₁))

or_not_found-ok :
    {A : Type 0} (o : Option A) (a : A) (w u : World)
    → or_not_found o w ≡ (ok a, u)
    → (o ≡ some a) × (w ≡ u)
or_not_found-ok {A} none a w u h = absurd (not_ok (ap (λ (x : Result ApiError A × World). x.0) h))
  where
    not_ok : ◌≡◌ {A = Result ApiError A} (err (http 404)) (ok a) → ⊥
    not_ok e = cc
or_not_found-ok {A} (some b) a w u h = (
  ap some (ok-injective (ap (λ (x : Result ApiError A × World). x.0) h)),
  ap (λ (x : Result ApiError A × World). x.1) h,
)

read_packet-ok :
    (env : Env) (message_id : Bytes) (w u : World) (packet : LogicalTelemetryPacket)
    → OthersRun env
    → read_packet env message_id w ≡ (ok packet, u)
    → get_packet message_id u.db ≡ some packet
unfolding read_packet
read_packet-ok env message_id w u packet others h =
    let (o, v, found, e) =
      and_then-ok (query env Call.reads_packet (get_packet message_id) w) or_not_found packet
        (ap (λ (x : Result ApiError LogicalTelemetryPacket × World). x.0) h) in
    let (there, same) = or_not_found-ok o packet v u (sym e ∙ h) in
    let (read, run) = query-ok env Call.reads_packet (get_packet message_id) w v o others found in
    subst (λ (z : World). get_packet message_id z.db ≡ some packet) same (read ∙ there)

read_raw-Evidence :
    (env : Env) (message_id : Bytes) (w : World) (response : Response)
    → OthersRun env
    → (read_raw env message_id w).0 ≡ ok response
    → ShowsEvidence message_id response (read_raw env message_id w).1
unfolding read_raw
read_raw-Evidence env message_id w response others h =
    let (packet, u, found, e) =
      and_then-ok (read_packet env message_id w) (with_packet env message_id) response h in
    subst (λ (x : Result ApiError Response × World). ShowsEvidence message_id response x.1) (sym e)
      (with_packet-Evidence env message_id packet u response others
        (read_packet-ok env message_id w u packet others found) (result_of_equal e h))

or_unavailable-Evidence :
    (message_id : Bytes) (r : Result ApiError Response × World) (response : Response)
    → (r.0 ≡ ok response → ShowsEvidence message_id response r.1)
    → (or_unavailable r).0 ≡ ok response
    → ShowsEvidence message_id response (or_unavailable r).1
or_unavailable-Evidence message_id (ok answer, w) response shows h = shows h
or_unavailable-Evidence message_id (err database_error, w) response shows h = absurd cc
or_unavailable-Evidence message_id (err _, w) response shows h = absurd cc

passed :
    (m : Result ApiError Identity) (formed : Bool) (w u : World)
    → and_then (m, w) (λ identity v. (raise_if (not formed) (http 404), v)) ≡ (ok tt, u)
    → (identity : Identity) × (m ≡ ok identity) × (formed ≡ true)
passed (ok identity) true w u h = (identity, refl, refl)
passed (ok identity) false w u h = absurd cc
passed (err e) formed w u h = absurd cc

check_message-ok :
    (authorization : Option Bytes) (settings : GroundSettings) (message_id : Bytes) (w u : World)
    → check_message authorization settings message_id w ≡ (ok tt, u)
    → (identity : Identity) × (bearer_identity authorization settings ≡ ok identity)
      × (full_match packet_pattern message_id ≡ true)
unfolding check_message
check_message-ok authorization settings message_id w u h =
    passed (bearer_identity authorization settings) (full_match packet_pattern message_id) w u h

-- An answer of the route that returns a raw frame is given only if the header is `Bearer ` and the
-- token of the operator or of the administrator, and only for a well-formed message identifier. It
-- has status 200 and shows, in hexadecimal, exactly the bytes of the receipt that the message's packet
-- came from, and that receipt's identifier, as the database holds packet and receipt when the route
-- answers, whatever calls fail and whatever transactions other services commit between the reads.
pub get_raw_payload-Evidence :
    (env : Env) (settings : GroundSettings) (message_id : Bytes) (authorization : Option Bytes)
    (w : World) (response : Response)
    → OthersRun env
    → (get_raw_payload env settings message_id authorization w).0 ≡ ok response
    → ((identity : Identity) × IsBearer authorization settings identity)
      × (full_match packet_pattern message_id ≡ true)
      × ShowsEvidence message_id response
          (get_raw_payload env settings message_id authorization w).1
unfolding get_raw_payload
get_raw_payload-Evidence env settings message_id authorization w response others h =
    let (done, u, checked, e) =
      and_then-ok (check_message authorization settings message_id w) _ response h in
    let (identity, known, formed) =
      check_message-ok authorization settings message_id w u checked in
    (
      (identity, bearer_identity-ok authorization settings identity known),
      formed,
      subst (λ (x : Result ApiError Response × World). ShowsEvidence message_id response x.1)
          (sym e)
          (or_unavailable-Evidence message_id (read_raw env message_id u) response
            (read_raw-Evidence env message_id u response others)
            (ap (λ (x : Result ApiError Response × World). x.0) (sym e) ∙ h)),
    )
