-- ===== src/Vendor/Handoff.antt =====
-- services/vendor_simulator.py and services/ground_api.py: what `forward` leaves at the ground.
use cislunar_ground_platform.Base.{
  arith, ◌≢◌, if_elim, ℕ, zero, suc, ◌+◌, ◌≤◌, ◌≡◌, refl, ap, ◌∙◌, ◌||◌, Bool, true, false, some,
  List, [], ◌∷◌, Bytes, All, Result, ok, err, ltb, ◌==◌, Bool-cases, inl, inr, subst,
}
use cislunar_ground_platform.Base.Int.{pos}
use cislunar_ground_platform.Telemetry.Settings.{GroundSettings, VendorSettings}
use cislunar_ground_platform.Telemetry.Storage.Records.{Uuid, Json, TelemetryDeliveryReceipt}
use cislunar_ground_platform.Telemetry.Storage.Tables.{get_receipt}
use cislunar_ground_platform.Telemetry.Storage.History.{Run, here}
use cislunar_ground_platform.Telemetry.World.{World}
use cislunar_ground_platform.GroundApi.Requests.{ApiError, Request}
use cislunar_ground_platform.GroundApi.Responses.{Response}
use cislunar_ground_platform.GroundApi.Bodies.{sent}
use cislunar_ground_platform.GroundApi.Delivery.{receive_payload_data}
use cislunar_ground_platform.GroundApi.Refines.{OthersRun, Run-trans}
use cislunar_ground_platform.GroundApi.Refines.Handlers.{receive_payload_data-Run}
use cislunar_ground_platform.GroundApi.Naming.{named_receipt}
use cislunar_ground_platform.GroundApi.Evidence.{receive_payload_data-Backed}
use cislunar_ground_platform.Vendor.Forwarding.{
  Client, Post, HttpResponse, ForwardError, http_error, unreachable, post_of, after_attempt,
  attempts, forward,
}
use cislunar_ground_platform.Vendor.Ground.{Trip, Link, ground_client, came_back}

-- What is known of an attempt's outcome: the ground's database has gone through transactions of the
-- repository, and a response that names a receipt is backed by one with these bytes.
IsHandedOver : Bytes → World → Result ForwardError HttpResponse × Link → Type 0
IsHandedOver raw w (r, (trips, v)) =
    Run w.db v.db
    × ((response : HttpResponse) (content : Json) (i : Uuid)
        → r ≡ ok response
        → response.json ≡ some content
        → named_receipt content ≡ some i
        → (receipt : TelemetryDeliveryReceipt) × (get_receipt i v.db ≡ some receipt)
          × (receipt.raw_body ≡ raw))

IsOpen : List Trip → Type 0
IsOpen trips = All (λ trip. OthersRun trip.env) trips

later-IsHandedOver :
    (raw : Bytes) (w v : World) (x : Result ForwardError HttpResponse × Link)
    → Run w.db v.db
    → IsHandedOver raw v x
    → IsHandedOver raw w x
unfolding IsHandedOver
later-IsHandedOver raw w v (r, link) run (further, backed) = (Run-trans run further, backed)

parts :
    (raw : Bytes) (w : World) (r : Result ForwardError HttpResponse) (trips : List Trip) (v : World)
    → IsHandedOver raw w (r, (trips, v))
    → Run w.db v.db
      × ((response : HttpResponse) (content : Json) (i : Uuid)
          → r ≡ ok response
          → response.json ≡ some content
          → named_receipt content ≡ some i
          → (receipt : TelemetryDeliveryReceipt) × (get_receipt i v.db ≡ some receipt)
            × (receipt.raw_body ≡ raw))
unfolding IsHandedOver
parts raw w r trips v handed = handed

lost-IsHandedOver :
    (raw : Bytes) (w v : World) (trips : List Trip) (e : ForwardError)
    → Run w.db v.db
    → IsHandedOver raw w (err e, (trips, v))
unfolding IsHandedOver
lost-IsHandedOver raw w v trips e run = (run, λ response content i h. cc)

-- An attempt ends the loop or leads to the next one.
after_attempt-IsHandedOver :
    (raw : Bytes) (attempt : ℕ) (w : World) (x : Result ForwardError HttpResponse × Link)
    (retry : Link → Result ForwardError HttpResponse × Link)
    → IsHandedOver raw w x
    → IsHandedOver raw w (retry x.1)
    → IsHandedOver raw w (after_attempt attempt x retry)
unfolding after_attempt
after_attempt-IsHandedOver raw attempt w (ok response, link) retry now next =
    if_elim (IsHandedOver raw w) (ltb response.status_code 500 || attempt == 3) _ _ now next
after_attempt-IsHandedOver raw attempt w (err e, link) retry now next =
    if_elim (IsHandedOver raw w) (attempt == 3) _ _ now next

more-left : (left attempt : ℕ) → (attempt == 3) ≡ false → attempt + suc left ≡ 4 → 1 ≤ left
more-left left attempt h e = ground arith

after_attempt-Reached :
    {S : Type 0} (attempt : ℕ) (x : Result ForwardError HttpResponse × S)
    (retry : S → Result ForwardError HttpResponse × S)
    → x.0 ≢ err unreachable
    → ((u : S) → (attempt == 3) ≡ false → (retry u).0 ≢ err unreachable)
    → (after_attempt attempt x retry).0 ≢ err unreachable
unfolding after_attempt
after_attempt-Reached attempt (ok response, u) retry now next =
    elim (Bool-cases (ltb response.status_code 500 || attempt == 3)) [
      | inl e ↦ rw e now
      | inr e ↦ let more : (attempt == 3) ≡ false = ground arith in rw e (next u more)
    ]
after_attempt-Reached attempt (err f, u) retry now next = elim (Bool-cases (attempt == 3)) [
  | inl e ↦ rw e now
  | inr e ↦ rw e (next u e)
]

-- A loop that begins with the first of three attempts ends with one of them.
-- A loop that begins with the first of three attempts ends with one of them.
attempts-Reached :
    {S : Type 0} (client : Client S) (post : Post)
    → ((s : S) → (client post s).0 ≢ err unreachable)
    → (left attempt : ℕ) (s : S) → 1 ≤ left
    → attempt + left ≡ 4
    → (attempts client post left attempt s).0 ≢ err unreachable
unfolding attempts
attempts-Reached client post fine zero attempt s some_left total = absurd (omega arith)
attempts-Reached client post fine (suc left) attempt s some_left total =
    after_attempt-Reached attempt (client post s) (attempts client post left (attempt + 1)) (fine s)
      λ u again.
        attempts-Reached client post fine left (attempt + 1) u (more-left left attempt again total)
          (omega arith)

module _ (read_post : Post → Request) (text_of : Json → Bytes) where
  came_back-IsHandedOver :
      (returns : Bool) (trips : List Trip) (raw : Bytes) (w : World)
      (r : Result ApiError Response × World)
      → Run w.db r.1.db
      → ((response : Response) (i : Uuid)
          → r.0 ≡ ok response
          → named_receipt response.content ≡ some i
          → (receipt : TelemetryDeliveryReceipt) × (get_receipt i r.1.db ≡ some receipt)
            × (receipt.raw_body ≡ raw))
      → IsHandedOver raw w (came_back read_post text_of returns trips r)
  unfolding IsHandedOver
  came_back-IsHandedOver true trips raw w (ok response, v) run backed = (
    run,
    λ answer content i e j named.
        let same : response.content ≡ content = cc in
        backed response i refl (ap named_receipt same ∙ named),
  )
  came_back-IsHandedOver true trips raw w (err e, v) run backed =
      (run, λ answer content i e j named. absurd cc)
  came_back-IsHandedOver false trips raw w (r, v) run backed =
      (run, λ answer content i e j named. absurd cc)

  module _ (settings : GroundSettings) (most : ℕ)
      (limit : settings.max_telemetry_body_bytes ≡ pos most)
      (bodies : (post : Post) → sent (read_post post).chunks ≡ post.content) where
    ground-IsHandedOver :
        (post : Post) (trips : List Trip) (w : World)
        → IsOpen trips
        → IsHandedOver post.content w (ground_client read_post text_of settings post (trips, w))
    unfolding ground_client IsOpen
    ground-IsHandedOver post [] w ready = lost-IsHandedOver post.content w w [] http_error here
    ground-IsHandedOver post (trip ∷ trips) w ready =
        if_elim (IsHandedOver post.content w) trip.arrives _ _
          (came_back-IsHandedOver trip.returns trips post.content w
            (receive_payload_data trip.env settings (read_post post) w)
            (receive_payload_data-Run trip.env settings (read_post post) w ready.0)
            λ response i e named.
              let (receipt, found, same) =
                receive_payload_data-Backed trip.env settings (read_post post) most w response i
                  ready.0 limit e named in
              (receipt, found, same ∙ bodies post))
          (lost-IsHandedOver post.content w w trips http_error here)

    ground-IsOpen :
        (post : Post) (trips : List Trip) (w : World)
        → IsOpen trips
        → IsOpen (ground_client read_post text_of settings post (trips, w)).1.0
    unfolding ground_client IsOpen
    ground-IsOpen post [] w ready = tt
    ground-IsOpen post (trip ∷ trips) w ready =
        if_elim (λ (x : Result ForwardError HttpResponse × Link). IsOpen x.1.0) trip.arrives _ _
          (came_back-IsOpen trip.returns trips
            (receive_payload_data trip.env settings (read_post post) w) ready.1)
          ready.1
      where
        came_back-IsOpen :
            (returns : Bool) (trips : List Trip) (r : Result ApiError Response × World)
            → IsOpen trips
            → IsOpen (came_back read_post text_of returns trips r).1.0
        came_back-IsOpen true trips (r, v) ready = ready
        came_back-IsOpen false trips (r, v) ready = ready

    attempts-IsHandedOver :
        (post : Post) (left attempt : ℕ) (trips : List Trip) (w : World)
        → IsOpen trips
        → IsHandedOver post.content w
            (attempts (ground_client read_post text_of settings) post left attempt (trips, w))
    unfolding attempts
    attempts-IsHandedOver post zero attempt trips w ready =
        lost-IsHandedOver post.content w w trips unreachable here
    attempts-IsHandedOver post (suc left) attempt trips w ready =
        let x = ground_client read_post text_of settings post (trips, w) in
        let now = ground-IsHandedOver post trips w ready in
        after_attempt-IsHandedOver post.content attempt w x
          (attempts (ground_client read_post text_of settings) post left (attempt + 1)) now
          (later-IsHandedOver post.content w x.1.1 _ (unfold IsHandedOver in now.0) (
            attempts-IsHandedOver post left (attempt + 1) x.1.0 x.1.1
              (ground-IsOpen post trips w ready)))

    ground-Reached :
        (post : Post) (s : Link)
        → (ground_client read_post text_of settings post s).0 ≢ err unreachable
    unfolding ground_client
    ground-Reached post ([], w) = λ h. cc
    ground-Reached post (trip ∷ trips, w) =
        if_elim (λ (x : Result ForwardError HttpResponse × Link). x.0 ≢ err unreachable)
          trip.arrives _ _
          (came_back-Reached trip.returns
            (receive_payload_data trip.env settings (read_post post) w))
          (λ h. cc)
      where
        came_back-Reached :
            (returns : Bool) (r : Result ApiError Response × World)
            → (came_back read_post text_of returns trips r).0 ≢ err unreachable
        came_back-Reached true (r, v) = λ h. cc
        came_back-Reached false (r, v) = λ h. cc

    -- A frame is forwarded in up to three attempts, each of which may lose the post or the response
    -- on the way and meet any failure at the ground. HTTP is assumed to deliver the bytes of a post
    -- as its chunks, and other services to commit transactions of the repository only. Then all
    -- attempts together take the ground's database through a run of the repository's transactions,
    -- the loop's last statement is not reached, and a response that names a receipt is backed by a
    -- stored receipt with exactly the bytes that the vendor was given.
    pub forward-IsBacked :
        (vendor : VendorSettings) (raw : Bytes) (request_id : Uuid) (trips : List Trip)
        (w v : World) (r : Result ForwardError HttpResponse) (rest : List Trip)
        → All (λ trip. OthersRun trip.env) trips
        → forward (ground_client read_post text_of settings) vendor raw request_id (trips, w)
          ≡ (r, (rest, v))
        → Run w.db v.db
          × (r ≢ err unreachable)
          × ((response : HttpResponse) (content : Json) (i : Uuid)
              → r ≡ ok response
              → response.json ≡ some content
              → named_receipt content ≡ some i
              → (receipt : TelemetryDeliveryReceipt) × (get_receipt i v.db ≡ some receipt)
                × (receipt.raw_body ≡ raw))
    unfolding forward
    forward-IsBacked vendor raw request_id trips w v r rest ready e =
        let handed = subst (IsHandedOver raw w) e (
          attempts-IsHandedOver (post_of vendor raw request_id) 3 1 trips w
            (unfold IsOpen in ready)) in
        let reached =
          attempts-Reached (ground_client read_post text_of settings)
            (post_of vendor raw request_id) (ground-Reached (post_of vendor raw request_id)) 3 1
            (trips, w) (omega arith) refl in
        let (run, backed) = parts raw w r rest v handed in
        (
          run,
          subst (λ (x : Result ForwardError HttpResponse × Link). x.0 ≢ err unreachable) e reached,
          backed,
        )
