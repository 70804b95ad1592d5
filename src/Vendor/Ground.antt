-- ===== src/Vendor/Ground.antt =====
-- services/vendor_simulator.py and services/ground_api.py: the posts of `VendorForwarder` as they
-- reach the ground's route.
use cislunar_ground_platform.Std.Text.{codes}
use cislunar_ground_platform.Base.{
  none, Bool, true, false, some, List, [], ◌∷◌, Bytes, if◌then◌else◌, Result, ok, err,
}
use cislunar_ground_platform.Telemetry.Settings.{GroundSettings}
use cislunar_ground_platform.Telemetry.Storage.Records.{Json}
use cislunar_ground_platform.Telemetry.World.{World}
use cislunar_ground_platform.GroundApi.Requests.{ApiError, Request}
use cislunar_ground_platform.GroundApi.Responses.{Response}
use cislunar_ground_platform.GroundApi.Calls.{Env}
use cislunar_ground_platform.GroundApi.Delivery.{receive_payload_data}
use cislunar_ground_platform.Vendor.Forwarding.{
  Post, HttpResponse, ForwardError, http_error, Client,
}

-- One attempt: whether the post arrives, what surrounds it at the ground, and whether the response
-- comes back.
pub record Trip : Type 0 where
  pub arrives : Bool
  pub env : Env
  pub returns : Bool

-- The trips to come, and the ground's stores.
abbrev pub Link : Type 0
Link = List Trip × World

-- HTTP is an argument: the request that the ground reads from a post, and the text of a response.
module _ (read_post : Post → Request) (text_of : Json → Bytes) where
  -- An exception that leaves the route is answered with 500.
  abbrev pub http_response : Result ApiError Response → HttpResponse
  http_response (ok response) = record {
    status_code = response.status_code;
    json = some response.content;
    text = text_of response.content;
  }
  http_response (err e) = record {
    status_code = 500;
    json = none;
    text = codes "Internal Server Error";
  }

  abbrev pub came_back :
      Bool → List Trip → Result ApiError Response × World → Result ForwardError HttpResponse × Link
  came_back true trips (r, w) = (ok (http_response r), (trips, w))
  came_back false trips (r, w) = (err http_error, (trips, w))

  -- The client, whose trips may lose the post or the response.
  unfoldable pub ground_client : GroundSettings → Client Link
  unfolding receive_payload_data
  ground_client settings post ([], w) = (err http_error, ([], w))
  ground_client settings post (trip ∷ trips, w) =
      if trip.arrives
      then came_back trip.returns trips (receive_payload_data trip.env settings (read_post post) w)
      else (err http_error, (trips, w))
