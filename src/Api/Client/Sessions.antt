-- ===== src/Api/Client/Sessions.antt =====
-- The panics of a sequence of calls of the SQL functions of src/api.
use pgnats.Common.{◌≡◌, true, false, none, List, [], ◌∷◌, Outcome, done, panic, ok, err}
use pgnats.Utils.Bytes.{to_bytes, from_bytes}
use pgnats.NatsClient.{NatsClient, Step, new}
use pgnats.NatsClient.Interface.{Nats}
use pgnats.NatsClient.Invariant.{Sound, new-Sound}
use pgnats.NatsClient.Reload.{invalidated-Sound, check_and_invalidate_connection-UpToDate}
use pgnats.NatsClient.Safety.{
  Safe, Allocatable, publish-Safe, publish_stream-Safe, request-Safe, put_value-Safe,
  get_value-Safe, delete_value-Safe, get_server_info-Safe, get_file-Safe, put_file-Safe,
  delete_file-Safe, get_file_info-Safe, get_file_list-Safe,
}
use pgnats.Api.Client.{
  mapped, create_context, nats_publish, nats_publish_stream, nats_request, nats_put, nats_get,
  nats_delete_value, nats_get_server_info, nats_get_file, nats_put_file, nats_delete_file,
  nats_get_file_info, nats_get_file_list, pgnats_reload_conf, pgnats_reload_conf_force, timeout_of,
}
use pgnats.Api.Client.Calls.{
  Call, publish, publish_stream, request, put, get, delete_value, get_server_info, get_file,
  put_file, delete_file, get_file_info, get_file_list, reload_conf, reload_conf_force, Answer, call,
  session,
}

module _ (N : Nats) where
  open N use {World}

  mapped-Safe : {A B : Type 0} (f : A → B) (r : Step N A) → Safe N r → Safe N (mapped N f r)
  mapped-Safe f panic h = cc
  mapped-Safe f (done (ok a, c, w)) h = h
  mapped-Safe f (done (err e, c, w)) h = h

  -- The calls end without a panic, with a client that fits together.
  abbrev pub EndsSound : Outcome (NatsClient N × World) → Type 0
  EndsSound panic = true ≡ false
  EndsSound (done (c, w)) = Sound N c

  module _ (allocatable : Allocatable N) where
    call-Safe : (x : Call N) (c : NatsClient N) (w : World) → Sound N c → Safe N (call N x c w)
    unfolding call nats_publish nats_publish_stream nats_request nats_put nats_get nats_delete_value
        nats_get_server_info nats_get_file nats_put_file nats_delete_file nats_get_file_info
        nats_get_file_list pgnats_reload_conf pgnats_reload_conf_force
    call-Safe (publish subject payload reply headers) c w s =
        mapped-Safe _ _ (publish-Safe N c w s subject (to_bytes N payload) reply headers)
    call-Safe (publish_stream subject payload headers) c w s =
        mapped-Safe _ _ (publish_stream-Safe N c w s subject (to_bytes N payload) headers)
    call-Safe (request subject payload timeout) c w s =
        mapped-Safe _ _ (request-Safe N c w s subject (to_bytes N payload) (timeout_of timeout))
    call-Safe (put bucket key payload) c w s =
        mapped-Safe _ _ (mapped-Safe _ _ (put_value-Safe N c w s bucket key (to_bytes N payload)))
    call-Safe (get kind bucket key) c w s =
        mapped-Safe _ _ (get_value-Safe N c w s (from_bytes N kind) bucket key)
    call-Safe (delete_value bucket key) c w s =
        mapped-Safe _ _ (delete_value-Safe N c w s bucket key)
    call-Safe get_server_info c w s =
        mapped-Safe _ _ (mapped-Safe _ _ (get_server_info-Safe N c w s))
    call-Safe (get_file store name) c w s =
        mapped-Safe _ _ (get_file-Safe N c w s store name allocatable)
    call-Safe (put_file store name content) c w s =
        mapped-Safe _ _ (put_file-Safe N c w s store name content)
    call-Safe (delete_file store name) c w s = mapped-Safe _ _ (delete_file-Safe N c w s store name)
    call-Safe (get_file_info store name) c w s =
        mapped-Safe _ _ (mapped-Safe _ _ (get_file_info-Safe N c w s store name))
    call-Safe (get_file_list store) c w s =
        mapped-Safe _ _ (mapped-Safe _ _ (get_file_list-Safe N c w s store))
    call-Safe reload_conf c w s = (
      (check_and_invalidate_connection-UpToDate N c (N.config_fetcher w).1 (N.config_fetcher w).0
          s).0,
      tt,
    )
    call-Safe reload_conf_force c w s = (invalidated-Sound N c w none, tt)

    after_call :
        (calls : List (Call N)) (r : Step N (Answer N))
        → ((c : NatsClient N) (w : World) → Sound N c → EndsSound (session N calls c w))
        → Safe N r
        → EndsSound (elim r [ panic ↦ panic | done (r, c', w') ↦ session N calls c' w' ])
    after_call calls panic rest h = absurd cc
    after_call calls (done (ok a, c', w')) rest h = rest c' w' h.0
    after_call calls (done (err e, c', w')) rest h = rest c' w' h

    session-EndsSound :
        (calls : List (Call N)) (c : NatsClient N) (w : World)
        → Sound N c
        → EndsSound (session N calls c w)
    unfolding session
    session-EndsSound [] c w s = s
    session-EndsSound (x ∷ calls) c w s =
        after_call calls (call N x c w) (session-EndsSound calls) (call-Safe x c w s)

  -- Where the server gives no object a size above isize::MAX: whatever sequence of the SQL
  -- functions over the client is called in a backend that starts, and whatever else NATS answers,
  -- no call panics, and afterwards the connection, the JetStream context, the configuration and
  -- the buckets of the client fit together.
  pub session_never_panics :
      (calls : List (Call N)) (w : World)
      → Allocatable N
      → EndsSound (session N calls (create_context N) w)
  unfolding create_context
  session_never_panics calls w h = session-EndsSound h calls (new N none) w (new-Sound N none)
