-- ===== src/Api/Client/Calls.antt =====
-- Any sequence of calls in one backend: the functions of src/api over the one client of src/ctx.rs.
use pgnats.Common.{ℕ, Option, List, [], ◌∷◌, Outcome, done, panic, ok}
use pgnats.Common.Int.{ℤ}
use pgnats.Text.{Text}
use pgnats.Utils.Bytes.{Payload, Kind}
use pgnats.NatsClient.{NatsClient, Step}
use pgnats.NatsClient.Interface.{Nats}
use pgnats.Api.Rows.{ServerRow, ObjectRow}
use pgnats.Api.Client.{
  mapped, nats_publish, nats_publish_stream, nats_request, nats_put, nats_get, nats_delete_value,
  nats_get_server_info, nats_get_file, nats_put_file, nats_delete_file, nats_get_file_info,
  nats_get_file_list, pgnats_reload_conf, pgnats_reload_conf_force,
}

module _ (N : Nats) where
  open N use {World, Value}

  pub data Call : Type 0 where
    publish : (subject : Text) → Payload N → (reply : Option Text) → (headers : Option Value) → Call
    publish_stream : (subject : Text) → Payload N → (headers : Option Value) → Call
    request : (subject : Text) → Payload N → (timeout : Option ℤ) → Call
    put : (bucket key : Text) → Payload N → Call
    get : Kind N → (bucket key : Text) → Call
    delete_value : (bucket key : Text) → Call
    get_server_info : Call
    get_file : (store name : Text) → Call
    put_file : (store name : Text) → (content : List ℕ) → Call
    delete_file : (store name : Text) → Call
    get_file_info : (store name : Text) → Call
    get_file_list : (store : Text) → Call
    reload_conf : Call
    reload_conf_force : Call

  pub data Answer : Type 0 where
    nothing : Answer
    bytes : List ℕ → Answer
    revision : ℤ → Answer
    value : Option (Payload N) → Answer
    server_rows : List (ServerRow N) → Answer
    object_rows : List (ObjectRow N) → Answer

  abbrev nothing_of : Unit {0} → Answer
  nothing_of u = nothing

  abbrev returned : NatsClient N × World → Step N Answer
  returned (c, w) = done (ok nothing, c, w)

  unfoldable pub call : Call → NatsClient N → World → Step N Answer
  unfolding nats_publish nats_publish_stream nats_request nats_put nats_get nats_delete_value
      nats_get_server_info nats_get_file nats_put_file nats_delete_file nats_get_file_info
      nats_get_file_list pgnats_reload_conf pgnats_reload_conf_force
  call (publish subject payload reply headers) c w =
      mapped N nothing_of (nats_publish N c w subject payload reply headers)
  call (publish_stream subject payload headers) c w =
      mapped N nothing_of (nats_publish_stream N c w subject payload headers)
  call (request subject payload timeout) c w =
      mapped N bytes (nats_request N c w subject payload timeout)
  call (put bucket key payload) c w = mapped N revision (nats_put N c w bucket key payload)
  call (get kind bucket key) c w = mapped N value (nats_get N kind c w bucket key)
  call (delete_value bucket key) c w = mapped N nothing_of (nats_delete_value N c w bucket key)
  call get_server_info c w = mapped N server_rows (nats_get_server_info N c w)
  call (get_file store name) c w = mapped N bytes (nats_get_file N c w store name)
  call (put_file store name content) c w =
      mapped N nothing_of (nats_put_file N c w store name content)
  call (delete_file store name) c w = mapped N nothing_of (nats_delete_file N c w store name)
  call (get_file_info store name) c w = mapped N object_rows (nats_get_file_info N c w store name)
  call (get_file_list store) c w = mapped N object_rows (nats_get_file_list N c w store)
  call reload_conf c w = returned (pgnats_reload_conf N c w)
  call reload_conf_force c w = returned (pgnats_reload_conf_force N c w)

  -- A backend makes one call after the other. An error ends its statement, and the client stays.
  unfoldable pub session : List Call → NatsClient N → World → Outcome (NatsClient N × World)
  unfolding call
  session [] c w = done (c, w)
  session (next ∷ calls) c w = elim (call next c w) [
    | panic ↦ panic
    | done (r, c', w') ↦ session calls c' w'
  ]
