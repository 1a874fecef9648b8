-- ===== src/Api/Client.antt =====
-- The SQL functions over the client of a backend: src/api/nats.rs with src/api/macros.rs, the reloads
-- of src/api/mod.rs, and the state of src/ctx.rs that they share. The functions that a macro makes for
-- several types are one definition over the payloads.
pub mod Calls
pub mod Buckets
pub mod Sessions
mod Tests
use pgnats.Common.{
  ℕ, ◌-◌, ◌^◌, Option, none, some, List, [], ◌∷◌, Outcome, done, panic, Result, ok, err, ltb,
  if◌then◌else◌,
}
use pgnats.Common.Int.{ℤ, pos, negsuc}
use pgnats.Text.{Text}
use pgnats.Utils.Bytes.{Payload, Kind, to_bytes, from_bytes}
use pgnats.NatsClient.{
  NatsClient, Step, new, check_and_invalidate_connection, invalidate_connection,
}
use pgnats.NatsClient.Interface.{Nats}
use pgnats.NatsClient.Operations.{
  publish, publish_stream, request, put_value, get_value, delete_value, get_server_info, get_file,
  put_file, delete_file, get_file_info, get_file_list,
}
use pgnats.Api.Rows.{ServerRow, ObjectRow, map_server_info, map_object_info}

-- `v.try_into().unwrap_or(i64::MAX)` of a `u64`
unfoldable pub saturated : ℕ → ℤ
saturated v = if ltb v (2 ^ 63) then pos v else pos (2 ^ 63 - 1)

-- `timeout.and_then(|x| x.try_into().ok())` of an `i32`
unfoldable pub timeout_of : Option ℤ → Option ℕ
timeout_of none = none
timeout_of (some (pos n)) = some n
timeout_of (some (negsuc n)) = none

module _ (N : Nats) where
  open N use {World, Value}

  -- `Result::map`
  abbrev pub mapped : {A B : Type 0} → (A → B) → Step N A → Step N B
  mapped f panic = panic
  mapped f (done (ok a, c, w)) = done (ok (f a), c, w)
  mapped f (done (err e, c, w)) = done (err e, c, w)

  unfoldable pub create_context : NatsClient N
  unfolding new
  create_context = new N none

  unfoldable pub nats_publish :
      NatsClient N → World → Text → Payload N → Option Text → Option Value → Step N (Unit {0})
  unfolding publish to_bytes
  nats_publish c w subject payload reply headers =
      publish N c w subject (to_bytes N payload) reply headers

  unfoldable pub nats_publish_stream :
      NatsClient N → World → Text → Payload N → Option Value → Step N (Unit {0})
  unfolding publish_stream to_bytes
  nats_publish_stream c w subject payload headers =
      publish_stream N c w subject (to_bytes N payload) headers

  unfoldable pub nats_request : NatsClient N → World → Text → Payload N → Option ℤ → Step N (List ℕ)
  unfolding request to_bytes timeout_of
  nats_request c w subject payload timeout =
      request N c w subject (to_bytes N payload) (timeout_of timeout)

  unfoldable pub nats_put : NatsClient N → World → Text → Text → Payload N → Step N ℤ
  unfolding put_value to_bytes saturated
  nats_put c w bucket key value = mapped saturated (put_value N c w bucket key (to_bytes N value))

  unfoldable pub nats_get :
      Kind N → NatsClient N → World → Text → Text → Step N (Option (Payload N))
  unfolding get_value from_bytes
  nats_get kind c w bucket key = get_value N (from_bytes N kind) c w bucket key

  unfoldable pub nats_delete_value : NatsClient N → World → Text → Text → Step N (Unit {0})
  unfolding delete_value
  nats_delete_value c w bucket key = delete_value N c w bucket key

  unfoldable pub nats_get_server_info : NatsClient N → World → Step N (List (ServerRow N))
  unfolding get_server_info map_server_info
  nats_get_server_info c w = mapped (λ v. map_server_info N (v ∷ [])) (get_server_info N c w)

  unfoldable pub nats_get_file : NatsClient N → World → Text → Text → Step N (List ℕ)
  unfolding get_file
  nats_get_file c w store name = get_file N c w store name

  unfoldable pub nats_put_file : NatsClient N → World → Text → Text → List ℕ → Step N (Unit {0})
  unfolding put_file
  nats_put_file c w store name content = put_file N c w store name content

  unfoldable pub nats_delete_file : NatsClient N → World → Text → Text → Step N (Unit {0})
  unfolding delete_file
  nats_delete_file c w store name = delete_file N c w store name

  unfoldable pub nats_get_file_info :
      NatsClient N → World → Text → Text → Step N (List (ObjectRow N))
  unfolding get_file_info map_object_info
  nats_get_file_info c w store name =
      mapped (λ v. map_object_info N (v ∷ [])) (get_file_info N c w store name)

  unfoldable pub nats_get_file_list : NatsClient N → World → Text → Step N (List (ObjectRow N))
  unfolding get_file_list map_object_info
  nats_get_file_list c w store = mapped (map_object_info N) (get_file_list N c w store)

  unfoldable pub pgnats_reload_conf : NatsClient N → World → NatsClient N × World
  unfolding check_and_invalidate_connection
  pgnats_reload_conf c w =
      let (config, w') = N.config_fetcher w in check_and_invalidate_connection N c w' config

  unfoldable pub pgnats_reload_conf_force : NatsClient N → World → NatsClient N × World
  unfolding invalidate_connection
  pgnats_reload_conf_force c w = invalidate_connection N c w

  -- `_PG_fini` and `extension_exit_callback` of src/init.rs
  unfoldable pub extension_exit_callback : NatsClient N → World → NatsClient N × World
  unfolding invalidate_connection
  extension_exit_callback c w = invalidate_connection N c w
