-- ===== src/Api/Tests.antt =====
-- The theorems on the SQL functions at small inputs.
use pgnats.Api.Uncallable.{uncallable_is_kept}
use pgnats.Subscriber.Nats.{other, run_callbacks}
use pgnats.Subscriber.Relation.{subscribed}
use pgnats.Subscriber.PgApi.{finished, call_function, is_callback_name}
use pgnats.Subscriber.Small.{tasks, orders}
use pgnats.Common.{err}
use pgnats.Common.{
  ℕ, ◌≡◌, refl, Bool, true, false, ◌&&◌, Option, none, some, List, [], ◌∷◌, ◌++◌, done, ok, ◌==◌,
  ==_iff, map, if◌then◌else◌, arith,
}
use pgnats.Common.Eq.{nat_eq, list_eq, list_beq}
use pgnats.Text.{Text, text}
use pgnats.Config.{Config, parse_config, text_eq}
use pgnats.Config.Options.{to_options, parse_config-InRange}
use pgnats.Messages.{LauncherMessage}
use pgnats.RingQueue.{RingQueue, new, try_send}
use pgnats.RingQueue.Invariant.{Sized, Holds, new-Holds}
use pgnats.Launcher.Context.{empty}
use pgnats.Launcher.Bus.{handle_message, send_message_to_launcher_with_retry, retry}
use pgnats.Launcher.Drain.{handle_all}
use pgnats.Launcher.Small.{small, entry_point}
use pgnats.Api.Functions.{FunctionInfo, resolve_bytea_name}
use pgnats.Api.Accepted.{TakesBytea}
use pgnats.Api.Validator.{fdw_validator, fdw_validator-spell, spell}
use pgnats.Api.Subscribe.{nats_subscribe}
use pgnats.Api.Delivery.{nats_subscribe_reaches}

-- A coder that knows one message only.
abbrev is_known : LauncherMessage → Bool
is_known (LauncherMessage.subscribe db subject f) =
    db == 5 && text_eq.beq subject (text "a") && text_eq.beq f (text "s.f")
is_known _ = false

abbrev encode_one : LauncherMessage → Option (List ℕ)
encode_one m = if is_known m then some (7 ∷ []) else none

abbrev decode_one : List ℕ → Option LauncherMessage
decode_one bytes = some (LauncherMessage.subscribe 5 (text "a") (text "s.f"))

decode_one-encode_one :
    (m : LauncherMessage) (bytes : List ℕ) → encode_one m ≡ some bytes → decode_one bytes ≡ some m
decode_one-encode_one (LauncherMessage.subscribe db subject f) bytes e =
    ground (arith, ==_iff db 5, text_eq.beq_iff subject (text "a"), text_eq.beq_iff f (text "s.f"))
decode_one-encode_one (LauncherMessage.unsubscribe db subject f) bytes e = absurd cc
decode_one-encode_one (LauncherMessage.db_extension_status db st) bytes e = absurd cc
decode_one-encode_one (LauncherMessage.new_config db c) bytes e = absurd cc
decode_one-encode_one (LauncherMessage.subscriber_exit db r) bytes e = absurd cc
decode_one-encode_one (LauncherMessage.foreign_server_dropped db) bytes e = absurd cc

abbrev on_message : FunctionInfo
on_message = record {
  schema_name = some (text "s");
  fn_name = some (text "f");
  arguments = some (1, some 17);
}

Sized-16 : Sized 16
Sized-16 = record { header_fits = omega arith; small = omega arith }

abbrev sent_queue : RingQueue
sent_queue = record {
  read = 0;
  write = 9;
  is_full = false;
  buffer = 1 ∷ 0 ∷ 0 ∷ 0 ∷ 0 ∷ 0 ∷ 0 ∷ 0 ∷ 7 ∷ 0 ∷ 0 ∷ 0 ∷ 0 ∷ 0 ∷ 0 ∷ 0 ∷ [];
}

nats_subscribe_run :
    nats_subscribe encode_one 16 (λ n q. q) 5 false (text "a") on_message (new 16)
    ≡ done (ok tt, sent_queue)
unfolding nats_subscribe list_beq resolve_bytea_name send_message_to_launcher_with_retry retry
    try_send new pgnats.RingQueue.usize_sub pgnats.RingQueue.send_behind pgnats.RingQueue.usize_add
    pgnats.RingQueue.copy_wrapped pgnats.RingQueue.Header.to_le_bytes
    pgnats.RingQueue.Slices.copy_into pgnats.RingQueue.Slices.write_at
    pgnats.RingQueue.advance_write
nats_subscribe_run = refl

nats_subscribe_reaches_example :
    (false ≡ false)
    × (fn_name : Text) × TakesBytea on_message fn_name
    × (msgs : List (List ℕ)) × (bytes : List ℕ) × Holds 16 sent_queue (msgs ++ bytes ∷ [])
    × (handle_all small entry_point decode_one (msgs ++ bytes ∷ []) (empty small, 0)
        ≡ handle_message small entry_point
            (LauncherMessage.subscribe 5 (text "a") fn_name)
            (handle_all small entry_point decode_one msgs (empty small, 0)))
nats_subscribe_reaches_example =
    nats_subscribe_reaches encode_one decode_one decode_one-encode_one Sized-16 (λ n q. q)
      (λ n q i. i) 5 small entry_point (empty small, 0) false (text "a") on_message (new 16)
      sent_queue ([], new-Holds Sized-16) nats_subscribe_run

abbrev settings : Config
settings = parse_config ((text "host", text "a=b") ∷ (text "tls_ca_path", text "ca") ∷ [])

fdw_validator-spell_example :
    fdw_validator encode_one 16 (λ n q. q) 5 (map spell (to_options settings)) true (new 16)
    ≡ send_message_to_launcher_with_retry 16
        (λ n q. q)
        5
        (new 16)
        (encode_one (LauncherMessage.new_config 5 settings))
fdw_validator-spell_example =
    fdw_validator-spell encode_one 16 (λ n q. q) 5 settings (new 16)
      (parse_config-InRange ((text "host", text "a=b") ∷ (text "tls_ca_path", text "ca") ∷ []))

-- A dollar sign may stand in the name of a function.
abbrev dollar : FunctionInfo
dollar = record {
  schema_name = some (text "s");
  fn_name = some (text "f$");
  arguments = some (1, some 17);
}

uncallable_is_kept_example :
    (resolve_bytea_name dollar ≡ ok (some (text "s.f$")))
    × (call_function (λ f payload. finished) (text "s.f$") (1 ∷ []) ≡ err other)
    × (subscribed tasks
          (run_callbacks tasks orders
            (text "orders")
            (1 ∷ [])
            (call_function (λ f payload. finished)))
          (text "orders")
          (text "s.f$")
        ≡ subscribed tasks orders (text "orders") (text "s.f$"))
unfolding is_callback_name
uncallable_is_kept_example =
    uncallable_is_kept tasks dollar (text "f$") (λ f payload. finished) orders (text "orders")
      (text "orders") (1 ∷ []) refl refl refl
