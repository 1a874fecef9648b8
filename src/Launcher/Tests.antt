-- ===== src/Launcher/Tests.antt =====
-- The theorems on src/bgw/launcher with a small Postgres.
use pgnats.Launcher.Argument.{Handed, start-Handed}
use pgnats.Launcher.Databases.{
  FormPgDatabase, fetch_database_oids, Connectable, Starts, pending_after, databases-pending,
}
use pgnats.Launcher.Worker.{start, open_segment, open_queue, load}
use pgnats.Launcher.Postgres.{Postgres}
use pgnats.Common.{
  ◌↔◌, replicate, ok, ℕ, ◌+◌, ◌<◌, ◌^◌, true, ◌≡◌, refl, false, Option, none, some, List, [], ◌∷◌,
  done, ◌==◌, if◌then◌else◌, arith,
}
use pgnats.Common.Eq.{nat_eq}
use pgnats.Text.{Text, text}
use pgnats.Messages.{LauncherMessage, exist}
use pgnats.RingQueue.{RingQueue}
use pgnats.RingQueue.Header.{to_le_bytes}
use pgnats.RingQueue.Window.{ring_read}
use pgnats.RingQueue.Invariant.{Sized, Holds}
use pgnats.Launcher.Small.{small, entry_point}
use pgnats.Launcher.Worker.{WorkerEntry}
use pgnats.Launcher.Context.{LauncherContext}
use pgnats.Launcher.Shutdown.{Fair, NoWorker, background_worker_launcher_main_ends}
use pgnats.Launcher.Context.{empty}
use pgnats.Launcher.Unique.{main_loop-Disjoint}
use pgnats.Launcher.Bus.{
  main_loop, add_subscribe_workers, State, background_worker_launcher_main, handle_message,
  process_launcher_bus, send_message_to_launcher_with_retry,
}
use pgnats.Launcher.Retry.{
  Intact, Delivered, Last, send_message_to_launcher_with_retry-Delivered,
  send_message_to_launcher_with_retry_succeeds,
}
use pgnats.Launcher.Phases.{phase, transition, starts, db_of, Disjoint, handle_message-phase}
use pgnats.Launcher.Drain.{handle_all, process_launcher_bus_drains}

abbrev worker : WorkerEntry ℕ Text
worker = record { db_name = text "db"; sender = 3; oid = 7; state = text "w" }

-- The database 7 has a running worker, the database 9 a pending one.
abbrev two_workers : LauncherContext small
two_workers = record {
  pending_workers = (9, record worker { oid = 9 }) ∷ [];
  workers = (7, worker) ∷ [];
  terminated_workers = [];
  counter = 2;
}

two_workers-Disjoint : Disjoint small two_workers
two_workers-Disjoint db = ground arith

handle_message-phase_example :
    phase small
      (handle_message small entry_point
        (LauncherMessage.db_extension_status 9 exist)
        (two_workers, 5)).0
      9
    ≡ (if db_of (LauncherMessage.db_extension_status 9 exist) == 9
        then transition
            (LauncherMessage.db_extension_status 9 exist)
            (starts small entry_point two_workers
              (db_of (LauncherMessage.db_extension_status 9 exist))
              5)
            (phase small two_workers (db_of (LauncherMessage.db_extension_status 9 exist)))
        else phase small two_workers 9)
handle_message-phase_example =
    handle_message-phase small entry_point (LauncherMessage.db_extension_status 9 exist) two_workers
      5 9 two_workers-Disjoint

-- A decoder of one-byte messages: the dropping of the foreign server of a database.
abbrev decode_drop : List ℕ → Option LauncherMessage
decode_drop (db ∷ []) = some (LauncherMessage.foreign_server_dropped db)
decode_drop _ = none

abbrev bus : RingQueue
bus = record {
  read = 2;
  write = 20;
  is_full = false;
  buffer =
      0 ∷ 0 ∷ 1 ∷ 0 ∷ 0 ∷ 0 ∷ 0 ∷ 0 ∷ 0 ∷ 0 ∷ 7 ∷ 1 ∷ 0 ∷ 0 ∷ 0 ∷ 0 ∷ 0 ∷ 0 ∷ 0 ∷ 9 ∷ 0 ∷ 0 ∷ 0 ∷ 0
      ∷ [];
}

Sized-24 : Sized 24
Sized-24 = record { header_fits = omega arith; small = omega arith }

bus-Holds : Holds 24 bus ((7 ∷ []) ∷ (9 ∷ []) ∷ [])
unfolding ring_read to_le_bytes
bus-Holds = record {
  size = refl;
  read_in = omega arith;
  room = omega arith;
  write_at_end = refl;
  full_iff = refl;
  content = refl;
}

process_launcher_bus_drains_example :
    (q' : RingQueue) × (process_launcher_bus small entry_point decode_drop 24 3 bus (two_workers, 5)
      ≡ done (
          some (
            q',
            handle_all small entry_point decode_drop ((7 ∷ []) ∷ (9 ∷ []) ∷ []) (two_workers, 5),
          )))
    × Holds 24 q' []
process_launcher_bus_drains_example =
    process_launcher_bus_drains small entry_point decode_drop Sized-24 3 bus
      ((7 ∷ []) ∷ (9 ∷ []) ∷ []) (two_workers, 5) bus-Holds (omega arith) (omega arith)

-- The bus is too full for the message, until another process takes the messages off it.
abbrev freeing : ℕ → RingQueue → RingQueue
freeing n q = record { read = 0; write = 0; is_full = false; buffer = replicate 24 0 }

emptied : Holds 24 (freeing 0 bus) []
unfolding ring_read
emptied = record {
  size = refl;
  read_in = omega arith;
  room = omega arith;
  write_at_end = refl;
  full_iff = refl;
  content = refl;
}

freeing-Intact : (n : ℕ) (q : RingQueue) → Intact 24 q → Intact 24 (freeing n q)
freeing-Intact n q i = ([], emptied)

send_message_to_launcher_with_retry-Delivered_example :
    Delivered 24
      (1 ∷ 2 ∷ 3 ∷ [])
      (send_message_to_launcher_with_retry 24 freeing 5 bus (some (1 ∷ 2 ∷ 3 ∷ [])))
send_message_to_launcher_with_retry-Delivered_example =
    send_message_to_launcher_with_retry-Delivered Sized-24 freeing freeing-Intact 5 bus
      (1 ∷ 2 ∷ 3 ∷ []) ((7 ∷ []) ∷ (9 ∷ []) ∷ [], bus-Holds)

send_message_to_launcher_with_retry_succeeds_example :
    (q' : RingQueue) × (send_message_to_launcher_with_retry 24 freeing 5 bus (some (1 ∷ 2 ∷ 3 ∷ []))
      ≡ done (ok tt, q'))
    × Last 24 q' (1 ∷ 2 ∷ 3 ∷ [])
send_message_to_launcher_with_retry_succeeds_example =
    send_message_to_launcher_with_retry_succeeds Sized-24 freeing freeing-Intact 5 1 bus
      (1 ∷ 2 ∷ 3 ∷ []) [] ((7 ∷ []) ∷ (9 ∷ []) ∷ [], bus-Holds) (omega arith) emptied (omega arith)

-- Another process sends one message before the launcher wakes up.
abbrev send_seven : RingQueue → RingQueue
send_seven q = bus

send_seven-Fair : Fair 24 3 send_seven
send_seven-Fair q v = ((7 ∷ []) ∷ (9 ∷ []) ∷ [], bus-Holds, omega arith, omega arith)

background_worker_launcher_main_ends_example :
    (q' : RingQueue) × (s : State small entry_point) × (background_worker_launcher_main small
        entry_point decode_drop 24 3
        (7 ∷ 9 ∷ [])
        (send_seven ∷ send_seven ∷ [])
        (freeing 0 bus)
        0
      ≡ done (some (q', s)))
    × Holds 24 q' []
    × NoWorker small s.0
background_worker_launcher_main_ends_example =
    background_worker_launcher_main_ends small entry_point decode_drop Sized-24 3 (7 ∷ 9 ∷ [])
      (send_seven ∷ send_seven ∷ []) (freeing 0 bus) 0 emptied
      (send_seven-Fair, (send_seven-Fair, tt))

main_loop-Disjoint_example :
    (q' : RingQueue) × (s' : State small entry_point) × (main_loop small entry_point decode_drop 24
        3
        (send_seven ∷ send_seven ∷ [])
        (freeing 0 bus)
        (add_subscribe_workers small entry_point (7 ∷ 9 ∷ []) (empty small, 0))
      ≡ done (some (q', s')))
    × Disjoint small s'.0
main_loop-Disjoint_example =
    main_loop-Disjoint small entry_point decode_drop Sized-24 3 (7 ∷ 9 ∷ [])
      (send_seven ∷ send_seven ∷ []) (freeing 0 bus) 0 emptied
      (send_seven-Fair, (send_seven-Fair, tt))

-- Every database has a name.
abbrev named : Postgres
named = record small { get_database_name = λ w oid. (some (text "db"), w) }

named_starts : Starts named entry_point
unfolding start open_segment open_queue load
named_starts oid name ty w =
    (record { db_name = text "db"; sender = w; oid = oid; state = name }, w + 1, refl)

abbrev two_databases : List FormPgDatabase
two_databases =
    record { oid = 1; datallowconn = true; datistemplate = true }
    ∷ record { oid = 5; datallowconn = true; datistemplate = false }
    ∷ []

databases-pending_example :
    (pending_after named entry_point (fetch_database_oids two_databases) (empty named, 0) 5 ≡ true)
    ↔ Connectable two_databases 5
databases-pending_example = databases-pending named entry_point two_databases 0 5 named_starts

-- Every segment has the handle 3.
abbrev one_segment : Postgres
one_segment = record named { dsm_new = λ w size. (some 3, w) }

abbrev entry_of_five : WorkerEntry ℕ Text
entry_of_five = record { db_name = text "db"; sender = 3; oid = 5; state = text "w" }

start_five : start one_segment 5 (text "w") (text "t") entry_point 8192 0 ≡ (ok entry_of_five, 0)
unfolding start open_segment open_queue load
start_five = refl

start-Handed_example : Handed one_segment 5 entry_point 8192 entry_of_five
start-Handed_example =
    start-Handed one_segment 5 (text "w") (text "t") entry_point 8192 0 0 entry_of_five
      (omega arith) (λ v size handle e. below e) start_five
  where
    below : {handle : ℕ} → some 3 ≡ some handle → handle < 2 ^ 32
    below e = ground arith
