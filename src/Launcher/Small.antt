-- ===== src/Launcher/Small.antt =====
-- A small Postgres, with which the tests run src/bgw/launcher.
use pgnats.Common.{ℕ, ◌+◌, true, none, some, [], ◌==◌, if◌then◌else◌}
use pgnats.Text.{Text, text}
use pgnats.Launcher.Postgres.{Postgres}

-- A Postgres in which only the database 0 has no name. The state counts the segments.
abbrev pub small : Postgres
small = record {
  World = ℕ;
  Sender = ℕ;
  Running = Text;
  Terminating = Text;
  get_database_name = λ w oid. (if oid == 0 then none else some (text "db"), w);
  shm_mq_minimum_size = 104;
  dsm_new = λ w size. (some w, w + 1);
  sender_new = λ w handle size. (some handle, w);
  load_dynamic = λ w spec. (some spec.name, w);
  send = λ w sender bytes. (true, w);
  terminate = λ w name. (name, w);
  wait_for_shutdown = λ w name. (true, w);
  encode = λ msg. some [];
}

abbrev pub entry_point : Text
entry_point = text "background_worker_subscriber_entry_point"
