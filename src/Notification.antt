-- ===== src/Notification.antt =====
-- src/bgw/notification.rs: the notification of the role of an instance. What Postgres says of its
-- settings, and what Patroni answers, are arguments.
mod Tests
use pgnats.Common.{
  ℕ, ◌≤◌, ◌≡◌, refl, ap, ◌∙◌, Option, none, some, List, [], ◌∷◌, ◌++◌, map, Result, ok, err,
}
use pgnats.Text.{Text}
use pgnats.Text.Numbers.{parse_uint, print_uint, parse_uint-print_uint}
use pgnats.Text.Split.{split, join, trim, Free, AllFree, split-join}
use pgnats.Config.{u16_max, and_then}
use pgnats.Subscriber.Context.{PgInstanceStatus}

pub record PgInstanceNotification : Type 0 where
  pub status : PgInstanceStatus
  pub listen_addresses : List Text
  pub port : ℕ
  pub name : Option Text

-- `answer` is the name that Patroni gives, or an error with its text.
unfoldable pub try_fetch_patroni_name : (answer : Text → Result Text Text) → Text → Option Text
try_fetch_patroni_name answer url = elim (answer url) [ ok name ↦ some name | err e ↦ some e ]

abbrev with_port :
    PgInstanceStatus → List Text → Option ℕ → Option Text → Option PgInstanceNotification
with_port status listen_addresses none name = none
with_port status listen_addresses (some port) name =
    some (record { status = status; listen_addresses = listen_addresses; port = port; name = name })

abbrev with_addresses :
    PgInstanceStatus → Option Text → Option Text → Option Text → Option PgInstanceNotification
with_addresses status none port name = none
with_addresses status (some listen_addresses) port name =
    with_port status (map trim (split b',' listen_addresses)) (and_then port (parse_uint u16_max))
      name

unfoldable pub new :
    (answer : Text → Result Text Text) (listen_addresses port : Option Text)
    → PgInstanceStatus
    → Option Text
    → Option PgInstanceNotification
unfolding try_fetch_patroni_name
new answer listen_addresses port status patroni_url =
    with_addresses status listen_addresses port
      (and_then patroni_url (try_fetch_patroni_name answer))

-- Where the addresses hold no comma and the port is a 16-bit number, a notification made from the
-- addresses joined by commas and the printed port has those addresses, trimmed, and that port.
pub new-join :
    (answer : Text → Result Text Text) (first : Text) (others : List Text) (port : ℕ)
    (status : PgInstanceStatus) (patroni_url : Option Text)
    → AllFree b',' (first ∷ others)
    → port ≤ u16_max
    → new answer (some (join b',' (first ∷ others))) (some (print_uint port)) status patroni_url
      ≡ some (record {
        status = status;
        listen_addresses = map trim (first ∷ others);
        port = port;
        name = and_then patroni_url (try_fetch_patroni_name answer);
      })
unfolding new
new-join answer first others port status patroni_url f h =
    rw (split-join b',' first others f, parse_uint-print_uint u16_max port h)
