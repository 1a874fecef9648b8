-- ===== src/Notification/Tests.antt =====
-- The theorem on src/bgw/notification.rs at a small input.
use pgnats.Common.{◌≡◌, some, List, [], ◌∷◌, map, ok, arith}
use pgnats.Text.{Text, text}
use pgnats.Text.Numbers.{print_uint}
use pgnats.Text.Split.{join, trim, AllFree}
use pgnats.Config.{and_then}
use pgnats.Subscriber.Context.{master}
use pgnats.Notification.{new, new-join, try_fetch_patroni_name}

abbrev addresses : List Text
addresses = text "a" ∷ text " b " ∷ []

addresses-AllFree : AllFree b',' addresses
addresses-AllFree = ((omega arith, tt), ((omega arith, (omega arith, (omega arith, tt))), tt))

new-join_example :
    new
      (λ url. ok url)
      (some (join b',' addresses))
      (some (print_uint 5432))
      master
      (some (text "url"))
    ≡ some (record {
      status = master;
      listen_addresses = map trim addresses;
      port = 5432;
      name = and_then (some (text "url")) (try_fetch_patroni_name (λ url. ok url));
    })
new-join_example =
    new-join (λ url. ok url) (text "a") (text " b " ∷ []) 5432 master (some (text "url"))
      addresses-AllFree (omega arith)
