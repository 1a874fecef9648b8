-- ===== src/Connect/Small.antt =====
-- Connection options as a record, to try src/nats_client.rs and src/bgw/subscriber on.
use pgnats.Common.{ℕ, Bool, false, Option, none, some, List, [], ◌∷◌}
use pgnats.Text.{Text}
use pgnats.Connect.{Builder}

pub record SmallOptions : Type 0 where
  pub capacity : ℕ
  pub requires_tls : Bool
  pub roots : List Text
  pub certificate : Option (Text × Text)

abbrev pub small_builder : Builder
small_builder = record {
  ConnectOptions = SmallOptions;
  new_options = record { capacity = 2048; requires_tls = false; roots = []; certificate = none };
  client_capacity = λ o n. record o { capacity = n };
  require_tls = λ o b. record o { requires_tls = b };
  add_root_certificates = λ o path. record o { roots = path ∷ o.roots };
  add_client_certificate = λ o cert key. record o { certificate = some (cert, key) };
}
