-- ===== src/Connect.antt =====
-- How `initialize_connection` of src/nats_client.rs and `connect_nats` of src/bgw/subscriber/nats.rs
-- set the options of a connection. `Builder` is the interface to `ConnectOptions` of async-nats.
pub mod Small
mod Tests
use pgnats.Common.{ℕ, Bool, true, Option, none, some, List, [], ◌∷◌, ◌++◌, ◌==◌, if◌then◌else◌}
use pgnats.Text.{Text}
use pgnats.Text.Numbers.{print_uint}
use pgnats.Config.{NatsTlsOptions, tls, mutual_tls, NatsConnectionOptions}

pub record Builder : Type 1 where
  pub ConnectOptions : Type 0
  pub new_options : ConnectOptions
  pub client_capacity : ConnectOptions → ℕ → ConnectOptions
  pub require_tls : ConnectOptions → Bool → ConnectOptions
  pub add_root_certificates : ConnectOptions → (path : Text) → ConnectOptions
  pub add_client_certificate : ConnectOptions → (cert key : Text) → ConnectOptions

-- `Path::join` of Unix: the second path alone if it starts with a slash, or else both with one
-- slash in between.
abbrev pub separated : Text → Text
separated [] = []
separated (c ∷ []) = if c == b'/' then c ∷ [] else c ∷ b'/' ∷ []
separated (c ∷ d ∷ path) = c ∷ separated (d ∷ path)

unfoldable pub join : Text → Text → Text
join root [] = separated root
join root (c ∷ path) = if c == b'/' then c ∷ path else separated root ++ c ∷ path

abbrev pub address : NatsConnectionOptions → Text
address o = o.host ++ b':' ∷ print_uint o.port

module _ (B : Builder) where
  open B use {ConnectOptions}

  -- Nothing is added without a current directory.
  unfoldable pub with_tls : ConnectOptions → Option NatsTlsOptions → Option Text → ConnectOptions
  unfolding join
  with_tls opts none dir = opts
  with_tls opts (some t) none = opts
  with_tls opts (some (tls ca)) (some root) =
      B.add_root_certificates (B.require_tls opts true) (join root ca)
  with_tls opts (some (mutual_tls ca cert key)) (some root) =
      B.add_client_certificate (B.add_root_certificates (B.require_tls opts true) (join root ca))
        (join root cert) (join root key)

  abbrev pub connect_options : NatsConnectionOptions → Option Text → ConnectOptions
  connect_options o dir = with_tls (B.client_capacity B.new_options o.capacity) o.tls_options dir
