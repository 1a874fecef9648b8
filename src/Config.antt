-- ===== src/Config.antt =====
-- src/config.rs and src/constants.rs: the connection settings of a foreign server.
pub mod Options
pub mod Fetch
pub mod Servers
mod Tests
use pgnats.Common.{
  ==_iff, arith, refl, ◌≡◌, ◌↔◌, ℕ, Bool, true, false, ◌&&◌, ◌==◌, ◌^◌, ◌-◌, Option, none, some,
  List, [], ◌∷◌,
}
use pgnats.Common.Assoc.{get}
use pgnats.Common.Eq.{Eq, nat_eq, list_eq}
use pgnats.Text.{Text, text}
use pgnats.Text.Numbers.{parse_uint}

abbrev pub text_eq : Eq Text
text_eq = list_eq

pub data NatsTlsOptions : Type 0 where
  tls : (ca : Text) → NatsTlsOptions
  mutual_tls : (ca cert key : Text) → NatsTlsOptions

pub record NatsConnectionOptions : Type 0 where
  pub host : Text
  pub port : ℕ
  pub capacity : ℕ
  pub tls_options : Option NatsTlsOptions

-- the derived equality
unfoldable pub tls_beq : Option NatsTlsOptions → Option NatsTlsOptions → Bool
tls_beq none none = true
tls_beq (some (tls a)) (some (tls b)) = text_eq.beq a b
tls_beq (some (mutual_tls a c k)) (some (mutual_tls a' c' k')) =
    text_eq.beq a a' && text_eq.beq c c' && text_eq.beq k k'
tls_beq _ _ = false

unfoldable pub options_beq : NatsConnectionOptions → NatsConnectionOptions → Bool
options_beq a b =
    text_eq.beq a.host b.host
    && a.port == b.port
    && a.capacity == b.capacity
    && tls_beq a.tls_options b.tls_options

tls_beq_iff : (a b : Option NatsTlsOptions) → (tls_beq a b ≡ true) ↔ (a ≡ b)
unfolding tls_beq
tls_beq_iff none none = (λ h. refl, λ h. refl)
tls_beq_iff none (some b) = (λ h. cc, λ h. cc)
tls_beq_iff (some (tls a)) none = (λ h. cc, λ h. cc)
tls_beq_iff (some (mutual_tls a c k)) none = (λ h. cc, λ h. cc)
tls_beq_iff (some (tls a)) (some (mutual_tls b c k)) = (λ h. cc, λ h. cc)
tls_beq_iff (some (mutual_tls a c k)) (some (tls b)) = (λ h. cc, λ h. cc)
tls_beq_iff (some (tls a)) (some (tls b)) =
    (λ h. ground (arith, text_eq.beq_iff a b), λ h. ground (arith, text_eq.beq_iff a b))
tls_beq_iff (some (mutual_tls a c k)) (some (mutual_tls a' c' k')) = (
  λ h. ground (arith, text_eq.beq_iff a a', text_eq.beq_iff c c', text_eq.beq_iff k k'),
  λ h. ground (arith, text_eq.beq_iff a a', text_eq.beq_iff c c', text_eq.beq_iff k k'),
)

pub options_beq_iff : (a b : NatsConnectionOptions) → (options_beq a b ≡ true) ↔ (a ≡ b)
unfolding options_beq
options_beq_iff a b = (
  λ h. ground (
    arith,
    text_eq.beq_iff a.host b.host,
    tls_beq_iff a.tls_options b.tls_options,
    ==_iff a.port b.port,
    ==_iff a.capacity b.capacity,
  ),
  λ h. ground (
    arith,
    text_eq.beq_iff a.host b.host,
    tls_beq_iff a.tls_options b.tls_options,
    ==_iff a.port b.port,
    ==_iff a.capacity b.capacity,
  ),
)

pub record Config : Type 0 where
  pub nats_opt : NatsConnectionOptions
  pub notify_subject : Text
  pub patroni_url : Option Text

-- constants.rs
abbrev pub extension_name : Text
extension_name = text "pgnats"

abbrev pub fdw_extension_name : Text
fdw_extension_name = text "pgnats_fdw"

abbrev pub default_nats_host : Text
default_nats_host = text "127.0.0.1"

abbrev pub default_nats_port : ℕ
default_nats_port = 4222

abbrev pub default_nats_capacity : ℕ
default_nats_capacity = 128

abbrev pub default_notify_subject : Text
default_notify_subject = text "pgnats.postgresql.replication.status"

-- the greatest values of `u16` and `usize`
abbrev pub u16_max : ℕ
u16_max = 2 ^ 16 - 1

abbrev pub usize_max : ℕ
usize_max = 2 ^ 64 - 1

abbrev pub Options : Type 0
Options = List (Text × Text)

abbrev pub or_default {ℓ} : {A : Type ℓ} → A → Option A → A
or_default d none = d
or_default d (some a) = a

abbrev pub and_then {ℓ κ} : {A : Type ℓ} {B : Type κ} → Option A → (A → Option B) → Option B
and_then none f = none
and_then (some a) f = f a

-- The three `tls_*` options: nothing without `tls_ca_path`, a client certificate only with its key.
unfoldable pub parse_tls : Option Text → Option Text → Option Text → Option NatsTlsOptions
parse_tls none cert key = none
parse_tls (some ca) (some cert) (some key) = some (mutual_tls ca cert key)
parse_tls (some ca) _ _ = some (tls ca)

unfoldable pub parse_config : Options → Config
unfolding parse_tls
parse_config options = record {
  nats_opt = record {
    host = or_default default_nats_host (get (text "host") options);
    port = or_default default_nats_port (and_then (get (text "port") options) (parse_uint u16_max));
    capacity =
        or_default default_nats_capacity
          (and_then (get (text "capacity") options) (parse_uint usize_max));
    tls_options =
        parse_tls (get (text "tls_ca_path") options) (get (text "tls_cert_path") options)
          (get (text "tls_key_path") options);
  };
  notify_subject = or_default default_notify_subject (get (text "notify_subject") options);
  patroni_url = get (text "patroni_url") options;
}
