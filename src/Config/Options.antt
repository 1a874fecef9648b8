-- ===== src/Config/Options.antt =====
-- What `parse_config` of src/config.rs makes of the options of a server.
use pgnats.Common.{
  ℕ, ◌≤◌, ◌≡◌, ap, Option, none, some, [], ◌∷◌, ◌++◌, arith, Option-cases, inl, inr,
}
use pgnats.Common.Assoc.{get}
use pgnats.Common.Eq.{nat_eq, list_eq, list_beq}
use pgnats.Text.{Text, text}
use pgnats.Text.Numbers.{parse_uint, print_uint, parse_uint_le, parse_uint-print_uint}
use pgnats.Config.{
  NatsTlsOptions, tls, mutual_tls, Config, Options, parse_config, u16_max, usize_max, or_default,
  and_then, default_nats_port, default_nats_capacity,
}

-- The numbers of a configuration are in the range of their types, whatever the options say.
pub record InRange (c : Config) : Type 0 where
  pub port_in : c.nats_opt.port ≤ u16_max
  pub capacity_in : c.nats_opt.capacity ≤ usize_max

number_in_range :
    (max d : ℕ) (t : Option Text) → d ≤ max → or_default d (and_then t (parse_uint max)) ≤ max
number_in_range max d none h = h
number_in_range max d (some t) h = elim (Option-cases (parse_uint max t)) [
  | inl e ↦ rw e h
  | inr (n, e) ↦ rw e (parse_uint_le max n t e)
]

-- Whatever the options say, the port of a configuration is a 16-bit number and its capacity a
-- 64-bit number.
pub parse_config-InRange : (options : Options) → InRange (parse_config options)
unfolding parse_config
parse_config-InRange options = record {
  port_in = number_in_range u16_max default_nats_port (get (text "port") options) (omega arith);
  capacity_in =
      number_in_range usize_max default_nats_capacity (get (text "capacity") options) (omega arith);
}

-- The options that spell a configuration out.
abbrev pub tls_entries : Option NatsTlsOptions → Options
tls_entries none = []
tls_entries (some (tls ca)) = (text "tls_ca_path", ca) ∷ []
tls_entries (some (mutual_tls ca cert key)) =
    (text "tls_ca_path", ca) ∷ (text "tls_cert_path", cert) ∷ (text "tls_key_path", key) ∷ []

abbrev pub patroni_entries : Option Text → Options
patroni_entries none = []
patroni_entries (some url) = (text "patroni_url", url) ∷ []

abbrev pub entries : Config → Option NatsTlsOptions → Option Text → Options
entries c t url =
    (text "host", c.nats_opt.host)
    ∷ (text "port", print_uint c.nats_opt.port)
    ∷ (text "capacity", print_uint c.nats_opt.capacity)
    ∷ (text "notify_subject", c.notify_subject)
    ∷ (tls_entries t ++ patroni_entries url)

abbrev pub to_options : Config → Options
to_options c = entries c c.nats_opt.tls_options c.patroni_url

module _ (host subject : Text) (port capacity : ℕ) (p : port ≤ u16_max)
    (q : capacity ≤ usize_max) where
  spelled : Option NatsTlsOptions → Option Text → Config
  spelled t url = record {
    nats_opt = record { host = host; port = port; capacity = capacity; tls_options = t };
    notify_subject = subject;
    patroni_url = url;
  }

  numbers_read :
      (or_default default_nats_port (and_then (some (print_uint port)) (parse_uint u16_max)) ≡ port)
      × (or_default default_nats_capacity
            (and_then (some (print_uint capacity)) (parse_uint usize_max))
          ≡ capacity)
  numbers_read = (
    ap (or_default default_nats_port) (parse_uint-print_uint u16_max port p),
    ap (or_default default_nats_capacity) (parse_uint-print_uint usize_max capacity q),
  )

  read_back :
      (t : Option NatsTlsOptions) (url : Option Text)
      → parse_config (to_options (spelled t url)) ≡ spelled t url
  unfolding parse_config spelled list_beq
  read_back none none = rw (numbers_read.0, numbers_read.1)
  read_back none (some url) = rw (numbers_read.0, numbers_read.1)
  read_back (some (tls ca)) none = rw (numbers_read.0, numbers_read.1)
  read_back (some (tls ca)) (some url) = rw (numbers_read.0, numbers_read.1)
  read_back (some (mutual_tls ca cert key)) none = rw (numbers_read.0, numbers_read.1)
  read_back (some (mutual_tls ca cert key)) (some url) = rw (numbers_read.0, numbers_read.1)

-- A configuration whose port and capacity are in the range of their types is read back by
-- parse_config from the options that spell it out.
pub parse_config-to_options : (c : Config) → InRange c → parse_config (to_options c) ≡ c
unfolding spelled
parse_config-to_options c v =
    read_back c.nats_opt.host c.notify_subject c.nats_opt.port c.nats_opt.capacity v.port_in
      v.capacity_in c.nats_opt.tls_options c.patroni_url
