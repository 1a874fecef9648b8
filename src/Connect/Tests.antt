-- ===== src/Connect/Tests.antt =====
-- The options of a connection at small paths.
use pgnats.Common.{◌≡◌, refl, true, none, some, [], ◌∷◌}
use pgnats.Text.{text}
use pgnats.Config.{NatsTlsOptions, mutual_tls}
use pgnats.Connect.{join, with_tls}
use pgnats.Connect.Small.{small_builder}

joined : join (text "/data") (text "ca.pem") ≡ text "/data/ca.pem"
unfolding join
joined = refl

absolute : join (text "/data") (text "/etc/ca.pem") ≡ text "/etc/ca.pem"
unfolding join
absolute = refl

abbrev both_sides : NatsTlsOptions
both_sides = mutual_tls (text "ca.pem") (text "c.pem") (text "/k.pem")

mutual_with_tls :
    with_tls small_builder small_builder.new_options (some both_sides) (some (text "/data"))
    ≡ record {
      capacity = 2048;
      requires_tls = true;
      roots = text "/data/ca.pem" ∷ [];
      certificate = some (text "/data/c.pem", text "/k.pem");
    }
unfolding with_tls join
mutual_with_tls = refl

-- Without a current directory the connection is made without TLS.
not_secured :
    with_tls small_builder small_builder.new_options (some both_sides) none
    ≡ small_builder.new_options
unfolding with_tls
not_secured = refl
