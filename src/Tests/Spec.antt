-- ===== src/Tests/Spec.antt =====
-- `parse_network_config` on concrete specifications.
use filesystem_charms.Base.Text.{strip}
use filesystem_charms.Base.Text.{split_once}
use filesystem_charms.Base.Text.{split}
use filesystem_charms.Base.Text.{is_space}
use filesystem_charms.Base.Text.{is_digit}
use filesystem_charms.Base.Dict.{keys}
use filesystem_charms.Base.Dict.{insert}
use filesystem_charms.Base.{filter}
use filesystem_charms.Base.{◌≡◌, refl, arith, [], ◌∷◌, text_beq, text_eq, contains}
use filesystem_charms.Base.Exec.{ok, err}
use filesystem_charms.Base.Text.{codes, has, lstrip, rstrip, is_space}
use filesystem_charms.Lnet.{Networks, parse, duplicate_network}
use filesystem_charms.Lnet.Spec.{canonical, parse_network_config}
use filesystem_charms.Lnet.Spec.Printed.{print_spec, AllNetworks, parse_network_config-print_spec}
use filesystem_charms.Lnet.Spec.Sound.{AreParsed, parse_network_config-AreParsed}

abbrev two_networks : Networks
two_networks =
    (codes "tcp", codes "eth0" ∷ codes "eth1" ∷ []) ∷ (codes "o2ib1", codes "ib0" ∷ []) ∷ []

two_networks-AllNetworks : AllNetworks two_networks
unfolding lstrip rstrip has canonical is_space
two_networks-AllNetworks = (
  record {
    name = record {
      trimmed = record { left = refl; right = refl; nonempty = λ e. ground arith };
      no_equals = refl;
      no_semicolon = refl;
      canonical = refl;
    };
    some_interface = λ e. ground arith;
    each = (
      record {
        trimmed = record { left = refl; right = refl; nonempty = λ e. ground arith };
        no_comma = refl;
        no_semicolon = refl;
      },
      (
        record {
          trimmed = record { left = refl; right = refl; nonempty = λ e. ground arith };
          no_comma = refl;
          no_semicolon = refl;
        },
        tt,
      ),
    );
  },
  (
    record {
      name = record {
        trimmed = record { left = refl; right = refl; nonempty = λ e. ground arith };
        no_equals = refl;
        no_semicolon = refl;
        canonical = refl;
      };
      some_interface = λ e. ground arith;
      each = (
        record {
          trimmed = record { left = refl; right = refl; nonempty = λ e. ground arith };
          no_comma = refl;
          no_semicolon = refl;
        },
        tt,
      );
    },
    tt,
  ),
)

parse_network_config-print_spec_example :
    parse_network_config (print_spec two_networks) ≡ ok two_networks
unfolding contains keys text_beq
parse_network_config-print_spec_example =
    parse_network_config-print_spec two_networks two_networks-AllNetworks (refl, (refl, tt))

parse_network_config-AreParsed_example : AreParsed two_networks
unfolding parse_network_config strip is_space split split_once filter contains keys insert text_beq
    is_digit
parse_network_config-AreParsed_example =
    parse_network_config-AreParsed (codes " tcp0 = eth0,eth1 ; o2ib1=ib0;") two_networks refl

-- An index 0 is taken off after the name was stripped, so that white space stays before it.
space_before_index :
    parse_network_config (codes "tcp 0=eth0") ≡ ok ((codes "tcp ", codes "eth0" ∷ []) ∷ [])
unfolding parse_network_config strip is_space split split_once filter contains keys insert is_digit
space_before_index = refl

same_network_twice :
    parse_network_config (codes "tcp=eth0;tcp0=eth1")
    ≡ err (parse (duplicate_network (codes "tcp")))
unfolding parse_network_config strip is_space split split_once filter contains keys insert text_beq
    is_digit
same_network_twice = refl
