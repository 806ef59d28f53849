-- ===== src/Lnet.antt =====
-- LNet of the package `lustre_ops` (internal/lustre-ops/src/lustre_ops/lnet.py): its networks and
-- its exceptions.
pub mod Spec
pub mod Nids
pub mod Show
pub mod Detect
pub mod Reconcile
use filesystem_charms.Base.{List}
use filesystem_charms.Base.Dict.{Dict}
use filesystem_charms.Base.Text.{Text}

-- `dict[str, list[str]]`: the interfaces of each network.
abbrev pub Networks : Type 0
Networks = Dict Text (List Text)

-- What `LNetParseError` was raised for.
pub data ParseFault : Type 0 where
  invalid_specification empty_name no_interfaces : Text → ParseFault
  duplicate_network : Text → ParseFault
  bad_show_output empty_show_output invalid_show_output : ParseFault
  bad_route_data missing_device bad_link_data : ParseFault

-- The subclasses of `LNetError`, with what their messages name.
pub data LnetError : Type 0 where
  parse : ParseFault → LnetError
  query_networks query_nids query_route query_links : LnetError
  add_network : Text → LnetError
  add_interface remove_interface : List Text → Text → LnetError
  autodetect config_export : LnetError
