-- ===== src/Broker/Tests.antt =====
-- A network with one public and one private name, and the theorem at it.
use tentaflake.Broker.Targets.{v4, ResolvedTarget, Url, Net}
use tentaflake.Prelude.{ok, none, codes, ◌∷◌, some, []}

abbrev target_url : Url
target_url = record {
  scheme = codes "https";
  username = [];
  password = none;
  fragment = none;
  host_str = some (codes "Example.com");
  port_or_known_default = some 443;
}

abbrev net : Net
net = record {
  parse = λ raw. some target_url;
  parse_ip = λ host. none;
  resolver = λ host port. ok (record { ip = v4 93 184 216 34; port = port } ∷ []);
}

abbrev target : ResolvedTarget
target = record {
  url = target_url;
  host = codes "example.com";
  addresses = record { ip = v4 93 184 216 34; port = 443 } ∷ [];
}
