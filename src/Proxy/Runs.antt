-- ===== src/Proxy/Runs.antt =====
-- rust/crates/h2ts-server/src/bin/h2ts-proxy.rs: tests of the proxy.
use h2ts.Common.{
  ◌≡◌, refl, true, false, List, [], ◌∷◌, some, none, codes, All, lower_byte, to_ascii_lowercase,
}
use h2ts.Handshake.{
  Crates, Request, accept_with_options, is_upgrade_request, header_lists, offered_protocols, decide,
  fallback_subprotocol,
}
use h2ts.Bridge.Config.{new_keepalive}
use h2ts.Proxy.{
  any_arg, kind_of, collect_args, parse_digits, parse_u64, read_options, handle, status, main,
  tunnel_config, bad_gateway,
}
use h2ts.Proxy.Arguments.{Item, IsItem, spell, meant, read_options-spell}
use h2ts.Proxy.Guard.{IsLetIn, handle-IsLetIn}

abbrev line : List Item
line =
    Item.positional (codes "0.0.0.0:80")
    ∷ Item.allowed_origin (codes "http://a")
    ∷ Item.positional (codes "up:81")
    ∷ Item.allow_implicit_codec
    ∷ Item.positional (codes "5")
    ∷ Item.allowed_origin (codes "http://b")
    ∷ []

line-IsItem : All IsItem line
line-IsItem = (
  (refl, refl, refl),
  ((refl, refl), ((refl, refl, refl), (tt, ((refl, refl, refl), ((refl, refl), tt))))),
)

read_options-spell_example : read_options (spell line) ≡ meant line
read_options-spell_example = read_options-spell line line-IsItem

read_line : read_options (spell line) ≡ record {
  listen = codes "0.0.0.0:80";
  upstream = codes "up:81";
  keepalive = some (new_keepalive 5000 5000);
  allow_implicit_codec = true;
  allowed_origins = some (codes "http://a" ∷ codes "http://b" ∷ []);
}
unfolding read_options any_arg collect_args kind_of parse_u64 parse_digits
read_line = refl

-- A flag without its value is passed over, and so is an interval that is no number: the keepalive is
-- off.
read_dangling : (read_options (codes "--allowed-origin" ∷ [])).allowed_origins ≡ none
unfolding read_options any_arg collect_args kind_of
read_dangling = refl

read_unparsed : (read_options (codes "a" ∷ codes "b" ∷ codes "30s" ∷ [])).keepalive ≡ none
unfolding read_options any_arg collect_args kind_of parse_u64 parse_digits
read_unparsed = refl

read_large : parse_u64 (codes "18446744073709551616") ≡ none
unfolding parse_u64 parse_digits
read_large = refl

abbrev plain_crates : Crates
plain_crates = record { to_str = some; is_header_value = λ t. true; sha1 = λ t. t; base64 = λ t. t }

abbrev browser : Request
browser = record {
  upgrade = some (codes "websocket");
  connection = some (codes "Upgrade");
  key = some (codes "k");
  protocol = some (codes "binary");
  origin = some (codes "HTTP://B");
}

browser_enters : status (handle plain_crates browser (read_options (spell line))) ≡ 101
unfolding handle status accept_with_options is_upgrade_request header_lists offered_protocols decide
    fallback_subprotocol to_ascii_lowercase lower_byte read_options any_arg collect_args kind_of
browser_enters = refl

handle-IsLetIn_example : IsLetIn plain_crates browser line
handle-IsLetIn_example = handle-IsLetIn plain_crates browser line line-IsItem browser_enters

starts : main (λ a. true) [] ≡ some (read_options [])
unfolding main
starts = refl

-- A client is told that the upstream cannot be reached.
unreachable : (tunnel_config false (read_options [])).close ≡ bad_gateway
unfolding tunnel_config
unreachable = refl
