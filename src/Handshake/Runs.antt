-- ===== src/Handshake/Runs.antt =====
-- The handshake at concrete inputs.
use h2ts.Common.{◌≡◌, refl, true, some, none, codes, lower_byte, to_ascii_lowercase}
use h2ts.Handshake.{
  Request, Crates, Answer, accept_with_options, accept_default, accept_key, is_upgrade_request,
  header_lists, offered_protocols, decide, fallback_subprotocol,
}

-- Crates that answer each text with itself.
abbrev plain_crates : Crates
plain_crates = record { to_str = some; is_header_value = λ t. true; sha1 = λ t. t; base64 = λ t. t }

abbrev browser : Request
browser = record {
  upgrade = some (codes "WebSocket");
  connection = some (codes "keep-alive, Upgrade");
  key = some (codes "k");
  protocol = some (codes "chat, H2TS");
  origin = none;
}

-- The subprotocol is found behind a blank, and echoed as it was offered.
browser_switches :
    accept_default plain_crates browser
    ≡ Answer.switching record {
      accept_value = accept_key plain_crates (codes "k");
      subprotocol = some (codes "H2TS");
    }
unfolding accept_with_options is_upgrade_request header_lists offered_protocols decide
    fallback_subprotocol to_ascii_lowercase lower_byte
browser_switches = refl
