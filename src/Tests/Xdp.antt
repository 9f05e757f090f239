-- ===== src/Tests/Xdp.antt =====
-- The packet filter at concrete packets (crates/trust-kernel/src/xdp.rs).
use spaceshuttle.Prelude.{ℕ, ◌≡◌, ◌≢◌, refl, List, [], ◌∷◌, ◌++◌, true, replicate}
use spaceshuttle.Xdp.Parse.{panicked, parse_headers}
use spaceshuttle.Xdp.Bounds.{parse_headers_panic}
use spaceshuttle.Xdp.Liquidator.{XdpConfig, new, default}
use spaceshuttle.Xdp.Counters.{
  Call, packet, pausing, resuming, IsBalanced, filter_all, filter_all-new-IsBalanced,
}

abbrev web_only : XdpConfig
web_only = record {
  protected_ports = 80 ∷ [];
  syn_rate_limit = 100;
  require_intent_on_first_data = true;
  deny_list = [];
  allow_list = [];
  check_exploit_signatures = true;
}

-- An Ethernet header of IPv4, an IP header of 20 bytes for TCP, and a TCP header to port 80.
abbrev syn_packet : List ℕ
syn_packet =
    replicate 12 0
    ++ (0x08 ∷ 0x00 ∷ 0x45 ∷ [])
    ++ replicate 8 0
    ++ (6 ∷ [])
    ++ replicate 10 0
    ++ (0x10 ∷ 0x00 ∷ 0x00 ∷ 80 ∷ [])
    ++ replicate 8 0
    ++ (0x50 ∷ 0x02 ∷ [])
    ++ replicate 6 0

abbrev packets : List Call
packets =
    packet syn_packet
    ∷ packet (1 ∷ 2 ∷ [])
    ∷ pausing
    ∷ packet (3 ∷ [])
    ∷ resuming
    ∷ packet syn_packet
    ∷ []

packets_counted :
    let x = filter_all (new web_only) packets in
    (x.packets_total ≡ 4) × (x.packets_passed ≡ 3) × (x.packets_dropped ≡ 1)
unfolding filter_all new
packets_counted = (refl, refl, refl)

parse_headers_panic_example : parse_headers syn_packet ≢ panicked
parse_headers_panic_example = parse_headers_panic syn_packet

filter_all-new-IsBalanced_example : IsBalanced (filter_all (new web_only) packets)
filter_all-new-IsBalanced_example = filter_all-new-IsBalanced web_only packets

-- The default configuration lets a packet to port 80 pass that opens a connection.
default_passes :
    let x = filter_all (new default) (packet syn_packet ∷ []) in
    (x.packets_passed ≡ 1) × (x.packets_dropped ≡ 0)
unfolding filter_all new default
default_passes = (refl, refl)
