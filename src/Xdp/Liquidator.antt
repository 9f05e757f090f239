-- ===== src/Xdp/Liquidator.antt =====
-- crates/trust-kernel/src/xdp.rs: `XdpLiquidator`, the verdict on a packet and its counters.
use Prim.Native.Nat.{bit_and}
use spaceshuttle.Prelude.{
  ℕ, ◌+◌, ◌*◌, List, [], ◌∷◌, Option, none, some, String, Bool, true, false, not, ◌&&◌, ◌||◌, ◌==◌,
  ltb, leb, if◌then◌else◌, length, get_or, take, drop, replicate, add64, same_bytes, is_some,
}
use spaceshuttle.Prelude.Text.{bytes}
use spaceshuttle.Xdp.Parse.{PacketHeaders, Parsed, parsed, refused, panicked, parse_headers}

pub data XdpVerdict : Type 0 where
  drop_packet pass tx : XdpVerdict

pub data DropReason : Type 0 where
  no_intent deny_listed_ip unprotected_port malformed rate_limited syn_flood exploit_signature :
      DropReason

pub record XdpConfig : Type 0 where
  pub protected_ports : List ℕ
  pub syn_rate_limit : ℕ
  pub require_intent_on_first_data : Bool
  pub deny_list : List ℕ
  pub allow_list : List ℕ
  pub check_exploit_signatures : Bool

-- The counters of the drops, one for each reason.
pub record Drops : Type 0 where
  pub drops_no_intent : ℕ
  pub drops_deny_list : ℕ
  pub drops_unprotected : ℕ
  pub drops_malformed : ℕ
  pub drops_rate_limit : ℕ
  pub drops_syn_flood : ℕ
  pub drops_exploit : ℕ

-- The table of protected ports is the list it is made from; the SYN counters, which nothing uses, are
-- left out.
pub record XdpLiquidator : Type 0 where
  pub config : XdpConfig
  pub packets_total : ℕ
  pub packets_dropped : ℕ
  pub packets_passed : ℕ
  pub packets_tx : ℕ
  pub drops_by_reason : Drops
  pub active : Bool

unfoldable pub new : XdpConfig → XdpLiquidator
new config = record {
  config = config;
  packets_total = 0;
  packets_dropped = 0;
  packets_passed = 0;
  packets_tx = 0;
  drops_by_reason = record {
    drops_no_intent = 0;
    drops_deny_list = 0;
    drops_unprotected = 0;
    drops_malformed = 0;
    drops_rate_limit = 0;
    drops_syn_flood = 0;
    drops_exploit = 0;
  };
  active = true;
}

unfoldable pub count_drop : Drops → DropReason → Drops
count_drop d no_intent = record d { drops_no_intent = add64 d.drops_no_intent 1 }
count_drop d deny_listed_ip = record d { drops_deny_list = add64 d.drops_deny_list 1 }
count_drop d unprotected_port = record d { drops_unprotected = add64 d.drops_unprotected 1 }
count_drop d malformed = record d { drops_malformed = add64 d.drops_malformed 1 }
count_drop d rate_limited = record d { drops_rate_limit = add64 d.drops_rate_limit 1 }
count_drop d syn_flood = record d { drops_syn_flood = add64 d.drops_syn_flood 1 }
count_drop d exploit_signature = record d { drops_exploit = add64 d.drops_exploit 1 }

unfoldable pub record_drop : XdpLiquidator → DropReason → XdpLiquidator
unfolding count_drop
record_drop x reason = record x {
  packets_dropped = add64 x.packets_dropped 1;
  drops_by_reason = count_drop x.drops_by_reason reason;
}

-- The two ways out of `classify`.
unfoldable pub dropped : XdpLiquidator → DropReason → XdpLiquidator × XdpVerdict × Option DropReason
unfolding record_drop
dropped x reason = (record_drop x reason, drop_packet, some reason)

unfoldable pub let_through : XdpLiquidator → XdpLiquidator × XdpVerdict × Option DropReason
let_through x = (record x { packets_passed = add64 x.packets_passed 1 }, pass, none)

unfoldable pub elem : ℕ → List ℕ → Bool
elem a [] = false
elem a (b ∷ bs) = (a == b) || elem a bs

unfoldable pub starts_with : List ℕ → List ℕ → Bool
starts_with payload prefix = same_bytes (take (length prefix) payload) prefix

unfoldable pub starts_with_any : List ℕ → List String → Bool
unfolding starts_with
starts_with_any payload [] = false
starts_with_any payload (s ∷ rest) = starts_with payload (bytes s) || starts_with_any payload rest

unfoldable pub be32 : List ℕ → ℕ → ℕ
be32 payload i =
    ((get_or payload i 0 * 256 + get_or payload (i + 1) 0) * 256 + get_or payload (i + 2) 0) * 256
    + get_or payload (i + 3) 0

-- The reads stand behind the tests of the length. The ports are distinct, so the tests for PostgreSQL and
-- MySQL fall through to the end.
unfoldable pub has_intent_marker : List ℕ → ℕ → Bool
unfolding starts_with_any be32
has_intent_marker payload dst_port =
    if length payload == 0
    then false
    else if dst_port == 4430
    then leb 2 (length payload) && (get_or payload 0 0 == 0x7B)
    else if (dst_port == 22) && starts_with_any payload ("SSH-" ∷ [])
    then true
    else if elem dst_port (80 ∷ 443 ∷ 8000 ∷ 8080 ∷ [])
    then starts_with_any payload
        ("GET " ∷ "POST " ∷ "PUT " ∷ "DELETE " ∷ "PATCH " ∷ "HEAD " ∷ "OPTIONS " ∷ "CONNECT " ∷ [])
      || (leb 3 (length payload) && ((get_or payload 0 0 == 0x16) && (get_or payload 1 0 == 0x03)))
    else if (dst_port == 5432)
        && (leb 8 (length payload) && ((be32 payload 4 == 196608) || (be32 payload 4 == 80877103)))
    then true
    else if (dst_port == 3306) && leb 4 (length payload)
    then true
    else if dst_port == 6379
    then elem (get_or payload 0 0) (0x2A ∷ 0x24 ∷ 0x2B ∷ [])
      || starts_with_any payload ("PING" ∷ "AUTH" ∷ "INFO" ∷ "QUIT" ∷ [])
    else if dst_port == 11434
    then starts_with_any payload ("GET " ∷ "POST " ∷ "DELETE " ∷ [])
    else false

abbrev pub exploit_signatures : List (List ℕ × String)
exploit_signatures =
    (bytes "() { :;}", "shellshock")
    ∷ (bytes "${jndi:", "log4shell")
    ∷ (bytes "<?php", "php-injection")
    ∷ (bytes "/../../../", "path-traversal-deep")
    ∷ (bytes "' OR '1'='1", "sqli-classic")
    ∷ (bytes "'; DROP TABLE", "sqli-drop")
    ∷ (bytes "SLAVEOF ", "redis-slaveof")
    ∷ (bytes "CONFIG SET", "redis-config")
    ∷ (bytes "$gt", "nosql-injection")
    ∷ (replicate 16 0, "null-flood")
    ∷ []

-- Whether a window of the bytes is the signature; none is empty.
unfoldable pub occurs : List ℕ → List ℕ → Bool
unfolding starts_with
occurs signature [] = false
occurs signature (b ∷ bs) = starts_with (b ∷ bs) signature || occurs signature bs

unfoldable pub first_signature : List ℕ → List (List ℕ × String) → Option String
unfolding occurs
first_signature window [] = none
first_signature window ((signature, name) ∷ rest) =
    if occurs signature window then some name else first_signature window rest

-- The first 512 bytes are scanned.
unfoldable pub check_exploit_signatures : List ℕ → Option String
unfolding first_signature
check_exploit_signatures payload = first_signature (take 512 payload) exploit_signatures

-- The guards on a data packet.
unfoldable pub is_exploit : XdpConfig → List ℕ → PacketHeaders → Bool
unfolding check_exploit_signatures
is_exploit config raw_packet h =
    config.check_exploit_signatures
    && (not (bit_and h.tcp_flags 0x08 == 0)
        && (ltb h.payload_offset (length raw_packet)
            && is_some (check_exploit_signatures (drop h.payload_offset raw_packet))))

unfoldable pub lacks_intent : XdpConfig → List ℕ → PacketHeaders → Bool
unfolding has_intent_marker
lacks_intent config raw_packet h =
    config.require_intent_on_first_data
    && ((h.protocol == 6)
        && (not (bit_and h.tcp_flags 0x08 == 0)
            && (not (bit_and h.tcp_flags 0x10 == 0)
                && (ltb h.payload_offset (length raw_packet)
                    && not (has_intent_marker (drop h.payload_offset raw_packet) h.dst_port)))))

-- What follows the parser. The test of the SYN limit does nothing. A packet on which the parser panics
-- has no verdict.
unfoldable pub judge :
    XdpLiquidator → List ℕ → Parsed → Option (XdpLiquidator × XdpVerdict × Option DropReason)
unfolding dropped let_through elem is_exploit lacks_intent
judge x raw_packet panicked = none
judge x raw_packet refused = some (dropped x malformed)
judge x raw_packet (parsed h) = some (
    if elem h.src_ip x.config.allow_list
    then let_through x
    else if elem h.src_ip x.config.deny_list
    then dropped x deny_listed_ip
    else if not (elem h.dst_port x.config.protected_ports)
    then dropped x unprotected_port
    else if is_exploit x.config raw_packet h
    then dropped x exploit_signature
    else if lacks_intent x.config raw_packet h
    then dropped x no_intent
    else let_through x)

unfoldable pub classify :
    XdpLiquidator → List ℕ → Option (XdpLiquidator × XdpVerdict × Option DropReason)
unfolding let_through judge parse_headers
classify x raw_packet =
    let x' = record x { packets_total = add64 x.packets_total 1 } in
    if not x.active then some (let_through x') else judge x' raw_packet (parse_headers raw_packet)

-- `XdpConfig::default`
unfoldable pub default : XdpConfig
default = record {
  protected_ports = 22 ∷ 80 ∷ 443 ∷ 4430 ∷ 5432 ∷ 3306 ∷ 6379 ∷ 8000 ∷ 8080 ∷ 11434 ∷ [];
  syn_rate_limit = 100;
  require_intent_on_first_data = true;
  deny_list = [];
  allow_list = [];
  check_exploit_signatures = true;
}

unfoldable pub pause : XdpLiquidator → XdpLiquidator
pause x = record x { active = false }

unfoldable pub resume : XdpLiquidator → XdpLiquidator
resume x = record x { active = true }
