-- ===== src/Xdp/Parse.antt =====
-- crates/trust-kernel/src/xdp.rs: `parse_headers`. A read out of bounds, where the code would panic, is a
-- result of its own.
use Prim.Native.Nat.{bit_and}
use spaceshuttle.Prelude.{
  ℕ, ◌+◌, ◌*◌, ◌/◌, List, none, some, not, ◌||◌, ◌==◌, ltb, if◌then◌else◌, length, get_elem?,
}

pub record PacketHeaders : Type 0 where
  pub src_ip : ℕ
  pub dst_ip : ℕ
  pub src_port : ℕ
  pub dst_port : ℕ
  pub protocol : ℕ
  pub tcp_flags : ℕ
  pub payload_offset : ℕ
  pub total_len : ℕ

pub data Parsed : Type 0 where
  -- `Some(headers)` and `None`
  parsed : PacketHeaders → Parsed
  refused panicked : Parsed

-- What a slice of bytes is read as; no byte, no value.
unfoldable pub u8_at : List ℕ → ℕ → (ℕ → Parsed) → Parsed
u8_at packet i next = elim (get_elem? packet i) [ none ↦ panicked | some b ↦ next b ]

-- `u16::from_be_bytes`
unfoldable pub u16_at : List ℕ → ℕ → (ℕ → Parsed) → Parsed
unfolding u8_at
u16_at packet i next = u8_at packet i (λ a. u8_at packet (i + 1) (λ b. next (a * 256 + b)))

-- `u32::from_be_bytes`
unfoldable pub u32_at : List ℕ → ℕ → (ℕ → Parsed) → Parsed
unfolding u16_at
u32_at packet i next = u16_at packet i (λ a. u16_at packet (i + 2) (λ b. next (a * 65536 + b)))

-- The TCP or UDP header at `transport_start`, behind the addresses that the IP header has.
unfoldable pub parse_transport : List ℕ → ℕ → ℕ → ℕ → ℕ → ℕ → Parsed
unfolding u8_at u16_at
parse_transport packet transport_start protocol src_ip dst_ip total_len =
    if protocol == 6
    then (if ltb (length packet) (transport_start + 20)
        then refused
        else (u16_at packet transport_start (λ src_port.
            u16_at packet (transport_start + 2) (λ dst_port.
              u8_at packet (transport_start + 12) (λ offset_byte.
                u8_at packet (transport_start + 13) (λ tcp_flags. parsed (record {
                  src_ip = src_ip;
                  dst_ip = dst_ip;
                  src_port = src_port;
                  dst_port = dst_port;
                  protocol = protocol;
                  tcp_flags = tcp_flags;
                  payload_offset = transport_start + offset_byte / 16 * 4;
                  total_len = total_len;
                })))))))
    else if protocol == 17
    then (if ltb (length packet) (transport_start + 8)
        then refused
        else (u16_at packet transport_start (λ src_port.
            u16_at packet (transport_start + 2) (λ dst_port. parsed (record {
              src_ip = src_ip;
              dst_ip = dst_ip;
              src_port = src_port;
              dst_port = dst_port;
              protocol = protocol;
              tcp_flags = 0;
              payload_offset = transport_start + 8;
              total_len = total_len;
            })))))
    else refused

-- The IPv4 header, whose first byte gives its length.
unfoldable pub parse_ip : List ℕ → ℕ → Parsed
unfolding u8_at u16_at u32_at parse_transport
parse_ip packet ihl =
    if ltb ihl 20 || ltb (length packet) (14 + ihl)
    then refused
    else (u8_at packet 23 (λ protocol. u32_at packet 26 (λ src_ip. u32_at packet 30 (λ dst_ip.
        u16_at packet 16
          (λ total_len. parse_transport packet (14 + ihl) protocol src_ip dst_ip total_len)))))

-- Only IPv4 goes on.
unfoldable pub parse_ethertype : List ℕ → ℕ → Parsed
unfolding u8_at parse_ip
parse_ethertype packet ethertype =
    if not (ethertype == 0x0800)
    then refused
    else if ltb (length packet) 34
    then refused
    else u8_at packet 14 (λ first. parse_ip packet (bit_and first 0x0F * 4))

unfoldable pub parse_headers : List ℕ → Parsed
unfolding u16_at parse_ethertype
parse_headers packet =
    if ltb (length packet) 14 then refused else u16_at packet 12 (parse_ethertype packet)
