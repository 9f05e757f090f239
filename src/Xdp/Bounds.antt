-- ===== src/Xdp/Bounds.antt =====
-- The parser of crates/trust-kernel/src/xdp.rs never reads out of bounds.
use Prim.Native.Nat.{bit_and}
use spaceshuttle.Prelude.{
  ℕ, ◌+◌, ◌*◌, ◌/◌, ◌≢◌, ◌<◌, ◌≤◌, List, not, ◌||◌, ◌==◌, ltb, length, get_elem?-some, Bool-cases,
  inl, inr, arith, ltb→le,
}
use spaceshuttle.Xdp.Parse.{
  PacketHeaders, Parsed, parsed, panicked, u8_at, u16_at, u32_at, parse_transport, parse_ip,
  parse_ethertype, parse_headers,
}

parsed-safe : (h : PacketHeaders) → parsed h ≢ panicked
parsed-safe h e = cc

module _ (packet : List ℕ) where
  u8_at-safe :
      (i : ℕ) (next : ℕ → Parsed)
      → i < length packet
      → ((b : ℕ) → next b ≢ panicked)
      → u8_at packet i next ≢ panicked
  unfolding u8_at
  u8_at-safe i next inside safe =
      let (b, at) = get_elem?-some packet i inside in rw (at, u8_at) (safe b)

  u16_at-safe :
      (i : ℕ) (next : ℕ → Parsed)
      → i + 1 < length packet
      → ((b : ℕ) → next b ≢ panicked)
      → u16_at packet i next ≢ panicked
  unfolding u16_at
  u16_at-safe i next inside safe =
      u8_at-safe i _ (omega arith) (λ a. u8_at-safe (i + 1) _ inside (λ b. safe (a * 256 + b)))

  u32_at-safe :
      (i : ℕ) (next : ℕ → Parsed)
      → i + 3 < length packet
      → ((b : ℕ) → next b ≢ panicked)
      → u32_at packet i next ≢ panicked
  unfolding u32_at
  u32_at-safe i next inside safe =
      u16_at-safe i _ (omega arith)
        (λ a. u16_at-safe (i + 2) _ (omega arith) (λ b. safe (a * 65536 + b)))

  parse_transport-safe :
      (start protocol src_ip dst_ip total_len : ℕ)
      → parse_transport packet start protocol src_ip dst_ip total_len ≢ panicked
  unfolding parse_transport
  parse_transport-safe start protocol src_ip dst_ip total_len = elim (Bool-cases (protocol == 6)) [
    | inl tcp ↦ elim (Bool-cases (ltb (length packet) (start + 20))) [
      | inl short ↦ rw (tcp, short) (λ e. cc)
      | inr long ↦
          let inside = ltb→le _ _ long in
          rw (tcp, long)
            (u16_at-safe start _ (omega (arith, inside)) (λ src_port.
              u16_at-safe (start + 2) _ (omega (arith, inside)) (λ dst_port.
                u8_at-safe (start + 12) _ (omega (arith, inside)) (λ offset_byte.
                  u8_at-safe (start + 13) _ (omega (arith, inside)) (λ tcp_flags.
                    parsed-safe (record {
                      src_ip = src_ip;
                      dst_ip = dst_ip;
                      src_port = src_port;
                      dst_port = dst_port;
                      protocol = protocol;
                      tcp_flags = tcp_flags;
                      payload_offset = start + offset_byte / 16 * 4;
                      total_len = total_len;
                    }))))))
    ]
    | inr other ↦ elim (Bool-cases (protocol == 17)) [
      | inl udp ↦ elim (Bool-cases (ltb (length packet) (start + 8))) [
        | inl short ↦ rw (other, udp, short) (λ e. cc)
        | inr long ↦
            let inside = ltb→le _ _ long in
            rw (other, udp, long)
              (u16_at-safe start _ (omega (arith, inside)) (λ src_port.
                u16_at-safe (start + 2) _ (omega (arith, inside)) (λ dst_port. parsed-safe (record {
                  src_ip = src_ip;
                  dst_ip = dst_ip;
                  src_port = src_port;
                  dst_port = dst_port;
                  protocol = protocol;
                  tcp_flags = 0;
                  payload_offset = start + 8;
                  total_len = total_len;
                }))))
      ]
      | inr neither ↦ rw (other, neither) (λ e. cc)
    ]
  ]

  parse_ip-safe : (ihl : ℕ) → 34 ≤ length packet → parse_ip packet ihl ≢ panicked
  unfolding parse_ip
  parse_ip-safe ihl inside = elim (Bool-cases (ltb ihl 20 || ltb (length packet) (14 + ihl))) [
    | inl short ↦ rw short (λ e. cc)
    | inr long ↦ rw long (
        u8_at-safe 23 _ (omega arith) (λ protocol. u32_at-safe 26 _ (omega arith) (λ src_ip.
          u32_at-safe 30 _ (omega arith) (λ dst_ip.
            u16_at-safe 16 _ (omega arith)
              (λ total_len. parse_transport-safe (14 + ihl) protocol src_ip dst_ip total_len)))))
  ]

  parse_ethertype-safe : (ethertype : ℕ) → parse_ethertype packet ethertype ≢ panicked
  unfolding parse_ethertype
  parse_ethertype-safe ethertype = elim (Bool-cases (not (ethertype == 0x0800))) [
    | inl other ↦ rw other (λ e. cc)
    | inr ipv4 ↦ elim (Bool-cases (ltb (length packet) 34)) [
      | inl small ↦ rw (ipv4, small) (λ e. cc)
      | inr long ↦
          let inside = ltb→le _ _ long in
          rw (ipv4, long)
            (u8_at-safe 14 _ (omega (arith, inside))
              (λ first. parse_ip-safe (bit_and first 0x0F * 4) inside))
    ]
  ]

-- Whatever bytes a packet has, parsing its headers never reads out of bounds.
pub parse_headers_panic : (packet : List ℕ) → parse_headers packet ≢ panicked
unfolding parse_headers
parse_headers_panic packet = elim (Bool-cases (ltb (length packet) 14)) [
  | inl short ↦ rw short (λ e. cc)
  | inr frame ↦
      let inside = ltb→le _ _ frame in
      rw frame (
        u16_at-safe packet 12 (parse_ethertype packet) (omega (arith, inside))
          (parse_ethertype-safe packet))
]
