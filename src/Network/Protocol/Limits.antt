-- ===== src/Network/Protocol/Limits.antt =====
-- `parseHeader` of src/connection.cpp: when a connection stays open, and how much of a packet is read.
use theforgottenserver.Prelude.{
  ℕ, ◌+◌, ◌/◌, ◌≤◌, ◌<◌, ◌≡◌, refl, inl, inr, Bool, true, Option, none, some, arith, if◌then◌else◌,
  Bool-cases,
}
use theforgottenserver.Network.Message.{NetworkMessage, get_body_buffer, networkmessage_maxsize}
use theforgottenserver.Network.Protocol.{
  Connection, read_on, read_header, parse_header, count_packet, time_passed,
}

count_packet_open :
    (max_packets now : ℕ) (c : Connection)
    → c.is_open ≡ true
    → (count_packet max_packets now c).1.is_open ≡ (count_packet max_packets now c).0
unfolding count_packet
count_packet_open max_packets now c h = ground arith

count_packet_limit :
    (max_packets now : ℕ) (c : Connection)
    → (count_packet max_packets now c).0 ≡ true
    → (count_packet max_packets now c).1.packets_sent / time_passed c now ≤ max_packets
unfolding count_packet
count_packet_limit max_packets now c h = ground arith

read_header_bounds :
    (m m' : NetworkMessage)
    → read_header m ≡ some m'
    → (2 < m'.length) × (m'.length + 14 < networkmessage_maxsize)
unfolding read_header get_body_buffer
read_header_bounds m m' h = ground arith

-- A packet is read on exactly while the connection is open: each refusal has closed it, or it was
-- closed before.
pub parse_header-is_open :
    (error : Bool) (max_packets now : ℕ) (c : Connection)
    → (parse_header error max_packets now c).1.is_open ≡ (parse_header error max_packets now c).0
unfolding parse_header read_on
parse_header-is_open error max_packets now c = go (if error then none else read_header c.msg)
  where
    go :
        (o : Option NetworkMessage)
        → (read_on max_packets now c o).1.is_open ≡ (read_on max_packets now c o).0
    go none = refl
    go (some m) = elim (Bool-cases c.is_open) [
      | inl o ↦ simp o (count_packet_open max_packets now c o)
      | inr o ↦ rw o refl
    ]

read_on_bounds :
    (max_packets now : ℕ) (c : Connection) (o : Option NetworkMessage)
    → ((m : NetworkMessage)
        → o ≡ some m
        → (2 < m.length) × (m.length + 14 < networkmessage_maxsize))
    → (read_on max_packets now c o).0 ≡ true
    → let c' = (read_on max_packets now c o).1 in
      (2 < c'.msg.length)
      × (c'.msg.length + 14 < networkmessage_maxsize)
      × (c'.packets_sent / time_passed c now ≤ max_packets)
unfolding read_on
read_on_bounds max_packets now c none b h = absurd (cc)
read_on_bounds max_packets now c (some m) b h = elim (Bool-cases c.is_open) [
  | inl o ↦
      let k : (count_packet max_packets now c).0 ≡ true = ground arith in
      simp (o, k) ((b m refl).0, (b m refl).1, count_packet_limit max_packets now c k)
  | inr o ↦ absurd (ground arith)
]

-- Where a packet is read on, its body fits in the buffer behind the header: the length that is set
-- counts the two bytes of the header and ends fifteen bytes before the end of the buffer or earlier;
-- and the packets counted stand within the limit for the seconds that have passed.
pub parse_header_bounds :
    (error : Bool) (max_packets now : ℕ) (c : Connection)
    → (parse_header error max_packets now c).0 ≡ true
    → let c' = (parse_header error max_packets now c).1 in
      (2 < c'.msg.length)
      × (c'.msg.length + 14 < networkmessage_maxsize)
      × (c'.packets_sent / time_passed c now ≤ max_packets)
unfolding parse_header
parse_header_bounds error max_packets now c h =
    read_on_bounds max_packets now c (if error then none else read_header c.msg)
      (λ m e. elim (Bool-cases error) [
        | inl x ↦ absurd (ground arith)
        | inr x ↦ read_header_bounds c.msg m (ground arith)
      ])
      h
