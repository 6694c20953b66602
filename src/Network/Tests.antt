-- ===== src/Network/Tests.antt =====
-- The theorems on messages, the cipher and the transport at concrete inputs.
use theforgottenserver.Prelude.{
  ℕ, ◌≡◌, ◌≤◌, ◌<◌, ◌+◌, ◌/◌, ◌==◌, if◌then◌else◌, ◌⊎◌, refl, ap, true, false, List, [], ◌∷◌, some,
  arith,
}
use theforgottenserver.Network.Memory.{Buffer, load_bytes, store_bytes, HoldsBytes}
use theforgottenserver.Network.Message.{
  NetworkMessage, Position, decode_header, add, get, get_string, add_string, get_position,
  add_position,
}
use theforgottenserver.Network.Message.RoundTrip.{
  IsWriting, rewind, get-add, get_string-add_string, get_position-add_position,
}
use theforgottenserver.Network.Message.Safety.{Write, Within, writes, writes-Within, get_cases}
use theforgottenserver.Network.Xtea.{Key, Block, encrypt_block, decrypt_block}
use theforgottenserver.Network.Xtea.Inverse.{decrypt_block-encrypt_block}
use theforgottenserver.Network.Protocol.Limits.{parse_header_bounds, parse_header-is_open}
use theforgottenserver.Network.Protocol.{
  Connection, parse_header, read_on, count_packet, time_passed, crypt_loop, on_send_message,
  read_header, on_recv_message,
}
use theforgottenserver.Network.Protocol.Blocks.{Agree, decrypt_loop-encrypt_loop}
use theforgottenserver.Network.Protocol.Transport.{ready, on_send_message_lem}
use theforgottenserver.Network.Protocol.Receive.{recv-send_message}

abbrev blank : NetworkMessage
blank = record { length = 0; position = 4; overrun = false; buffer = λ _. 0 }

blank-IsWriting : IsWriting blank
blank-IsWriting = omega arith

get-add_example : get 4 (rewind (add 4 70000 blank) 4) ≡ (70000, add 4 70000 blank)
get-add_example = get-add 4 70000 blank blank-IsWriting (omega arith) (omega arith)

abbrev name : List ℕ
name = 66 ∷ 111 ∷ 98 ∷ []

get_string-add_string_example :
    get_string 0 (rewind (add_string name blank) 4) ≡ (name, add_string name blank)
get_string-add_string_example =
    get_string-add_string name blank blank-IsWriting (omega arith) (omega arith)

abbrev temple : Position
temple = record { x = 32097; y = 32219; z = 7 }

get_position-add_position_example :
    get_position (rewind (add_position temple blank) 4) ≡ (temple, add_position temple blank)
get_position-add_position_example =
    get_position-add_position temple blank blank-IsWriting (omega arith) (omega arith) (omega arith)

abbrev packet : List Write
packet = Write.byte 0x64 ∷ Write.place temple ∷ Write.string name ∷ Write.pad 3 ∷ []

writes-Within_example : Within blank (writes packet blank)
writes-Within_example =
    writes-Within packet blank (tt, (tt, (omega arith, (omega arith, tt)))) (omega arith)

-- A message of 2 bytes of which 4 are asked.
abbrev short : NetworkMessage
short = record blank { length = 2 }

get_cases_example :
    ((get 4 short).1.buffer ≡ short.buffer)
    × ((get 4 short).1.length ≡ 2)
    × ((((get 4 short).1.position ≡ 8) × (8 ≤ 6) × (8 < 24590) × ((get 4 short).1.overrun ≡ false))
        ⊎ (((get 4 short).0 ≡ 0)
            × ((get 4 short).1.position ≡ 4)
            × ((6 < 8) ⊎ (24590 ≤ 8))
            × ((get 4 short).1.overrun ≡ true)))
get_cases_example = get_cases 4 short

abbrev key : Key
key = record { k0 = 0x01020304; k1 = 0x05060708; k2 = 0x090a0b0c; k3 = 0xfffefdfc }

abbrev block : Block
block = record { w0 = 0x48656c6c; w1 = 0xff6f2c20 }

decrypt_block-encrypt_block_example : decrypt_block key (encrypt_block key block) ≡ block
decrypt_block-encrypt_block_example =
    decrypt_block-encrypt_block key block (omega arith, omega arith)

-- The three bytes of `name` behind the two headers.
abbrev body : Buffer
body = store_bytes (λ _. 0) 4 name

body-HoldsBytes : HoldsBytes body
unfolding store_bytes
body-HoldsBytes i = ground arith

abbrev sent : NetworkMessage
sent = (on_send_message false true key (ready 3 false body)).message

sent_start : (on_send_message false true key (ready 3 false body)).output_buffer_start ≡ 0
sent_start = ap (λ o. o.output_buffer_start) (on_send_message_lem key 3 false (omega arith) body)

recv-send_message_example :
    (m : NetworkMessage) × (r : NetworkMessage) × (read_header sent ≡ some m)
    × (on_recv_message true key m ≡ some r)
    × (r.length ≡ 3)
    × (r.position ≡ 4)
    × (load_bytes r.buffer 4 3 ≡ load_bytes body 4 3)
recv-send_message_example =
    recv-send_message key 3 false body sent (omega arith) body-HoldsBytes
      (λ i h. ap sent.buffer (omega (arith, sent_start)))

-- The loops over the encrypted buffer, with nothing changed on the way.
decrypt_loop-encrypt_loop_example :
    Agree 2
      (2 + 8)
      (crypt_loop 9 (decrypt_block key) 2 0 8 (crypt_loop 9 (encrypt_block key) 2 0 8 body))
      body
decrypt_loop-encrypt_loop_example =
    decrypt_loop-encrypt_loop key 9 9 2 8 body (crypt_loop 9 (encrypt_block key) 2 0 8 body)
      body-HoldsBytes (omega arith) (omega arith) (omega arith) (λ i lo hi. refl)

-- A header of ten bytes at the fourth packet of the first second.
abbrev conn : Connection
conn = record {
  msg = record {
    buffer = λ i. if i == 0 then 10 else 0;
    length = 0;
    position = 2;
    overrun = false;
  };
  is_open = true;
  packets_sent = 3;
  time_connected = 50;
}

conn_read : (parse_header false 25 50 conn).0 ≡ true
unfolding parse_header read_header read_on count_packet time_passed decode_header
conn_read = refl

parse_header_bounds_example :
    let c' = (parse_header false 25 50 conn).1 in
    (2 < c'.msg.length)
    × (c'.msg.length + 14 < 24590)
    × (c'.packets_sent / time_passed conn 50 ≤ 25)
parse_header_bounds_example = parse_header_bounds false 25 50 conn conn_read

parse_header-is_open_example :
    (parse_header false 25 50 conn).1.is_open ≡ (parse_header false 25 50 conn).0
parse_header-is_open_example = parse_header-is_open false 25 50 conn
