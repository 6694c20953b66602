-- ===== src/Network/Protocol.antt =====
-- src/outputmessage.h and src/protocol.cpp: the length headers of an outgoing message, the loops of
-- `XTEA_encrypt` and `XTEA_decrypt` over a buffer, `onSendMessage` and `onRecvMessage`; and
-- `Connection::parseHeader` (src/connection.cpp), which sets the length of what is received.
-- RSA decryption is a library's and is not modelled.
pub mod Blocks
pub mod Transport
pub mod Receive
pub mod Limits
use theforgottenserver.Prelude.{
  ℕ, zero, suc, ◌+◌, ◌-◌, ◌*◌, ◌/◌, ◌%◌, Bool, true, false, Option, none, some, List, [], ◌∷◌, ltb,
  leb, ◌==◌, if◌then◌else◌, length, wrap16, wrap32, ◌^◌, max, not,
}
use theforgottenserver.Network.Memory.{Buffer, load_bytes, store_bytes, le_bytes, le_value}
use theforgottenserver.Network.Message.{
  NetworkMessage, add_padding_bytes, get, decode_header, get_body_buffer, networkmessage_maxsize,
}
use theforgottenserver.Network.Xtea.{Key, Block, encrypt_block, decrypt_block}

pub record OutputMessage : Type 0 where
  pub message : NetworkMessage
  pub output_buffer_start : ℕ

-- `add_header` at `uint16_t`: the header goes in front of what the buffer holds.
pub write_message_length : OutputMessage → OutputMessage
write_message_length o =
    let start = wrap16 (o.output_buffer_start + 65534) in
    let m = o.message in
    record {
      message = record m {
        buffer = store_bytes m.buffer start (le_bytes 2 m.length);
        length = wrap16 (m.length + 2);
      };
      output_buffer_start = start;
    }

abbrev pub load32 : Buffer → ℕ → ℕ
load32 b p = le_value (load_bytes b p 4)

abbrev pub store32 : Buffer → ℕ → ℕ → Buffer
store32 b p v = store_bytes b p (le_bytes 4 v)

abbrev pub block_at : Buffer → ℕ → Block
block_at b p = record { w0 = load32 b p; w1 = load32 b (p + 4) }

-- The body of the loops: both words are read, and written back when all rounds are done.
pub crypt_at : (Block → Block) → Buffer → ℕ → Buffer
crypt_at f b p = let v = f (block_at b p) in store32 (store32 b p v.w0) (p + 4) v.w1

-- `while (readPos < messageLength)`, on fuel.
pub crypt_loop : ℕ → (Block → Block) → ℕ → ℕ → ℕ → Buffer → Buffer
crypt_loop zero f start read_pos message_length b = b
crypt_loop (suc fuel) f start read_pos message_length b =
    let rest =
      crypt_loop fuel f start (read_pos + 8) message_length (crypt_at f b (start + read_pos)) in
    if ltb read_pos message_length then rest else b

-- `XTEA_encrypt`, with the padding to a multiple of 8.
pub xtea_encrypt : Key → OutputMessage → OutputMessage
xtea_encrypt k o =
    let padding_bytes = o.message.length % 8 in
    let m =
      if padding_bytes == 0 then o.message else add_padding_bytes (8 - padding_bytes) o.message in
    record o {
      message = record m {
        buffer =
            crypt_loop (suc m.length) (encrypt_block k) o.output_buffer_start 0 m.length m.buffer;
      };
    }

-- `Protocol::onSendMessage`
pub on_send_message : Bool → Bool → Key → OutputMessage → OutputMessage
on_send_message raw_messages encryption_enabled k o =
    if raw_messages
    then o
    else (let o' = write_message_length o in
        if encryption_enabled then write_message_length (xtea_encrypt k o') else o')

-- `XTEA_decrypt`: `(length - 2) & 7`, an `int`, is the remainder by 8 of `length - 2`, also below 0.
pub xtea_decrypt : Key → NetworkMessage → Bool × NetworkMessage
xtea_decrypt k m =
    if (m.length + 6) % 8 == 0
    then (let b =
          crypt_loop (suc m.length) (decrypt_block k) m.position 0 (m.length - 2) m.buffer in
        let (inner_length, m') = get 2 (record m { buffer = b }) in
        if ltb m'.length (inner_length + 4)
        then (false, m')
        else (true, record m' { length = wrap16 inner_length }))
    else (false, m)

-- `Protocol::onRecvMessage`: the message that is handed to `parsePacket`, if any.
pub on_recv_message : Bool → Key → NetworkMessage → Option NetworkMessage
on_recv_message encryption_enabled k m =
    if encryption_enabled
    then (let (ok, m') = xtea_decrypt k m in if ok then some m' else none)
    else some m

-- The part of `parseHeader` that decodes the header, refuses sizes out of range, and sets the
-- length and the position of the body.
unfoldable pub read_header : NetworkMessage → Option NetworkMessage
read_header m =
    let (size, m') = decode_header m in
    if size == 0
    then none
    else if leb (networkmessage_maxsize - 16) size
    then none
    else some (get_body_buffer (record m' { length = wrap16 (size + 2) }))

-- What `Connection::parseHeader` reads and writes beside the message; times are in seconds.
pub record Connection : Type 0 where
  pub msg : NetworkMessage
  pub is_open : Bool
  pub packets_sent : ℕ
  pub time_connected : ℕ

-- `std::max<uint32_t>(1, (time(nullptr) - timeConnected) + 1)`
unfoldable pub time_passed : Connection → ℕ → ℕ
time_passed c now = max 1 (wrap32 (now + 1 + 2 ^ 32 - c.time_connected % 2 ^ 32))

-- The packet counter: refused if the mean over the time passed is above the limit.
unfoldable pub count_packet : ℕ → ℕ → Connection → Bool × Connection
count_packet max_packets now c =
    let passed = time_passed c now in
    let sent = wrap32 (c.packets_sent + 1) in
    if ltb max_packets (sent / passed)
    then (false, record c { packets_sent = sent; is_open = false })
    else if ltb 2 passed
    then (true, record c { packets_sent = 0; time_connected = now })
    else (true, record c { packets_sent = sent })

-- The rest of `parseHeader`, once the size has been tested: the connection has been closed if the
-- test has failed.
unfoldable pub read_on : ℕ → ℕ → Connection → Option NetworkMessage → Bool × Connection
read_on max_packets now c none =
    (false, record c { msg = (decode_header c.msg).1; is_open = false })
read_on max_packets now c (some m) =
    if not c.is_open
    then (false, record c { msg = (decode_header c.msg).1 })
    else (let (ok, c') = count_packet max_packets now c in
        (ok, record c' { msg = if ok then m else (decode_header c.msg).1 }))

-- `Connection::parseHeader`: true if the body of a packet is to be read next.
unfoldable pub parse_header : Bool → ℕ → ℕ → Connection → Bool × Connection
parse_header error max_packets now c =
    read_on max_packets now c (if error then none else read_header c.msg)
