-- ===== src/Network/Message.antt =====
-- src/networkmessage.h and src/networkmessage.cpp: the message buffer with its read and write
-- functions. `length` and `position` are `uint16_t`. The test of `canAdd` adds in `size_t`, which has
-- 64 bits, so it wraps around; that of `canRead` is made in `int`, which its sizes of at most 65535
-- do not leave. It takes differences in `int`, which are written as sums
-- here, so that a negative one is compared as in the source. `getPosition` and `addPosition` use the
-- fields of `Position`. Not modelled: `addDouble` (floating point) and `addItem`, which reads the
-- item table.
pub mod RoundTrip
pub mod Safety
use theforgottenserver.Prelude.{
  ℕ, zero, suc, ◌+◌, ◌*◌, ◌%◌, ◌^◌, Bool, true, false, ◌||◌, ◌&&◌, not, List, [], ◌∷◌, ltb, leb,
  ◌==◌, if◌then◌else◌, length, wrap16, bit_or,
}
use theforgottenserver.Network.Memory.{Buffer, load_bytes, store_bytes, le_bytes, le_value}

abbrev pub networkmessage_maxsize : ℕ
networkmessage_maxsize = 24590

-- `NETWORKMESSAGE_MAXSIZE - HEADER_LENGTH - CHECKSUM_LENGTH - XTEA_MULTIPLE`
abbrev pub max_body_length : ℕ
max_body_length = 24576

abbrev pub initial_buffer_position : ℕ
initial_buffer_position = 4

pub record NetworkMessage : Type 0 where
  pub length : ℕ
  pub position : ℕ
  pub overrun : Bool
  pub buffer : Buffer

pub reset : NetworkMessage → NetworkMessage
reset m = record m { overrun = false; length = 0; position = initial_buffer_position }

abbrev pub can_add : NetworkMessage → ℕ → Bool
can_add m size = ltb ((size + m.position) % 2 ^ 64) max_body_length

abbrev pub can_read : NetworkMessage → ℕ → Bool
can_read m size =
    not (ltb (m.length + 4) (m.position + size) || leb networkmessage_maxsize (size + m.position))

-- `buffer[position++]` after the test, which sets `overrun` if it fails.
unfoldable pub get_byte : NetworkMessage → ℕ × NetworkMessage
get_byte m =
    if can_read m 1
    then (m.buffer m.position, record m { position = wrap16 (m.position + 1) })
    else (0, record m { overrun = true })

-- `return buffer[--position]`
unfoldable pub get_previous_byte : NetworkMessage → ℕ × NetworkMessage
get_previous_byte m = let p = wrap16 (m.position + 65535) in (m.buffer p, record m { position = p })

-- `get<T>` for an unsigned `T` of `size` bytes.
unfoldable pub get : ℕ → NetworkMessage → ℕ × NetworkMessage
get size m =
    if can_read m size
    then (
      le_value (load_bytes m.buffer m.position size),
      record m { position = wrap16 (m.position + size) },
    )
    else (0, record m { overrun = true })

-- The part of `getString` below the choice of the length.
unfoldable pub get_chars : ℕ → NetworkMessage → List ℕ × NetworkMessage
get_chars n m =
    if can_read m n
    then (load_bytes m.buffer m.position n, record m { position = wrap16 (m.position + n) })
    else ([], record m { overrun = true })

unfoldable pub get_string : ℕ → NetworkMessage → List ℕ × NetworkMessage
unfolding get_chars
get_string string_len m =
    if string_len == 0 then (let (n, m') = get 2 m in get_chars n m') else get_chars string_len m

pub record Position : Type 0 where
  pub x : ℕ
  pub y : ℕ
  pub z : ℕ

unfoldable pub get_position : NetworkMessage → Position × NetworkMessage
get_position m =
    let (x, m1) = get 2 m in
    let (y, m2) = get 2 m1 in let (z, m3) = get_byte m2 in (record { x = x; y = y; z = z }, m3)

-- `count` is the 16-bit pattern of the `int16_t`, so a negative one goes back.
pub skip_bytes : ℕ → NetworkMessage → NetworkMessage
skip_bytes count m = record m { position = wrap16 (m.position + count) }

-- The writes below end in this one: `memcpy` to the position, and both counters move on.
unfoldable pub put : List ℕ → NetworkMessage → NetworkMessage
put xs m = record m {
  buffer = store_bytes m.buffer m.position xs;
  position = wrap16 (m.position + length xs);
  length = wrap16 (m.length + length xs);
}

unfoldable pub add_byte : ℕ → NetworkMessage → NetworkMessage
unfolding put
add_byte value m = if can_add m 1 then put (value ∷ []) m else m

-- `add<T>` for an unsigned `T` of `size` bytes.
unfoldable pub add : ℕ → ℕ → NetworkMessage → NetworkMessage
unfolding put
add size value m = if can_add m size then put (le_bytes size value) m else m

unfoldable pub add_string : List ℕ → NetworkMessage → NetworkMessage
unfolding put
add_string value m =
    if not (can_add m (length value + 2)) || ltb 8192 (length value)
    then m
    else put value (add 2 (length value) m)

unfoldable pub add_bytes : List ℕ → NetworkMessage → NetworkMessage
unfolding put
add_bytes bytes m =
    if not (can_add m (length bytes)) || ltb 8192 (length bytes) then m else put bytes m

abbrev pub padding : ℕ → List ℕ
padding zero = []
padding (suc n) = 0x33 ∷ padding n

-- `memset(buffer + position, 0x33, n); length += n;`: the position stays.
unfoldable pub add_padding_bytes : ℕ → NetworkMessage → NetworkMessage
add_padding_bytes n m =
    if can_add m n
    then record m {
      buffer = store_bytes m.buffer m.position (padding n);
      length = wrap16 (m.length + n);
    }
    else m

unfoldable pub add_position : Position → NetworkMessage → NetworkMessage
add_position pos m = add_byte pos.z (add 2 pos.y (add 2 pos.x m))

-- `length = buffer[0] | buffer[1] << 8`
unfoldable pub decode_header : NetworkMessage → ℕ × NetworkMessage
decode_header m =
    let new_size = bit_or (m.buffer 0) (m.buffer 1 * 256) in
    let m' = record m { length = wrap16 new_size } in (m'.length, m')

-- `getBodyBuffer` moves the position; the address that it returns is 2.
unfoldable pub get_body_buffer : NetworkMessage → NetworkMessage
get_body_buffer m = record m { position = 2 }
