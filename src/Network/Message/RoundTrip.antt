-- ===== src/Network/Message/RoundTrip.antt =====
-- What is written can be read back.
use theforgottenserver.Prelude.{
  ℕ, ◌+◌, ◌^◌, ◌≤◌, ◌<◌, ◌≡◌, inl, true, false, List, [], ◌∷◌, arith, length, ◌∙◌, wrap16, ltb,
}
use theforgottenserver.Network.Memory.{
  load_bytes, store_bytes, le_bytes, le_value, length-le_bytes, le_value-le_bytes,
  load_bytes-store_bytes, load_bytes-store_bytes_le, load_bytes-store_bytes_apart, store_bytes_one,
}
use theforgottenserver.Network.Message.{
  NetworkMessage, Position, can_add, can_read, get_byte, get, get_chars, get_string, get_position,
  put, add_byte, add, add_string, add_position, max_body_length,
}

-- The writer stands behind what it has written: `position` is `length + 4`, and in the buffer.
pub record IsWriting (m : NetworkMessage) : Type 0 where
  pub aligned : m.position ≡ m.length + 4
  pub inside : m.position ≤ max_body_length

-- The reader of what was written to `m` since it stood at `from`.
abbrev pub rewind : NetworkMessage → ℕ → NetworkMessage
rewind m from = record m { position = from }

-- The writes and reads where they have room, without the wrap-around.
abbrev pub wrote : List ℕ → NetworkMessage → NetworkMessage
wrote xs m = record m {
  buffer = store_bytes m.buffer m.position xs;
  position = m.position + length xs;
  length = m.length + length xs;
}

pub put_lem :
    (xs : List ℕ) (m : NetworkMessage)
    → IsWriting m
    → m.position + length xs ≤ max_body_length
    → put xs m ≡ wrote xs m
unfolding put
put_lem xs m w h =
    let e : wrap16 (m.position + length xs) ≡ m.position + length xs = omega arith in
    let e' : wrap16 (m.length + length xs) ≡ m.length + length xs = omega arith in rw (e, e')

pub wrote-IsWriting :
    (xs : List ℕ) (m : NetworkMessage)
    → IsWriting m
    → m.position + length xs ≤ max_body_length
    → IsWriting (wrote xs m)
wrote-IsWriting xs m w h = omega arith

pub add_byte_lem :
    (v : ℕ) (m : NetworkMessage)
    → IsWriting m
    → m.position + 1 < max_body_length
    → add_byte v m ≡ wrote (v ∷ []) m
unfolding add_byte
add_byte_lem v m w h =
    let e : can_add m 1 ≡ true = ground arith in rw e (put_lem (v ∷ []) m w (omega arith))

pub add_lem :
    (size v : ℕ) (m : NetworkMessage)
    → IsWriting m
    → m.position + size < max_body_length
    → add size v m ≡ wrote (le_bytes size v) m
unfolding add
add_lem size v m w h =
    let e : can_add m size ≡ true = ground arith in
    rw e (put_lem (le_bytes size v) m w (omega (arith, length-le_bytes size v)))

pub get_lem :
    (size : ℕ) (m : NetworkMessage)
    → m.position + size ≤ m.length + 4
    → m.position + size < 24590
    → get size m
      ≡ (le_value (load_bytes m.buffer m.position size), record m { position = m.position + size })
unfolding get
get_lem size m h fits =
    let e : can_read m size ≡ true = ground arith in
    let e' : wrap16 (m.position + size) ≡ m.position + size = omega arith in rw (e, e')

pub get_chars_lem :
    (n : ℕ) (m : NetworkMessage)
    → m.position + n ≤ m.length + 4
    → m.position + n < 24590
    → get_chars n m ≡ (load_bytes m.buffer m.position n, record m { position = m.position + n })
unfolding get_chars
get_chars_lem n m h fits =
    let e : can_read m n ≡ true = ground arith in
    let e' : wrap16 (m.position + n) ≡ m.position + n = omega arith in rw (e, e')

pub get_byte_lem :
    (m : NetworkMessage)
    → m.position + 1 ≤ m.length + 4
    → m.position + 1 < 24590
    → get_byte m ≡ (m.buffer m.position, record m { position = m.position + 1 })
unfolding get_byte
get_byte_lem m h fits =
    let e : can_read m 1 ≡ true = ground arith in
    let e' : wrap16 (m.position + 1) ≡ m.position + 1 = omega arith in rw (e, e')

-- An unsigned integer of any width that `add` has written is what `get` reads at the same place, and
-- the reader is then where the writer is.
pub get-add :
    (size v : ℕ) (m : NetworkMessage)
    → IsWriting m
    → v < 256 ^ size
    → m.position + size < max_body_length
    → get size (rewind (add size v m) m.position) ≡ (v, add size v m)
get-add size v m w fits room =
    let len = length-le_bytes size v in
    rw (
      add_lem size v m w room,
      get_lem size (rewind (wrote (le_bytes size v) m) m.position) (omega arith) (omega arith),
      load_bytes-store_bytes_le m.buffer m.position size v,
      le_value-le_bytes size v fits,
      len,
    )

-- The fields of a message that holds a length-prefixed string.
pub add_string_lem :
    (s : List ℕ) (m : NetworkMessage)
    → IsWriting m
    → length s ≤ 8192
    → m.position + length s + 2 < max_body_length
    → add_string s m ≡ wrote s (wrote (le_bytes 2 (length s)) m)
unfolding add_string
add_string_lem s m w short room =
    let len = length-le_bytes 2 (length s) in
    let e : can_add m (length s + 2) ≡ true = ground arith in
    let e' : ltb 8192 (length s) ≡ false = ground arith in
    let w' = wrote-IsWriting (le_bytes 2 (length s)) m w (omega (arith, len)) in
    rw (e, e', add_lem 2 (length s) m w (omega arith))
      (put_lem s (wrote (le_bytes 2 (length s)) m) w' (omega (arith, len)))

-- A string of up to 8192 bytes that fits is read back whole by `getString()`.
pub get_string-add_string :
    (s : List ℕ) (m : NetworkMessage)
    → IsWriting m
    → length s ≤ 8192
    → m.position + length s + 2 < max_body_length
    → get_string 0 (rewind (add_string s m) m.position) ≡ (s, add_string s m)
unfolding get_string
get_string-add_string s m w short room =
    let len = length-le_bytes 2 (length s) in
    let m1 = wrote (le_bytes 2 (length s)) m in
    let m2 = wrote s m1 in
    let prefix : load_bytes m2.buffer m.position 2 ≡ le_bytes 2 (length s) =
      load_bytes-store_bytes_apart m1.buffer m1.position s m.position 2 (inl (omega (arith, len)))
      ∙ load_bytes-store_bytes_le m.buffer m.position 2 (length s) in
    let at2 : m.position + 2 ≡ m1.position = omega (arith, len) in
    rw (
      add_string_lem s m w short room,
      get_lem 2 (rewind m2 m.position) (omega (arith, len)) (omega arith),
      prefix,
      le_value-le_bytes 2 (length s) (omega arith),
      at2,
      get_chars_lem (length s) (rewind m2 m1.position) (omega (arith, len)) (omega (arith, len)),
      load_bytes-store_bytes m1.buffer m1.position s,
    )

-- A position written by `addPosition` is what `getPosition` reads at the same place.
pub get_position-add_position :
    (p : Position) (m : NetworkMessage)
    → IsWriting m
    → p.x < 65536
    → p.y < 65536
    → m.position + 5 < max_body_length
    → get_position (rewind (add_position p m) m.position) ≡ (p, add_position p m)
unfolding get_position add_position
get_position-add_position p m w hx hy room =
    let lx = length-le_bytes 2 p.x in
    let ly = length-le_bytes 2 p.y in
    let m1 = wrote (le_bytes 2 p.x) m in
    let m2 = wrote (le_bytes 2 p.y) m1 in
    let m3 = wrote (p.z ∷ []) m2 in
    let w1 = wrote-IsWriting (le_bytes 2 p.x) m w (omega (arith, lx)) in
    let w2 = wrote-IsWriting (le_bytes 2 p.y) m1 w1 (omega (arith, lx, ly)) in
    let at_x : load_bytes m3.buffer m.position 2 ≡ le_bytes 2 p.x =
      load_bytes-store_bytes_apart m2.buffer m2.position (p.z ∷ []) m.position 2
        (inl (omega (arith, lx, ly)))
      ∙ load_bytes-store_bytes_apart m1.buffer m1.position (le_bytes 2 p.y) m.position 2
          (inl (omega (arith, lx)))
      ∙ load_bytes-store_bytes_le m.buffer m.position 2 p.x in
    let at_y : load_bytes m3.buffer m1.position 2 ≡ le_bytes 2 p.y =
      load_bytes-store_bytes_apart m2.buffer m2.position (p.z ∷ []) m1.position 2
        (inl (omega (arith, lx, ly)))
      ∙ load_bytes-store_bytes_le m1.buffer m1.position 2 p.y in
    let at_z : m3.buffer m2.position ≡ p.z = store_bytes_one m2.buffer m2.position p.z in
    let e1 : m.position + 2 ≡ m1.position = omega (arith, lx) in
    let e2 : m1.position + 2 ≡ m2.position = omega (arith, ly) in
    rw (
      add_lem 2 p.x m w (omega arith),
      add_lem 2 p.y m1 w1 (omega (arith, lx)),
      add_byte_lem p.z m2 w2 (omega (arith, lx, ly)),
      get_lem 2 (rewind m3 m.position) (omega (arith, lx, ly)) (omega arith),
      at_x,
      le_value-le_bytes 2 p.x (omega arith),
      e1,
      get_lem 2 (rewind m3 m1.position) (omega (arith, lx, ly)) (omega (arith, lx)),
      at_y,
      le_value-le_bytes 2 p.y (omega arith),
      e2,
      get_byte_lem (rewind m3 m2.position) (omega (arith, lx, ly)) (omega (arith, lx, ly)),
      at_z,
    )
