-- ===== src/Network/Message/Safety.antt =====
-- Bounds: no sequence of writes leaves the buffer, and no read passes the end of the message.
use theforgottenserver.Prelude.{
  ℕ, ◌^◌, zero, suc, ◌+◌, ◌≤◌, ◌<◌, ◌≡◌, refl, ◌⊎◌, inl, inr, true, List, [], ◌∷◌, arith, length,
  ap, ◌∙◌, Bool-cases, ltb, not, ◌||◌,
}
use theforgottenserver.Network.Memory.{le_bytes, length-le_bytes, store_bytes_outside}
use theforgottenserver.Network.Message.{
  NetworkMessage, Position, can_add, can_read, get, put, add_byte, add, add_string, add_bytes,
  add_position, add_padding_bytes, padding, max_body_length, networkmessage_maxsize,
}

pub data Write : Type 0 where
  byte : ℕ → Write
  word : ℕ → ℕ → Write
  string : List ℕ → Write
  bytes : List ℕ → Write
  pad : ℕ → Write
  place : Position → Write

unfoldable pub write : Write → NetworkMessage → NetworkMessage
write (byte v) m = add_byte v m
write (word size v) m = add size v m
write (string s) m = add_string s m
write (bytes s) m = add_bytes s m
write (pad n) m = add_padding_bytes n m
write (place p) m = add_position p m

unfoldable pub writes : List Write → NetworkMessage → NetworkMessage
writes [] m = m
writes (w ∷ ws) m = writes ws (write w m)

-- The sizes of things in memory: less than 2 ^ 63 bytes.
abbrev pub IsSized : Write → Type 0
IsSized (byte v) = Unit
IsSized (word size v) = size < 2 ^ 63
IsSized (string s) = length s < 2 ^ 63
IsSized (bytes s) = length s < 2 ^ 63
IsSized (pad n) = n < 2 ^ 63
IsSized (place p) = Unit

abbrev pub AreSized : List Write → Type 0
AreSized [] = Unit
AreSized (w ∷ ws) = IsSized w × AreSized ws

-- `m'` comes from `m` by stores between `m`'s position and the end of the body.
pub record Within (m m' : NetworkMessage) : Type 0 where
  pub forward : m.position ≤ m'.position
  pub inside : m'.position ≤ max_body_length
  pub untouched : (i : ℕ) → (i < m.position) ⊎ (max_body_length ≤ i) → m'.buffer i ≡ m.buffer i

Within-refl : (m : NetworkMessage) → m.position ≤ max_body_length → Within m m
Within-refl m h = record { forward = omega arith; inside = h; untouched = λ i _. refl }

Within-trans : (m m' m'' : NetworkMessage) → Within m m' → Within m' m'' → Within m m''
Within-trans m m' m'' a b = record {
  forward = omega arith;
  inside = b.inside;
  untouched = λ i h. b.untouched i (grind arith) ∙ a.untouched i h;
}

put-Within :
    (xs : List ℕ) (m : NetworkMessage)
    → m.position + length xs ≤ max_body_length
    → Within m (put xs m)
unfolding put
put-Within xs m h = record {
  forward = omega arith;
  inside = omega arith;
  untouched = λ i o. store_bytes_outside m.buffer m.position xs i (grind arith);
}

add-Within :
    (size v : ℕ) (m : NetworkMessage)
    → size < 2 ^ 63
    → m.position ≤ max_body_length
    → Within m (add size v m)
unfolding add
add-Within size v m z h = elim (Bool-cases (can_add m size)) [
  | inl e ↦ rw e (put-Within (le_bytes size v) m (ground (arith, length-le_bytes size v)))
  | inr e ↦ rw e (Within-refl m h)
]

add_byte-Within :
    (v : ℕ) (m : NetworkMessage) → m.position ≤ max_body_length → Within m (add_byte v m)
unfolding add_byte
add_byte-Within v m h = elim (Bool-cases (can_add m 1)) [
  | inl e ↦ rw e (put-Within (v ∷ []) m (ground arith))
  | inr e ↦ rw e (Within-refl m h)
]

add_bytes-Within :
    (s : List ℕ) (m : NetworkMessage)
    → length s < 2 ^ 63
    → m.position ≤ max_body_length
    → Within m (add_bytes s m)
unfolding add_bytes
add_bytes-Within s m z h = elim (Bool-cases (not (can_add m (length s)) || ltb 8192 (length s))) [
  | inl e ↦ rw e (Within-refl m h)
  | inr e ↦ rw e (put-Within s m (ground arith))
]

add-position-le : (size v : ℕ) (m : NetworkMessage) → (add size v m).position ≤ m.position + size
unfolding add put
add-position-le size v m = ground (arith, length-le_bytes size v)

add_string-Within :
    (s : List ℕ) (m : NetworkMessage)
    → length s < 2 ^ 63
    → m.position ≤ max_body_length
    → Within m (add_string s m)
unfolding add_string
add_string-Within s m z h =
    elim (Bool-cases (not (can_add m (length s + 2)) || ltb 8192 (length s))) [
      | inl e ↦ rw e (Within-refl m h)
      | inr e ↦ rw e (
          Within-trans m (add 2 (length s) m) (put s (add 2 (length s) m))
            (add-Within 2 (length s) m (omega arith) h)
            (put-Within s (add 2 (length s) m) (ground (arith, add-position-le 2 (length s) m, e))))
    ]

pub length-padding : (n : ℕ) → length (padding n) ≡ n
length-padding zero = refl
length-padding (suc n) = ap suc (length-padding n)

add_padding_bytes-Within :
    (n : ℕ) (m : NetworkMessage)
    → n < 2 ^ 63
    → m.position ≤ max_body_length
    → Within m (add_padding_bytes n m)
unfolding add_padding_bytes
add_padding_bytes-Within n m z h = elim (Bool-cases (can_add m n)) [
  | inl e ↦ rw e (record {
    forward = omega arith;
    inside = h;
    untouched = λ i o.
        store_bytes_outside m.buffer m.position (padding n) i (ground (arith, length-padding n));
  })
  | inr e ↦ rw e (Within-refl m h)
]

add_position-Within :
    (p : Position) (m : NetworkMessage) → m.position ≤ max_body_length → Within m (add_position p m)
unfolding add_position
add_position-Within p m h =
    let a = add-Within 2 p.x m (omega arith) h in
    let b = add-Within 2 p.y (add 2 p.x m) (omega arith) a.inside in
    let c = add_byte-Within p.z (add 2 p.y (add 2 p.x m)) b.inside in
    Within-trans _ _ _ a (Within-trans _ _ _ b c)

write-Within :
    (w : Write) (m : NetworkMessage)
    → IsSized w
    → m.position ≤ max_body_length
    → Within m (write w m)
unfolding write
write-Within (byte v) m z h = add_byte-Within v m h
write-Within (word size v) m z h = add-Within size v m z h
write-Within (string s) m z h = add_string-Within s m z h
write-Within (bytes s) m z h = add_bytes-Within s m z h
write-Within (pad n) m z h = add_padding_bytes-Within n m z h
write-Within (place p) m z h = add_position-Within p m h

-- Any sequence of writes, each of less than 2 ^ 63 bytes, to a message whose position is at most
-- `MAX_BODY_LENGTH`, changes no byte before that position and none from `MAX_BODY_LENGTH` on, and
-- leaves the position between these two.
pub writes-Within :
    (ws : List Write) (m : NetworkMessage)
    → AreSized ws
    → m.position ≤ max_body_length
    → Within m (writes ws m)
unfolding writes
writes-Within [] m z h = Within-refl m h
writes-Within (w ∷ ws) m (z, zs) h =
    let a = write-Within w m z h in Within-trans _ _ _ a (writes-Within ws (write w m) zs a.inside)

-- A read gives bytes of the message only: it either moves on by `size`, staying within `length + 4`
-- and inside the buffer, or returns 0, stays where it is and sets `overrun`. The bytes and the length
-- are left alone.
pub get_cases :
    (size : ℕ) (m : NetworkMessage)
    → ((get size m).1.buffer ≡ m.buffer)
      × ((get size m).1.length ≡ m.length)
      × ((((get size m).1.position ≡ m.position + size)
            × (m.position + size ≤ m.length + 4)
            × (m.position + size < networkmessage_maxsize)
            × ((get size m).1.overrun ≡ m.overrun))
          ⊎ (((get size m).0 ≡ 0)
              × ((get size m).1.position ≡ m.position)
              × ((m.length + 4 < m.position + size) ⊎ (networkmessage_maxsize ≤ m.position + size))
              × ((get size m).1.overrun ≡ true)))
unfolding get
get_cases size m = elim (Bool-cases (can_read m size)) [
  | inl e ↦ rw e (refl, refl, inl (ground arith, ground arith, ground arith, refl))
  | inr e ↦ rw e (refl, refl, inr (refl, refl, ground arith, refl))
]
