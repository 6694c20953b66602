-- ===== src/Network/Protocol/Receive.antt =====
-- The receiving end: what `parseHeader` and `onRecvMessage` make of a message that was sent.
use theforgottenserver.Prelude.{
  ℕ, zero, suc, ◌+◌, ◌-◌, ◌*◌, ◌/◌, ◌%◌, ◌<◌, ◌≡◌, refl, inl, inr, Bool, true, false, some, arith,
  ltb, leb, ◌==◌, ap, ◌∙◌, subst, Bool-cases, wrap16, bit_or,
}
use theforgottenserver.Network.Memory.{
  Buffer, IsBytes, HoldsBytes, load_bytes, le_bytes, le_value, length-le_bytes, le_bytes-IsBytes,
  le_value-le_bytes, store_bytes_outside, load_bytes-store_bytes_le, load_bytes_cong,
  store_bytes-HoldsBytes, store_bytes_le_two,
}
use theforgottenserver.Network.Message.{
  NetworkMessage, padding, decode_header, max_body_length, get_body_buffer,
}
use theforgottenserver.Network.Message.RoundTrip.{get_lem}
use theforgottenserver.Network.Xtea.{Key, decrypt_block}
use theforgottenserver.Network.Protocol.{
  OutputMessage, crypt_loop, xtea_decrypt, on_send_message, on_recv_message, read_header,
}
use theforgottenserver.Network.Protocol.Blocks.{Agree, decrypt_loop-encrypt_loop}
use theforgottenserver.Network.Protocol.Transport.{
  padded, with_inner_length, with_padding, encrypted, wire, ready, bit_or_bytes,
  on_send_message_lem,
}

padding-IsBytes : (n : ℕ) → IsBytes (padding n)
padding-IsBytes zero = tt
padding-IsBytes (suc n) = (omega arith, padding-IsBytes n)

with_padding-HoldsBytes : (n : ℕ) (b : Buffer) → HoldsBytes b → HoldsBytes (with_padding n b)
with_padding-HoldsBytes n b h =
    let h' = store_bytes-HoldsBytes b 2 (le_bytes 2 n) h (le_bytes-IsBytes 2 n) in
    elim (Bool-cases ((n + 2) % 8 == 0)) [
      | inl e ↦ rw e h'
      | inr e ↦ rw e (store_bytes-HoldsBytes _ (n + 4) _ h' (padding-IsBytes (8 - (n + 2) % 8)))
    ]

-- Below the padding stand the inner length and the body.
with_padding_below :
    (n : ℕ) (b : Buffer) (i : ℕ) → i < n + 4 → with_padding n b i ≡ with_inner_length n b i
with_padding_below n b i h = elim (Bool-cases ((n + 2) % 8 == 0)) [
  | inl e ↦ rw e
  | inr e ↦
      rw e
        (store_bytes_outside (with_inner_length n b) (n + 4) (padding (8 - (n + 2) % 8)) i (inl h))
]

module _ (k : Key) (n : ℕ) (room : n + 14 < max_body_length) (b c : Buffer) (bytes : HoldsBytes b)
    (arrived : Agree 0 (padded n + 2) c (wire k n b)) where
  header_low : c 0 ≡ padded n % 256
  header_low =
      arrived 0 (omega arith) (omega arith) ∙ (store_bytes_le_two (encrypted k n b) 0 (padded n)).0

  header_high : c 1 ≡ padded n / 256 % 256
  header_high =
      arrived 1 (omega arith) (omega arith) ∙ (store_bytes_le_two (encrypted k n b) 0 (padded n)).1

  abbrev arriving : ℕ → ℕ → Bool → NetworkMessage
  arriving len pos ov = record { length = len; position = pos; overrun = ov; buffer = c }

  -- `parseHeader` finds the padded length.
  read_header_lem :
      (len pos : ℕ) (ov : Bool)
      → read_header (arriving len pos ov) ≡ some (arriving (padded n + 2) 2 ov)
  unfolding read_header decode_header get_body_buffer
  read_header_lem len pos ov =
      let e : bit_or (c 0) (c 1 * 256) ≡ padded n =
        rw (header_low, header_high)
          (bit_or_bytes (padded n % 256) (padded n / 256 % 256) (omega arith) (omega arith)
            ∙ omega arith) in
      let e1 : wrap16 (padded n) ≡ padded n = omega arith in
      let e2 : wrap16 (padded n + 2) ≡ padded n + 2 = omega arith in
      let e3 : (padded n == 0) ≡ false = ground arith in
      let e4 : leb 24574 (padded n) ≡ false = ground arith in rw (e, e1, e3, e4, e2)

  body_agrees :
      Agree 2
        (2 + padded n)
        (crypt_loop (suc (padded n + 2)) (decrypt_block k) 2 0 (padded n) c)
        (with_padding n b)
  body_agrees i lo hi =
      decrypt_loop-encrypt_loop k (suc (padded n)) (suc (padded n + 2)) 2 (padded n)
        (with_padding n b) c (with_padding-HoldsBytes n b bytes) (omega arith) (omega arith)
        (omega arith)
        (λ j lo hi.
          arrived j (omega arith) (omega arith)
          ∙ store_bytes_outside (encrypted k n b) 0 (le_bytes 2 (padded n)) j
              (inr (omega (arith, length-le_bytes 2 (padded n)))))
        i lo hi

  decrypted_body : Buffer
  decrypted_body = crypt_loop (suc (padded n + 2)) (decrypt_block k) 2 0 (padded n) c

  inner_length : le_value (load_bytes decrypted_body 2 2) ≡ n
  unfolding decrypted_body
  inner_length =
      let w = with_inner_length n b in
      ap le_value (
        load_bytes_cong _ w 2 2
          (λ i lo hi. body_agrees i lo (omega arith) ∙ with_padding_below n b i (omega arith))
        ∙ load_bytes-store_bytes_le b 2 2 n)
      ∙ le_value-le_bytes 2 n (omega arith)

  body_arrives : load_bytes decrypted_body 4 n ≡ load_bytes b 4 n
  unfolding decrypted_body
  body_arrives = load_bytes_cong _ b 4 n λ i lo hi.
      body_agrees i (omega arith) (omega arith)
      ∙ with_padding_below n b i (omega arith)
      ∙ store_bytes_outside b 2 (le_bytes 2 n) i (inr (omega (arith, length-le_bytes 2 n)))

  -- `onRecvMessage` hands on a message of the sender's length that is to be read from its body on.
  on_recv_message_lem :
      (ov : Bool)
      → on_recv_message true k (arriving (padded n + 2) 2 ov)
        ≡ some (record { length = n; position = 4; overrun = ov; buffer = decrypted_body })
  unfolding on_recv_message xtea_decrypt decrypted_body
  on_recv_message_lem ov =
      let m : NetworkMessage = record {
        length = padded n + 2;
        position = 2;
        overrun = ov;
        buffer = decrypted_body;
      } in
      let e1 : ((padded n + 2 + 6) % 8 == 0) ≡ true = ground arith in
      let e2 : padded n + 2 - 2 ≡ padded n = omega arith in
      let e3 : ltb (padded n + 2) (n + 4) ≡ false = ground arith in
      let e4 : wrap16 n ≡ n = omega arith in
      rw (e1, e2, get_lem 2 m (omega arith) (omega arith), inner_length, e3, e4)

-- The bytes that go out: `getLength()` bytes from `getOutputBuffer()` on, as `internalSend` writes them.
abbrev pub Sends : OutputMessage → Buffer → Type 0
Sends o c = (i : ℕ) → i < o.message.length → c i ≡ o.message.buffer (o.output_buffer_start + i)

-- A message with a body of `n` bytes, with `n + 14` less than `MAX_BODY_LENGTH` so that padding and
-- headers have room, that `onSendMessage` has encrypted and framed, and whose bytes have arrived at
-- the front of a receiver's buffer, the sender's buffer having held bytes, passes the size test of `parseHeader`
-- and comes out of `onRecvMessage`, under the same key, with length `n`, to be read from address
-- 4, and with the sender's bytes there.
pub recv-send_message :
    (k : Key) (n : ℕ) (overrun : Bool) (b : Buffer) (m : NetworkMessage)
    → n + 14 < max_body_length
    → HoldsBytes b
    → Sends (on_send_message false true k (ready n overrun b)) m.buffer
    → (m' : NetworkMessage) × (r : NetworkMessage) × (read_header m ≡ some m')
      × (on_recv_message true k m' ≡ some r)
      × (r.length ≡ n)
      × (r.position ≡ 4)
      × (load_bytes r.buffer 4 n ≡ load_bytes b 4 n)
recv-send_message k n overrun b m room bytes sends =
    let e = on_send_message_lem k n overrun room b in
    let arrived : Agree 0 (padded n + 2) m.buffer (wire k n b) = λ i lo hi.
      subst (λ o. i < o.message.length → m.buffer i ≡ o.message.buffer (o.output_buffer_start + i))
        e (sends i) hi
      ∙ ap (wire k n b) (omega arith) in
    let c = m.buffer in
    (
      arriving k n room b c bytes arrived (padded n + 2) 2 m.overrun,
      record {
        length = n;
        position = 4;
        overrun = m.overrun;
        buffer = decrypted_body k n room b c bytes arrived;
      },
      read_header_lem k n room b c bytes arrived m.length m.position m.overrun,
      on_recv_message_lem k n room b c bytes arrived m.overrun,
      refl,
      refl,
      body_arrives k n room b c bytes arrived,
    )
