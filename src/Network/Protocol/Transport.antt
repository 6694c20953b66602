-- ===== src/Network/Protocol/Transport.antt =====
-- A message that is sent with encryption on and received again.
use theforgottenserver.Prelude.{
  ℕ, zero, suc, ◌+◌, ◌-◌, ◌*◌, ◌/◌, ◌%◌, ◌^◌, ◌<◌, ◌≤◌, ◌≡◌, refl, inl, inr, Bool, true, false,
  arith, ◌==◌, if◌then◌else◌, Bool-cases, wrap16, bit_or, ==→eq,
}
use theforgottenserver.Network.Memory.{Buffer, store_bytes, le_bytes}
use theforgottenserver.Network.Message.{add_padding_bytes, padding, can_add, max_body_length}
use theforgottenserver.Network.Xtea.{Key, encrypt_block}
use theforgottenserver.Network.Protocol.{
  OutputMessage, crypt_loop, write_message_length, xtea_encrypt, on_send_message,
}

-- `bit_or` of a low byte and a shifted high byte, checked at all values.
passes_from : (ℕ → Bool) → ℕ → ℕ → Bool
passes_from test lo zero = true
passes_from test lo (suc count) = if test lo then passes_from test (suc lo) count else false

passes_from_each :
    (test : ℕ → Bool) (lo count v : ℕ)
    → lo ≤ v
    → v < lo + count
    → passes_from test lo count ≡ true
    → test v ≡ true
unfolding passes_from
passes_from_each test lo zero v above below ok = absurd (omega arith)
passes_from_each test lo (suc count) v above below ok = elim (Bool-cases (lo == v)) [
  | inl e ↦ ground (arith, ==→eq lo v e)
  | inr e ↦ ground (arith, passes_from_each test (suc lo) count v)
]

abbrev no_carry : ℕ → ℕ → Bool
no_carry a b = bit_or a (b * 256) == a + b * 256

no_carry_table : passes_from (λ a. passes_from (no_carry a) 0 256) 0 256 ≡ true
unfolding passes_from
no_carry_table = refl

pub bit_or_bytes : (a b : ℕ) → a < 256 → b < 256 → bit_or a (b * 256) ≡ a + b * 256
bit_or_bytes a b ha hb =
    let row = passes_from_each (λ x. passes_from (no_carry x) 0 256) 0 256 a (omega arith) ha in
    ==→eq (bit_or a (b * 256)) (a + b * 256)
      (passes_from_each (no_carry a) 0 256 b (omega arith) hb (row no_carry_table))

-- The message as `onSendMessage` builds it, step by step, for a body of `n` bytes that stands at
-- address 4 of a buffer.
abbrev pub with_inner_length : ℕ → Buffer → Buffer
with_inner_length n b = store_bytes b 2 (le_bytes 2 n)

-- The length with the inner header, and that with the padding.
abbrev pub padded : ℕ → ℕ
padded n = (n + 9) / 8 * 8

abbrev pub with_padding : ℕ → Buffer → Buffer
with_padding n b =
    if (n + 2) % 8 == 0
    then with_inner_length n b
    else store_bytes (with_inner_length n b) (n + 4) (padding (8 - (n + 2) % 8))

abbrev pub encrypted : Key → ℕ → Buffer → Buffer
encrypted k n b = crypt_loop (suc (padded n)) (encrypt_block k) 2 0 (padded n) (with_padding n b)

abbrev pub wire : Key → ℕ → Buffer → Buffer
wire k n b = store_bytes (encrypted k n b) 0 (le_bytes 2 (padded n))

-- A message with a body of `n` bytes, in any buffer: nothing is in front of the body yet.
abbrev pub ready : ℕ → Bool → Buffer → OutputMessage
ready n overrun b = record {
  message = record { length = n; position = n + 4; overrun = overrun; buffer = b };
  output_buffer_start = 4;
}

abbrev headed : ℕ → OutputMessage → OutputMessage
headed start o = record {
  message = record o.message {
    buffer = store_bytes o.message.buffer start (le_bytes 2 o.message.length);
    length = o.message.length + 2;
  };
  output_buffer_start = start;
}

write_message_length_lem :
    (o : OutputMessage) (start : ℕ)
    → o.output_buffer_start ≡ start + 2
    → start < 2 ^ 15
    → o.message.length < 2 ^ 15
    → write_message_length o ≡ headed start o
unfolding write_message_length
write_message_length_lem o start e h fits =
    let e1 : wrap16 (o.output_buffer_start + 65534) ≡ start = omega arith in
    let e2 : wrap16 (o.message.length + 2) ≡ o.message.length + 2 = omega arith in rw (e1, e2)

module _ (k : Key) (n : ℕ) (overrun : Bool) (room : n + 14 < max_body_length) where
  abbrev inner : ℕ → Buffer → OutputMessage
  inner len c = record {
    message = record { length = len; position = n + 4; overrun = overrun; buffer = c };
    output_buffer_start = 2;
  }

  -- `XTEA_encrypt` of a message with its inner header.
  xtea_encrypt_lem :
      (b : Buffer)
      → xtea_encrypt k (inner (n + 2) (with_inner_length n b)) ≡ inner (padded n) (encrypted k n b)
  unfolding xtea_encrypt add_padding_bytes
  xtea_encrypt_lem b = elim (Bool-cases ((n + 2) % 8 == 0)) [
    | inl whole ↦
        let z = ==→eq ((n + 2) % 8) 0 whole in
        let e : n + 2 ≡ padded n = omega (arith, z) in rw (whole, e)
    | inr part ↦
        let e : n + 2 + (8 - (n + 2) % 8) ≡ padded n = ground arith in
        let e' : wrap16 (n + 2 + (8 - (n + 2) % 8)) ≡ padded n = ground arith in
        let f : can_add (inner (n + 2) b).message (8 - (n + 2) % 8) ≡ true = ground arith in
        rw (part, f, e')
  ]

  -- The message as it goes out: all lengths are set, and the buffer is that of `wire`.
  pub on_send_message_lem :
      (b : Buffer)
      → on_send_message false true k (ready n overrun b) ≡ record {
        message = record {
          length = padded n + 2;
          position = n + 4;
          overrun = overrun;
          buffer = wire k n b;
        };
        output_buffer_start = 0;
      }
  unfolding on_send_message
  on_send_message_lem b =
      rw
        (
          write_message_length_lem (ready n overrun b) 2 refl (omega arith) (omega arith),
          xtea_encrypt_lem b,
        )
        (write_message_length_lem (inner (padded n) (encrypted k n b)) 0 refl (omega arith)
          (omega arith))
