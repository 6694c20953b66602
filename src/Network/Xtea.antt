-- ===== src/Network/Xtea.antt =====
-- The cipher of src/protocol.cpp: the rounds of `XTEA_encrypt` and `XTEA_decrypt` on one block of two
-- `uint32_t`. The loops `for (int32_t i = 32; --i >= 0;)` make 32 rounds.
pub mod Inverse
use theforgottenserver.Prelude.{
  ℕ, zero, suc, ◌*◌, ◌/◌, ◌%◌, ◌^◌, bit_and, bit_xor, ◌==◌, if◌then◌else◌, wrap32, add32, sub32,
}

-- `key[0]` to `key[3]`
pub record Key : Type 0 where
  pub k0 : ℕ
  pub k1 : ℕ
  pub k2 : ℕ
  pub k3 : ℕ

pub key_at : Key → ℕ → ℕ
key_at k i = if i == 0 then k.k0 else if i == 1 then k.k1 else if i == 2 then k.k2 else k.k3

-- The variables `v0`, `v1` and `sum` of the loops.
pub record State : Type 0 where
  pub v0 : ℕ
  pub v1 : ℕ
  pub sum : ℕ

abbrev pub delta : ℕ
delta = 0x61C88647

abbrev pub last_sum : ℕ
last_sum = 0xC6EF3720

-- `((v << 4 ^ v >> 5) + v) ^ s`
pub mix : ℕ → ℕ → ℕ
mix v s = bit_xor (add32 (bit_xor (wrap32 (v * 16)) (v / 32)) v) s

-- `sum + k[sum & 3]`
pub low_key : Key → ℕ → ℕ
low_key k s = add32 s (key_at k (bit_and s 3))

-- `sum + k[(sum >> 11) & 3]`
pub high_key : Key → ℕ → ℕ
high_key k s = add32 s (key_at k (bit_and (s / 2 ^ 11) 3))

pub encrypt_round : Key → State → State
encrypt_round k s =
    let v0 = add32 s.v0 (mix s.v1 (low_key k s.sum)) in
    let sum = sub32 s.sum delta in
    let v1 = add32 s.v1 (mix v0 (high_key k sum)) in record { v0 = v0; v1 = v1; sum = sum }

pub decrypt_round : Key → State → State
decrypt_round k s =
    let v1 = sub32 s.v1 (mix s.v0 (high_key k s.sum)) in
    let sum = add32 s.sum delta in
    let v0 = sub32 s.v0 (mix v1 (low_key k sum)) in record { v0 = v0; v1 = v1; sum = sum }

pub rounds : ℕ → (State → State) → State → State
rounds zero f s = s
rounds (suc n) f s = rounds n f (f s)

pub record Block : Type 0 where
  pub w0 : ℕ
  pub w1 : ℕ

abbrev pub block_of : State → Block
block_of s = record { w0 = s.v0; w1 = s.v1 }

pub encrypt_block : Key → Block → Block
encrypt_block k b =
    block_of (rounds 32 (encrypt_round k) (record { v0 = b.w0; v1 = b.w1; sum = 0 }))

pub decrypt_block : Key → Block → Block
decrypt_block k b =
    block_of (rounds 32 (decrypt_round k) (record { v0 = b.w0; v1 = b.w1; sum = last_sum }))
