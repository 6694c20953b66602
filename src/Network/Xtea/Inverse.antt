-- ===== src/Network/Xtea/Inverse.antt =====
-- Decryption undoes encryption, for every key and block.
use theforgottenserver.Prelude.{
  ℕ, zero, suc, ◌<◌, ◌^◌, ◌≡◌, refl, arith, ap, ◌∙◌, sym, sub32, sub32-lt, add32-lt, sub32-add32,
  add32-sub32,
}
use theforgottenserver.Network.Xtea.{
  Key, State, Block, delta, last_sum, mix, low_key, high_key, encrypt_round, decrypt_round, rounds,
  encrypt_block, decrypt_block, block_of,
}

pub record IsState (s : State) : Type 0 where
  pub v0_fits : s.v0 < 2 ^ 32
  pub v1_fits : s.v1 < 2 ^ 32
  pub sum_fits : s.sum < 2 ^ 32

encrypt_round-IsState : (k : Key) (s : State) → IsState (encrypt_round k s)
unfolding encrypt_round
encrypt_round-IsState k s = record {
  v0_fits = add32-lt _ _;
  v1_fits = add32-lt _ _;
  sum_fits = sub32-lt _ _;
}

decrypt_round-encrypt_round :
    (k : Key) (s : State) → IsState s → decrypt_round k (encrypt_round k s) ≡ s
unfolding encrypt_round decrypt_round
decrypt_round-encrypt_round k s h =
    let e1 =
      sub32-add32 s.v1 (mix (encrypt_round k s).v0 (high_key k (encrypt_round k s).sum))
        h.v1_fits in
    let e2 = add32-sub32 s.sum delta h.sum_fits in
    let e0 = sub32-add32 s.v0 (mix s.v1 (low_key k s.sum)) h.v0_fits in rw (e1, e2, e0)

rounds_last : (n : ℕ) (f : State → State) (s : State) → rounds (suc n) f s ≡ f (rounds n f s)
unfolding rounds
rounds_last zero f s = refl
rounds_last (suc n) f s = rounds_last n f (f s)

rounds-IsState : (n : ℕ) (k : Key) (s : State) → IsState s → IsState (rounds n (encrypt_round k) s)
unfolding rounds
rounds-IsState zero k s h = h
rounds-IsState (suc n) k s h = rounds-IsState n k (encrypt_round k s) (encrypt_round-IsState k s)

rounds_inverse :
    (n : ℕ) (k : Key) (s : State)
    → IsState s
    → rounds n (decrypt_round k) (rounds n (encrypt_round k) s) ≡ s
unfolding rounds
rounds_inverse zero k s h = refl
rounds_inverse (suc n) k s h =
    let t = rounds n (encrypt_round k) s in
    ap (λ x. rounds n (decrypt_round k) (decrypt_round k x)) (rounds_last n (encrypt_round k) s)
    ∙ ap (rounds n (decrypt_round k)) (decrypt_round-encrypt_round k t (rounds-IsState n k s h))
    ∙ rounds_inverse n k s h

-- The sum runs the same way for every key and block.
sum_after : ℕ → ℕ → ℕ
sum_after zero s = s
sum_after (suc n) s = sum_after n (sub32 s delta)

round-sum : (k : Key) (s : State) → (encrypt_round k s).sum ≡ sub32 s.sum delta
unfolding encrypt_round
round-sum k s = refl

rounds-sum : (n : ℕ) (k : Key) (s : State) → (rounds n (encrypt_round k) s).sum ≡ sum_after n s.sum
unfolding rounds sum_after
rounds-sum zero k s = refl
rounds-sum (suc n) k s = rounds-sum n k (encrypt_round k s) ∙ ap (sum_after n) (round-sum k s)

sum_after_all : sum_after 32 0 ≡ last_sum
unfolding sum_after sub32
sum_after_all = refl

abbrev pub IsBlock : Block → Type 0
IsBlock b = (b.w0 < 2 ^ 32) × (b.w1 < 2 ^ 32)

-- `XTEA_decrypt` restores every block that `XTEA_encrypt` has encrypted under the same key.
pub decrypt_block-encrypt_block :
    (k : Key) (b : Block) → IsBlock b → decrypt_block k (encrypt_block k b) ≡ b
unfolding encrypt_block decrypt_block
decrypt_block-encrypt_block k b h =
    let s : State = record { v0 = b.w0; v1 = b.w1; sum = 0 } in
    let t = rounds 32 (encrypt_round k) s in
    let e : t.sum ≡ last_sum = rounds-sum 32 k s ∙ sum_after_all in
    let fits : IsState s = record { v0_fits = h.0; v1_fits = h.1; sum_fits = omega arith } in
    ap (λ x. block_of (rounds 32 (decrypt_round k) (record { v0 = t.v0; v1 = t.v1; sum = x })))
      (sym e)
    ∙ ap block_of (rounds_inverse 32 k s fits)

-- An encrypted block is a block: both words stay below 2 ^ 32.
pub encrypt_block-IsBlock : (k : Key) (b : Block) → IsBlock (encrypt_block k b)
unfolding encrypt_block
encrypt_block-IsBlock k b =
    let s : State = record { v0 = b.w0; v1 = b.w1; sum = 0 } in
    let e = rounds_last 31 (encrypt_round k) s in
    let i = encrypt_round-IsState k (rounds 31 (encrypt_round k) s) in rw e (i.v0_fits, i.v1_fits)

pub decrypt_block-IsBlock : (k : Key) (b : Block) → IsBlock (decrypt_block k b)
unfolding decrypt_block decrypt_round
decrypt_block-IsBlock k b =
    let s : State = record { v0 = b.w0; v1 = b.w1; sum = last_sum } in
    let e = rounds_last 31 (decrypt_round k) s in rw e (sub32-lt _ _, sub32-lt _ _)
