-- ===== src/Network/Protocol/Blocks.antt =====
-- The loops over a buffer, block by block, and that decryption restores the buffer.
use theforgottenserver.Prelude.{
  ℕ, zero, suc, ◌+◌, ◌-◌, ◌*◌, ◌/◌, ◌%◌, ◌^◌, ◌≤◌, ◌<◌, ◌≡◌, refl, ◌⊎◌, inl, inr, arith, ltb, ap,
  ◌∙◌, sym, Bool-cases, ltb→lt,
}
use theforgottenserver.Network.Memory.{
  Buffer, HoldsBytes, load_bytes, store_bytes, le_bytes, le_value, length-le_bytes,
  le_bytes-IsBytes, le_value-le_bytes, store_bytes_outside, store_bytes_inside,
  load_bytes-store_bytes_le, load_bytes-store_bytes_apart, store_bytes-HoldsBytes, load_bytes_cong,
  load_bytes_at, load_bytes-eq_of_value, le_value-lt, load_bytes-IsBytes, length-load_bytes,
}
use theforgottenserver.Network.Xtea.{Key, Block, encrypt_block, decrypt_block}
use theforgottenserver.Network.Xtea.Inverse.{
  IsBlock, decrypt_block-encrypt_block, encrypt_block-IsBlock, decrypt_block-IsBlock,
}
use theforgottenserver.Network.Protocol.{load32, store32, block_at, crypt_at, crypt_loop}

load32-store32 : (b : Buffer) (p v : ℕ) → v < 2 ^ 32 → load32 (store32 b p v) p ≡ v
load32-store32 b p v h =
    ap le_value (load_bytes-store_bytes_le b p 4 v) ∙ le_value-le_bytes 4 v (omega arith)

load32-store32_apart :
    (b : Buffer) (p v q : ℕ) → (q + 4 ≤ p) ⊎ (p + 4 ≤ q) → load32 (store32 b p v) q ≡ load32 b q
load32-store32_apart b p v q h =
    ap le_value
      (load_bytes-store_bytes_apart b p (le_bytes 4 v) q 4 (ground (arith, length-le_bytes 4 v)))

module _ (f : Block → Block) (keep : (b : Block) → IsBlock (f b)) where
  block_at-crypt_at : (b : Buffer) (p : ℕ) → block_at (crypt_at f b p) p ≡ f (block_at b p)
  unfolding crypt_at
  block_at-crypt_at b p =
      let v = f (block_at b p) in
      rw (
        load32-store32_apart (store32 b p v.w0) (p + 4) v.w1 p (inl (omega arith)),
        load32-store32 b p v.w0 (keep (block_at b p)).0,
        load32-store32 (store32 b p v.w0) (p + 4) v.w1 (keep (block_at b p)).1,
      )

  crypt_at_outside : (b : Buffer) (p i : ℕ) → (i < p) ⊎ (p + 8 ≤ i) → crypt_at f b p i ≡ b i
  unfolding crypt_at
  crypt_at_outside b p i h =
      let v = f (block_at b p) in
      store_bytes_outside (store32 b p v.w0) (p + 4) (le_bytes 4 v.w1) i
        (ground (arith, length-le_bytes 4 v.w1))
      ∙ store_bytes_outside b p (le_bytes 4 v.w0) i (ground (arith, length-le_bytes 4 v.w0))

  block_at-crypt_at_apart :
      (b : Buffer) (p q : ℕ)
      → (q + 8 ≤ p) ⊎ (p + 8 ≤ q)
      → block_at (crypt_at f b p) q ≡ block_at b q
  unfolding crypt_at
  block_at-crypt_at_apart b p q h =
      let v = f (block_at b p) in
      let c = store32 b p v.w0 in
      rw (
        load32-store32_apart c (p + 4) v.w1 q (ground arith),
        load32-store32_apart c (p + 4) v.w1 (q + 4) (ground arith),
        load32-store32_apart b p v.w0 q (ground arith),
        load32-store32_apart b p v.w0 (q + 4) (ground arith),
      )

  crypt_at-HoldsBytes : (b : Buffer) (p : ℕ) → HoldsBytes b → HoldsBytes (crypt_at f b p)
  unfolding crypt_at
  crypt_at-HoldsBytes b p h =
      store_bytes-HoldsBytes _ (p + 4) _ (store_bytes-HoldsBytes b p _ h (le_bytes-IsBytes 4 _))
        (le_bytes-IsBytes 4 _)

  -- `n` blocks, from address `p` on.
  pub crypt_blocks : ℕ → ℕ → Buffer → Buffer
  crypt_blocks zero p b = b
  crypt_blocks (suc n) p b = crypt_blocks n (p + 8) (crypt_at f b p)

  crypt_blocks_outside :
      (n p : ℕ) (b : Buffer) (i : ℕ) → (i < p) ⊎ (p + 8 * n ≤ i) → crypt_blocks n p b i ≡ b i
  unfolding crypt_blocks
  crypt_blocks_outside zero p b i h = refl
  crypt_blocks_outside (suc n) p b i h =
      crypt_blocks_outside n (p + 8) (crypt_at f b p) i (ground arith)
      ∙ crypt_at_outside b p i (ground arith)

  crypt_blocks-HoldsBytes : (n p : ℕ) (b : Buffer) → HoldsBytes b → HoldsBytes (crypt_blocks n p b)
  unfolding crypt_blocks
  crypt_blocks-HoldsBytes zero p b h = h
  crypt_blocks-HoldsBytes (suc n) p b h =
      crypt_blocks-HoldsBytes n (p + 8) (crypt_at f b p) (crypt_at-HoldsBytes b p h)

  load32-crypt_blocks_outside :
      (n p : ℕ) (b : Buffer) (q : ℕ) → q + 4 ≤ p → load32 (crypt_blocks n p b) q ≡ load32 b q
  load32-crypt_blocks_outside n p b q h = ap le_value (
      load_bytes_cong (crypt_blocks n p b) b q 4
        (λ i lo hi. crypt_blocks_outside n p b i (inl (omega arith))))

  -- Each block is transformed once.
  block_at-crypt_blocks :
      (n p : ℕ) (b : Buffer) (i : ℕ)
      → i < n
      → block_at (crypt_blocks n p b) (p + 8 * i) ≡ f (block_at b (p + 8 * i))
  unfolding crypt_blocks
  block_at-crypt_blocks zero p b i h = absurd (omega arith)
  block_at-crypt_blocks (suc n) p b zero h =
      let e : p + 8 * 0 ≡ p = omega arith in
      let c = crypt_at f b p in
      rw (
        e,
        load32-crypt_blocks_outside n (p + 8) c p (omega arith),
        load32-crypt_blocks_outside n (p + 8) c (p + 4) (omega arith),
        block_at-crypt_at b p,
      )
  block_at-crypt_blocks (suc n) p b (suc i) h =
      let e : p + 8 * suc i ≡ p + 8 + 8 * i = omega arith in
      let c = crypt_at f b p in
      rw e (
        block_at-crypt_blocks n (p + 8) c i (omega arith)
        ∙ ap f (block_at-crypt_at_apart b p (p + 8 + 8 * i) (inr (omega arith))))

  -- The loop of the source makes one round for each block that is begun.
  pub crypt_loop-eq-crypt_blocks :
      (fuel start read_pos len : ℕ) (b : Buffer)
      → len < read_pos + fuel
      → crypt_loop fuel f start read_pos len b
        ≡ crypt_blocks ((len + 7 - read_pos) / 8) (start + read_pos) b
  unfolding crypt_loop crypt_blocks
  crypt_loop-eq-crypt_blocks zero start read_pos len b h =
      let e : (len + 7 - read_pos) / 8 ≡ 0 = omega arith in rw e
  crypt_loop-eq-crypt_blocks (suc fuel) start read_pos len b h =
      elim (Bool-cases (ltb read_pos len)) [
        | inl more ↦
            let m : read_pos < len = ltb→lt read_pos len more in
            let e : (len + 7 - read_pos) / 8 ≡ suc ((len + 7 - (read_pos + 8)) / 8) = omega arith in
            let e' : start + read_pos + 8 ≡ start + (read_pos + 8) = omega arith in
            let ih =
              crypt_loop-eq-crypt_blocks fuel start (read_pos + 8) len
                (crypt_at f b (start + read_pos)) (omega arith) in
            rw (more, e)
              (ih
                ∙ ap
                    (λ q.
                      crypt_blocks ((len + 7 - (read_pos + 8)) / 8) q
                        (crypt_at f b (start + read_pos)))
                    (sym e'))
        | inr done ↦
            let m : len ≤ read_pos = ground arith in
            let e : (len + 7 - read_pos) / 8 ≡ 0 = omega arith in rw (done, e)
      ]

-- The blocks that come out depend on the blocks that go in, and on nothing else in the buffer.
abbrev pub Agree : ℕ → ℕ → Buffer → Buffer → Type 0
Agree lo hi b c = (i : ℕ) → lo ≤ i → i < hi → b i ≡ c i

module _ (f : Block → Block) (keep : (b : Block) → IsBlock (f b)) where
  block_at_cong : (p : ℕ) (b c : Buffer) → Agree p (p + 8) b c → block_at b p ≡ block_at c p
  block_at_cong p b c a = rw (
    load_bytes_cong b c p 4 (λ i lo hi. a i lo (omega arith)),
    load_bytes_cong b c (p + 4) 4 (λ i lo hi. a i (omega arith) (omega arith)),
  )

  crypt_at_cong :
      (p : ℕ) (b c : Buffer)
      → Agree p (p + 8) b c
      → Agree p (p + 8) (crypt_at f b p) (crypt_at f c p)
  unfolding crypt_at
  crypt_at_cong p b c a i lo hi =
      let v = f (block_at c p) in
      let xs = le_bytes 4 v.w0 in
      let ys = le_bytes 4 v.w1 in
      let lx = length-le_bytes 4 v.w0 in
      let ly = length-le_bytes 4 v.w1 in
      rw (block_at_cong p b c a) (elim (Bool-cases (ltb i (p + 4))) [
        | inl low ↦
            let l = ltb→lt i (p + 4) low in
            store_bytes_outside (store_bytes b p xs) (p + 4) ys i (inl l)
            ∙ store_bytes_inside b c p xs i lo (omega (arith, lx))
            ∙ sym (store_bytes_outside (store_bytes c p xs) (p + 4) ys i (inl l))
        | inr high ↦
            let l : p + 4 ≤ i = ground arith in
            store_bytes_inside (store_bytes b p xs) (store_bytes c p xs) (p + 4) ys i l
              (omega (arith, ly))
      ])

  crypt_blocks_cong :
      (n p : ℕ) (b c : Buffer)
      → Agree p (p + 8 * n) b c
      → Agree p (p + 8 * n) (crypt_blocks f keep n p b) (crypt_blocks f keep n p c)
  unfolding crypt_blocks
  crypt_blocks_cong zero p b c a i lo hi = a i lo hi
  crypt_blocks_cong (suc n) p b c a i lo hi = elim (Bool-cases (ltb i (p + 8))) [
    | inl first ↦
        let l = ltb→lt i (p + 8) first in
        crypt_blocks_outside f keep n (p + 8) (crypt_at f b p) i (inl l)
        ∙ crypt_at_cong p b c (λ j lo hi. a j lo (omega arith)) i lo l
        ∙ sym (crypt_blocks_outside f keep n (p + 8) (crypt_at f c p) i (inl l))
    | inr later ↦
        crypt_blocks_cong n (p + 8) (crypt_at f b p) (crypt_at f c p)
          (λ j lo hi.
            crypt_at_outside f keep b p j (inr lo)
            ∙ a j (omega arith) (omega arith)
            ∙ sym (crypt_at_outside f keep c p j (inr lo)))
          i (ground arith) (omega arith)
  ]

-- Decryption block by block restores what was encrypted block by block, in the whole buffer.
module _ (k : Key) where
  load32-lt : (b : Buffer) (p : ℕ) → HoldsBytes b → load32 b p < 2 ^ 32
  load32-lt b p h =
      let e = le_value-lt (load_bytes b p 4) (load_bytes-IsBytes b p 4 h) in
      rw (length-load_bytes b p 4) at e

  block_at-IsBlock : (b : Buffer) (p : ℕ) → HoldsBytes b → IsBlock (block_at b p)
  block_at-IsBlock b p h = (load32-lt b p h, load32-lt b (p + 4) h)

  decrypted : ℕ → ℕ → Buffer → Buffer
  decrypted n p b =
      crypt_blocks (decrypt_block k) (decrypt_block-IsBlock k) n p
        (crypt_blocks (encrypt_block k) (encrypt_block-IsBlock k) n p b)

  block_at-decrypted :
      (n p : ℕ) (b : Buffer) (i : ℕ)
      → HoldsBytes b
      → i < n
      → block_at (decrypted n p b) (p + 8 * i) ≡ block_at b (p + 8 * i)
  unfolding decrypted
  block_at-decrypted n p b i h lt =
      let e = block_at-crypt_blocks (encrypt_block k) (encrypt_block-IsBlock k) n p b i lt in
      let c = crypt_blocks (encrypt_block k) (encrypt_block-IsBlock k) n p b in
      block_at-crypt_blocks (decrypt_block k) (decrypt_block-IsBlock k) n p c i lt
      ∙ ap (decrypt_block k) e
      ∙ decrypt_block-encrypt_block k (block_at b (p + 8 * i)) (block_at-IsBlock b (p + 8 * i) h)

  decrypted-HoldsBytes : (n p : ℕ) (b : Buffer) → HoldsBytes b → HoldsBytes (decrypted n p b)
  unfolding decrypted
  decrypted-HoldsBytes n p b h =
      crypt_blocks-HoldsBytes (decrypt_block k) (decrypt_block-IsBlock k) n p _
        (crypt_blocks-HoldsBytes (encrypt_block k) (encrypt_block-IsBlock k) n p b h)

  decrypted_inside :
      (n p : ℕ) (b : Buffer) (i : ℕ)
      → HoldsBytes b
      → p ≤ i
      → i < p + 8 * n
      → decrypted n p b i ≡ b i
  decrypted_inside n p b i h lo hi =
      let j = (i - p) / 8 in
      let q = p + 8 * j in
      let d = decrypted-HoldsBytes n p b h in
      let e = block_at-decrypted n p b j h (omega arith) in
      elim (Bool-cases (ltb i (q + 4))) [
        | inl low ↦
            load_bytes_at (decrypted n p b) b q 4 i
              (load_bytes-eq_of_value _ b q 4 d h (ap (λ (x : Block). x.w0) e)) (omega arith)
              (ltb→lt i (q + 4) low)
        | inr high ↦
            let m : q + 4 ≤ i = ground arith in
            load_bytes_at (decrypted n p b) b (q + 4) 4 i
              (load_bytes-eq_of_value _ b (q + 4) 4 d h (ap (λ (x : Block). x.w1) e)) m
              (omega arith)
      ]

  -- What arrives need agree with what was sent on the encrypted range only.
  decrypt_blocks_received :
      (n p : ℕ) (b c : Buffer)
      → HoldsBytes b
      → Agree p (p + 8 * n) c (crypt_blocks (encrypt_block k) (encrypt_block-IsBlock k) n p b)
      → Agree p (p + 8 * n) (crypt_blocks (decrypt_block k) (decrypt_block-IsBlock k) n p c) b
  unfolding decrypted
  decrypt_blocks_received n p b c h a i lo hi =
      crypt_blocks_cong (decrypt_block k) (decrypt_block-IsBlock k) n p c _ a i lo hi
      ∙ decrypted_inside n p b i h lo hi

  -- Wherever the loop of `XTEA_encrypt` has run over a length that is a multiple of 8, and the
  -- result has been copied, the loop of `XTEA_decrypt` gives the bytes back that were there before.
  pub decrypt_loop-encrypt_loop :
      (fuel fuel' start len : ℕ) (b c : Buffer)
      → HoldsBytes b
      → len % 8 ≡ 0
      → len < fuel
      → len < fuel'
      → Agree start (start + len) c (crypt_loop fuel (encrypt_block k) start 0 len b)
      → Agree start (start + len) (crypt_loop fuel' (decrypt_block k) start 0 len c) b
  decrypt_loop-encrypt_loop fuel fuel' start len b c h whole f1 f2 a i lo hi =
      let n = (len + 7) / 8 in
      let e =
        crypt_loop-eq-crypt_blocks (encrypt_block k) (encrypt_block-IsBlock k) fuel start 0 len b
          (omega arith) in
      let d =
        crypt_loop-eq-crypt_blocks (decrypt_block k) (decrypt_block-IsBlock k) fuel' start 0 len c
          (omega arith) in
      ap (λ (x : Buffer). x i) d
      ∙ decrypt_blocks_received ((len + 7 - 0) / 8) (start + 0) b c h
          (λ j lo hi. a j (omega arith) (omega arith) ∙ ap (λ (x : Buffer). x j) e) i (omega arith)
          (omega arith)

  -- The loop writes no byte outside the blocks that it covers.
  pub encrypt_loop_outside :
      (fuel start len : ℕ) (b : Buffer) (i : ℕ)
      → len % 8 ≡ 0
      → len < fuel
      → (i < start) ⊎ (start + len ≤ i)
      → crypt_loop fuel (encrypt_block k) start 0 len b i ≡ b i
  encrypt_loop_outside fuel start len b i whole f h =
      rw
        (crypt_loop-eq-crypt_blocks (encrypt_block k) (encrypt_block-IsBlock k) fuel start 0 len b
          (omega arith))
        (crypt_blocks_outside (encrypt_block k) (encrypt_block-IsBlock k) ((len + 7 - 0) / 8)
          (start + 0) b i (ground arith))
