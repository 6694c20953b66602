-- ===== src/Network/Memory.antt =====
-- A byte buffer as a function from addresses, with loads and stores of byte strings and of
-- little-endian words, as `memcpy` makes them on the x86 targets of the server.
use native.Mathlib.Nat.{pow-suc}
use theforgottenserver.Prelude.{
  ℕ, zero, suc, ◌+◌, ◌*◌, ◌/◌, ◌%◌, ◌^◌, ◌≤◌, ◌<◌, ◌≡◌, refl, ◌⊎◌, inl, inr, List, [], ◌∷◌, arith,
  ◌==◌, if◌then◌else◌, length, ap, ◌∙◌, sym, subst, Bool-cases, ==→eq,
}

abbrev pub Buffer : Type 0
Buffer = ℕ → ℕ

abbrev pub update : Buffer → ℕ → ℕ → Buffer
update b p x i = if i == p then x else b i

unfoldable pub store_bytes : Buffer → ℕ → List ℕ → Buffer
store_bytes b p [] = b
store_bytes b p (x ∷ xs) = store_bytes (update b p x) (suc p) xs

unfoldable pub load_bytes : Buffer → ℕ → ℕ → List ℕ
load_bytes b p zero = []
load_bytes b p (suc n) = b p ∷ load_bytes b (suc p) n

-- The bytes of a word of `n` bytes, lowest first, and the word that bytes stand for.
unfoldable pub le_bytes : ℕ → ℕ → List ℕ
le_bytes zero v = []
le_bytes (suc n) v = (v % 256) ∷ le_bytes n (v / 256)

unfoldable pub le_value : List ℕ → ℕ
le_value [] = 0
le_value (x ∷ xs) = x + 256 * le_value xs

abbrev pub IsBytes : List ℕ → Type 0
IsBytes [] = Unit {0}
IsBytes (x ∷ xs) = (x < 256) × IsBytes xs

abbrev pub HoldsBytes : Buffer → Type 0
HoldsBytes b = (i : ℕ) → b i < 256

pub length-le_bytes : (n v : ℕ) → length (le_bytes n v) ≡ n
unfolding le_bytes
length-le_bytes zero v = refl
length-le_bytes (suc n) v = ap suc (length-le_bytes n (v / 256))

pub le_bytes-IsBytes : (n v : ℕ) → IsBytes (le_bytes n v)
unfolding le_bytes
le_bytes-IsBytes zero v = tt
le_bytes-IsBytes (suc n) v = (omega arith, le_bytes-IsBytes n (v / 256))

pub le_value-le_bytes : (n v : ℕ) → v < 256 ^ n → le_value (le_bytes n v) ≡ v
unfolding le_value le_bytes
le_value-le_bytes zero v h = omega arith
le_value-le_bytes (suc n) v h =
    let e : 256 ^ suc n ≡ 256 * 256 ^ n = omega (arith, pow-suc 256 n) in
    omega (arith, le_value-le_bytes n (v / 256) (omega (arith, e)))

pub le_bytes-le_value : (xs : List ℕ) → IsBytes xs → le_bytes (length xs) (le_value xs) ≡ xs
unfolding le_value le_bytes
le_bytes-le_value [] h = refl
le_bytes-le_value (x ∷ xs) h =
    let low : (x + 256 * le_value xs) % 256 ≡ x = omega arith in
    let high : (x + 256 * le_value xs) / 256 ≡ le_value xs = omega arith in
    rw (low, high, le_bytes-le_value xs h.1)

-- A store changes its own range only.
pub store_bytes_outside :
    (b : Buffer) (p : ℕ) (xs : List ℕ) (i : ℕ)
    → (i < p) ⊎ (p + length xs ≤ i)
    → store_bytes b p xs i ≡ b i
unfolding store_bytes
store_bytes_outside b p [] i h = refl
store_bytes_outside b p (x ∷ xs) i h =
    ground (arith, store_bytes_outside (update b p x) (suc p) xs i)

pub load_bytes-store_bytes :
    (b : Buffer) (p : ℕ) (xs : List ℕ) → load_bytes (store_bytes b p xs) p (length xs) ≡ xs
unfolding load_bytes store_bytes
load_bytes-store_bytes b p [] = refl
load_bytes-store_bytes b p (x ∷ xs) =
    let head : store_bytes (update b p x) (suc p) xs p ≡ x =
      store_bytes_outside (update b p x) (suc p) xs p (inl (omega arith)) ∙ ground arith in
    rw (head, load_bytes-store_bytes (update b p x) (suc p) xs)

-- A load that a store does not meet.
pub load_bytes-store_bytes_apart :
    (b : Buffer) (p : ℕ) (xs : List ℕ) (q n : ℕ)
    → (q + n ≤ p) ⊎ (p + length xs ≤ q)
    → load_bytes (store_bytes b p xs) q n ≡ load_bytes b q n
unfolding load_bytes
load_bytes-store_bytes_apart b p xs q zero h = refl
load_bytes-store_bytes_apart b p xs q (suc n) h =
    let head : store_bytes b p xs q ≡ b q = store_bytes_outside b p xs q (ground arith) in
    rw (head, load_bytes-store_bytes_apart b p xs (suc q) n (ground arith))

pub store_bytes-HoldsBytes :
    (b : Buffer) (p : ℕ) (xs : List ℕ) → HoldsBytes b → IsBytes xs → HoldsBytes (store_bytes b p xs)
unfolding store_bytes
store_bytes-HoldsBytes b p [] h v = h
store_bytes-HoldsBytes b p (x ∷ xs) h v =
    store_bytes-HoldsBytes (update b p x) (suc p) xs (λ i. ground (arith, h i)) v.1

pub load_bytes-store_bytes_le :
    (b : Buffer) (p n v : ℕ) → load_bytes (store_bytes b p (le_bytes n v)) p n ≡ le_bytes n v
load_bytes-store_bytes_le b p n v =
    subst (λ k. load_bytes (store_bytes b p (le_bytes n v)) p k ≡ le_bytes n v)
      (length-le_bytes n v) (load_bytes-store_bytes b p (le_bytes n v))

-- A load sees its range only, and all of it.
pub load_bytes_cong :
    (b c : Buffer) (p n : ℕ)
    → ((i : ℕ) → p ≤ i → i < p + n → b i ≡ c i)
    → load_bytes b p n ≡ load_bytes c p n
unfolding load_bytes
load_bytes_cong b c p zero h = refl
load_bytes_cong b c p (suc n) h = rw (
  h p (omega arith) (omega arith),
  load_bytes_cong b c (suc p) n (λ i lo hi. h i (omega arith) (omega arith)),
)

pub load_bytes_at :
    (b c : Buffer) (p n i : ℕ) → load_bytes b p n ≡ load_bytes c p n → p ≤ i → i < p + n → b i ≡ c i
unfolding load_bytes
load_bytes_at b c p zero i e lo hi = absurd (omega arith)
load_bytes_at b c p (suc n) i e lo hi = elim (Bool-cases (i == p)) [
  | inl same ↦ let q : i ≡ p = ==→eq i p same in rw q (cc)
  | inr other ↦ load_bytes_at b c (suc p) n i (cc) (ground arith) (omega arith)
]

pub load_bytes-IsBytes : (b : Buffer) (p n : ℕ) → HoldsBytes b → IsBytes (load_bytes b p n)
unfolding load_bytes
load_bytes-IsBytes b p zero h = tt
load_bytes-IsBytes b p (suc n) h = (h p, load_bytes-IsBytes b (suc p) n h)

pub length-load_bytes : (b : Buffer) (p n : ℕ) → length (load_bytes b p n) ≡ n
unfolding load_bytes
length-load_bytes b p zero = refl
length-load_bytes b p (suc n) = ap suc (length-load_bytes b (suc p) n)

pub le_value-lt : (xs : List ℕ) → IsBytes xs → le_value xs < 256 ^ length xs
unfolding le_value
le_value-lt [] h = omega arith
le_value-lt (x ∷ xs) h =
    let e : 256 ^ suc (length xs) ≡ 256 * 256 ^ length xs =
      omega (arith, pow-suc 256 (length xs)) in
    omega (arith, e, le_value-lt xs h.1)

-- The bytes of a word that is loaded are those in the buffer.
pub load_bytes-eq_of_value :
    (b c : Buffer) (p n : ℕ)
    → HoldsBytes b
    → HoldsBytes c
    → le_value (load_bytes b p n) ≡ le_value (load_bytes c p n)
    → load_bytes b p n ≡ load_bytes c p n
load_bytes-eq_of_value b c p n hb hc e =
    let back = λ (d : Buffer) (h : HoldsBytes d).
      subst (λ k. le_bytes k (le_value (load_bytes d p n)) ≡ load_bytes d p n)
        (length-load_bytes d p n) (le_bytes-le_value _ (load_bytes-IsBytes d p n h)) in
    sym (back b hb) ∙ ap (le_bytes n) e ∙ back c hc

-- Inside its range a store does not depend on what was there.
pub store_bytes_inside :
    (b c : Buffer) (p : ℕ) (xs : List ℕ) (i : ℕ)
    → p ≤ i
    → i < p + length xs
    → store_bytes b p xs i ≡ store_bytes c p xs i
unfolding store_bytes
store_bytes_inside b c p [] i lo hi = absurd (omega arith)
store_bytes_inside b c p (x ∷ xs) i lo hi = elim (Bool-cases (i == p)) [
  | inl same ↦
      let q : i ≡ p = ==→eq i p same in
      store_bytes_outside (update b p x) (suc p) xs i (inl (omega arith))
      ∙ rw same
          (sym (store_bytes_outside (update c p x) (suc p) xs i (inl (omega arith)) ∙ rw same))
  | inr other ↦
      store_bytes_inside (update b p x) (update c p x) (suc p) xs i (ground arith) (omega arith)
]

-- The two bytes of a stored `uint16_t`.
pub store_bytes_le_two :
    (b : Buffer) (p v : ℕ)
    → (store_bytes b p (le_bytes 2 v) p ≡ v % 256)
      × (store_bytes b p (le_bytes 2 v) (suc p) ≡ v / 256 % 256)
unfolding store_bytes le_bytes
store_bytes_le_two b p v = (ground arith, ground arith)

pub store_bytes_one : (b : Buffer) (p x : ℕ) → store_bytes b p (x ∷ []) p ≡ x
unfolding store_bytes
store_bytes_one b p x = ground arith
