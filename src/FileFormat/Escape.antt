-- ===== src/FileFormat/Escape.antt =====
-- `getProps` gives the properties back from their escaped form.
use theforgottenserver.Prelude.{
  ℕ, zero, suc, ◌+◌, ◌≤◌, ◌<◌, ◌≡◌, refl, inl, inr, Bool, true, false, List, [], ◌∷◌, ltb, leb,
  ◌==◌, if◌then◌else◌, length, arith, Bool-cases, ap, ◌∙◌,
}
use theforgottenserver.Network.Memory.{Buffer, store_bytes, load_bytes, update, store_bytes_outside}
use theforgottenserver.FileFormat.{escape_char, unescape}

-- Each byte from `escape_char` on stands behind an escape byte.
unfoldable pub escape : List ℕ → List ℕ
escape [] = []
escape (p ∷ ps) =
    let rest = escape ps in if leb escape_char p then escape_char ∷ p ∷ rest else p ∷ rest

-- The buffer holds a byte string at an address.
abbrev pub Holds : Buffer → ℕ → List ℕ → Type 0
Holds b i [] = Unit {0}
Holds b i (x ∷ xs) = (b i ≡ x) × Holds b (suc i) xs

Holds-update :
    (b : Buffer) (i j v : ℕ) (xs : List ℕ) → j < i → Holds b i xs → Holds (update b j v) i xs
Holds-update b i j v [] h k = tt
Holds-update b i j v (x ∷ xs) h k =
    (ground (arith, k.0), Holds-update b (suc i) j v xs (omega arith) k.1)

Holds-store_bytes : (b : Buffer) (i : ℕ) (xs : List ℕ) → Holds (store_bytes b i xs) i xs
unfolding store_bytes
Holds-store_bytes b i [] = tt
Holds-store_bytes b i (x ∷ xs) = (
  store_bytes_outside (update b i x) (suc i) xs i (inl (omega arith)) ∙ ground arith,
  Holds-store_bytes (update b i x) (suc i) xs,
)

pub load_bytes-Holds :
    (b : Buffer) (i : ℕ) (xs : List ℕ) → Holds b i xs → load_bytes b i (length xs) ≡ xs
unfolding load_bytes
load_bytes-Holds b i [] h = refl
load_bytes-Holds b i (x ∷ xs) h = ground (arith, h.0, load_bytes-Holds b (suc i) xs h.1)

-- What the loop has done when it stops.
record IsUnescaped (j : ℕ) (ps : List ℕ) (before : Buffer) (r : ℕ × Buffer) : Type 0 where
  pub stop : r.0 ≡ j + length ps
  pub below : (k : ℕ) → k < j → r.1 k ≡ before k
  pub holds : Holds r.1 j ps

one_more :
    (j p : ℕ) (ps : List ℕ) (b b' : Buffer) (r : ℕ × Buffer)
    → IsUnescaped (suc j) ps b' r
    → b' j ≡ p
    → ((k : ℕ) → k < j → b' k ≡ b k)
    → IsUnescaped j (p ∷ ps) b r
one_more j p ps b b' r u here same = record {
  stop = omega (arith, u.stop);
  below = λ k hk. u.below k (omega arith) ∙ same k hk;
  holds = (u.below j (omega arith) ∙ here, u.holds);
}

special-Holds :
    (b : Buffer) (i p : ℕ) (ps : List ℕ)
    → leb escape_char p ≡ true
    → Holds b i (escape (p ∷ ps))
    → (b i ≡ escape_char) × (b (suc i) ≡ p) × Holds b (suc (suc i)) (escape ps)
unfolding escape
special-Holds b i p ps special h = ground (arith, h)

plain-Holds :
    (b : Buffer) (i p : ℕ) (ps : List ℕ)
    → leb escape_char p ≡ false
    → Holds b i (escape (p ∷ ps))
    → (b i ≡ p) × Holds b (suc i) (escape ps)
unfolding escape
plain-Holds b i p ps plain h = ground (arith, h)

unescape_lem :
    (fuel size i j : ℕ) (escaped : Bool) (b : Buffer) (ps : List ℕ)
    → Holds b i (escape ps)
    → size ≡ i + length (escape ps)
    → (if escaped then j ≤ i else j ≡ i)
    → length (escape ps) < fuel
    → IsUnescaped j ps b (unescape fuel size i j escaped b)
unfolding unescape escape
unescape_lem zero size i j escaped b ps h e m enough = absurd (omega arith)
unescape_lem (suc fuel) size i j escaped b [] h e m enough =
    let done : ltb i size ≡ false = ground arith in
    rw done (record { stop = omega arith; below = λ k hk. refl; holds = tt })
unescape_lem (suc fuel) size i j escaped b (p ∷ ps) h e m enough =
    elim (Bool-cases (leb escape_char p)) [
      | inl special ↦
          let k : (b i ≡ escape_char) × (b (suc i) ≡ p) × Holds b (suc (suc i)) (escape ps) =
            special-Holds b i p ps special h in
          let n : length (escape (p ∷ ps)) ≡ suc (suc (length (escape ps))) = rw special refl in
          let inside : ltb i size ≡ true = ground arith in
          let b' = update b j (b (suc i)) in
          let below : j < suc (suc i) = ground arith in
          let r =
            unescape_lem fuel size (suc (suc i)) (suc j) true b' ps
              (Holds-update b (suc (suc i)) j (b (suc i)) (escape ps) below k.2) (omega arith)
              (ground arith) (omega arith) in
          rw (inside, k.0) (one_more j p ps b b' _ r (ground (arith, k.1)) (λ x hx. ground arith))
      | inr plain ↦
          let k : (b i ≡ p) × Holds b (suc i) (escape ps) = plain-Holds b i p ps plain h in
          let n : length (escape (p ∷ ps)) ≡ suc (length (escape ps)) = rw plain refl in
          let inside : ltb i size ≡ true = ground arith in
          let other : (b i == escape_char) ≡ false = ground (arith, k.0) in
          elim (Bool-cases escaped) [
            | inl moved ↦
                let b' = update b j (b i) in
                let below : j < suc i = ground arith in
                let r =
                  unescape_lem fuel size (suc i) (suc j) true b' ps
                    (Holds-update b (suc i) j (b i) (escape ps) below k.1) (omega arith)
                    (ground arith) (omega arith) in
                rw (inside, other, moved)
                  (one_more j p ps b b' _ r (ground (arith, k.0)) (λ x hx. ground arith))
            | inr kept ↦
                let same : j ≡ i = ground arith in
                let r =
                  unescape_lem fuel size (suc i) (suc j) false b ps k.1 (omega arith) (ground arith)
                    (omega arith) in
                rw (inside, other, kept) (one_more j p ps b b _ r (ap b same ∙ k.0) (λ x hx. refl))
          ]
    ]

-- The escaped properties of a node, wherever they stand in the buffer before: the loop gives the
-- properties back, however much it moves them.
pub unescape-escape :
    (b : Buffer) (ps : List ℕ)
    → let size = length (escape ps) in
      let r = unescape (suc size) size 0 0 false (store_bytes b 0 (escape ps)) in
      (r.0 ≡ length ps) × (load_bytes r.1 0 (length ps) ≡ ps)
unescape-escape b ps =
    let size = length (escape ps) in
    let r =
      unescape_lem (suc size) size 0 0 false (store_bytes b 0 (escape ps)) ps
        (Holds-store_bytes b 0 (escape ps)) (omega arith) refl (omega arith) in
    (omega (arith, r.stop), load_bytes-Holds _ 0 ps r.holds)
