-- ===== src/Ban/Limit.antt =====
-- What the limit promises: a burst is cut off, a block holds, and addresses do not interfere.
use theforgottenserver.Prelude.{
  ℕ, ◌+◌, ◌*◌, ◌^◌, ◌≤◌, ◌<◌, ◌≡◌, refl, ◌≢◌, inl, inr, Bool, true, false, none, some, List, [],
  ◌∷◌, arith, Option-cases, length, subst, sym, ◌∙◌, ◌%◌,
}
use theforgottenserver.Ban.{ConnectBlock, IpConnectMap, find, store, known, accept_connection}

find-store_self : (ip : ℕ) (b : ConnectBlock) (m : IpConnectMap) → find ip (store ip b m) ≡ some b
find-store_self ip b [] = ground arith
find-store_self ip b ((k, c) ∷ m) = ground (arith, find-store_self ip b m)

find-store_ne :
    (j ip : ℕ) (b : ConnectBlock) (m : IpConnectMap) → j ≢ ip → find j (store ip b m) ≡ find j m
find-store_ne j ip b [] h = ground arith
find-store_ne j ip b ((k, c) ∷ m) h = ground (arith, find-store_ne j ip b m h)

-- An attempt from one address changes nothing for another.
pub accept_connection_others :
    (m : IpConnectMap) (ip j t : ℕ) → j ≢ ip → find j (accept_connection m ip t).1 ≡ find j m
unfolding accept_connection
accept_connection_others m ip j t h = elim (Option-cases (find ip m)) [
  | inl e ↦ rw (e, accept_connection) (find-store_ne j ip _ m h)
  | inr (b, e) ↦ rw (e, accept_connection) (find-store_ne j ip _ m h)
]

-- The attempts of one address, in order: the answers, and the map after the last.
abbrev pub attempts : IpConnectMap → ℕ → List ℕ → List Bool × IpConnectMap
attempts m ip [] = ([], m)
attempts m ip (t ∷ ts) =
    let (ok, m') = accept_connection m ip t in let (oks, m'') = attempts m' ip ts in (ok ∷ oks, m'')

-- What `find` gives after one attempt.
find-accept_connection :
    (m : IpConnectMap) (ip t : ℕ) (b : ConnectBlock)
    → find ip m ≡ some b
    → (find ip (accept_connection m ip t).1 ≡ some (known b t).1)
      × ((accept_connection m ip t).0 ≡ (known b t).0)
unfolding accept_connection
find-accept_connection m ip t b e = rw (e, accept_connection) (find-store_self ip _ m, refl)

-- No count passes 5.
pub record IsSound (b : ConnectBlock) : Type 0 where
  pub counted : b.count ≤ 5

known-IsSound : (b : ConnectBlock) (t : ℕ) → IsSound b → IsSound (known b t).1
unfolding known
known-IsSound b t s = ground arith

abbrev pub AllSound : IpConnectMap → Type 0
AllSound [] = Unit {0}
AllSound ((k, b) ∷ m) = IsSound b × AllSound m

store-AllSound :
    (ip : ℕ) (b : ConnectBlock) (m : IpConnectMap)
    → IsSound b
    → AllSound m
    → AllSound (store ip b m)
store-AllSound ip b [] s a = (s, tt)
store-AllSound ip b ((k, c) ∷ m) s a = ground (arith, store-AllSound ip b m s a.1)

find-AllSound :
    (ip : ℕ) (m : IpConnectMap) {b : ConnectBlock} → AllSound m → find ip m ≡ some b → IsSound b
find-AllSound ip [] a e = cc
find-AllSound ip ((k, c) ∷ m) {b} a e = ground (arith, find-AllSound ip m {b = b} a.1)

-- If no address of the map has more than five attempts counted, none has after an attempt either.
pub accept_connection-AllSound :
    (m : IpConnectMap) (ip t : ℕ) → AllSound m → AllSound (accept_connection m ip t).1
unfolding accept_connection
accept_connection-AllSound m ip t a = elim (Option-cases (find ip m)) [
  | inl e ↦ rw (e, accept_connection) (store-AllSound ip _ m (omega arith) a)
  | inr (b, e) ↦
      rw (e, accept_connection)
        (store-AllSound ip _ m (known-IsSound b t (find-AllSound ip m a e)) a)
]

-- The answers that an address gets are those that its own entry gives.
abbrev pub answers : ConnectBlock → List ℕ → List Bool × ConnectBlock
answers b [] = ([], b)
answers b (t ∷ ts) = let (ok, b') = known b t in let (oks, b'') = answers b' ts in (ok ∷ oks, b'')

pub attempts-eq-answers :
    (m : IpConnectMap) (ip : ℕ) (b : ConnectBlock) (ts : List ℕ)
    → find ip m ≡ some b
    → ((attempts m ip ts).0 ≡ (answers b ts).0)
      × (find ip (attempts m ip ts).1 ≡ some (answers b ts).1)
attempts-eq-answers m ip b [] e = (refl, e)
attempts-eq-answers m ip b (t ∷ ts) e =
    let first = find-accept_connection m ip t b e in
    let rest = attempts-eq-answers (accept_connection m ip t).1 ip (known b t).1 ts first.0 in
    (cc, rest.1)

-- Every attempt comes more than half a second after the one before it.
abbrev pub Spaced : ℕ → List ℕ → Type 0
Spaced last [] = Unit {0}
Spaced last (t ∷ ts) = (last + 500 < t) × Spaced t ts

abbrev pub all_true : List ℕ → List Bool
all_true [] = []
all_true (t ∷ ts) = true ∷ all_true ts

known_slow :
    (b : ConnectBlock) (t : ℕ)
    → b.block_time ≡ 0
    → b.last_attempt + 500 < t
    → ((known b t).0 ≡ true) × ((known b t).1.block_time ≡ 0) × ((known b t).1.last_attempt ≡ t)
unfolding known
known_slow b t z h = ground arith

answers_slow :
    (b : ConnectBlock) (ts : List ℕ)
    → b.block_time ≡ 0
    → Spaced b.last_attempt ts
    → (answers b ts).0 ≡ all_true ts
answers_slow b [] z s = refl
answers_slow b (t ∷ ts) z s =
    let k = known_slow b t z s.0 in
    let s' = subst (λ l. Spaced l ts) (sym k.2) s.1 in
    let rest = answers_slow (known b t).1 ts k.1 s' in cc

abbrev new_block : ℕ → ConnectBlock
new_block t = record { last_attempt = t; block_time = 0; count = 1 }

find-accept_connection_new :
    (m : IpConnectMap) (ip t : ℕ)
    → find ip m ≡ none
    → (find ip (accept_connection m ip t).1 ≡ some (new_block t))
      × ((accept_connection m ip t).0 ≡ true)
unfolding accept_connection
find-accept_connection_new m ip t e = rw (e, accept_connection) (find-store_self ip _ m, refl)

-- A new address whose attempts come more than half a second apart is never refused, however many
-- there are.
pub slow_attempts_accepted :
    (m : IpConnectMap) (ip t : ℕ) (ts : List ℕ)
    → find ip m ≡ none
    → Spaced t ts
    → (attempts m ip (t ∷ ts)).0 ≡ all_true (t ∷ ts)
slow_attempts_accepted m ip t ts e s =
    let first = find-accept_connection_new m ip t e in
    let rest =
      (attempts-eq-answers (accept_connection m ip t).1 ip (new_block t) ts first.0).0
      ∙ answers_slow (new_block t) ts refl s in
    rw (first.1, rest)

-- A refusal of a burst: the attempt is the sixth counted, within half a second of the last.
known_burst :
    (b : ConnectBlock) (t : ℕ)
    → b.count ≡ 5
    → b.block_time ≤ t
    → t ≤ b.last_attempt + 500
    → known b t ≡ (false, record { last_attempt = t; block_time = (t + 3000) % 2 ^ 64; count = 0 })
unfolding known
known_burst b t c z h = ground arith

-- Attempts of a blocked address, all before the block ends.
abbrev pub Before : ℕ → List ℕ → Type 0
Before limit [] = Unit {0}
Before limit (t ∷ ts) = (t < limit) × Before limit ts

abbrev pub all_false : List ℕ → List Bool
all_false [] = []
all_false (t ∷ ts) = false ∷ all_false ts

known_blocked :
    (b : ConnectBlock) (t : ℕ)
    → t < b.block_time
    → b.block_time + 250 < 2 ^ 64
    → known b t ≡ (false, record b { block_time = b.block_time + 250 })
unfolding known
known_blocked b t h fits = ground arith

Before-mono : (l l' : ℕ) (ts : List ℕ) → l ≤ l' → Before l ts → Before l' ts
Before-mono l l' [] h b = tt
Before-mono l l' (t ∷ ts) h b = (omega arith, Before-mono l l' ts h b.1)

answers-blocked :
    (b : ConnectBlock) (ts : List ℕ)
    → Before b.block_time ts
    → b.block_time + 250 * length ts < 2 ^ 64
    → answers b ts ≡ (all_false ts, record b { block_time = b.block_time + 250 * length ts })
answers-blocked b [] h fits = ground arith
answers-blocked b (t ∷ ts) h fits =
    let b' : ConnectBlock = record b { block_time = b.block_time + 250 } in
    rw (known_blocked b t h.0 (omega arith)) (
      rw
        (answers-blocked b' ts (Before-mono _ (b.block_time + 250) ts (omega arith) h.1)
          (omega arith))
        (ground arith))

-- The sixth attempt counted against an address, when it comes within half a second of the last one,
-- is refused, and so is every attempt of that address in the next three seconds.
pub burst_blocks :
    (m : IpConnectMap) (ip t : ℕ) (ts : List ℕ) (b : ConnectBlock)
    → find ip m ≡ some b
    → b.count ≡ 5
    → b.block_time ≤ t
    → t ≤ b.last_attempt + 500
    → Before (t + 3000) ts
    → t + 3000 + 250 * length ts < 2 ^ 64
    → (attempts m ip (t ∷ ts)).0 ≡ all_false (t ∷ ts)
burst_blocks m ip t ts b e c z near h fits =
    let b' : ConnectBlock = record { last_attempt = t; block_time = t + 3000; count = 0 } in
    let k : known b t ≡ (false, b') = known_burst b t c z near ∙ ground arith in
    (attempts-eq-answers m ip b (t ∷ ts) e).0 ∙ rw k (rw (answers-blocked b' ts h fits))
