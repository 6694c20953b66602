-- ===== src/Ban.antt =====
-- src/ban.h and src/ban.cpp: the limit on connection attempts per address. `std::map` is an
-- association list; `OTSYS_TIME()` is the argument `current_time`, in milliseconds. The three
-- database queries of `IOBan` are not modelled.
pub mod Limit
mod Tests
use theforgottenserver.Prelude.{
  ℕ, ◌+◌, ◌-◌, Bool, true, false, Option, none, some, List, [], ◌∷◌, ltb, leb, ◌==◌, if◌then◌else◌,
  wrap32, wrap64,
}

pub record ConnectBlock : Type 0 where
  pub last_attempt : ℕ
  pub block_time : ℕ
  pub count : ℕ

abbrev pub IpConnectMap : Type 0
IpConnectMap = List (ℕ × ConnectBlock)

abbrev pub find : ℕ → IpConnectMap → Option ConnectBlock
find ip [] = none
find ip ((k, b) ∷ m) = if k == ip then some b else find ip m

-- Writes through `it->second`.
abbrev pub store : ℕ → ConnectBlock → IpConnectMap → IpConnectMap
store ip b [] = (ip, b) ∷ []
store ip b ((k, c) ∷ m) = if k == ip then (ip, b) ∷ m else (k, c) ∷ store ip b m

-- `timeDiff` is an `int64_t`: an attempt dated before the last one has a negative difference, which
-- passes both tests below, as 0 does here.
abbrev pub time_diff : ConnectBlock → ℕ → ℕ
time_diff b current_time = current_time - b.last_attempt

-- The part of `acceptConnection` for an address that is known and not blocked.
unfoldable pub attempt : ConnectBlock → ℕ → Bool × ConnectBlock
attempt b current_time =
    let b' = record b { last_attempt = current_time } in
    let next = wrap32 (b.count + 1) in
    if leb (time_diff b current_time) 5000
    then (if ltb 5 next
        then (if leb (time_diff b current_time) 500
            then (false, record b' { count = 0; block_time = wrap64 (current_time + 3000) })
            else (true, record b' { count = 0 }))
        else (true, record b' { count = next }))
    else (true, record b' { count = 1 })

-- The part of `acceptConnection` for an address that is known.
unfoldable pub known : ConnectBlock → ℕ → Bool × ConnectBlock
unfolding attempt
known b current_time =
    if ltb current_time b.block_time
    then (false, record b { block_time = wrap64 (b.block_time + 250) })
    else attempt b current_time

-- `Ban::acceptConnection`
unfoldable pub accept_connection : IpConnectMap → ℕ → ℕ → Bool × IpConnectMap
unfolding known
accept_connection m ip current_time = elim (find ip m) [
  | none ↦ (true, store ip (record { last_attempt = current_time; block_time = 0; count = 1 }) m)
  | some b ↦ let (ok, b') = known b current_time in (ok, store ip b' m)
]
