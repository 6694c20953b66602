-- ===== src/Ban/Tests.antt =====
-- The theorems on the connection limit at concrete inputs.
use theforgottenserver.Prelude.{◌≡◌, refl, true, false, [], ◌∷◌, arith}
use theforgottenserver.Ban.{ConnectBlock, IpConnectMap, accept_connection, find}
use theforgottenserver.Ban.Limit.{
  attempts, accept_connection_others, AllSound, accept_connection-AllSound, slow_attempts_accepted,
  burst_blocks,
}

abbrev busy : ConnectBlock
busy = record { last_attempt = 9900; block_time = 0; count = 5 }

abbrev seen : IpConnectMap
seen = (7, busy) ∷ (8, record { last_attempt = 100; block_time = 0; count = 1 }) ∷ []

-- Six attempts, 100 ms apart, and one after the block.
six_attempts :
    (attempts [] 7 (100 ∷ 200 ∷ 300 ∷ 400 ∷ 500 ∷ 600 ∷ 3700 ∷ [])).0
    ≡ true ∷ true ∷ true ∷ true ∷ true ∷ false ∷ true ∷ []
unfolding accept_connection
six_attempts = refl

accept_connection_others_example : find 8 (accept_connection seen 7 10000).1 ≡ find 8 seen
accept_connection_others_example = accept_connection_others seen 7 8 10000 (omega arith)

accept_connection-AllSound_example : AllSound (accept_connection seen 7 10000).1
accept_connection-AllSound_example = accept_connection-AllSound seen 7 10000 (ground arith)

slow_attempts_accepted_example :
    (attempts [] 7 (1000 ∷ 1600 ∷ 2200 ∷ [])).0 ≡ true ∷ true ∷ true ∷ []
slow_attempts_accepted_example =
    slow_attempts_accepted [] 7 1000 (1600 ∷ 2200 ∷ []) refl (omega arith)

burst_blocks_example : (attempts seen 7 (10000 ∷ 10500 ∷ 12999 ∷ [])).0 ≡ false ∷ false ∷ false ∷ []
burst_blocks_example =
    burst_blocks seen 7 10000 (10500 ∷ 12999 ∷ []) busy refl refl (omega arith) (omega arith)
      (omega arith) (omega arith)
