-- ===== src/WaitList/Tests.antt =====
-- Runs of the login queue, and the theorems at concrete inputs.
use theforgottenserver.Prelude.{ℕ, ◌≡◌, refl, ◌⊎◌, ◌↔◌, true, false, some, [], ◌∷◌, arith, add32}
use theforgottenserver.WaitList.{
  Wait, WaitingList, LoginPlayer, LoginEnv, returned, undefined_behaviour, client_login, cleaned,
  cleanup_list, is_privileged, has_room, find_client, get_timeout, retry_at, scan, extend_timeout,
  erase_from_wait_list,
}
use theforgottenserver.WaitList.Find.{entry}
use theforgottenserver.WaitList.Queue.{
  LetIn, ErasesAcross, Waits, client_login_admits, client_login-undefined_iff, client_login_refused,
}
use theforgottenserver.WaitList.Distinct.{
  IsDistinct, Leaves, ListName, list_of, client_login-IsDistinct, client_login_others,
}

abbrev wait : ℕ → ℕ → Wait
wait t g = record { timeout = t; player_guid = g }

-- Player 1 has a premium account; 2 and 3 wait in the normal list, 3's entry has run out.
abbrev crowd : WaitingList
crowd = record { priority_wait_list = wait 9000 1 ∷ []; wait_list = wait 4000 3 ∷ wait 9000 2 ∷ [] }

abbrev client : ℕ → LoginPlayer
client g = record { guid = g; can_always_login = false; account_type = 1; premium = false }

abbrev full : LoginEnv
full = record {
  max_players = 10;
  players_online = 10;
  priority_cleanup_time = 5000;
  cleanup_time = 5000;
  now = 5000;
}

abbrev emptied : LoginEnv
emptied = record full { players_online = 8 }

-- Player 2 moves up to the second slot, and is to be back within 20 seconds.
refused :
    client_login crowd (client 2) full
    ≡ returned false
        (record { priority_wait_list = wait 9000 1 ∷ []; wait_list = wait 25000 2 ∷ [] })
unfolding client_login find_client cleanup_list scan add32 retry_at get_timeout extend_timeout
refused = refl

admitted :
    client_login crowd (client 2) emptied
    ≡ returned true (record { priority_wait_list = wait 9000 1 ∷ []; wait_list = [] })
unfolding client_login find_client cleanup_list scan add32 erase_from_wait_list
admitted = refl

client_login_admits_example :
    (is_privileged (client 2) ≡ true)
    ⊎ (has_room crowd emptied ≡ true)
    ⊎ LetIn (cleaned crowd emptied) (client 2) emptied
client_login_admits_example = client_login_admits crowd (client 2) emptied (omega arith) admitted

client_login-undefined_iff_example :
    (client_login crowd (client 1) emptied ≡ undefined_behaviour) ↔ (
      (is_privileged (client 1) ≡ false)
      × (has_room crowd emptied ≡ false)
      × ErasesAcross (cleaned crowd emptied) (client 1) emptied)
client_login-undefined_iff_example =
    client_login-undefined_iff crowd (client 1) emptied (omega arith)

-- The premium player at the head of the queue, when two places are free.
erases_across : client_login crowd (client 1) emptied ≡ undefined_behaviour
unfolding cleaned cleanup_list
erases_across = client_login-undefined_iff_example.1 (refl, refl, (0, refl, omega arith))

client_login_refused_example :
    Waits
      (record { priority_wait_list = wait 9000 1 ∷ []; wait_list = wait 25000 2 ∷ [] })
      (client 2)
      full
client_login_refused_example = client_login_refused crowd (client 2) full (omega arith) refused

crowd-IsDistinct : IsDistinct crowd
crowd-IsDistinct = record {
  priority = (refl, tt);
  normal = (refl, (refl, tt));
  apart = λ g. ground arith;
}

client_login-IsDistinct_example : Leaves IsDistinct (client_login crowd (client 4) full)
client_login-IsDistinct_example =
    client_login-IsDistinct crowd (client 4) full (omega arith) crowd-IsDistinct

client_login_others_example :
    Leaves
      (λ wl. entry 1 (list_of ListName.the_priority_list wl) ≡ some (wait 9000 1))
      (client_login crowd (client 2) emptied)
client_login_others_example =
    client_login_others ListName.the_priority_list crowd (client 2) emptied 1 (wait 9000 1)
      (omega arith) (omega arith) refl (omega arith)
