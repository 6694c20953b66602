-- ===== src/WaitList.antt =====
-- src/waitlist.h and src/waitlist.cpp: the login queue of a full server. A client waits in the
-- priority list (premium accounts) or in the normal one, and its slot counts through both.
-- `OTSYS_TIME()` is read up to three times in one call, so the call takes three times, in
-- milliseconds; they are far below 2 ^ 63, so the signed test `timeout - time <= 0` is an order.
pub mod Find
pub mod Lists
pub mod Admission
pub mod Queue
pub mod Distinct
mod Tests
use theforgottenserver.Prelude.{
  wrap64, ℕ, zero, suc, ◌+◌, ◌*◌, Bool, true, false, ◌&&◌, ◌||◌, Option, none, some, List, [], ◌∷◌,
  ◌++◌, ltb, leb, ◌==◌, if◌then◌else◌, is_empty, length, erase_idx, wrap32, add32,
}

pub record Wait : Type 0 where
  pub timeout : ℕ
  pub player_guid : ℕ

pub record WaitingList : Type 0 where
  pub priority_wait_list : List Wait
  pub wait_list : List Wait

-- What the queue asks of the `Player` that logs in.
pub record LoginPlayer : Type 0 where
  pub guid : ℕ
  pub can_always_login : Bool
  pub account_type : ℕ
  pub premium : Bool

-- The configured maximum, the number of players online, and the three readings of the clock.
pub record LoginEnv : Type 0 where
  pub max_players : ℕ
  pub players_online : ℕ
  pub priority_cleanup_time : ℕ
  pub cleanup_time : ℕ
  pub now : ℕ

-- `WaitListIterator`: a place in the priority list, a place in the normal list, or the end of the
-- normal list.
pub data WaitListIterator : Type 0 where
  in_priority : ℕ → WaitListIterator
  in_wait : ℕ → WaitListIterator
  at_end : WaitListIterator

abbrev pub account_type_gamemaster : ℕ
account_type_gamemaster = 4

-- One of the two loops of `findClient`: the place of the first entry with this guid, and the slot
-- that the counter has reached.
pub scan : ℕ → List Wait → ℕ → ℕ → Option ℕ × ℕ
scan guid [] i slot = (none, slot)
scan guid (w ∷ ws) i slot =
    if w.player_guid == guid then (some i, slot) else scan guid ws (suc i) (add32 slot 1)

scan_wait : Option ℕ × ℕ → WaitListIterator × ℕ
scan_wait (some i, slot) = (in_wait i, slot)
scan_wait (none, slot) = (at_end, slot)

scan_priority : ℕ → List Wait → Option ℕ × ℕ → WaitListIterator × ℕ
unfolding scan_wait
scan_priority guid waiting (some i, slot) = (in_priority i, slot)
scan_priority guid waiting (none, slot) = scan_wait (scan guid waiting 0 slot)

-- `findClient`: the iterator that it returns, and its out parameter `slot`.
pub find_client : WaitingList → ℕ → WaitListIterator × ℕ
unfolding scan_priority
find_client wl guid = scan_priority guid wl.wait_list (scan guid wl.priority_wait_list 0 1)

pub get_time : ℕ → ℕ
get_time slot =
    if ltb slot 5
    then 5
    else if ltb slot 10
    then 10
    else if ltb slot 20
    then 20
    else if ltb slot 50
    then 60
    else 120

pub get_timeout : ℕ → ℕ
unfolding get_time
get_timeout slot = add32 (get_time slot) 15

-- `cleanupList`
pub cleanup_list : ℕ → List Wait → List Wait
cleanup_list time [] = []
cleanup_list time (w ∷ ws) =
    if leb w.timeout time then cleanup_list time ws else w ∷ cleanup_list time ws

-- What a call leaves behind. `undefined_behaviour` is the erasure of an element of one `std::list`
-- through another one.
pub data LoginOutcome : Type 0 where
  returned : Bool → WaitingList → LoginOutcome
  undefined_behaviour : LoginOutcome

pub set_timeout : ℕ → ℕ → List Wait → List Wait
set_timeout t i [] = []
set_timeout t zero (w ∷ ws) = record w { timeout = t } ∷ ws
set_timeout t (suc i) (w ∷ ws) = w ∷ set_timeout t i ws

-- `waitList.erase(it)`
erase_from_wait_list : WaitingList → WaitListIterator → LoginOutcome
erase_from_wait_list wl (in_wait i) =
    returned true (record wl { wait_list = erase_idx wl.wait_list i })
erase_from_wait_list wl (in_priority i) = undefined_behaviour
erase_from_wait_list wl at_end = undefined_behaviour

-- `it->timeout = t`
pub extend_timeout : WaitingList → WaitListIterator → ℕ → WaitingList
unfolding set_timeout
extend_timeout wl (in_priority i) t = record wl {
  priority_wait_list = set_timeout t i wl.priority_wait_list;
}
extend_timeout wl (in_wait i) t = record wl { wait_list = set_timeout t i wl.wait_list }
extend_timeout wl at_end t = wl

pub retry_at : LoginEnv → ℕ → ℕ
retry_at env slot = env.now + wrap32 (get_timeout slot * 1000)

-- The branch for a client that is in neither list.
pub enqueue : WaitingList → LoginPlayer → LoginEnv → WaitingList
unfolding retry_at
enqueue wl p env =
    let slot = wrap32 (length wl.priority_wait_list) in
    if p.premium
    then record wl {
      priority_wait_list =
          wl.priority_wait_list
          ++ record { timeout = retry_at env (add32 slot 1); player_guid = p.guid } ∷ [];
    }
    else record wl {
      wait_list =
          wl.wait_list
          ++ record {
            timeout = retry_at env (add32 (add32 slot (length wl.wait_list)) 1);
            player_guid = p.guid;
          }
            ∷ [];
    }

-- The rest of `clientLogin`, from the result of `findClient` on.
place : WaitingList → LoginPlayer → LoginEnv → WaitListIterator × ℕ → LoginOutcome
unfolding enqueue
place wl p env (at_end, slot) = returned false (enqueue wl p env)
place wl p env (it, slot) =
    if leb (wrap64 (env.players_online + slot)) env.max_players
    then erase_from_wait_list wl it
    else returned false (extend_timeout wl it (retry_at env slot))

pub cleaned : WaitingList → LoginEnv → WaitingList
cleaned wl env = record {
  priority_wait_list = cleanup_list env.priority_cleanup_time wl.priority_wait_list;
  wait_list = cleanup_list env.cleanup_time wl.wait_list;
}

-- The players that never wait.
abbrev pub is_privileged : LoginPlayer → Bool
is_privileged p = p.can_always_login || leb account_type_gamemaster p.account_type

abbrev pub has_room : WaitingList → LoginEnv → Bool
has_room wl env =
    (env.max_players == 0)
    || (is_empty wl.priority_wait_list
        && (is_empty wl.wait_list && ltb env.players_online env.max_players))

-- `clientLogin`
pub client_login : WaitingList → LoginPlayer → LoginEnv → LoginOutcome
unfolding place cleaned
client_login wl p env =
    if is_privileged p
    then returned true wl
    else if has_room wl env
    then returned true wl
    else place (cleaned wl env) p env (find_client (cleaned wl env) p.guid)

slot_of : WaitListIterator × ℕ → ℕ
slot_of (at_end, slot) = 0
slot_of (it, slot) = slot

-- `getClientSlot`
pub get_client_slot : WaitingList → ℕ → ℕ
unfolding slot_of
get_client_slot wl guid = slot_of (find_client wl guid)
