-- ===== src/WaitList/Admission.antt =====
-- What `clientLogin` answers, and what the queue holds afterwards.
use theforgottenserver.Prelude.{
  ℕ, ◌+◌, ◌^◌, ◌<◌, ◌≡◌, inl, inr, true, false, ◌||◌, Option, none, some, arith, leb, if◌then◌else◌,
  length, erase_idx, Option-cases, add32-eq_add,
}
use theforgottenserver.WaitList.{
  WaitingList, LoginPlayer, LoginEnv, LoginOutcome, returned, undefined_behaviour, in_priority,
  in_wait, client_login, place, enqueue, cleaned, is_privileged, has_room, find_client, retry_at,
  extend_timeout, erase_from_wait_list,
}
use theforgottenserver.WaitList.Find.{index_of, index_of-lt, find_client-eq-found}
use theforgottenserver.WaitList.Lists.{length-cleanup_list-le}

-- Every slot and every sum of a slot and the number of players fits a `uint32_t`.
abbrev pub Fits : WaitingList → LoginEnv → Type 0
Fits wl env = env.players_online + 2 + length wl.priority_wait_list + length wl.wait_list < 2 ^ 32

pub cleaned-Fits : (wl : WaitingList) (env : LoginEnv) → Fits wl env → Fits (cleaned wl env) env
unfolding cleaned
cleaned-Fits wl env h = omega (
  arith,
  length-cleanup_list-le env.priority_cleanup_time wl.priority_wait_list,
  length-cleanup_list-le env.cleanup_time wl.wait_list,
)

-- The places of the caller in the two lists of a cleaned queue, and the answer that follows.
abbrev pub priority_place : WaitingList → LoginPlayer → Option ℕ
priority_place wl p = index_of p.guid wl.priority_wait_list

abbrev pub wait_place : WaitingList → LoginPlayer → Option ℕ
wait_place wl p = index_of p.guid wl.wait_list

abbrev pub outcome : WaitingList → LoginPlayer → LoginEnv → Option ℕ → Option ℕ → LoginOutcome
outcome c p env (some i) o =
    if leb (env.players_online + 1 + i) env.max_players
    then undefined_behaviour
    else returned false (extend_timeout c (in_priority i) (retry_at env (1 + i)))
outcome c p env none (some j) =
    let slot = 1 + length c.priority_wait_list + j in
    if leb (env.players_online + slot) env.max_players
    then returned true (record c { wait_list = erase_idx c.wait_list j })
    else returned false (extend_timeout c (in_wait j) (retry_at env slot))
outcome c p env none none = returned false (enqueue c p env)

place-eq-outcome :
    (c : WaitingList) (p : LoginPlayer) (env : LoginEnv)
    → Fits c env
    → place c p env (find_client c p.guid) ≡ outcome c p env (priority_place c p) (wait_place c p)
unfolding place erase_from_wait_list
place-eq-outcome c p env h =
    rw (find_client-eq-found c p.guid (omega arith)) (elim (Option-cases (priority_place c p)) [
      | inl e ↦ elim (Option-cases (wait_place c p)) [
        | inl e' ↦ rw (e, e')
        | inr (j, e') ↦
            let b = index_of-lt p.guid c.wait_list e' in
            let slot = 1 + length c.priority_wait_list + j in
            rw (e, e', place) (ground (arith, add32-eq_add env.players_online slot (omega arith)))
      ]
      | inr (i, e) ↦
          let b = index_of-lt p.guid c.priority_wait_list e in
          rw (e, place) (ground (arith, add32-eq_add env.players_online (1 + i) (omega arith)))
    ])

-- The whole answer of `clientLogin`: the caller goes in at once, or by its place in the queue
-- from which the expired entries are gone.
pub client_login_lem :
    (wl : WaitingList) (p : LoginPlayer) (env : LoginEnv)
    → Fits wl env
    → client_login wl p env ≡ (
        let c = cleaned wl env in
        if is_privileged p || has_room wl env
        then returned true wl
        else outcome c p env (priority_place c p) (wait_place c p))
unfolding client_login
client_login_lem wl p env h =
    rw (place-eq-outcome (cleaned wl env) p env (cleaned-Fits wl env h)) (ground arith)
