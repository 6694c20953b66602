-- ===== src/WaitList/Queue.antt =====
-- The properties of `clientLogin` as a queue: who is let in, where a refused client waits, what
-- becomes of the others, and when the erasure goes through the wrong list.
use theforgottenserver.Prelude.{
  ℕ, ◌+◌, ◌*◌, ◌^◌, ◌≤◌, ◌<◌, ◌≡◌, ◌⊎◌, ◌↔◌, inl, inr, true, false, Option, none, some, [], ◌∷◌,
  ◌++◌, arith, length, length-append, Bool-cases, subst, ◌∙◌, Option-cases, add32, wrap32,
}
use theforgottenserver.WaitList.{
  WaitingList, LoginPlayer, LoginEnv, returned, undefined_behaviour, in_priority, in_wait,
  client_login, enqueue, cleaned, is_privileged, has_room, get_client_slot, get_timeout, retry_at,
  extend_timeout, set_timeout,
}
use theforgottenserver.WaitList.Find.{entry, get_client_slot_priority, get_client_slot_wait}
use theforgottenserver.WaitList.Lists.{
  length-set_timeout, index_of-set_timeout, entry-set_timeout, index_of-snoc, entry-snoc,
  entry-append_left, entry-append_right,
}
use theforgottenserver.WaitList.Admission.{
  Fits, cleaned-Fits, client_login_lem, outcome, priority_place, wait_place,
}

-- The caller stands in the normal list, at a slot for which there is room.
abbrev pub LetIn : WaitingList → LoginPlayer → LoginEnv → Type 0
LetIn c p env =
    (j : ℕ) × (priority_place c p ≡ none)
    × (wait_place c p ≡ some j)
    × (env.players_online + 1 + length c.priority_wait_list + j ≤ env.max_players)

-- The caller stands in the priority list, at a slot for which there is room.
abbrev pub ErasesAcross : WaitingList → LoginPlayer → LoginEnv → Type 0
ErasesAcross c p env =
    (i : ℕ) × (priority_place c p ≡ some i) × (env.players_online + 1 + i ≤ env.max_players)

module _ (c : WaitingList) (p : LoginPlayer) (env : LoginEnv) where
  outcome-admits :
      (o o' : Option ℕ) {wl' : WaitingList}
      → outcome c p env o o' ≡ returned true wl'
      → (j : ℕ) × (o ≡ none)
        × (o' ≡ some j)
        × (env.players_online + 1 + length c.priority_wait_list + j ≤ env.max_players)
  outcome-admits none none e = cc
  outcome-admits none (some j) e = (j, ground arith, ground arith, ground arith)
  outcome-admits (some i) o' e = absurd (ground arith)

  outcome-undefined :
      (o o' : Option ℕ)
      → outcome c p env o o' ≡ undefined_behaviour
      → (i : ℕ) × (o ≡ some i) × (env.players_online + 1 + i ≤ env.max_players)
  outcome-undefined none none e = cc
  outcome-undefined none (some j) e = absurd (ground arith)
  outcome-undefined (some i) o' e = (i, ground arith, ground arith)

get_timeout-le : (slot : ℕ) → get_timeout slot ≤ 135
unfolding get_timeout add32
get_timeout-le slot = ground arith

retry_at_lem : (env : LoginEnv) (slot : ℕ) → retry_at env slot ≡ env.now + get_timeout slot * 1000
unfolding retry_at
retry_at_lem env slot = omega (arith, get_timeout-le slot)

small_slot : (n : ℕ) → n + 1 < 2 ^ 32 → add32 (wrap32 n) 1 ≡ 1 + n
unfolding add32
small_slot n h = omega arith

small_sum : (n m : ℕ) → n + m + 1 < 2 ^ 32 → add32 (add32 (wrap32 n) m) 1 ≡ 1 + n + m
unfolding add32
small_sum n m h = omega arith

-- A client with this guid waits, and is to come back by a time that its present slot sets.
abbrev pub Waits : WaitingList → LoginPlayer → LoginEnv → Type 0
Waits wl p env =
    (slot : ℕ) × (get_client_slot wl p.guid ≡ slot)
    × (0 < slot)
    × (entry p.guid (wl.priority_wait_list ++ wl.wait_list)
        ≡ some (record { timeout = env.now + get_timeout slot * 1000; player_guid = p.guid }))

module _ (c : WaitingList) (p : LoginPlayer) (env : LoginEnv) (fits : Fits c env) where
  extend_timeout-Waits_priority :
      (i : ℕ)
      → priority_place c p ≡ some i
      → Waits (extend_timeout c (in_priority i) (retry_at env (1 + i))) p env
  unfolding extend_timeout get_client_slot
  extend_timeout-Waits_priority i e =
      let t = retry_at env (1 + i) in
      let ws = c.priority_wait_list in
      (
        1 + i,
        get_client_slot_priority _ p.guid (rw (length-set_timeout p.guid t i ws) (omega arith))
            (index_of-set_timeout p.guid t i ws ∙ e),
        omega arith,
        rw (
          entry-append_left p.guid _ c.wait_list (entry-set_timeout p.guid t i ws e),
          retry_at_lem,
        ),
      )

  extend_timeout-Waits_wait :
      (j : ℕ)
      → priority_place c p ≡ none
      → wait_place c p ≡ some j
      → Waits
          (extend_timeout c (in_wait j) (retry_at env (1 + length c.priority_wait_list + j)))
          p
          env
  unfolding extend_timeout get_client_slot
  extend_timeout-Waits_wait j e e' =
      let t = retry_at env (1 + length c.priority_wait_list + j) in
      let ws = c.wait_list in
      (
        1 + length c.priority_wait_list + j,
        get_client_slot_wait _ p.guid (rw (length-set_timeout p.guid t j ws) (omega arith)) e
            (index_of-set_timeout p.guid t j ws ∙ e'),
        omega arith,
        rw (
          entry-append_right p.guid c.priority_wait_list (set_timeout t j ws) e,
          entry-set_timeout p.guid t j ws e',
          retry_at_lem,
        ),
      )

  enqueue-Waits_premium :
      p.premium ≡ true → priority_place c p ≡ none → Waits (enqueue c p env) p env
  unfolding enqueue
  enqueue-Waits_premium prem e =
      let ws = c.priority_wait_list in
      let t = retry_at env (1 + length ws) in
      let small : add32 (wrap32 (length ws)) 1 ≡ 1 + length ws =
        small_slot (length ws) (omega arith) in
      rw (prem, small)
        (
          1 + length ws,
          get_client_slot_priority _ p.guid
              (rw (length-append ws (record { timeout = t; player_guid = p.guid } ∷ []))
                (omega arith))
              (index_of-snoc p.guid t ws e),
          omega arith,
          rw (entry-append_left p.guid _ c.wait_list (entry-snoc p.guid t ws e), retry_at_lem),
        )

  enqueue-Waits_normal :
      p.premium ≡ false
      → priority_place c p ≡ none
      → wait_place c p ≡ none
      → Waits (enqueue c p env) p env
  unfolding enqueue
  enqueue-Waits_normal prem e e' =
      let ws = c.wait_list in
      let slot = 1 + length c.priority_wait_list + length ws in
      let t = retry_at env slot in
      let small : add32 (add32 (wrap32 (length c.priority_wait_list)) (length ws)) 1 ≡ slot =
        small_sum (length c.priority_wait_list) (length ws) (omega arith) in
      rw (prem, small)
        (
          slot,
          get_client_slot_wait _ p.guid
              (rw (length-append ws (record { timeout = t; player_guid = p.guid } ∷ []))
                (omega arith))
              e (index_of-snoc p.guid t ws e'),
          omega arith,
          rw (
            entry-append_right p.guid c.priority_wait_list _ e,
            entry-snoc p.guid t ws e',
            retry_at_lem,
          ),
        )

  enqueue-Waits : priority_place c p ≡ none → wait_place c p ≡ none → Waits (enqueue c p env) p env
  enqueue-Waits e e' = elim (Bool-cases p.premium) [
    | inl prem ↦ enqueue-Waits_premium prem e
    | inr prem ↦ enqueue-Waits_normal prem e e'
  ]

  outcome-Waits :
      {wl' : WaitingList}
      → outcome c p env (priority_place c p) (wait_place c p) ≡ returned false wl'
      → Waits wl' p env
  outcome-Waits {wl'} h = elim (Option-cases (priority_place c p)) [
    | inl e ↦ elim (Option-cases (wait_place c p)) [
      | inl e' ↦
          let eq : enqueue c p env ≡ wl' = ground arith in
          subst (λ w. Waits w p env) eq (enqueue-Waits e e')
      | inr (j, e') ↦
          let t = retry_at env (1 + length c.priority_wait_list + j) in
          let eq : extend_timeout c (in_wait j) t ≡ wl' = ground arith in
          subst (λ w. Waits w p env) eq (extend_timeout-Waits_wait j e e')
    ]
    | inr (i, e) ↦
        let eq : extend_timeout c (in_priority i) (retry_at env (1 + i)) ≡ wl' = ground arith in
        subst (λ w. Waits w p env) eq (extend_timeout-Waits_priority i e)
  ]

module _ (wl : WaitingList) (p : LoginPlayer) (env : LoginEnv) (fits : Fits wl env) where
  -- A client is let in only if it is privileged, if the server has room and nobody waits or no
  -- maximum is set, or if it waits in the normal list and the server has room for it and for all
  -- that stand before it.
  pub client_login_admits :
      {wl' : WaitingList}
      → client_login wl p env ≡ returned true wl'
      → (is_privileged p ≡ true) ⊎ (has_room wl env ≡ true) ⊎ LetIn (cleaned wl env) p env
  client_login_admits {wl'} e = ground (
    arith,
    client_login_lem wl p env fits,
    outcome-admits (cleaned wl env) p env (priority_place (cleaned wl env) p)
        (wait_place (cleaned wl env) p) {wl' = wl'},
  )

  -- The call is undefined exactly when the caller neither is privileged nor finds room at once, and
  -- stands in the priority list at a slot for which there is room.
  pub client_login-undefined_iff : (client_login wl p env ≡ undefined_behaviour) ↔ (
      (is_privileged p ≡ false) × (has_room wl env ≡ false) × ErasesAcross (cleaned wl env) p env)
  client_login-undefined_iff = (
    λ e. ground (
      arith,
      client_login_lem wl p env fits,
      outcome-undefined (cleaned wl env) p env (priority_place (cleaned wl env) p)
          (wait_place (cleaned wl env) p),
    ),
    λ h. rw (client_login_lem wl p env fits) (ground arith),
  )

  -- A client that is refused waits: it has a slot from 1 on, and its entry is to be renewed within
  -- the time that this very slot sets.
  pub client_login_refused :
      {wl' : WaitingList} → client_login wl p env ≡ returned false wl' → Waits wl' p env
  client_login_refused {wl'} e =
      outcome-Waits (cleaned wl env) p env (cleaned-Fits wl env fits)
        (ground (arith, client_login_lem wl p env fits))
