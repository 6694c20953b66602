-- ===== src/WaitList/Distinct.antt =====
-- Nobody waits twice: the two lists hold every guid at most once between them.
use theforgottenserver.Prelude.{
  ℕ, zero, suc, ◌+◌, ◌<◌, ◌≡◌, refl, ◌≢◌, ◌⊎◌, inl, inr, ◌||◌, none, some, List, [], ◌∷◌, ◌++◌,
  arith, leb, ◌==◌, length, erase_idx, Bool-cases, subst, ◌∙◌, sym, Option-cases, ==→eq,
}
use theforgottenserver.WaitList.{
  Wait, WaitingList, LoginPlayer, LoginEnv, LoginOutcome, returned, undefined_behaviour,
  in_priority, in_wait, client_login, enqueue, cleaned, is_privileged, has_room, retry_at,
  extend_timeout, cleanup_list, set_timeout,
}
use theforgottenserver.WaitList.Find.{index_of, entry}
use theforgottenserver.WaitList.Lists.{
  index_of-set_timeout, index_of-cleanup_list, index_of-erase_idx, index_of-snoc_ne,
  entry-cleanup_list, entry-set_timeout_ne, entry-erase_idx_ne, entry-snoc_ne,
}
use theforgottenserver.WaitList.Admission.{
  Fits, client_login_lem, outcome, priority_place, wait_place,
}

abbrev pub Distinct : List Wait → Type 0
Distinct [] = Unit {0}
Distinct (w ∷ ws) = (index_of w.player_guid ws ≡ none) × Distinct ws

pub record IsDistinct (wl : WaitingList) : Type 0 where
  pub priority : Distinct wl.priority_wait_list
  pub normal : Distinct wl.wait_list
  pub apart : (g : ℕ) → (index_of g wl.priority_wait_list ≡ none) ⊎ (index_of g wl.wait_list ≡ none)

cleanup_list-Distinct : (t : ℕ) (ws : List Wait) → Distinct ws → Distinct (cleanup_list t ws)
unfolding cleanup_list
cleanup_list-Distinct t [] d = tt
cleanup_list-Distinct t (w ∷ ws) d =
    ground (arith, cleanup_list-Distinct t ws d.1, index_of-cleanup_list w.player_guid t ws)

set_timeout-Distinct : (t i : ℕ) (ws : List Wait) → Distinct ws → Distinct (set_timeout t i ws)
unfolding set_timeout
set_timeout-Distinct t i [] d = tt
set_timeout-Distinct t zero (w ∷ ws) d = d
set_timeout-Distinct t (suc i) (w ∷ ws) d =
    (index_of-set_timeout w.player_guid t i ws ∙ d.0, set_timeout-Distinct t i ws d.1)

erase_idx-Distinct : (i : ℕ) (ws : List Wait) → Distinct ws → Distinct (erase_idx ws i)
erase_idx-Distinct i [] d = tt
erase_idx-Distinct zero (w ∷ ws) d = d.1
erase_idx-Distinct (suc i) (w ∷ ws) d =
    (index_of-erase_idx w.player_guid i ws d.0, erase_idx-Distinct i ws d.1)

snoc-Distinct :
    (ws : List Wait) (w : Wait)
    → index_of w.player_guid ws ≡ none
    → Distinct ws
    → Distinct (ws ++ w ∷ [])
snoc-Distinct [] w e d = (refl, tt)
snoc-Distinct (x ∷ ws) w e d = elim (Option-cases (index_of w.player_guid ws)) [
  | inl n ↦ (index_of-snoc_ne x.player_guid ws w (ground arith) d.0, snoc-Distinct ws w n d.1)
  | inr (k, n) ↦ absurd (ground arith)
]

cleaned-IsDistinct :
    (wl : WaitingList) (env : LoginEnv) → IsDistinct wl → IsDistinct (cleaned wl env)
unfolding cleaned
cleaned-IsDistinct wl env d = record {
  priority = cleanup_list-Distinct env.priority_cleanup_time wl.priority_wait_list d.priority;
  normal = cleanup_list-Distinct env.cleanup_time wl.wait_list d.normal;
  apart = λ g. elim (d.apart g) [
    | inl e ↦ inl (index_of-cleanup_list g env.priority_cleanup_time wl.priority_wait_list e)
    | inr e ↦ inr (index_of-cleanup_list g env.cleanup_time wl.wait_list e)
  ];
}

-- What holds of the queue that a call leaves, if it leaves one.
abbrev pub Leaves {ℓ} : (WaitingList → Type ℓ) → LoginOutcome → Type ℓ
Leaves P (returned b wl) = P wl
Leaves P undefined_behaviour = Unit

module _ (c : WaitingList) (p : LoginPlayer) (env : LoginEnv) (d : IsDistinct c) where
  extend_priority-IsDistinct : (i t : ℕ) → IsDistinct (extend_timeout c (in_priority i) t)
  unfolding extend_timeout
  extend_priority-IsDistinct i t = record {
    priority = set_timeout-Distinct t i c.priority_wait_list d.priority;
    normal = d.normal;
    apart = λ g. rw (index_of-set_timeout g t i c.priority_wait_list) (d.apart g);
  }

  extend_wait-IsDistinct : (i t : ℕ) → IsDistinct (extend_timeout c (in_wait i) t)
  unfolding extend_timeout
  extend_wait-IsDistinct i t = record {
    priority = d.priority;
    normal = set_timeout-Distinct t i c.wait_list d.normal;
    apart = λ g. rw (index_of-set_timeout g t i c.wait_list) (d.apart g);
  }

  erase-IsDistinct : (i : ℕ) → IsDistinct (record c { wait_list = erase_idx c.wait_list i })
  erase-IsDistinct i = record {
    priority = d.priority;
    normal = erase_idx-Distinct i c.wait_list d.normal;
    apart = λ g. elim (d.apart g) [
      | inl e ↦ inl e
      | inr e ↦ inr (index_of-erase_idx g i c.wait_list e)
    ];
  }

  enqueue-IsDistinct :
      priority_place c p ≡ none → wait_place c p ≡ none → IsDistinct (enqueue c p env)
  unfolding enqueue
  enqueue-IsDistinct e e' = elim (Bool-cases p.premium) [
    | inl prem ↦ rw prem (record {
      priority = snoc-Distinct c.priority_wait_list _ e d.priority;
      normal = d.normal;
      apart = λ g. elim (Bool-cases (p.guid == g)) [
        | inl same ↦ inr (subst (λ k. index_of k c.wait_list ≡ none) (==→eq p.guid g same) e')
        | inr other ↦ elim (d.apart g) [
          | inl a ↦ inl (index_of-snoc_ne g c.priority_wait_list _ (ground arith) a)
          | inr b ↦ inr b
        ]
      ];
    })
    | inr prem ↦ rw prem (record {
      priority = d.priority;
      normal = snoc-Distinct c.wait_list _ e' d.normal;
      apart = λ g. elim (Bool-cases (p.guid == g)) [
        | inl same ↦
            inl (subst (λ k. index_of k c.priority_wait_list ≡ none) (==→eq p.guid g same) e)
        | inr other ↦ elim (d.apart g) [
          | inl a ↦ inl a
          | inr b ↦ inr (index_of-snoc_ne g c.wait_list _ (ground arith) b)
        ]
      ];
    })
  ]

  outcome-IsDistinct : Leaves IsDistinct (outcome c p env (priority_place c p) (wait_place c p))
  outcome-IsDistinct = elim (Option-cases (priority_place c p)) [
    | inl e ↦ elim (Option-cases (wait_place c p)) [
      | inl e' ↦ rw (e, e') (enqueue-IsDistinct e e')
      | inr (j, e') ↦
          let slot = 1 + length c.priority_wait_list + j in
          elim (Bool-cases (leb (env.players_online + slot) env.max_players)) [
            | inl b ↦ rw (e, e', b) (erase-IsDistinct j)
            | inr b ↦ rw (e, e', b) (extend_wait-IsDistinct j (retry_at env slot))
          ]
    ]
    | inr (i, e) ↦ elim (Bool-cases (leb (env.players_online + 1 + i) env.max_players)) [
      | inl b ↦ rw (e, b) tt
      | inr b ↦ rw (e, b) (extend_priority-IsDistinct i (retry_at env (1 + i)))
    ]
  ]

-- A call of `clientLogin` that is defined leaves every guid in at most one place of the two lists, if it
-- was so before and the slots fit 32 bits. The call is undefined exactly for a client of the priority
-- list that is to be let in, and then nothing is said of the lists.
pub client_login-IsDistinct :
    (wl : WaitingList) (p : LoginPlayer) (env : LoginEnv)
    → Fits wl env
    → IsDistinct wl
    → Leaves IsDistinct (client_login wl p env)
client_login-IsDistinct wl p env fits d =
    rw (client_login_lem wl p env fits) (elim (Bool-cases (is_privileged p || has_room wl env)) [
      | inl b ↦ rw b d
      | inr b ↦ rw b (outcome-IsDistinct (cleaned wl env) p env (cleaned-IsDistinct wl env d))
    ])

-- The entries of one other player, who stands in a list of the cleaned queue, after the call.
abbrev pub Keeps : WaitingList → ℕ → WaitingList → Type 0
Keeps c g wl =
    (entry g wl.priority_wait_list ≡ entry g c.priority_wait_list)
    × (entry g wl.wait_list ≡ entry g c.wait_list)

module _ (c : WaitingList) (p : LoginPlayer) (env : LoginEnv) (g : ℕ) (ne : g ≢ p.guid) where
  enqueue-Keeps : Keeps c g (enqueue c p env)
  unfolding enqueue
  enqueue-Keeps = elim (Bool-cases p.premium) [
    | inl prem ↦ rw prem (entry-snoc_ne g c.priority_wait_list _ (λ e. ne (sym e)), refl)
    | inr prem ↦ rw prem (refl, entry-snoc_ne g c.wait_list _ (λ e. ne (sym e)))
  ]

  outcome-Keeps : Leaves (Keeps c g) (outcome c p env (priority_place c p) (wait_place c p))
  unfolding extend_timeout
  outcome-Keeps = elim (Option-cases (priority_place c p)) [
    | inl e ↦ elim (Option-cases (wait_place c p)) [
      | inl e' ↦ rw (e, e') enqueue-Keeps
      | inr (j, e') ↦
          let slot = 1 + length c.priority_wait_list + j in
          elim (Bool-cases (leb (env.players_online + slot) env.max_players)) [
            | inl b ↦ rw (e, e', b) (refl, entry-erase_idx_ne g p.guid j c.wait_list ne e')
            | inr b ↦ rw (e, e', b) (refl, entry-set_timeout_ne g p.guid _ j c.wait_list ne e')
          ]
    ]
    | inr (i, e) ↦ elim (Bool-cases (leb (env.players_online + 1 + i) env.max_players)) [
      | inl b ↦ rw (e, b) tt
      | inr b ↦ rw (e, b) (entry-set_timeout_ne g p.guid _ i c.priority_wait_list ne e, refl)
    ]
  ]

-- One of the two lists, and the time at which the call cleans it up.
pub data ListName : Type 0 where
  the_priority_list the_wait_list : ListName

abbrev pub list_of : ListName → WaitingList → List Wait
list_of ListName.the_priority_list wl = wl.priority_wait_list
list_of ListName.the_wait_list wl = wl.wait_list

abbrev pub cleanup_time_of : ListName → LoginEnv → ℕ
cleanup_time_of ListName.the_priority_list env = env.priority_cleanup_time
cleanup_time_of ListName.the_wait_list env = env.cleanup_time

entry-cleaned :
    (l : ListName) (wl : WaitingList) (env : LoginEnv) (g : ℕ) {w : Wait}
    → entry g (list_of l wl) ≡ some w
    → cleanup_time_of l env < w.timeout
    → entry g (list_of l (cleaned wl env)) ≡ some w
unfolding cleaned
entry-cleaned ListName.the_priority_list wl env g e h =
    entry-cleanup_list g env.priority_cleanup_time wl.priority_wait_list e h
entry-cleaned ListName.the_wait_list wl env g e h =
    entry-cleanup_list g env.cleanup_time wl.wait_list e h

Keeps-entry :
    (l : ListName) (c : WaitingList) (g : ℕ) (w : Wait) (o : LoginOutcome)
    → Leaves (Keeps c g) o
    → entry g (list_of l c) ≡ some w
    → Leaves (λ wl'. entry g (list_of l wl') ≡ some w) o
Keeps-entry ListName.the_priority_list c g w (returned b wl) k e = k.0 ∙ e
Keeps-entry ListName.the_wait_list c g w (returned b wl) k e = k.1 ∙ e
Keeps-entry l c g w undefined_behaviour k e = tt

-- The call of one client leaves the waiting entry of every other one, in either list, with its
-- timeout, unless that has run out at the time of the cleanup, or the call is undefined, which it is
-- for a client of the priority list that is to be let in. The slots fit 32 bits.
pub client_login_others :
    (l : ListName) (wl : WaitingList) (p : LoginPlayer) (env : LoginEnv) (g : ℕ) (w : Wait)
    → Fits wl env
    → g ≢ p.guid
    → entry g (list_of l wl) ≡ some w
    → cleanup_time_of l env < w.timeout
    → Leaves (λ wl'. entry g (list_of l wl') ≡ some w) (client_login wl p env)
client_login_others l wl p env g w fits ne e h =
    rw (client_login_lem wl p env fits) (elim (Bool-cases (is_privileged p || has_room wl env)) [
      | inl b ↦ rw b e
      | inr b ↦
          let c = cleaned wl env in
          rw b (
            Keeps-entry l c g w (outcome c p env (priority_place c p) (wait_place c p))
              (outcome-Keeps c p env g ne) (entry-cleaned l wl env g e h))
    ])
