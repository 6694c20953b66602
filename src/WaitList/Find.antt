-- ===== src/WaitList/Find.antt =====
-- `findClient` against the queue read as one list.
use theforgottenserver.Prelude.{
  ℕ, suc, ◌+◌, ◌^◌, ◌<◌, ◌≡◌, inl, inr, Option, none, some, List, [], ◌∷◌, arith, ◌==◌,
  if◌then◌else◌, length, add32, add32-eq_add, ◌∙◌, Bool-cases, Option-cases,
}
use theforgottenserver.WaitList.{
  Wait, WaitingList, WaitListIterator, in_priority, in_wait, at_end, scan, find_client,
  get_client_slot, scan_priority,
}
use mathlib.Core.Option

-- The place of the first entry with this guid.
abbrev pub index_of : ℕ → List Wait → Option ℕ
index_of g [] = none
index_of g (w ∷ ws) = if w.player_guid == g then some 0 else Option.map suc (index_of g ws)

-- The first entry with this guid.
abbrev pub entry : ℕ → List Wait → Option Wait
entry g [] = none
entry g (w ∷ ws) = if w.player_guid == g then some w else entry g ws

-- What `scan` returns, by where the guid stands.
abbrev scanned : Option ℕ → ℕ → ℕ → ℕ → Option ℕ × ℕ
scanned none i slot n = (none, slot + n)
scanned (some k) i slot n = (some (i + k), slot + k)

scanned_step :
    (o : Option ℕ) (i slot n : ℕ)
    → scanned o (suc i) (slot + 1) n ≡ scanned (Option.map suc o) i slot (suc n)
scanned_step none i slot n = ground arith
scanned_step (some k) i slot n = ground arith

scan-eq-scanned :
    (g : ℕ) (ws : List Wait) (i slot : ℕ)
    → slot + length ws < 2 ^ 32
    → scan g ws i slot ≡ scanned (index_of g ws) i slot (length ws)
unfolding scan
scan-eq-scanned g [] i slot h = ground arith
scan-eq-scanned g (w ∷ ws) i slot h = elim (Bool-cases (w.player_guid == g)) [
  | inl e ↦ rw e (ground arith)
  | inr e ↦
      rw (e, small)
        (scan-eq-scanned g ws (suc i) (slot + 1) (omega arith)
          ∙ scanned_step (index_of g ws) i slot _)
]
  where
    small : add32 slot 1 ≡ slot + 1
    small = add32-eq_add slot 1 (omega arith)

pub index_of-lt : (g : ℕ) (ws : List Wait) {k : ℕ} → index_of g ws ≡ some k → k < length ws
index_of-lt g [] e = cc
index_of-lt g (w ∷ ws) e = elim (Option-cases (index_of g ws)) [
  | inl n ↦ ground arith
  | inr (k, e') ↦ ground (arith, index_of-lt g ws {k = k})
]

-- The result of `find_client` by the places of the guid in the two lists of lengths `n` and `m`.
abbrev pub found : Option ℕ → Option ℕ → ℕ → ℕ → WaitListIterator × ℕ
found (some i) o n m = (in_priority i, 1 + i)
found none (some j) n m = (in_wait j, 1 + n + j)
found none none n m = (at_end, 1 + n + m)

-- `find_client` by the places of the guid in the two lists.
pub find_client-eq-found :
    (wl : WaitingList) (g : ℕ)
    → 1 + length wl.priority_wait_list + length wl.wait_list < 2 ^ 32
    → find_client wl g
      ≡ found
          (index_of g wl.priority_wait_list)
          (index_of g wl.wait_list)
          (length wl.priority_wait_list)
          (length wl.wait_list)
unfolding find_client scan_priority
find_client-eq-found wl g h =
    rw (scan-eq-scanned g wl.priority_wait_list 0 1 (omega arith))
      (elim (Option-cases (index_of g wl.priority_wait_list)) [
        | inl e ↦
            rw
              (e, scan-eq-scanned g wl.wait_list 0 (1 + length wl.priority_wait_list) (omega arith))
              (elim (Option-cases (index_of g wl.wait_list)) [
                | inl e' ↦ rw e' (ground arith)
                | inr (j, e') ↦ rw e' (ground arith)
              ])
        | inr (i, e) ↦ rw e (ground arith)
      ])

module _ (wl : WaitingList) (g : ℕ)
    (fits : 1 + length wl.priority_wait_list + length wl.wait_list < 2 ^ 32) where
  pub get_client_slot_priority :
      {i : ℕ} → index_of g wl.priority_wait_list ≡ some i → get_client_slot wl g ≡ 1 + i
  unfolding get_client_slot
  get_client_slot_priority e = rw (find_client-eq-found wl g fits, e)

  pub get_client_slot_wait :
      {j : ℕ}
      → index_of g wl.priority_wait_list ≡ none
      → index_of g wl.wait_list ≡ some j
      → get_client_slot wl g ≡ 1 + length wl.priority_wait_list + j
  unfolding get_client_slot
  get_client_slot_wait e e' = rw (find_client-eq-found wl g fits, e, e')
