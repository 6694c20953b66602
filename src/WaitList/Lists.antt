-- ===== src/WaitList/Lists.antt =====
-- The entries of a wait list under the list operations of `clientLogin`.
use theforgottenserver.Prelude.{
  ℕ, zero, suc, ◌≤◌, ◌<◌, ◌≡◌, refl, ◌≢◌, inl, inr, false, none, some, List, [], ◌∷◌, ◌++◌, arith,
  ◌==◌, length, erase_idx, ap, ==-refl, Option-cases,
}
use theforgottenserver.WaitList.{Wait, cleanup_list, set_timeout}
use theforgottenserver.WaitList.Find.{index_of, entry}

pub length-cleanup_list-le : (t : ℕ) (ws : List Wait) → length (cleanup_list t ws) ≤ length ws
unfolding cleanup_list
length-cleanup_list-le t [] = omega arith
length-cleanup_list-le t (w ∷ ws) = ground (arith, length-cleanup_list-le t ws)

-- What it means that the first entry, or a later one, is the one found.
index_of_head :
    (g : ℕ) (w : Wait) (ws : List Wait) → index_of g (w ∷ ws) ≡ some 0 → w.player_guid ≡ g
index_of_head g w ws e = elim (Option-cases (index_of g ws)) [
  | inl n ↦ ground arith
  | inr (k, e') ↦ ground arith
]

index_of_tail :
    (g i : ℕ) (w : Wait) (ws : List Wait)
    → index_of g (w ∷ ws) ≡ some (suc i)
    → ((w.player_guid == g) ≡ false) × (index_of g ws ≡ some i)
index_of_tail g i w ws e = elim (Option-cases (index_of g ws)) [
  | inl n ↦ ground arith
  | inr (k, e') ↦ ground arith
]

module _ (g t : ℕ) where
  pub length-set_timeout : (i : ℕ) (ws : List Wait) → length (set_timeout t i ws) ≡ length ws
  unfolding set_timeout
  length-set_timeout i [] = refl
  length-set_timeout zero (w ∷ ws) = refl
  length-set_timeout (suc i) (w ∷ ws) = ap suc (length-set_timeout i ws)

  pub index_of-set_timeout :
      (i : ℕ) (ws : List Wait) → index_of g (set_timeout t i ws) ≡ index_of g ws
  unfolding set_timeout
  index_of-set_timeout i [] = refl
  index_of-set_timeout zero (w ∷ ws) = refl
  index_of-set_timeout (suc i) (w ∷ ws) = rw (index_of-set_timeout i ws)

  -- The entry found is the one whose timeout is set.
  pub entry-set_timeout :
      (i : ℕ) (ws : List Wait)
      → index_of g ws ≡ some i
      → entry g (set_timeout t i ws) ≡ some (record { timeout = t; player_guid = g })
  unfolding set_timeout
  entry-set_timeout i [] e = cc
  entry-set_timeout zero (w ∷ ws) e = ground (arith, index_of_head g w ws)
  entry-set_timeout (suc i) (w ∷ ws) e =
      ground (arith, index_of_tail g i w ws, entry-set_timeout i ws)

  pub index_of-snoc :
      (ws : List Wait)
      → index_of g ws ≡ none
      → index_of g (ws ++ record { timeout = t; player_guid = g } ∷ []) ≡ some (length ws)
  index_of-snoc [] e = rw (==-refl g)
  index_of-snoc (w ∷ ws) e = ground (arith, index_of-snoc ws, Option-cases (index_of g ws))

  pub entry-snoc :
      (ws : List Wait)
      → index_of g ws ≡ none
      → entry g (ws ++ record { timeout = t; player_guid = g } ∷ [])
        ≡ some (record { timeout = t; player_guid = g })
  entry-snoc [] e = rw (==-refl g)
  entry-snoc (w ∷ ws) e = ground (arith, entry-snoc ws, Option-cases (index_of g ws))

pub entry-append_left :
    (g : ℕ) (xs ys : List Wait) {w : Wait} → entry g xs ≡ some w → entry g (xs ++ ys) ≡ some w
entry-append_left g [] ys e = cc
entry-append_left g (x ∷ xs) ys {w} e = ground (arith, entry-append_left g xs ys {w = w})

pub entry-append_right :
    (g : ℕ) (xs ys : List Wait) → index_of g xs ≡ none → entry g (xs ++ ys) ≡ entry g ys
entry-append_right g [] ys e = refl
entry-append_right g (x ∷ xs) ys e =
    ground (arith, entry-append_right g xs ys, Option-cases (index_of g xs))

-- Other players' entries are left alone.
pub entry-set_timeout_ne :
    (g h t i : ℕ) (ws : List Wait)
    → g ≢ h
    → index_of h ws ≡ some i
    → entry g (set_timeout t i ws) ≡ entry g ws
unfolding set_timeout
entry-set_timeout_ne g h t i [] ne e = refl
entry-set_timeout_ne g h t zero (w ∷ ws) ne e = ground (arith, index_of_head h w ws)
entry-set_timeout_ne g h t (suc i) (w ∷ ws) ne e =
    ground (arith, index_of_tail h i w ws, entry-set_timeout_ne g h t i ws ne)

pub entry-erase_idx_ne :
    (g h i : ℕ) (ws : List Wait)
    → g ≢ h
    → index_of h ws ≡ some i
    → entry g (erase_idx ws i) ≡ entry g ws
entry-erase_idx_ne g h i [] ne e = refl
entry-erase_idx_ne g h zero (w ∷ ws) ne e = ground (arith, index_of_head h w ws)
entry-erase_idx_ne g h (suc i) (w ∷ ws) ne e =
    ground (arith, index_of_tail h i w ws, entry-erase_idx_ne g h i ws ne)

pub entry-snoc_ne :
    (g : ℕ) (ws : List Wait) (w : Wait) → w.player_guid ≢ g → entry g (ws ++ w ∷ []) ≡ entry g ws
entry-snoc_ne g [] w ne = ground arith
entry-snoc_ne g (x ∷ ws) w ne = ground (arith, entry-snoc_ne g ws w ne)

-- An entry that has not run out stays.
pub entry-cleanup_list :
    (g t : ℕ) (ws : List Wait) {w : Wait}
    → entry g ws ≡ some w
    → t < w.timeout
    → entry g (cleanup_list t ws) ≡ some w
unfolding cleanup_list
entry-cleanup_list g t [] e h = cc
entry-cleanup_list g t (x ∷ ws) {w} e h = ground (arith, entry-cleanup_list g t ws {w = w})

pub index_of-cleanup_list :
    (g t : ℕ) (ws : List Wait) → index_of g ws ≡ none → index_of g (cleanup_list t ws) ≡ none
unfolding cleanup_list
index_of-cleanup_list g t [] e = refl
index_of-cleanup_list g t (x ∷ ws) e =
    ground (arith, Option-cases (index_of g ws), index_of-cleanup_list g t ws)

pub index_of-erase_idx :
    (g i : ℕ) (ws : List Wait) → index_of g ws ≡ none → index_of g (erase_idx ws i) ≡ none
index_of-erase_idx g i [] e = refl
index_of-erase_idx g zero (x ∷ ws) e = ground (arith, Option-cases (index_of g ws))
index_of-erase_idx g (suc i) (x ∷ ws) e =
    ground (arith, Option-cases (index_of g ws), index_of-erase_idx g i ws)

pub index_of-snoc_ne :
    (g : ℕ) (ws : List Wait) (w : Wait)
    → w.player_guid ≢ g
    → index_of g ws ≡ none
    → index_of g (ws ++ w ∷ []) ≡ none
index_of-snoc_ne g [] w ne e = ground arith
index_of-snoc_ne g (x ∷ ws) w ne e =
    ground (arith, Option-cases (index_of g ws), index_of-snoc_ne g ws w ne)
