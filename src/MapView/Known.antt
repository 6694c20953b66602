-- ===== src/MapView/Known.antt =====
-- The client and the server agree on which creatures are known.
use theforgottenserver.Prelude.{
  ℕ, zero, suc, ◌≤◌, ◌<◌, ◌≡◌, refl, sym, ap, ◌∙◌, Bool, true, false, not, none, some, List, [],
  ◌∷◌, ◌==◌, ltb, if◌then◌else◌, length, contains, without, contains-without, inl, inr, Bool-cases,
  Option-cases, arith, ==-refl, ==→eq, ◌⊎◌, subst,
}
use mathlib.Core.Option.{some-injective}
use theforgottenserver.MapView.{
  Server, insert_at, Checked, find_unseen, anyone_but, to_remove, check_creature_as_known,
}
use theforgottenserver.MapView.Seeing.{Viewer, can_see}

contains-insert_at :
    (n x k : ℕ) (xs : List ℕ)
    → contains k (insert_at n x xs) ≡ (if x == k then true else contains k xs)
unfolding insert_at
contains-insert_at zero x k xs = refl
contains-insert_at (suc n) x k [] = refl
contains-insert_at (suc n) x k (y ∷ ys) = ground (arith, contains-insert_at n x k ys)

length-insert_at : (n x : ℕ) (xs : List ℕ) → length (insert_at n x xs) ≡ suc (length xs)
unfolding insert_at
length-insert_at zero x xs = refl
length-insert_at (suc n) x [] = refl
length-insert_at (suc n) x (y ∷ ys) = ap suc (length-insert_at n x ys)

length-without_le : (x : ℕ) (xs : List ℕ) → length (without x xs) ≤ length xs
length-without_le x [] = omega arith
length-without_le x (y ∷ ys) = ground (arith, length-without_le x ys)

length-without_lt : (x : ℕ) (xs : List ℕ) → contains x xs ≡ true → length (without x xs) < length xs
length-without_lt x [] h = cc
length-without_lt x (y ∷ ys) h = ground (arith, length-without_lt x ys, length-without_le x ys)

contains-find_unseen :
    (s : Server) (v : Viewer) (xs : List ℕ) (x : ℕ)
    → find_unseen s v xs ≡ some x
    → contains x xs ≡ true
unfolding find_unseen
contains-find_unseen s v [] x h = cc
contains-find_unseen s v (y ∷ ys) x h = ground (arith, contains-find_unseen s v ys x)

find_unseen-unseen :
    (s : Server) (v : Viewer) (xs : List ℕ) (x : ℕ)
    → find_unseen s v xs ≡ some x
    → can_see v (s.get_creature_by_id x) ≡ false
unfolding find_unseen
find_unseen-unseen s v [] x h = cc
find_unseen-unseen s v (y ∷ ys) x h = elim (Bool-cases (can_see v (s.get_creature_by_id y))) [
  | inl e ↦
      find_unseen-unseen s v ys x
        (sym (ap (λ b. if not b then some y else find_unseen s v ys) e) ∙ h)
  | inr e ↦
      subst (λ k. can_see v (s.get_creature_by_id k) ≡ false)
        (some-injective y x (sym (ap (λ b. if not b then some y else find_unseen s v ys) e) ∙ h)) e
]

find_unseen-none :
    (s : Server) (v : Viewer) (xs : List ℕ) (k : ℕ)
    → find_unseen s v xs ≡ none
    → contains k xs ≡ true
    → can_see v (s.get_creature_by_id k) ≡ true
unfolding find_unseen
find_unseen-none s v [] k h m = cc
find_unseen-none s v (y ∷ ys) k h m = elim (Bool-cases (can_see v (s.get_creature_by_id y))) [
  | inl e ↦ elim (Bool-cases (y == k)) [
    | inl f ↦ subst (λ j. can_see v (s.get_creature_by_id j) ≡ true) (==→eq y k f) e
    | inr f ↦
        find_unseen-none s v ys k
          (sym (ap (λ b. if not b then some y else find_unseen s v ys) e) ∙ h)
          (sym (ap (λ b. if b then true else contains k ys) f) ∙ m)
  ]
  | inr e ↦ absurd (not_none (sym (ap (λ b. if not b then some y else find_unseen s v ys) e) ∙ h))
]
  where
    not_none : some y ≡ none → ⊥
    not_none e = cc

-- The id that is given up, if none is found that the player cannot see, is one of the set.
contains-anyone_but :
    (id : ℕ) (xs : List ℕ) → ltb 150 (length xs) ≡ true → contains (anyone_but id xs) xs ≡ true
unfolding anyone_but
contains-anyone_but id [] h = ground arith
contains-anyone_but id (x ∷ []) h = rw (==-refl x) refl
contains-anyone_but id (x ∷ y ∷ rest) h = elim (Bool-cases (x == id)) [
  | inl e ↦ rw (e, ==-refl y) (ground arith)
  | inr e ↦ rw (e, ==-refl x) refl
]

-- What `checkCreatureAsKnown` leaves.
pub record IsKept (s : Server) (v : Viewer) (id : ℕ) (set : List ℕ) (c : Checked) : Type 0 where
  pub was_known : c.is_known ≡ contains id set
  pub bounded : length c.known_set ≤ 150
  pub listed :
      (k : ℕ)
      → contains k c.known_set
        ≡ (if k == c.removed_known then false else if id == k then true else contains k set)
  pub from_set :
      (c.removed_known ≡ 0)
      ⊎ ((if id == c.removed_known then true else contains c.removed_known set) ≡ true)
  pub unseen_first :
      (can_see v (s.get_creature_by_id c.removed_known) ≡ true)
      → (k : ℕ) → contains k c.known_set ≡ true
      → (c.removed_known ≡ 0) ⊎ (can_see v (s.get_creature_by_id k) ≡ true)

contains-to_remove :
    (s : Server) (v : Viewer) (id : ℕ) (xs : List ℕ)
    → ltb 150 (length xs) ≡ true
    → contains (to_remove (find_unseen s v xs) id xs) xs ≡ true
unfolding to_remove
contains-to_remove s v id xs h = elim (Option-cases (find_unseen s v xs)) [
  | inl e ↦ rw e (contains-anyone_but id xs h)
  | inr (x, e) ↦ rw e (contains-find_unseen s v xs x e)
]

to_remove-unseen_first :
    (s : Server) (v : Viewer) (id : ℕ) (xs : List ℕ) (k : ℕ)
    → can_see v (s.get_creature_by_id (to_remove (find_unseen s v xs) id xs)) ≡ true
    → contains k xs ≡ true
    → can_see v (s.get_creature_by_id k) ≡ true
unfolding to_remove
to_remove-unseen_first s v id xs k h m = elim (Option-cases (find_unseen s v xs)) [
  | inl e ↦ find_unseen-none s v xs k e m
  | inr (x, e) ↦ absurd (
      apart (sym (ap (λ o. can_see v (s.get_creature_by_id (to_remove o id xs))) e) ∙ h)
        (find_unseen-unseen s v xs x e))
]
  where
    apart : {b : Bool} → b ≡ true → b ≡ false → ⊥
    apart h f = cc

module _ (s : Server) (v : Viewer) (id : ℕ) (set : List ℕ) (real : (id == 0) ≡ false)
    (no_zero : contains 0 set ≡ false) (few : length set ≤ 150) where
  -- The set with the new id in it.
  with_id : List ℕ
  with_id = insert_at (s.place_of id set) id set

  contains-with_id : (k : ℕ) → contains k with_id ≡ (if id == k then true else contains k set)
  unfolding with_id
  contains-with_id k = contains-insert_at (s.place_of id set) id k set

  length-with_id : length with_id ≡ suc (length set)
  unfolding with_id
  length-with_id = length-insert_at (s.place_of id set) id set

  few_left : (n : ℕ) → ltb 150 n ≡ false → n ≤ 150
  few_left n h = ground arith

  -- Zero is in no set.
  none_given_up :
      (k : ℕ)
      → (if id == k then true else contains k set)
        ≡ (if k == 0 then false else if id == k then true else contains k set)
  none_given_up k = elim (Bool-cases (k == 0)) [
    | inl e ↦ rw e (
        subst (λ j. (if id == j then true else contains j set) ≡ false) (sym (==→eq k 0 e))
          (rw real no_zero))
    | inr e ↦ rw e refl
  ]

  kept :
      contains id set ≡ true
      → IsKept s v id set (record { is_known = true; removed_known = 0; known_set = set })
  kept e = record {
    was_known = sym e;
    bounded = few;
    listed = λ k. known_already k ∙ none_given_up k;
    from_set = inl refl;
    unseen_first = λ h k m. inl refl;
  }
    where
      known_already : (k : ℕ) → contains k set ≡ (if id == k then true else contains k set)
      known_already k = elim (Bool-cases (id == k)) [
        | inl f ↦ rw f (subst (λ j. contains j set ≡ true) (==→eq id k f) e)
        | inr f ↦ rw f refl
      ]

  with_id-IsKept :
      contains id set ≡ false
      → ltb 150 (length with_id) ≡ false
      → IsKept s v id set (record { is_known = false; removed_known = 0; known_set = with_id })
  with_id-IsKept e f = record {
    was_known = sym e;
    bounded = few_left (length with_id) f;
    listed = λ k. contains-with_id k ∙ none_given_up k;
    from_set = inl refl;
    unseen_first = λ h k m. inl refl;
  }

  without-IsKept :
      contains id set ≡ false
      → ltb 150 (length with_id) ≡ true
      → (r : ℕ) → to_remove (find_unseen s v with_id) id with_id ≡ r
      → IsKept s v id set
          (record { is_known = false; removed_known = r; known_set = without r with_id })
  without-IsKept e f r er = record {
    was_known = sym e;
    bounded = omega (arith, length-with_id, few, length-without_lt r with_id in_set);
    listed = λ k.
        contains-without r k with_id ∙ ap (λ b. if k == r then false else b) (contains-with_id k);
    from_set = inr (sym (contains-with_id r) ∙ in_set);
    unseen_first = λ h k m. inr (
        to_remove-unseen_first s v id with_id k
          (ap (λ x. can_see v (s.get_creature_by_id x)) er ∙ h)
          (still (k == r) (contains k with_id) (sym (contains-without r k with_id) ∙ m)));
  }
    where
      in_set : contains r with_id ≡ true
      in_set = subst (λ x. contains x with_id ≡ true) er (contains-to_remove s v id with_id f)

      still : (a b : Bool) → (if a then false else b) ≡ true → b ≡ true
      still true b h = cc
      still false b h = h

  -- The set holds 150 ids at most. It is the set before with the new id, but for the id that is
  -- given up, which is of a creature that the player does not see unless it sees them all.
  pub check_creature_as_known-IsKept : IsKept s v id set (check_creature_as_known s v id set)
  unfolding check_creature_as_known with_id
  check_creature_as_known-IsKept = elim (Bool-cases (contains id set)) [
    | inl e ↦ rw e (kept e)
    | inr e ↦ rw e (elim (Bool-cases (ltb 150 (length with_id))) [
      | inl f ↦ rw f (without-IsKept e f (to_remove (find_unseen s v with_id) id with_id) refl)
      | inr f ↦ rw f (with_id-IsKept e f)
    ])
  ]
