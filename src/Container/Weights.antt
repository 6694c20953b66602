-- ===== src/Container/Weights.antt =====
-- `updateItemWeight` settles the weights of a container and of all around it.
use theforgottenserver.Prelude.{
  ℕ, zero, suc, ◌+◌, ◌<◌, ◌≡◌, ◌≢◌, refl, inl, inr, true, false, Option, none, some, ◌==◌,
  if◌then◌else◌, wrap32, arith, Bool-cases, Option-cases, ==-refl, ==→eq, contains, subst, ap, sym,
  ◌∙◌,
}
use theforgottenserver.Container.{
  ItemTypes, Thing, World, write, get_weight, item_weight, base_weight, container_at,
  get_parent_container, add_weight, update_parent, update_item_weight,
}
use theforgottenserver.Container.Store.{
  sum, owed, Lists, IsStore, IsBalancedBut, IsSame, IsSame-trans, IsStore-same, add_wrap32,
  sum-write,
}

pub container_at-eq :
    (w : World) (o : Option ℕ) (p : ℕ)
    → container_at w o ≡ some p
    → (o ≡ some p) × ((w p).is_container ≡ true)
unfolding container_at
container_at-eq w none p h = cc
container_at-eq w (some q) p h = elim (Bool-cases (w q).is_container) [
  | inl e ↦
      (q-is-p e, subst (λ o. elim o [ none ↦ ℕ | some k ↦ (w k).is_container ≡ true ]) (q-is-p e) e)
  | inr e ↦ cc (no e)
]
  where
    q-is-p : (w q).is_container ≡ true → some q ≡ some p
    q-is-p e = sym (rw e refl) ∙ h

    no : (w q).is_container ≡ false → none ≡ some p
    no e = sym (rw e refl) ∙ h

add_weight-IsSame : (diff c : ℕ) (w : World) → IsSame w (add_weight diff c w)
unfolding add_weight write
add_weight-IsSame diff c w = record {
  parent = λ i. elim (Bool-cases (i == c)) [
    | inl h ↦ rw h (ap (λ k. (w k).parent) (sym (==→eq i c h)))
    | inr h ↦ rw h refl
  ];
  is_container = λ i. elim (Bool-cases (i == c)) [
    | inl h ↦ rw h (ap (λ k. (w k).is_container) (sym (==→eq i c h)))
    | inr h ↦ rw h refl
  ];
  itemlist = λ i. elim (Bool-cases (i == c)) [
    | inl h ↦ rw h (ap (λ k. (w k).itemlist) (sym (==→eq i c h)))
    | inr h ↦ rw h refl
  ];
}

item_weight-eq :
    (types : ItemTypes) (x : Thing) (n : ℕ)
    → item_weight types (record x { total_weight = n }) ≡ item_weight types x
unfolding item_weight base_weight
item_weight-eq types x n = refl

below_self : (n : ℕ) → n < n → ⊥
below_self n h = absurd (omega arith)

owed-none : (diff d : ℕ) → owed diff none d ≡ 0
unfolding owed
owed-none diff d = refl

owed_self : (diff d : ℕ) → owed diff (some d) d ≡ diff
unfolding owed
owed_self diff d = rw (==-refl d) refl

owed-other : (diff c d : ℕ) → (d == c) ≡ false → owed diff (some c) d ≡ 0
unfolding owed
owed-other diff c d h = rw h refl

pub get_weight-container :
    (types : ItemTypes) (x : Thing)
    → x.is_container ≡ true
    → get_weight types x ≡ wrap32 (item_weight types x + x.total_weight)
unfolding get_weight
get_weight-container types x h =
    ap (λ b. if b then wrap32 (item_weight types x + x.total_weight) else item_weight types x) h

-- The weight of a container with more weight in it.
get_weight-heavier :
    (types : ItemTypes) (x : Thing) (diff : ℕ)
    → x.is_container ≡ true
    → wrap32 (get_weight types (record x { total_weight = wrap32 (x.total_weight + diff) }))
      ≡ wrap32 (get_weight types x + diff)
get_weight-heavier types x diff h =
    ap wrap32 (
      get_weight-container types (record x { total_weight = wrap32 (x.total_weight + diff) }) h
      ∙ ap (λ n. wrap32 (n + wrap32 (x.total_weight + diff))) (same_item x))
    ∙ heavier (item_weight types x) x.total_weight diff
    ∙ ap (λ n. wrap32 (n + diff)) (sym (get_weight-container types x h))
  where
    heavier : (a b c : ℕ) → wrap32 (wrap32 (a + wrap32 (b + c))) ≡ wrap32 (wrap32 (a + b) + c)
    heavier a b c = omega arith

    same_item :
        (x : Thing)
        → item_weight types (record x { total_weight = wrap32 (x.total_weight + diff) })
          ≡ item_weight types x
    same_item x = item_weight-eq types x (wrap32 (x.total_weight + diff))

-- The count of weight after a change, with anything added to it.
total-add_weight :
    (diff c d : ℕ) (w : World) (n : ℕ)
    → wrap32 ((add_weight diff c w d).total_weight + n)
      ≡ wrap32 ((w d).total_weight + owed diff (some c) d + n)
unfolding add_weight write owed
total-add_weight diff c d w n = elim (Bool-cases (d == c)) [
  | inl h ↦ rw h (
      inner (w c).total_weight diff n
      ∙ ap (λ k. wrap32 ((w k).total_weight + diff + n)) (sym (==→eq d c h)))
  | inr h ↦ rw h (ap (λ k. wrap32 (k + n)) (plus_zero (w d).total_weight))
]
  where
    inner : (a b c : ℕ) → wrap32 (wrap32 (a + b) + c) ≡ wrap32 (a + b + c)
    inner a b c = omega arith

    plus_zero : (a : ℕ) → a ≡ a + 0
    plus_zero a = omega arith

module _ (types : ItemTypes) (depth : ℕ → ℕ) (held : Lists) (absent : Option ℕ) where
  -- What is owed at the container around another is what this weighs more.
  owed_around :
      (w : World) (diff c d : ℕ)
      → IsStore depth held w absent
      → absent ≢ some c
      → (w d).is_container ≡ true
      → (if contains c (held d) then diff else 0) ≡ owed diff (get_parent_container w c) d
  unfolding get_parent_container container_at
  owed_around w diff c d s n k = elim (Bool-cases (contains c (held d))) [
    | inl h ↦
        ap (λ b. if b then diff else 0) h
        ∙ sym (owed_self diff d)
        ∙ ap (λ o. owed diff o d) (sym (around (s.in_parent d c k h)))
    | inr h ↦
        ap (λ b. if b then diff else 0) h ∙ sym (nothing_owed (container_at w (w c).parent) refl h)
  ]
    where
      around : (w c).parent ≡ some d → container_at w (w c).parent ≡ some d
      around p = ap (container_at w) p ∙ ap (λ b. if b then some d else none) k

      out : (p : ℕ) → container_at w (w c).parent ≡ some p → d ≡ p → contains c (held d) ≡ true
      out p e q =
          let (r, l) = container_at-eq w (w c).parent p e in
          s.parent_has d c k (r ∙ ap some (sym q)) n

      nothing_owed :
          (o : Option ℕ)
          → container_at w (w c).parent ≡ o
          → contains c (held d) ≡ false
          → owed diff o d ≡ 0
      nothing_owed none e h = owed-none diff d
      nothing_owed (some p) e h = elim (Bool-cases (d == p)) [
        | inl q ↦ cc (out p e (==→eq d p q), h)
        | inr q ↦ owed-other diff p d q
      ]

  -- One step: the container has what it was owed, and the one around it is owed as much.
  one_step :
      (w : World) (diff c : ℕ)
      → IsStore depth held w absent
      → absent ≢ some c
      → (w c).is_container ≡ true
      → IsBalancedBut types held w diff (some c)
      → IsBalancedBut types held (add_weight diff c w) diff (get_parent_container w c)
  unfolding add_weight
  one_step w diff c s n k b d l =
      sum-write types w c (record (w c) { total_weight = wrap32 ((w c).total_weight + diff) }) diff
        (held d) (s.once d) (get_weight-heavier types (w c) diff k)
      ∙ add_wrap32 (sum types w (held d)) ((w d).total_weight + owed diff (some c) d) more more
          (b d was_container) refl
      ∙ sym (total-add_weight diff c d w more)
      ∙ ap (λ m. wrap32 ((add_weight diff c w d).total_weight + m))
          (owed_around w diff c d s n was_container)
    where
      more : ℕ
      more = if contains c (held d) then diff else 0

      was_container : (w d).is_container ≡ true
      was_container = sym ((add_weight-IsSame diff c w).is_container d) ∙ l

  pub update_item_weight-Balances :
      (fuel : ℕ) (w : World) (diff c : ℕ)
      → IsStore depth held w absent
      → ((i : ℕ) → absent ≡ some i → (w i).is_container ≡ true → depth c < depth i)
      → (w c).is_container ≡ true
      → depth c < fuel
      → IsBalancedBut types held w diff (some c)
      → IsSame w (update_item_weight fuel diff c w)
        × IsBalancedBut types held (update_item_weight fuel diff c w) 0 none
  unfolding update_item_weight update_parent owed get_parent_container
  update_item_weight-Balances zero w diff c s a k f b = absurd (omega arith)
  update_item_weight-Balances (suc fuel) w diff c s a k f b =
      elim (Option-cases (get_parent_container w c)) [
        | inl h ↦ rw h (
          add_weight-IsSame diff c w,
          subst (IsBalancedBut types held (add_weight diff c w) diff) h settled,
        )
        | inr (p, h) ↦
            let (r, q) = container_at-eq w (w c).parent p h in
            let (same, balanced) =
              update_item_weight-Balances fuel (add_weight diff c w) diff p
                (IsStore-same depth held w (add_weight diff c w) absent (add_weight-IsSame diff c w)
                  s)
                (λ i e j. deeper p i (s.ranked p c q k r) (a i e (still i j)))
                ((add_weight-IsSame diff c w).is_container p ∙ q) (enough p (s.ranked p c q k r))
                (subst (IsBalancedBut types held (add_weight diff c w) diff) h settled) in
            rw h (
              IsSame-trans w (add_weight diff c w)
                  (update_item_weight fuel diff p (add_weight diff c w))
                  (add_weight-IsSame diff c w) same,
              balanced,
            )
      ]
    where
      here : absent ≢ some c
      here e = below_self (depth c) (a c e k)

      settled : IsBalancedBut types held (add_weight diff c w) diff (get_parent_container w c)
      settled = one_step w diff c s here k b

      still : (i : ℕ) → (add_weight diff c w i).is_container ≡ true → (w i).is_container ≡ true
      still i j = sym ((add_weight-IsSame diff c w).is_container i) ∙ j

      deeper : (p i : ℕ) → depth p < depth c → depth c < depth i → depth p < depth i
      deeper p i x y = omega arith

      enough : (p : ℕ) → depth p < depth c → depth p < fuel
      enough p x = omega arith
