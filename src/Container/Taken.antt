-- ===== src/Container/Taken.antt =====
-- The store after an object has been unhooked from its container.
use theforgottenserver.Prelude.{
  ℕ, ◌≡◌, ◌≢◌, refl, inl, inr, none, ◌==◌, if◌then◌else◌, Bool-cases, ==-refl, ==→eq, ne→==,
  erase_idx, subst, sym,
}
use theforgottenserver.Container.{
  ItemTypes, Thing, World, write, set_parent, get_weight, item_weight, base_weight, erase_at,
}
use theforgottenserver.Container.Adding.{unequal}

module _ (w : World) (c thing k : ℕ) (apart : c ≢ thing) where
  unfoldable pub taken_out : World
  taken_out = erase_at c k (set_parent none thing w)

  after_taking :
      (P : ℕ → Thing → Type 0)
      → P c (record (w c) { itemlist = erase_idx (w c).itemlist k })
      → P thing (record (w thing) { parent = none })
      → ((j : ℕ) → j ≢ c → j ≢ thing → P j (w j))
      → (j : ℕ) → P j (taken_out j)
  unfolding taken_out erase_at set_parent write
  after_taking P at_c at_thing at_other j = elim (Bool-cases (j == c)) [
    | inl h ↦
        subst (λ k. P k (taken_out k)) (sym (==→eq j c h))
          (rw (==-refl c, ne→== c thing apart) at_c)
    | inr h ↦ elim (Bool-cases (j == thing)) [
      | inl g ↦
          subst (λ k. P k (taken_out k)) (sym (==→eq j thing g))
            (rw (ne→== thing c (λ e. apart (sym e)), ==-refl thing) at_thing)
      | inr g ↦ rw (h, g) (at_other j (unequal j c h) (unequal j thing g))
    ]
  ]

  pub taken_parent : (i : ℕ) → (taken_out i).parent ≡ (if i == thing then none else (w i).parent)
  taken_parent =
      after_taking (λ i x. x.parent ≡ (if i == thing then none else (w i).parent))
        (rw (ne→== c thing apart) refl) (rw (==-refl thing) refl)
        (λ j n m. rw (ne→== j thing m) refl)

  pub taken_list :
      (d : ℕ)
      → (taken_out d).itemlist ≡ (if d == c then erase_idx (w d).itemlist k else (w d).itemlist)
  taken_list =
      after_taking
        (λ d x. x.itemlist ≡ (if d == c then erase_idx (w d).itemlist k else (w d).itemlist))
        (rw (==-refl c) refl) (rw (ne→== thing c (λ e. apart (sym e))) refl)
        (λ j n m. rw (ne→== j c n) refl)

  pub taken_container : (i : ℕ) → (taken_out i).is_container ≡ (w i).is_container
  taken_container =
      after_taking (λ i x. x.is_container ≡ (w i).is_container) refl refl (λ j n m. refl)

  pub taken_total : (i : ℕ) → (taken_out i).total_weight ≡ (w i).total_weight
  taken_total = after_taking (λ i x. x.total_weight ≡ (w i).total_weight) refl refl (λ j n m. refl)

  pub taken_weight :
      (types : ItemTypes) (i : ℕ) → get_weight types (taken_out i) ≡ get_weight types (w i)
  unfolding get_weight item_weight base_weight
  taken_weight types =
      after_taking (λ i x. get_weight types x ≡ get_weight types (w i)) refl refl (λ j n m. refl)
