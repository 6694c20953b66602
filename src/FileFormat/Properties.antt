-- ===== src/FileFormat/Properties.antt =====
-- `getProps` gives the properties of each node of a file that has been written node by node.
use theforgottenserver.Prelude.{
  ℕ, zero, suc, ◌+◌, ◌≡◌, refl, true, false, some, List, [], ◌∷◌, ◌++◌, ltb, length, take, drop,
  arith, ap, ◌∙◌, sym, take-append, drop-append, append_assoc, ◌||◌,
}
use theforgottenserver.Network.Memory.{Buffer}
use theforgottenserver.FileFormat.{
  node_start, node_end, NodeStruct, null, node, get_props, type_of, get_child_node, get_next_node,
  same_bytes, Parsed, open_file,
}
use theforgottenserver.FileFormat.Escape.{escape, unescape-escape}
use theforgottenserver.FileFormat.Tree.{
  Item, nothing, item, write, size, layout, length-write, open_file-write,
}

drop_add : (n m k : ℕ) (xs : List ℕ) → k ≡ n + m → drop k xs ≡ drop m (drop n xs)
drop_add zero m k xs e = ap (λ i. drop i xs) (omega arith)
drop_add (suc n) m zero xs e = absurd (omega arith)
drop_add (suc n) m (suc k) [] e = drop_nil m
  where
    drop_nil : (i : ℕ) → ◌≡◌ {A = List ℕ} [] (drop i [])
    drop_nil zero = refl
    drop_nil (suc i) = refl
drop_add (suc n) m (suc k) (x ∷ xs) e = drop_add n m k xs (omega arith)

-- A walk that has found the node `n`, with the number `found` for its type, has found what the item was
-- written as: its type, its properties, read into any buffer, its children and what follows it. Where
-- there is no item it has found no node.
abbrev pub ReadsBack : List ℕ → NodeStruct → NodeStruct → ℕ → Item → Type 0
ReadsBack file root n found nothing = n ≡ null
ReadsBack file root n found (item type props child next) =
    (found ≡ type)
    × ((b : Buffer) → get_props file b n ≡ some props)
    × ReadsBack file root (get_child_node root n found).0 (get_child_node root n found).1 child
    × ReadsBack file root (get_next_node n found).0 (get_next_node n found).1 next

get_props_lem :
    (file : List ℕ) (b : Buffer) (start type : ℕ) (ps rest : List ℕ) (child next : NodeStruct)
    → drop start file ≡ node_start ∷ type ∷ (escape ps ++ rest)
    → get_props file b (node start (length (escape ps)) type child next) ≡ some ps
unfolding get_props
get_props_lem file b start type ps rest child next at =
    let behind : drop (start + 2) file ≡ escape ps ++ rest =
      drop_add start 2 (start + 2) file refl ∙ ap (drop 2) at in
    let bytes : take (length (escape ps)) (escape ps ++ rest) ≡ escape ps =
      take-append (escape ps) rest (length (escape ps)) refl in
    let u = unescape-escape b ps in
    let whole : ltb (length (escape ps)) (length (escape ps)) ≡ false = ground arith in
    rw (behind, bytes, whole, u.0, u.1) refl

write_append : (t : Item) (rest : List ℕ) → write t rest ≡ write t [] ++ rest
unfolding write
write_append nothing rest = refl
write_append (item type ps c n) rest =
    ap (λ l. node_start ∷ type ∷ l)
      (ap (λ l. escape ps ++ l)
          (write_append c (node_end ∷ write n rest)
            ∙ ap (λ l. write c [] ++ node_end ∷ l) (write_append n rest)
            ∙ sym (append_assoc (write c []) (node_end ∷ write n []) rest)
            ∙ ap (λ l. l ++ rest) (sym (write_append c (node_end ∷ write n []))))
        ∙ sym (append_assoc (escape ps) (write c (node_end ∷ write n [])) rest))

drop-write : (t : Item) (rest : List ℕ) → drop (size t) (write t rest) ≡ rest
drop-write t rest =
    let n : size t ≡ length (write t []) = omega (arith, length-write t []) in
    rw (write_append t rest) (drop-append (write t []) rest (size t) n)

layout-ReadsBack :
    (file : List ℕ) (root : NodeStruct) (before : ℕ) (t : Item) (start : ℕ) (rest : List ℕ)
    → drop start file ≡ write t rest
    → ReadsBack file root (layout start t) (type_of (layout start t) before) t
unfolding write size layout
layout-ReadsBack file root before nothing start rest at = refl
layout-ReadsBack file root before (item type ps c n) start rest at =
    let len = length (escape ps) in
    let tail = write c (node_end ∷ write n rest) in
    let body = start + 2 + len in
    let behind : drop (start + 2) file ≡ escape ps ++ tail =
      drop_add start 2 (start + 2) file refl ∙ ap (drop 2) at in
    let children : drop body file ≡ tail =
      drop_add (start + 2) len body file refl
      ∙ ap (drop len) behind
      ∙ drop-append (escape ps) tail len refl in
    let after : drop (body + size c) file ≡ node_end ∷ write n rest =
      drop_add body (size c) (body + size c) file refl
      ∙ ap (drop (size c)) children
      ∙ drop-write c (node_end ∷ write n rest) in
    let siblings : drop (body + size c + 1) file ≡ write n rest =
      drop_add (body + size c) 1 (body + size c + 1) file refl ∙ ap (drop 1) after in
    (
      refl,
      λ b. get_props_lem file b start type ps tail _ _ at,
      layout-ReadsBack file root type c body (node_end ∷ write n rest) children,
      layout-ReadsBack file root type n (body + size c + 1) rest siblings,
    )

-- A file that has been written node by node is opened, and the walk that begins at `getChildNode` of
-- no node, which is the root, and goes on by `getChildNode` and `getNextNode` finds each node with its
-- type; `getProps` returns the properties of each, whatever is in the loader's buffer. The identifier
-- has four bytes and is accepted or zero.
pub open_file-ReadsBack :
    (accepted identifier : List ℕ) (type : ℕ) (props : List ℕ) (child next : Item)
    → length identifier ≡ 4
    → (same_bytes identifier accepted || same_bytes identifier (0 ∷ 0 ∷ 0 ∷ 0 ∷ [])) ≡ true
    → let t = item type props child next in
      let file = identifier ++ write t [] in
      (r : Parsed) × (open_file accepted file ≡ some r)
      × (r.rest ≡ [])
      × ((before : ℕ)
          → ReadsBack file r.tree
              (get_child_node r.tree null before).0
              (get_child_node r.tree null before).1
              t)
open_file-ReadsBack accepted identifier type props child next four match =
    let t = item type props child next in
    let file = identifier ++ write t [] in
    (
      record { tree = layout 4 t; pos = 4 + size t; rest = [] },
      open_file-write accepted identifier type props child next four match,
      refl,
      λ before.
          layout-ReadsBack file (layout 4 t) before t 4 []
            (drop-append identifier (write t []) 4 (sym four)),
    )
