-- ===== src/FileFormat/Tree.antt =====
-- `parseNode` on a file that has been written node by node: the tree comes back, and `getProps` gives
-- the properties of each node.
use theforgottenserver.Prelude.{
  ℕ, zero, suc, ◌+◌, ◌-◌, ◌*◌, ◌<◌, ◌≡◌, refl, inl, inr, true, false, ◌&&◌, ◌||◌, not, Option, none,
  some, List, [], ◌∷◌, ◌++◌, ltb, leb, ◌==◌, length, take, drop, arith, Bool-cases, ap, ◌∙◌, sym,
  length-append, take-append, drop-append,
}
use theforgottenserver.FileFormat.{
  escape_char, node_start, node_end, NodeStruct, null, node, size_of, child_of, parse_node, scan,
  same_bytes, open_root, open_file,
}
use theforgottenserver.FileFormat.Escape.{escape}

-- What a file stands for: a node's type, its properties, its first child and its next sibling.
pub data Item : Type 0 where
  nothing : Item
  item : ℕ → List ℕ → Item → Item → Item

-- The bytes of nodes, in front of `rest`.
unfoldable pub write : Item → List ℕ → List ℕ
write nothing rest = rest
write (item type props child next) rest =
    node_start ∷ type ∷ (escape props ++ write child (node_end ∷ write next rest))

unfoldable pub size : Item → ℕ
size nothing = 0
size (item type props child next) = 3 + length (escape props) + size child + size next

-- The nodes that the loader makes of them, from a position on.
unfoldable pub layout : ℕ → Item → NodeStruct
layout start nothing = null
layout start (item type props child next) =
    let body = start + 2 + length (escape props) in
    node start (length (escape props)) type (layout body child)
      (layout (body + size child + 1) next)

pub length-write : (t : Item) (rest : List ℕ) → length (write t rest) ≡ size t + length rest
unfolding write size
length-write nothing rest = omega arith
length-write (item type props child next) rest = omega (
  arith,
  length-append (escape props) (write child (node_end ∷ write next rest)),
  length-write child (node_end ∷ write next rest),
  length-write next rest,
)

-- The end of the file, or the end of the parent.
abbrev pub IsEnd : List ℕ → Type 0
IsEnd [] = Unit {0}
IsEnd (b ∷ bs) = b ≡ node_end

-- The bytes after the first one.
abbrev pub behind_start : Item → List ℕ → List ℕ
behind_start nothing rest = rest
behind_start (item type props child next) rest =
    type ∷ (escape props ++ write child (node_end ∷ write next rest))

-- With enough fuel the loader reads an item as it is laid out.
abbrev pub Parses : Item → List ℕ → Type 0
Parses nothing rest = Unit {0}
Parses (item type props child next) rest =
    let t = item type props child next in
    (fuel start : ℕ)
    → 2 * length (behind_start t rest) < fuel
    → parse_node fuel start (behind_start t rest)
      ≡ some (record { tree = layout start t; pos = start + size t; rest = rest })

module _ (start type : ℕ) where
  scan_props :
      (fuel pos : ℕ) (props bs : List ℕ)
      → 2 * length (escape props ++ bs) < fuel
      → (fuel' : ℕ) × (2 * length bs < fuel')
        × (scan fuel start type pos none (escape props ++ bs)
            ≡ scan fuel' start type (pos + length (escape props)) none bs)
  unfolding scan escape
  scan_props fuel pos [] bs enough =
      (fuel, enough, ap (λ p. scan fuel start type p none bs) (omega arith))
  scan_props zero pos (p ∷ ps) bs enough = absurd (omega arith)
  scan_props (suc zero) pos (p ∷ ps) bs enough = absurd (ground arith)
  scan_props (suc (suc fuel)) pos (p ∷ ps) bs enough = elim (Bool-cases (leb escape_char p)) [
    | inl special ↦
        let n : 2 * length (escape_char ∷ p ∷ (escape ps ++ bs)) < suc (suc fuel) =
          ground (arith, enough) in
        let (fuel', left, same) = scan_props fuel (pos + 2) ps bs (omega arith) in
        rw special (fuel', left, same ∙ ap (λ q. scan fuel' start type q none bs) (omega arith))
    | inr plain ↦
        let n : 2 * length (p ∷ (escape ps ++ bs)) < suc (suc fuel) = ground (arith, enough) in
        let (fuel', left, same) = scan_props (suc fuel) (pos + 1) ps bs (omega arith) in
        let a : (p == node_start) ≡ false = ground arith in
        let b : (p == node_end) ≡ false = ground arith in
        let c : (p == escape_char) ≡ false = ground arith in
        rw plain (
          fuel',
          left,
          rw (a, b, c) (same ∙ ap (λ q. scan fuel' start type q none bs) (omega arith)),
        )
  ]

  scan_close :
      (fuel pos : ℕ) (found : Option (ℕ × NodeStruct)) (next : Item) (rest : List ℕ)
      → IsEnd rest
      → Parses next rest
      → 2 * suc (length (write next rest)) < fuel
      → scan fuel start type pos found (node_end ∷ write next rest)
        ≡ some (record {
          tree =
              node start
                (size_of found (pos - start - 2))
                type
                (child_of found)
                (layout (pos + 1) next);
          pos = pos + 1 + size next;
          rest = rest;
        })
  unfolding scan write layout size
  scan_close zero pos found next rest end parses enough = absurd (omega arith)
  scan_close (suc zero) pos found next rest end parses enough = absurd (omega arith)
  scan_close (suc (suc fuel)) pos found nothing [] end parses enough = ground arith
  scan_close (suc (suc fuel)) pos found nothing (b ∷ bs) end parses enough = rw end (ground arith)
  scan_close (suc (suc fuel)) pos found (item t ps c n) rest end parses enough =
      rw (parses fuel (pos + 1) (omega arith)) (ground arith)

  -- The children, if any, and the end of the node.
  scan_children :
      (fuel pos : ℕ) (child next : Item) (rest : List ℕ)
      → IsEnd rest
      → Parses child (node_end ∷ write next rest)
      → Parses next rest
      → 2 * length (write child (node_end ∷ write next rest)) < fuel
      → scan fuel start type pos none (write child (node_end ∷ write next rest))
        ≡ some (record {
          tree =
              node start
                (pos - start - 2)
                type
                (layout pos child)
                (layout (pos + size child + 1) next);
          pos = pos + size child + 1 + size next;
          rest = rest;
        })
  unfolding scan write layout size
  scan_children fuel pos nothing next rest end first second enough =
      let e : pos + 0 ≡ pos = omega arith in
      scan_close fuel pos none next rest end second enough ∙ rw e refl
  scan_children zero pos (item t ps c n) next rest end first second enough = absurd (omega arith)
  scan_children (suc zero) pos (item t ps c n) next rest end first second enough =
      absurd (omega arith)
  scan_children (suc (suc fuel)) pos (item t ps c n) next rest end first second enough =
      let child = item t ps c n in
      let body : length (behind_start child (node_end ∷ write next rest)) + 1
          ≡ size child + suc (length (write next rest)) =
        omega (arith, length-write child (node_end ∷ write next rest)) in
      rw (first (suc fuel) pos (omega arith)) (
        scan_close fuel (pos + size child) (some (pos - start - 2, layout pos child)) next rest end
          second (omega arith))

item-Parses :
    (type : ℕ) (ps : List ℕ) (c n : Item) (rest : List ℕ)
    → IsEnd rest
    → Parses c (node_end ∷ write n rest)
    → Parses n rest
    → Parses (item type ps c n) rest
unfolding parse_node write layout size
item-Parses type ps c n rest end first second zero start enough = absurd (omega arith)
item-Parses type ps c n rest end first second (suc fuel) start enough =
    let tail = write c (node_end ∷ write n rest) in
    let (fuel', left, same) = scan_props start type fuel (start + 2) ps tail (omega arith) in
    let body = start + 2 + length (escape ps) in
    let closed = scan_children start type fuel' body c n rest end first second left in
    let own : body - start - 2 ≡ length (escape ps) = omega arith in
    let stop : body + size c + 1 + size n ≡ start + (3 + length (escape ps) + size c + size n) =
      omega arith in
    same ∙ closed ∙ rw (own, stop) refl

write-Parses : (t : Item) (rest : List ℕ) → IsEnd rest → Parses t rest
write-Parses nothing rest end = tt
write-Parses (item type ps c n) rest end =
    item-Parses type ps c n rest end (write-Parses c (node_end ∷ write n rest) refl)
      (write-Parses n rest end)

-- A file that has been written node by node opens: after four bytes that are the accepted identifier or
-- zero, the loader has the node of each item where it was written, and has read the whole file.
pub open_file-write :
    (accepted identifier : List ℕ) (type : ℕ) (props : List ℕ) (child next : Item)
    → length identifier ≡ 4
    → (same_bytes identifier accepted || same_bytes identifier (0 ∷ 0 ∷ 0 ∷ 0 ∷ [])) ≡ true
    → let t = item type props child next in
      open_file accepted (identifier ++ write t [])
      ≡ some (record { tree = layout 4 t; pos = 4 + size t; rest = [] })
unfolding open_file open_root write
open_file-write accepted identifier type props child next four match =
    let t = item type props child next in
    let first : take 4 (identifier ++ write t []) ≡ identifier =
      take-append identifier _ 4 (sym four) in
    let then_root : drop 4 (identifier ++ write t []) ≡ write t [] =
      drop-append identifier _ 4 (sym four) in
    let long : ltb (length identifier) 4 ≡ false = ground arith in
    let matched : (not (same_bytes identifier accepted)
          && not (same_bytes identifier (0 ∷ 0 ∷ 0 ∷ 0 ∷ [])))
        ≡ false =
      ground arith in
    let parsed = write-Parses t [] tt (2 * length (behind_start t []) + 2) 4 (omega arith) in
    rw (first, long, matched, then_root) parsed
