-- ===== src/FileFormat.antt =====
-- src/fileloader.h and src/fileloader.cpp: the tree of nodes in a binary file, and the properties of a
-- node with their escape bytes. A file is the list of its bytes.
pub mod Escape
pub mod Tree
pub mod Properties
mod Tests
use theforgottenserver.Prelude.{
  ℕ, zero, suc, ◌+◌, ◌-◌, ◌*◌, ◌^◌, Bool, true, false, ◌&&◌, not, Option, none, some, List, [], ◌∷◌,
  ◌++◌, ltb, leb, ◌==◌, if◌then◌else◌, length, take, drop, wrap32,
}
use theforgottenserver.Network.Memory.{Buffer, store_bytes, load_bytes, update}

abbrev pub escape_char : ℕ
escape_char = 0xFD

abbrev pub node_start : ℕ
node_start = 0xFE

abbrev pub node_end : ℕ
node_end = 0xFF

-- `NodeStruct` by its fields `start`, `propsSize`, `type`, `child` and `next`, with the nodes that the
-- pointers lead to.
pub data NodeStruct : Type 0 where
  null : NodeStruct
  node : ℕ → ℕ → ℕ → NodeStruct → NodeStruct → NodeStruct

-- A parsed node with the position and the bytes that are left.
pub record Parsed : Type 0 where
  pub tree : NodeStruct
  pub pos : ℕ
  pub rest : List ℕ

-- What `setPropsSize` and `child` say so far of the node that is read.
abbrev pub size_of : Option (ℕ × NodeStruct) → ℕ → ℕ
size_of none size = size
size_of (some (s, c)) size = s

abbrev pub child_of : Option (ℕ × NodeStruct) → NodeStruct
child_of none = null
child_of (some (s, c)) = c

-- The end of a file after a node, and a node that follows.
abbrev pub with_next : (NodeStruct → NodeStruct) → Option Parsed → Option Parsed
with_next f none = none
with_next f (some r) = some (record r { tree = f r.tree })

-- `parseNode`, on fuel: `parse_node` reads the type of the node that starts at `start`, and `scan` is the
-- inner loop, at the position `pos` with the bytes from there on. The loop of a node's siblings is the
-- tail call for the next node. A child's end is left to be read again, as `safeSeek` does.
unfoldable mutual
  pub parse_node : ℕ → ℕ → List ℕ → Option Parsed
  parse_node zero start bs = none
  parse_node (suc fuel) start [] = none
  parse_node (suc fuel) start (type ∷ bs) = scan fuel start type (start + 2) none bs

  pub scan : ℕ → ℕ → ℕ → ℕ → Option (ℕ × NodeStruct) → List ℕ → Option Parsed
  scan zero start type pos found bs = none
  scan (suc fuel) start type pos found [] = none
  scan (suc fuel) start type pos found (b ∷ bs) =
      let opened = scan_child fuel start type pos (parse_node fuel pos bs) in
      let ended = scan_end fuel start type pos found bs in
      let escaped = scan_escaped fuel start type pos found bs in
      let plain = scan fuel start type (pos + 1) found bs in
      if b == node_start
      then opened
      else if b == node_end
      then ended
      else if b == escape_char
      then escaped
      else plain

  -- After the child.
  pub scan_child : ℕ → ℕ → ℕ → ℕ → Option Parsed → Option Parsed
  scan_child zero start type pos r = none
  scan_child (suc fuel) start type pos none = none
  scan_child (suc fuel) start type pos (some r) =
      scan fuel start type r.pos (some (pos - start - 2, r.tree)) r.rest

  -- After `NODE_END`.
  pub scan_end : ℕ → ℕ → ℕ → ℕ → Option (ℕ × NodeStruct) → List ℕ → Option Parsed
  scan_end zero start type pos found bs = none
  scan_end (suc fuel) start type pos found [] = some (record {
    tree = node start (size_of found (pos - start - 2)) type (child_of found) null;
    pos = pos + 1;
    rest = [];
  })
  scan_end (suc fuel) start type pos found (b ∷ bs) =
      let size = size_of found (pos - start - 2) in
      let following = parse_node fuel (pos + 1) bs in
      if b == node_start
      then with_next (node start size type (child_of found)) following
      else if b == node_end
      then some (record {
        tree = node start size type (child_of found) null;
        pos = pos + 1;
        rest = b ∷ bs;
      })
      else none

  -- After `ESCAPE_CHAR`.
  pub scan_escaped : ℕ → ℕ → ℕ → ℕ → Option (ℕ × NodeStruct) → List ℕ → Option Parsed
  scan_escaped zero start type pos found bs = none
  scan_escaped (suc fuel) start type pos found [] = none
  scan_escaped (suc fuel) start type pos found (b ∷ bs) = scan fuel start type (pos + 2) found bs

-- `memcmp` of two byte strings.
abbrev pub same_bytes : List ℕ → List ℕ → Bool
same_bytes [] [] = true
same_bytes (x ∷ xs) (y ∷ ys) = (x == y) && same_bytes xs ys
same_bytes xs ys = false

-- The part of `openFile` after the identifier.
unfoldable pub open_root : List ℕ → Option Parsed
open_root [] = none
open_root (b ∷ bs) =
    let parsed = parse_node (2 * length bs + 2) 4 bs in if b == node_start then parsed else none

-- `FileLoader::openFile`: the root, if the whole has been parsed.
unfoldable pub open_file : List ℕ → List ℕ → Option Parsed
open_file accept_identifier file =
    let identifier = take 4 file in
    if ltb (length identifier) 4
    then none
    else if not (same_bytes identifier accept_identifier)
        && not (same_bytes identifier (0 ∷ 0 ∷ 0 ∷ 0 ∷ []))
    then none
    else open_root (drop 4 file)

-- The loop of `getProps` that takes the escape bytes out, in place. It runs once for each byte at most.
unfoldable pub unescape : ℕ → ℕ → ℕ → ℕ → Bool → Buffer → ℕ × Buffer
unescape zero size i j escaped buffer = (j, buffer)
unescape (suc fuel) size i j escaped buffer =
    let skipped =
      unescape fuel size (suc (suc i)) (suc j) true (update buffer j (buffer (suc i))) in
    let moved = unescape fuel size (suc i) (suc j) true (update buffer j (buffer i)) in
    let kept = unescape fuel size (suc i) (suc j) false buffer in
    if ltb i size
    then (if buffer i == escape_char then skipped else if escaped then moved else kept)
    else (j, buffer)

-- `FileLoader::getProps`, into a buffer that holds anything before. Of a node that reaches past the end
-- of the file, which `parseNode` does not make, nothing is read.
unfoldable pub get_props : List ℕ → Buffer → NodeStruct → Option (List ℕ)
get_props file buffer null = none
get_props file buffer (node start size type child next) =
    let bytes = take size (drop (start + 2) file) in
    let (j, buffer') = unescape (suc size) size 0 0 false (store_bytes buffer 0 bytes) in
    if ltb (length bytes) size then none else some (load_bytes buffer' 0 j)

-- The type of a node, which `getChildNode` and `getNextNode` write where the caller says; they leave
-- what is there if they find no node.
abbrev pub type_of : NodeStruct → ℕ → ℕ
type_of null type = type
type_of (node start size type' child next) type = type'

-- `getChildNode`: of no node it is the root.
abbrev pub get_child_node : NodeStruct → NodeStruct → ℕ → NodeStruct × ℕ
get_child_node root null type = (root, type_of root type)
get_child_node root (node start size type' child next) type = (child, type_of child type)

-- `getNextNode`
abbrev pub get_next_node : NodeStruct → ℕ → NodeStruct × ℕ
get_next_node null type = (null, type)
get_next_node (node start size type' child next) type = (next, type_of next type)
