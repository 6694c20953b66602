-- ===== src/FileFormat/Tests.antt =====
-- The theorems on files at concrete inputs: a root with an escaped property, a child and no sibling.
use theforgottenserver.Prelude.{ℕ, ◌+◌, ◌≡◌, refl, some, List, [], ◌∷◌, ◌++◌}
use theforgottenserver.FileFormat.{
  null, node, get_child_node, Parsed, open_file, open_root, parse_node,
}
use theforgottenserver.FileFormat.Escape.{escape}
use theforgottenserver.FileFormat.Tree.{Item, nothing, item, write, size, layout, open_file-write}
use theforgottenserver.FileFormat.Properties.{ReadsBack, open_file-ReadsBack}

abbrev otbm : List ℕ
otbm = 79 ∷ 84 ∷ 66 ∷ 77 ∷ []

abbrev house : Item
house = item 3 (7 ∷ 0xFE ∷ 8 ∷ []) (item 5 (1 ∷ []) nothing nothing) nothing

-- The bytes and the nodes of the file.
house_bytes : write house [] ≡ 0xFE ∷ 3 ∷ 7 ∷ 0xFD ∷ 0xFE ∷ 8 ∷ 0xFE ∷ 5 ∷ 1 ∷ 0xFF ∷ 0xFF ∷ []
unfolding write escape
house_bytes = refl

house_opens :
    open_file otbm (otbm ++ write house [])
    ≡ some (record { tree = node 4 4 3 (node 10 1 5 null null) null; pos = 15; rest = [] })
unfolding open_file open_root parse_node write escape
house_opens = refl

open_file-write_example :
    open_file otbm (otbm ++ write house [])
    ≡ some (record { tree = layout 4 house; pos = 4 + size house; rest = [] })
open_file-write_example =
    open_file-write otbm otbm 3 (7 ∷ 0xFE ∷ 8 ∷ []) (item 5 (1 ∷ []) nothing nothing) nothing refl
      refl

open_file-ReadsBack_example :
    let file = otbm ++ write house [] in
    (r : Parsed) × (open_file otbm file ≡ some r)
    × (r.rest ≡ [])
    × ((before : ℕ)
        → ReadsBack file r.tree
            (get_child_node r.tree null before).0
            (get_child_node r.tree null before).1
            house)
open_file-ReadsBack_example =
    open_file-ReadsBack otbm otbm 3 (7 ∷ 0xFE ∷ 8 ∷ []) (item 5 (1 ∷ []) nothing nothing) nothing
      refl refl
