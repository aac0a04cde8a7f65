-- ===== src/Encoding.antt =====
-- The encoded forms of the document package: document/document_json.go, document/document_bson.go,
-- document/document_encode.go, the files of facts and items with those endings, document/decode.go and
-- the end of document/document_inventory.go. An encoded value is a tree, as the tags of the packer
-- structs lay it out.
pub mod Hinted
pub mod Ids
pub mod Parts
pub mod Data
pub mod Facts
pub mod Hinters
pub mod RoundTrip
use Prim.Native.String.{String}
use mitum_data_blocksign.Prelude.{
  ℕ, ◌+◌, ℤ, pos, Bytes, codes, bytes_eq, Bool, false, ◌&&◌, Option, none, some, List, [], ◌∷◌, map,
  leb, ok, err, if◌then◌else◌,
}
use mitum_data_blocksign.Error.{Error, wrong_tree}
use mitum_data_blocksign.Mitum.{Outcome, Hint}

-- `jsonenc.Encoder` and `bsonenc.Encoder`
pub data Format : Type 0 where
  json bson : Format

-- A value of a type outside the repository that writes and reads itself is a leaf: `hint.Type`,
-- `currency.Big`, `valuehash.Hash`, a byte slice. Each object of the package has a hinted head.
mutual
  pub data Tree : Type 0 where
    null : Tree
    text : Bytes → Tree
    type_name : String → Tree
    uint : ℕ → Tree
    flag : Bool → Tree
    big : ℤ → Tree
    blob : Bytes → Tree
    array : Trees → Tree
    object : Hint → Fields → Tree

  pub data Trees : Type 0 where
    no_trees : Trees
    tree : Tree → Trees → Trees

  pub data Fields : Type 0 where
    no_fields : Fields
    field : String → Tree → Fields → Fields

-- A slice of values
unfoldable pub trees : List Tree → Trees
trees [] = no_trees
trees (t ∷ ts) = tree t (trees ts)

-- The names of fields are compared without their case, as encoding/json compares them.
abbrev pub lower : ℕ → ℕ
lower c = if leb 65 c && leb c 90 then c + 32 else c

unfoldable pub same_name : String → String → Bool
same_name a b = bytes_eq (map lower (codes a)) (map lower (codes b))

unfoldable pub field_of : String → Fields → Option Tree
field_of name no_fields = none
field_of name (field k t fs) = if same_name k name then some t else field_of name fs

unfoldable pub get_field : String → Tree → Option Tree
get_field name (object h fs) = field_of name fs
get_field name _ = none

-- How `Unmarshal` fills a field of the unpacker: a missing one stays zero, one of another type is an
-- error.
unfoldable pub read_text : Option Tree → Outcome Bytes
read_text none = ok []
read_text (some null) = ok []
read_text (some (text s)) = ok s
read_text (some _) = err wrong_tree

unfoldable pub read_type : Option Tree → Outcome String
read_type none = ok ""
read_type (some null) = ok ""
read_type (some (type_name s)) = ok s
read_type (some _) = err wrong_tree

unfoldable pub read_uint : Option Tree → Outcome ℕ
read_uint none = ok 0
read_uint (some null) = ok 0
read_uint (some (uint n)) = ok n
read_uint (some _) = err wrong_tree

unfoldable pub read_flag : Option Tree → Outcome Bool
read_flag none = ok false
read_flag (some null) = ok false
read_flag (some (flag b)) = ok b
read_flag (some _) = err wrong_tree

unfoldable pub read_big : Option Tree → Outcome ℤ
read_big none = ok (pos 0)
read_big (some null) = ok (pos 0)
read_big (some (big n)) = ok n
read_big (some _) = err wrong_tree

unfoldable pub read_blob : Option Tree → Outcome Bytes
read_blob none = ok []
read_blob (some null) = ok []
read_blob (some (blob b)) = ok b
read_blob (some _) = err wrong_tree
