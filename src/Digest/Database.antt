-- ===== src/Digest/Database.antt =====
-- digest/database.go: the last block of the digest and the cleaning of its collections. Heights do not
-- come near the bounds of their 64 bits, and are integers.
pub mod Cleaning
use Prim.Native.String.{String}
use mitum_data_blocksign.Prelude.{
  ℕ, ℤ, pos, negsuc, ◌+ℤ◌, ltb_ℤ, Bytes, Bool, true, false, not, Option, none, some, List, [], ◌∷◌,
  if◌then◌else◌, ok, err, ◌>>=◌, ◌>>◌, fail_if, map_err,
}
use mitum_data_blocksign.Error.{wrapped, readonly_mode}
use mitum_data_blocksign.Mitum.{Outcome}
use mitum_data_blocksign.Digest.Mongo.{
  height, text, at_least, at_most, equals, Filter, anything, entry, WriteModel, delete_many, Mongo,
}

abbrev pub default_col_name_account : String
default_col_name_account = "digest_ac"

abbrev pub default_col_name_document : String
default_col_name_document = "digest_dm"

abbrev pub default_col_name_documents : String
default_col_name_documents = "digest_dv"

abbrev pub default_col_name_balance : String
default_col_name_balance = "digest_bl"

abbrev pub default_col_name_operation : String
default_col_name_operation = "digest_op"

abbrev pub all_collections : List String
all_collections =
    default_col_name_account ∷ default_col_name_balance ∷ default_col_name_operation
    ∷ default_col_name_document ∷ default_col_name_documents ∷ []

-- `base.NilHeight` and `base.PreGenesisHeight`
pub record Heights : Type 0 where
  pub nil_height : ℤ
  pub pre_genesis_height : ℤ

-- `Database`, without the database of mitum and the log
pub record Database (D : Type 0) : Type 0 where
  pub database : D
  pub readonly : Bool
  pub last_block : ℤ

module _ {D Doc : Type 0} (mongo : Mongo D Doc) (heights : Heights) where
  abbrev pub new_database : D → Database D
  new_database d = record { database = d; readonly = false; last_block = heights.nil_height }

  abbrev pub new_readonly_database : D → Database D
  new_readonly_database d = record (new_database d) { readonly = true }

  -- `Database.New`
  unfoldable pub new_from : Database D → Outcome (Database D)
  new_from st =
      fail_if st.readonly readonly_mode
      >> (mongo.new_connection st.database >>= λ d. ok (new_database d))

  -- `setLastBlock`
  unfoldable pub store_last_block : ℤ → Database D → Outcome (Database D)
  store_last_block h st = do
    d ← mongo.set_last_block_info h st.database
    ok (record st { database = d; last_block = h })

  -- `SetLastBlock`
  unfoldable pub set_last_block : ℤ → Database D → Outcome (Database D)
  set_last_block h st = do
    fail_if st.readonly readonly_mode
    if ltb_ℤ st.last_block h then store_last_block h st else ok st

  -- The loops of `clean` and `cleanByHeight`
  unfoldable pub drop_all : List String → D → Outcome D
  drop_all [] d = ok d
  drop_all (col ∷ cols) d = mongo.drop_collection col d >>= drop_all cols

  unfoldable pub delete_all : Filter → List String → D → Outcome D
  delete_all f [] d = ok d
  delete_all f (col ∷ cols) d =
      mongo.bulk_write col (delete_many f ∷ []) d >>= λ (n, d'). delete_all f cols d'

  -- `clean`
  unfoldable pub clean_collections : Database D → Outcome (Database D)
  clean_collections st = do
    d ← drop_all all_collections st.database
    store_last_block heights.nil_height (record st { database = d })

  -- `Clean`
  unfoldable pub clean : Database D → Outcome (Database D)
  clean st = fail_if st.readonly readonly_mode >> clean_collections st

  -- `height <= base.PreGenesisHeight+1`
  abbrev pub is_first : ℤ → Bool
  is_first h = not (ltb_ℤ (heights.pre_genesis_height +ℤ pos 1) h)

  -- `cleanByHeight`
  unfoldable pub clean_from : ℤ → Database D → Outcome (Database D)
  clean_from h st =
      if is_first h
      then clean_collections st
      else (delete_all (entry "height" (at_least (height h)) anything) all_collections st.database
          >>= λ d. store_last_block (h +ℤ negsuc 0) (record st { database = d }))

  -- `CleanByHeight`
  unfoldable pub clean_by_height : ℤ → Database D → Outcome (Database D)
  clean_by_height h st = fail_if st.readonly readonly_mode >> clean_from h st

  -- `cleanByHeightColNameDocumentId`
  unfoldable pub clean_document : ℤ → String → Bytes → Database D → Outcome (Database D)
  clean_document h col documentid st =
      if is_first h
      then clean_collections st
      else (mongo.bulk_write col
            (delete_many (
                entry "documentid" (equals (text documentid))
                  (entry "height" (at_most (height h)) anything))
              ∷ [])
            st.database
          >>= λ (n, d). store_last_block (h +ℤ negsuc 0) (record st { database = d }))

  -- `createIndex`
  unfoldable pub create_index : Database D → Outcome (Database D)
  create_index st = do
    fail_if st.readonly readonly_mode
    d ← mongo.create_indexes st.database
    ok (record st { database = d })

  -- `Initialize`, over `loadLastBlock`
  unfoldable pub initialize_at : Option ℤ → Database D → Outcome (Database D)
  initialize_at none st = ok (record st { last_block = heights.nil_height })
  initialize_at (some h) st =
      if st.readonly
      then ok (record st { last_block = h })
      else (create_index (record st { last_block = h }) >>= clean_from (h +ℤ pos 1))

  unfoldable pub initialize : Database D → Outcome (Database D)
  initialize st = do
    found ← map_err wrapped (mongo.last_block_info st.database)
    initialize_at found st
