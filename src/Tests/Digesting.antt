-- ===== src/Tests/Digesting.antt =====
-- Commits, filters, offsets and pages at concrete inputs.
use Prim.Native.String.{String}
use package.text.Mathlib.Text.{◌==◌ as str_eq}
use mitum_data_blocksign.Prelude.{
  ℕ, zero, suc, ◌+◌, ◌+ℤ◌, ℤ, pos, negsuc, Bytes, codes, bytes_eq, length, Bool, true, false,
  Option, none, some, List, [], ◌∷◌, if◌then◌else◌, ok, panic, ◌≡◌, refl, All, arith,
}
use mitum_data_blocksign.Mitum.{Outcome}
use mitum_data_blocksign.Digest.Slices.{write_models, visit_all}
use mitum_data_blocksign.Digest.Chunks.{concat, write_each, Chunk, write_models-chunks}
use mitum_data_blocksign.Digest.Pages.{visit_all-panic}
use mitum_data_blocksign.Digest.Mongo.{Value, text, texts, height, index, Filter, insert_one}
use mitum_data_blocksign.Digest.Offsets.{
  parse_offset, build_offset, parse_offset_by_string, build_offset_by_string, parse_offset_height,
  build_offset_height, parse_offset-build,
}
use mitum_data_blocksign.Digest.Filters.{
  build_documents_filter_by_address, build_documents_filter_by_offset,
  build_documents_by_height_filter, build_operations_filter_by_address,
}
use mitum_data_blocksign.Digest.Filters.Matches.{documents_selected, operations_selected}
use mitum_data_blocksign.Digest.Filters.Lists.{height_offset, operation_offset}
use mitum_data_blocksign.Digest.Database.{
  Heights, Database, clean_document, clean_collections, drop_all, store_last_block,
  default_col_name_account, default_col_name_balance, default_col_name_operation,
  default_col_name_document, default_col_name_documents,
}
use mitum_data_blocksign.Digest.Session.{
  BlockSession, commit, write_in, write_models_chunk, commit_documents, clean_documents,
}
use mitum_data_blocksign.Digest.Session.Commit.{commit-first, commit-counts}
use mitum_data_blocksign.Tests.Samples.{from_ok, text_addresses, alice}
use mitum_data_blocksign.Tests.Numerals.{unary_numbers, unary_laws}
use mitum_data_blocksign.Tests.Store.{
  Store, store_mongo, store_contents, store_queries, store_laws, matches_row, count_rows, change,
  apply_all,
}

-- A document or an operation, as the queries see it
record Row : Type 0 where
  id : Bytes
  addresses : List Bytes
  doctype : Bytes
  level : ℤ
  position : ℕ

abbrev row_field : String → Row → Option Value
row_field k r =
    if str_eq k "addresses"
    then some (texts r.addresses)
    else (if str_eq k "doctype"
        then some (text r.doctype)
        else (if str_eq k "height"
            then some (height r.level)
            else (if str_eq k "index"
                then some (index r.position)
                else (if str_eq k "documentid" then some (text r.id) else none))))

abbrev row_at : ℤ → Row
row_at h = record {
  id = codes "1sdi";
  addresses = alice ∷ [];
  doctype = codes "sdi";
  level = h;
  position = 0;
}

abbrev sample_heights : Heights
sample_heights = record { nil_height = negsuc 1; pre_genesis_height = negsuc 0 }

abbrev old_rows : String → List Row
old_rows c = if str_eq c default_col_name_document then row_at (pos 1) ∷ [] else []

abbrev sample_database : Database (Store Row)
sample_database = record {
  database = record { rows = old_rows; info = none };
  readonly = false;
  last_block = negsuc 1;
}

abbrev session_at : ℤ → BlockSession (Store Row) Bytes Bytes Row
session_at h = record {
  block = record {
    height = h;
    confirmed_at = pos 0;
    operations_tree = [];
    operations = [];
    states = [];
  };
  st = sample_database;
  ops_tree_nodes = [];
  operation_models = insert_one (row_at h) ∷ [];
  state_models = record {
    account_models = [];
    balance_models = [];
    document_models = insert_one (row_at h) ∷ [];
    documents_models = insert_one (row_at h) ∷ [];
    document_list = codes "1sdi" ∷ [];
  };
}

abbrev every : Row → Bool
every r = true

abbrev committed : ℤ → Outcome (Database (Store Row))
unfolding commit write_in write_models write_models_chunk commit_documents clean_documents
    clean_document clean_collections drop_all store_last_block change apply_all
committed h = commit (store_mongo row_field) sample_heights (session_at h)

abbrev after_commit : ℤ → Database (Store Row)
after_commit h = from_ok sample_database (committed h)

commit_passes : committed (pos 2) ≡ ok (after_commit (pos 2))
unfolding commit write_in write_models write_models_chunk commit_documents clean_documents
    clean_document clean_collections drop_all store_last_block change apply_all ◌+ℤ◌
commit_passes = refl

first_commit_passes : committed (pos 0) ≡ ok (after_commit (pos 0))
unfolding commit write_in write_models write_models_chunk commit_documents clean_documents
    clean_document clean_collections drop_all store_last_block change apply_all ◌+ℤ◌
first_commit_passes = refl

abbrev rows_in : String → Database (Store Row) → ℕ
rows_in c d = (store_contents row_field).count every c d.database

commit-first_example : rows_in default_col_name_operation (after_commit (pos 0)) ≡ 0
unfolding ◌+ℤ◌ commit committed
commit-first_example =
    commit-first (store_mongo row_field) sample_heights (store_contents row_field)
      (store_laws row_field) (session_at (pos 0)) (after_commit (pos 0)) refl refl refl
      ((tt, tt), tt, tt, (tt, tt), (tt, tt)) first_commit_passes every

commit-counts_example :
    (rows_in default_col_name_operation (after_commit (pos 2)) ≡ 0 + 1)
    × (rows_in default_col_name_account (after_commit (pos 2)) ≡ 0 + 0)
    × (rows_in default_col_name_balance (after_commit (pos 2)) ≡ 0 + 0)
    × (rows_in default_col_name_document (after_commit (pos 2)) ≡ 0 + 1)
    × (rows_in default_col_name_documents (after_commit (pos 2)) ≡ 0 + 1)
unfolding count_rows matches_row ◌+ℤ◌ commit committed bytes_eq
commit-counts_example =
    commit-counts (store_mongo row_field) sample_heights (store_contents row_field)
      (store_laws row_field) (session_at (pos 2)) (after_commit (pos 2)) refl refl
      ((tt, tt), tt, tt, (tt, tt), (tt, tt)) commit_passes every

abbrev upto : ℕ → List ℕ
upto zero = []
upto (suc n) = n ∷ upto n

-- 501 models go out in two chunks.
write_models-chunks_example :
    (cs : List (List ℕ)) × (concat cs ≡ upto 501)
    × All Chunk cs
    × ((write : List ℕ → ℕ → Outcome ℕ) (d : ℕ)
        → write_models write (upto 501) d ≡ write_each write cs d)
write_models-chunks_example = write_models-chunks (upto 501)

abbrev go_on : List ℕ → ℕ → Outcome (Bool × ℕ)
go_on page d = ok (false, d + length page)

visit_all-panic_example : visit_all go_on (upto 101) 0 ≡ panic
visit_all-panic_example =
    visit_all-panic go_on (λ page d. (d + length page, refl)) (upto 101) 0 (omega arith)

parse_offset-build_example :
    (parse_offset unary_numbers (build_offset unary_numbers (pos 3) 2) ≡ ok (pos 3, 2))
    × (parse_offset_by_string unary_numbers
          (build_offset_by_string unary_numbers (pos 3) (codes "a,b"))
        ≡ ok (pos 3, codes "a,b"))
    × (parse_offset_height unary_numbers (build_offset_height unary_numbers (pos 3)) ≡ ok (pos 3))
parse_offset-build_example =
    parse_offset-build unary_numbers unary_laws (pos 3) 2 (codes "a,b") refl

documents_selected_example :
    ((f : Filter) × (build_documents_filter_by_address unary_numbers alice
          (height_offset unary_numbers (some (pos 2)))
          true
          (codes "sdi")
        ≡ ok f)
      × (matches_row row_field f (row_at (pos 1)) ≡ true))
    × ((f : Filter) × (build_documents_filter_by_offset unary_numbers
            (height_offset unary_numbers (some (pos 2)))
            true
            (codes "sdi")
          ≡ ok f)
        × (matches_row row_field f (row_at (pos 1)) ≡ true))
    × ((f : Filter) × (build_documents_by_height_filter (pos 1) true (codes "sdi") ≡ ok f)
        × (matches_row row_field f (row_at (pos 1)) ≡ true))
unfolding bytes_eq
documents_selected_example =
    documents_selected unary_numbers unary_laws (store_contents row_field) (store_queries row_field)
      alice (some (pos 2)) true (codes "sdi") (row_at (pos 1)) (alice ∷ []) (codes "sdi") (pos 1)
      (pos 1) refl refl refl

operations_selected_example :
    (f : Filter) × (build_operations_filter_by_address unary_numbers alice
        (operation_offset unary_numbers (some (pos 1, 3)))
        true
      ≡ ok f)
    × (matches_row row_field f (row_at (pos 1)) ≡ true)
unfolding bytes_eq
operations_selected_example =
    operations_selected unary_numbers unary_laws (store_contents row_field)
      (store_queries row_field) alice (some (pos 1, 3)) true (row_at (pos 1)) (alice ∷ []) (pos 1) 0
      refl refl refl refl
