-- ===== src/Lib.antt =====
-- Verification of the document contract of mitum-data-blocksign: documents that accounts register on
-- a mitum chain (blocksign files, and the user, land, voting and history records of blockcity), the
-- operations that create, update and sign them, and the checks of a proposal.
--
-- The parts, and where they are modelled:
--   Prelude, Error, Mitum   lists, byte texts, outcomes, sorting; the errors; what mitum's own
--                           packages provide (hints, hashing, validity, addresses), as parameters
--   DocId                   document/document_id.go: ParseDocId, NewDocId, IsValid, Equal
--   DocInfo, DocParts       document/document.go: DocInfo, DocSign, UserStatistics, VotingCandidate
--   DocData                 document/document_data.go: the five kinds of data, IsValid, Bytes, Equal,
--                           the hash
--   Inventory               document/document_inventory.go: the documents of one account
--   Chain                   mitum's states and mitum-currency's accounts and balances, as parameters
--   State                   document/state.go, document/signs.go, document/keys.go
--   Fee                     the fee and balance functions of document/create_documents_process.go and
--                           their copies in the other two processors
--   Fact                    document/create_documents.go, document/update_documents.go,
--                           document/sign_documents.go and the files of their items
--   Process                 document/create_documents_process.go (Create),
--                           document/update_documents_process.go (Update),
--                           document/sign_documents_process.go (Sign)
--   OperationProcessor      document/operation_processor.go: checkDuplication, setState, PreProcess,
--                           process, Close
--   Encoding                the JSON and BSON forms: document/document_json.go,
--                           document/document_encode.go, document/decode.go, the files of facts and
--                           items with those endings, and the types that cmds/hinters.go registers
--   Digest                  digest/database.go (Database, Offsets, Filters, Pages, Accounts),
--                           digest/block_session.go and digest/digest.go (Session, Slices, Chunks),
--                           and the documents they store, digest/doc_operation.go,
--                           digest/doc_account.go and digest/doc_document.go (Docs); MongoDB is a
--                           parameter (Mongo)
--   Tests                   concrete instances, and each theorem at a concrete input
--
-- How they interact. The operation processor makes a processor for an operation and calls its
-- `PreProcess` with `getState`. That checks the fact's items against the chain, calculates the fees,
-- checks the sender's balance and the signatures, and keeps what `Process` needs: here the value of
-- the processor's record. `Process` then returns the states that the source hands to `setState`:
-- documents, the inventory where there is one, balances; here a value of `Process.Writes`.
--
-- Conventions. A function is named after the Go function. A call that returns an error or panics has a
-- `Result`: `ok`, `err` with one constructor for each place that makes an error, or `panic` (a method
-- of a nil interface, an index out of range). Strings and byte slices are lists of byte values. A Go
-- map is an association list, visited in the order of insertion, where Go has no order. A hint is its
-- type and its version. `sort.Slice` is a stable insertion sort. Slices and structs are values: where
-- the source sorts a slice or marks a signature in place, the model returns the new value, so that no
-- alias of the old one is seen to change. Addresses are not nil. Loops are structural, but
-- for the loop that loads balances, which is on fuel: one more than the currencies is enough. `uint`
-- sums wrap at 2^64, and amounts (`currency.Big`) are integers.
--
-- An encoded value is a tree with the names of the tags, which are compared without their case, and
-- the encoder of mitum is a parameter: `EncoderLaws` says that it finds the registered type of a hint
-- and unpacks into it. The BSON files have the tags of the JSON files, but for the inventory's.
--
-- The digest copies each block into MongoDB: a session prepares the models of the block's operations and
-- states and commits them, and the database's filters read them again. `QueryLaws` and `StoreLaws` say
-- what MongoDB documents of queries and of writes that return no error: they count the documents of a
-- collection, so that no order is assumed. A call that fails says nothing of what is stored after it.
-- Heights do not come near the bounds of their 64 bits, and are integers.
--
-- Not modelled: the bytes of JSON and BSON, hashing and encoders (parameters), the pools of
-- processors and the closing of processors, the pool of states, which `setState` writes to, the
-- queries of the digest's database that call back, its HTTP server, and the cmds directory, which is
-- the command line.
pub mod Prelude
pub mod Error
pub mod Mitum
pub mod DocId
pub mod DocInfo
pub mod DocParts
pub mod DocData
pub mod Inventory
pub mod Chain
pub mod State
pub mod Fee
pub mod Fact
pub mod Process
pub mod OperationProcessor
pub mod Encoding
pub mod Digest
mod Tests
