-- ===== src/DocData/Records.antt =====
-- The struct types of document/document_data.go.
use Prim.Native.String.{String}
use mitum_data_blocksign.Prelude.{ℕ, Bytes, List, ℤ}
use mitum_data_blocksign.Mitum.{Hint, new_hint}
use mitum_data_blocksign.DocInfo.{
  DocInfo, bs_doc_data_type, bc_user_data_type, bc_land_data_type, bc_voting_data_type,
  bc_history_data_type,
}
use mitum_data_blocksign.DocParts.{UserStatistics, DocSign, VotingCandidate}

pub record BsDocData (A : Type 0) : Type 0 where
  pub hint : Hint
  pub info : DocInfo
  pub owner : A
  pub file_hash : Bytes
  pub creator : DocSign A
  pub title : Bytes
  pub size : ℤ
  pub signers : List (DocSign A)

pub record BcUserData (A : Type 0) : Type 0 where
  pub hint : Hint
  pub info : DocInfo
  pub owner : A
  pub gold : ℕ
  pub bankgold : ℕ
  pub statistics : UserStatistics

pub record BcLandData (A : Type 0) : Type 0 where
  pub hint : Hint
  pub info : DocInfo
  pub owner : A
  pub address : Bytes
  pub area : Bytes
  pub renter : Bytes
  pub account : A
  pub rentdate : Bytes
  pub periodday : ℕ

pub record BcVotingData (A : Type 0) : Type 0 where
  pub hint : Hint
  pub info : DocInfo
  pub owner : A
  pub round : ℕ
  pub end_vote_time : Bytes
  pub candidates : List (VotingCandidate A)
  pub bossname : Bytes
  pub account : A
  pub termofoffice : Bytes

pub record BcHistoryData (A : Type 0) : Type 0 where
  pub hint : Hint
  pub info : DocInfo
  pub owner : A
  pub name : Bytes
  pub account : A
  pub date : Bytes
  pub usage : Bytes
  pub application : Bytes

-- The interface `DocumentData`
pub data DocumentData (A : Type 0) : Type 0 where
  bs_doc : BsDocData A → DocumentData A
  bc_user : BcUserData A → DocumentData A
  bc_land : BcLandData A → DocumentData A
  bc_voting : BcVotingData A → DocumentData A
  bc_history : BcHistoryData A → DocumentData A

abbrev pub document_type : String
document_type = "mitum-document"

pub record Document (A : Type 0) : Type 0 where
  pub hint : Hint
  pub content : DocumentData A

module _ {A : Type 0} where
  abbrev pub new_document : DocumentData A → Document A
  new_document doc = record { hint = new_hint document_type; content = doc }

  abbrev pub new_bs_doc_data :
      DocInfo → A → Bytes → DocSign A → Bytes → ℤ → List (DocSign A) → BsDocData A
  new_bs_doc_data info owner file_hash creator title size signers = record {
    hint = new_hint bs_doc_data_type;
    info = info;
    owner = owner;
    file_hash = file_hash;
    creator = creator;
    title = title;
    size = size;
    signers = signers;
  }

  abbrev pub new_bc_user_data : DocInfo → A → ℕ → ℕ → UserStatistics → BcUserData A
  new_bc_user_data info owner gold bankgold statistics = record {
    hint = new_hint bc_user_data_type;
    info = info;
    owner = owner;
    gold = gold;
    bankgold = bankgold;
    statistics = statistics;
  }

  abbrev pub new_bc_land_data : DocInfo → A → Bytes → Bytes → Bytes → A → Bytes → ℕ → BcLandData A
  new_bc_land_data info owner address area renter account rentdate periodday = record {
    hint = new_hint bc_land_data_type;
    info = info;
    owner = owner;
    address = address;
    area = area;
    renter = renter;
    account = account;
    rentdate = rentdate;
    periodday = periodday;
  }

  abbrev pub new_bc_voting_data :
      DocInfo → A → ℕ → Bytes → List (VotingCandidate A) → Bytes → A → Bytes → BcVotingData A
  new_bc_voting_data info owner round end_vote_time candidates bossname account termofoffice =
      record {
        hint = new_hint bc_voting_data_type;
        info = info;
        owner = owner;
        round = round;
        end_vote_time = end_vote_time;
        candidates = candidates;
        bossname = bossname;
        account = account;
        termofoffice = termofoffice;
      }

  abbrev pub new_bc_history_data : DocInfo → A → Bytes → A → Bytes → Bytes → Bytes → BcHistoryData A
  new_bc_history_data info owner name account date usage application = record {
    hint = new_hint bc_history_data_type;
    info = info;
    owner = owner;
    name = name;
    account = account;
    date = date;
    usage = usage;
    application = application;
  }
