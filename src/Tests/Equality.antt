-- ===== src/Tests/Equality.antt =====
-- User, land and history documents that are compared.
use mitum_data_blocksign.Prelude.{Bytes, codes, bytes_eq_iff, true, ok, ◌≡◌, ◌↔◌}
use mitum_data_blocksign.Mitum.{new_hint, AddressLaws}
use mitum_data_blocksign.DocInfo
use mitum_data_blocksign.DocParts.{statistics_equal}
use mitum_data_blocksign.DocData.{BcUserData, BcLandData, BcHistoryData}
use mitum_data_blocksign.DocData.Equality.{
  bc_user_equal, bc_land_equal, bc_history_equal, data_equal_iff,
}
use mitum_data_blocksign.Tests.Samples.{text_addresses, alice, bob, first_info}

text_laws : AddressLaws Bytes
text_laws = record {
  equal_iff = bytes_eq_iff;
  string_injective = λ x y e. e;
  bytes_injective = λ x y e. e;
}

abbrev user_document : BcUserData Bytes
user_document = record {
  hint = new_hint "mitum-blockcity-document-user-data";
  info = first_info;
  owner = alice;
  gold = 3;
  bankgold = 4;
  statistics = record {
    hint = new_hint "s";
    hp = 1;
    strength = 1;
    agility = 1;
    dexterity = 1;
    charisma = 1;
    intelligence = 1;
    vital = 1;
  };
}

-- The same user with more gold
abbrev richer : BcUserData Bytes
richer = record user_document { gold = 5 }

abbrev land_document : BcLandData Bytes
land_document = record {
  hint = new_hint "mitum-blockcity-document-land-data";
  info = first_info;
  owner = alice;
  address = codes "x";
  area = codes "y";
  renter = codes "r";
  account = bob;
  rentdate = codes "d";
  periodday = 7;
}

-- The same land with another owner
abbrev sold : BcLandData Bytes
sold = record land_document { owner = bob }

abbrev history_document : BcHistoryData Bytes
history_document = record {
  hint = new_hint "mitum-blockcity-document-history-data";
  info = first_info;
  owner = alice;
  name = codes "n";
  account = bob;
  date = codes "d";
  usage = codes "u";
  application = codes "a";
}

data_equal_iff_example :
    ((bc_user_equal user_document richer ≡ ok true) ↔ (
      (user_document.info.doc_type ≡ richer.info.doc_type)
      × ((user_document.owner ≡ richer.owner)
          × ((user_document.gold ≡ richer.gold)
              × ((user_document.bankgold ≡ richer.bankgold)
                  × (statistics_equal user_document.statistics richer.statistics ≡ true))))))
    × ((bc_land_equal land_document sold ≡ ok true) ↔ (
        (DocInfo.equal land_document.info sold.info ≡ ok true)
        × ((land_document.address ≡ sold.address)
            × ((land_document.area ≡ sold.area)
                × ((land_document.renter ≡ sold.renter)
                    × ((land_document.account ≡ sold.account)
                        × ((land_document.rentdate ≡ sold.rentdate)
                            × (land_document.periodday ≡ sold.periodday))))))))
    × ((bc_history_equal history_document history_document ≡ ok true) ↔ (
        (DocInfo.equal history_document.info history_document.info ≡ ok true)
        × ((history_document.name ≡ history_document.name)
            × ((history_document.account ≡ history_document.account)
                × ((history_document.date ≡ history_document.date)
                    × ((history_document.usage ≡ history_document.usage)
                        × (history_document.application ≡ history_document.application)))))))
data_equal_iff_example =
    data_equal_iff text_laws user_document richer land_document sold history_document
      history_document
