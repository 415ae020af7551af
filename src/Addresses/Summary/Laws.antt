-- ===== src/Addresses/Summary/Laws.antt =====
-- The plain listing of an address and its recent transactions: both list the transactions that
-- involve the address, newest first, and give them the same type.
use Prim.Native.String.{String}
use safrochain_indexer.Prelude.{none, List, [], ◌∷◌, map, keep, ◌≡◌, refl, Bool-cases, inl, inr}
use safrochain_indexer.Json.Value.{Value}
use safrochain_indexer.Entities.{Transaction}
use safrochain_indexer.Paging.Params.{ConfigService, PagePaginationInput, normalize_page_pagination}
use safrochain_indexer.Transactions.Filters.{TransactionRow}
use safrochain_indexer.Transactions.Response.{message_type, json_of}
use safrochain_indexer.Addresses.Types.{get_message_type}
use safrochain_indexer.Addresses.Summary.{
  AddressTransaction, RecentTransaction, AddressRows, first_or_unknown, mentions, find_message,
  relevant_messages, address_transaction, recent_transaction, recent_type, get_address_transactions,
  get_recent_transactions,
}

-- What the two entries of one transaction have in common.
pub record SameEntry (r : RecentTransaction) (t : AddressTransaction) : Type 0 where
  pub hash_is : r.hash ≡ t.hash
  pub height_is : r.height ≡ t.height
  pub timestamp_is : r.timestamp ≡ t.timestamp
  pub success_is : r.success ≡ t.success
  pub type_is : r.type_name ≡ t.type_name

-- The entries of two listings, one by one.
abbrev pub AllSame : List RecentTransaction → List AddressTransaction → Type 0
AllSame [] [] = Unit
AllSame [] (t ∷ ts) = ⊥
AllSame (r ∷ rs) [] = ⊥
AllSame (r ∷ rs) (t ∷ ts) = SameEntry r t × AllSame rs ts

module _ (stringify : Value → String) (a : String) where
  first_type :
      (msgs : List Value)
      → recent_type stringify (find_message stringify a msgs)
        ≡ first_or_unknown
            (map (λ msg. get_message_type (message_type msg)) (keep (mentions stringify a) msgs))
  unfolding find_message
  first_type [] = refl
  first_type (msg ∷ msgs) = elim (Bool-cases (mentions stringify a msg)) [
    | inl e ↦ rw e refl
    | inr e ↦ rw e (first_type msgs)
  ]

  recent_transaction-SameEntry :
      (tx : Transaction)
      → SameEntry (recent_transaction stringify a tx) (address_transaction stringify a tx)
  unfolding recent_transaction address_transaction relevant_messages
  recent_transaction-SameEntry tx = record {
    hash_is = refl;
    height_is = refl;
    timestamp_is = refl;
    success_is = refl;
    type_is = first_type (json_of tx.messages);
  }

  all_same :
      (rows : List TransactionRow)
      → AllSame
          (map (λ r. recent_transaction stringify a r.transaction) rows)
          (map (λ r. address_transaction stringify a r.transaction) rows)
  all_same [] = tt
  all_same (r ∷ rows) = (recent_transaction-SameEntry r.transaction, all_same rows)

  -- The recent transactions of an address are the first page of its listing at the same limit:
  -- entry by entry the same transaction, with the same time, outcome and type, although one looks
  -- for the first message that mentions the address and the other filters all of them.
  pub get_recent_transactions-AllSame :
      (get_many : AddressRows) (config : ConfigService) (page : PagePaginationInput)
      → AllSame
          (get_recent_transactions stringify get_many a
            (normalize_page_pagination page config).limit)
          (get_address_transactions stringify get_many config a page none).rows
  unfolding get_recent_transactions get_address_transactions
  get_recent_transactions-AllSame get_many config page = all_same (get_many _)
