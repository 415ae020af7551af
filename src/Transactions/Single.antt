-- ===== src/Transactions/Single.antt =====
-- `getTransactionByHash`, `getTransactionMessages` and `getTransactionStatistics`: one transaction,
-- looked up by its hash. The response is the object that is handed to `serializeDates`. The logs
-- are an array or null, and the quotient `gas_efficiency` is left out.
pub mod Laws
use Prim.Native.String.{String}
use safrochain_indexer.Prelude.{ℕ, Option, none, some, Bool, List, [], ◌∷◌, map, length, ◌≡◌}
use safrochain_indexer.Prelude.Sets.{add_all, unique}
use safrochain_indexer.Prelude.Outcomes.{Outcome, ok, not_found, failed, or_failed}
use safrochain_indexer.Json.Value.{Value, arr, items_list}
use safrochain_indexer.Entities.{Block, Transaction, Message}
use safrochain_indexer.Transactions.Response.{
  MessageView, table_message, TransactionResponse, transaction_response, calculate_total_fee,
}

-- `find` on the message table: the messages of a hash, in the order of their indices for
-- `find_ordered`, and in whichever order for `find_any`.
pub record TransactionSource : Type 0 where
  pub find_one : String → Option Transaction
  pub find_ordered : String → List Message
  pub find_any : String → List Message

pub record TransactionStatistics : Type 0 where
  pub hash : String
  pub height : ℕ
  pub timestamp : Option ℕ
  pub success : Bool
  pub message_count : ℕ
  pub message_types : List String
  pub involved_addresses_count : ℕ
  pub involved_addresses : List String
  pub fee : List Value
  pub logs_count : ℕ

abbrev block_timestamp : Option Block → Option ℕ
block_timestamp none = none
block_timestamp (some b) = some b.timestamp

-- `transaction.logs ? transaction.logs.length : 0`
abbrev logs_length : Value → ℕ
logs_length (arr xs) = length (items_list xs)
logs_length v = 0

-- `messages.forEach((m) => m.involved_accounts_addresses.forEach((a) => set.add(a)))`
unfoldable pub table_addresses : List String → List Message → List String
unfolding add_all
table_addresses set [] = set
table_addresses set (m ∷ ms) = table_addresses (add_all set m.involved_accounts_addresses) ms

-- The object that `getTransactionStatistics` returns for a row and its messages.
unfoldable pub statistics_of : Transaction → List Message → TransactionStatistics
unfolding table_addresses calculate_total_fee
statistics_of tx messages =
    let addresses = table_addresses [] messages in
    record {
      hash = tx.hash;
      height = tx.height;
      timestamp = block_timestamp tx.block;
      success = tx.success;
      message_count = length messages;
      message_types = unique (map (λ m. m.type_name) messages);
      involved_addresses_count = length addresses;
      involved_addresses = addresses;
      fee = calculate_total_fee tx.fee;
      logs_count = logs_length tx.logs;
    }

module _ (source : TransactionSource) where
  unfoldable pub get_transaction_by_hash : ℕ → String → Outcome TransactionResponse
  unfolding transaction_response
  get_transaction_by_hash now hash = elim (source.find_one hash) [
    | none ↦ not_found hash
    | some tx ↦ or_failed (transaction_response now tx (source.find_ordered hash))
  ]

  unfoldable pub get_transaction_messages : String → List MessageView
  unfolding table_message
  get_transaction_messages hash = map table_message (source.find_ordered hash)

  unfoldable pub get_transaction_statistics : String → Outcome TransactionStatistics
  unfolding statistics_of
  get_transaction_statistics hash = elim (source.find_one hash) [
    | none ↦ not_found hash
    | some tx ↦ ok (statistics_of tx (source.find_any hash))
  ]
