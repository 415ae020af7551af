-- ===== src/Transactions/Preload.antt =====
-- `preloadMessagesByHash` and its users: one query fetches the messages of all transactions of a
-- page whose JSON column is empty. The message repository is a parameter: `find_in hashes` is
-- `find({ where: { transaction_hash: In(hashes) }, order: { index: "ASC" } })`, and `find_one hash`
-- the query for one hash.
pub mod Laws
use safrochain_indexer.Prelude.{
  ℕ, String, Option, none, some, Bool, true, false, not, List, [], ◌∷◌, ◌++◌, map, keep,
  if◌then◌else◌, str_eq, get_or_else,
}
use safrochain_indexer.Entities.{Transaction, Message}
use safrochain_indexer.Transactions.Response.{TransactionResponse, has_json, transaction_response}

-- `Map<string, Message[]>`
abbrev pub MessageMap : Type 0
MessageMap = List (String × List Message)

-- `messageMap.get(hash)`
unfoldable pub get_messages : String → MessageMap → Option (List Message)
get_messages hash [] = none
get_messages hash ((h, ms) ∷ m) = if str_eq h hash then some ms else get_messages hash m

-- `messageMap.set(hash, list)`
unfoldable pub set_messages : String → List Message → MessageMap → MessageMap
set_messages hash list [] = (hash, list) ∷ []
set_messages hash list ((h, ms) ∷ m) =
    if str_eq h hash then (hash, list) ∷ m else (h, ms) ∷ set_messages hash list m

-- One round of `messages.forEach`.
unfoldable pub push_message : MessageMap → Message → MessageMap
push_message m message =
    let list = get_or_else (get_messages message.transaction_hash m) [] in
    set_messages message.transaction_hash (list ++ message ∷ []) m

unfoldable pub group_messages : MessageMap → List Message → MessageMap
group_messages m [] = m
group_messages m (message ∷ messages) = group_messages (push_message m message) messages

-- The hashes of the transactions with an empty JSON column.
unfoldable pub hashes_needing_preload : List Transaction → List String
hashes_needing_preload txs = map (λ tx. tx.hash) (keep (λ tx. not (has_json tx)) txs)

module _ (find_in : List String → List Message) (find_one : String → List Message) where
  unfoldable pub preload_messages_by_hash : List String → MessageMap
  preload_messages_by_hash [] = []
  preload_messages_by_hash (h ∷ hashes) = group_messages [] (find_in (h ∷ hashes))

  -- `processTransactionResponse`: the preloaded list, or a query of its own (`??`).
  unfoldable pub process_transaction_response :
      ℕ → Transaction → MessageMap → Option TransactionResponse
  process_transaction_response now tx message_map =
      transaction_response now tx
        (get_or_else (get_messages tx.hash message_map) (find_one tx.hash))

  -- The page of a listing: preload, then process each transaction.
  unfoldable pub process_page : ℕ → List Transaction → List (Option TransactionResponse)
  process_page now txs =
      let message_map = preload_messages_by_hash (hashes_needing_preload txs) in
      map (λ tx. process_transaction_response now tx message_map) txs
