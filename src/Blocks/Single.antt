-- ===== src/Blocks/Single.antt =====
-- `getBlockByHeight`, `getBlockByHash`, `getBlockStatistics` and `getBlockTransactions`: one block
-- with its statistics and its first transactions. The quotient `success_rate` is left out, its
-- numerator kept. A transaction's gas is a number, and is added up as the text that the driver makes
-- of it. The proposer is the joined row's
-- consensus address, and the result is the object that `getBlockByHash` hands to `serializeDates`.
pub mod Laws
mod Tests
use Prim.Native.String.{String}
use safrochain_indexer.Prelude.{
  ℕ, zero, suc, ltb, ◌+◌, ◌*◌, ◌/◌, Option, none, some, Bool, List, [], ◌∷◌, map, keep, length,
  take, if◌then◌else◌, ◌==◌, ◌>>=◌,
}
use safrochain_indexer.Prelude.Outcomes.{Outcome, not_found, or_failed}
use safrochain_indexer.Json.Value.{Value, str, arr, nil, get, or_else}
use safrochain_indexer.Amounts.{Coin, BigInts}
use safrochain_indexer.Blocks.Fees.{total_fees}
use safrochain_indexer.Entities.{Block, Transaction}
use safrochain_indexer.Transactions.Response.{MessageView, calculate_total_fee}
use safrochain_indexer.Blocks.Messages.{block_messages, nothing_collected, collect_messages}

-- The least power of ten above `gas` that is at least `power`; `fuel` bounds the steps.
unfoldable pub power_above : ℕ → ℕ → ℕ → ℕ
power_above zero power gas = power
power_above (suc fuel) power gas =
    let rest = power_above fuel (power * 10) gas in if ltb gas power then power else rest

-- `sum + tx.gas_used`: the driver returns a bigint column as a text, so the digits are joined. The
-- number that they spell is kept here, exact below 2 ^ 51.
unfoldable pub join_digits : ℕ → ℕ → ℕ
unfolding power_above
join_digits sum gas = sum * power_above gas 10 gas + gas

-- `transactions.reduce((sum, tx) => sum + tx.gas_used, 0)`, as the division reads it.
unfoldable pub gas_sum : ℕ → List Transaction → ℕ
unfolding join_digits
gas_sum sum [] = sum
gas_sum sum (tx ∷ txs) = gas_sum (join_digits sum tx.gas_used) txs

-- `Math.round(sum / count)` for whole numbers: half a unit rounds up.
unfoldable pub round_div : ℕ → ℕ → ℕ
round_div sum count = (2 * sum + count) / (2 * count)

pub record BlockStatistics : Type 0 where
  pub total_fees : List Coin
  pub average_gas_per_tx : ℕ
  pub successful_txs : ℕ

-- A string, and the empty text for another kind.
abbrev text : Value → String
text (str s) = s
text v = ""

-- A fee's coin, whose two properties are strings, as protobuf's JSON encoding has them.
unfoldable pub fee_coin : Value → Coin
unfolding get
fee_coin v = record { denom = text (get "denom" v); amount = text (get "amount" v) }

-- The fees of a transaction, as coins.
abbrev pub fee_coins : Transaction → List Coin
fee_coins tx = map fee_coin (calculate_total_fee tx.fee)

-- The statistics of the transactions that were read; none if an amount is no number.
unfoldable pub block_statistics : BigInts → List Transaction → Option BlockStatistics
unfolding gas_sum round_div total_fees fee_coin calculate_total_fee
block_statistics n txs = total_fees n (map fee_coins txs) >>= λ fees. some (record {
  total_fees = fees;
  average_gas_per_tx = if length txs == 0 then 0 else round_div (gas_sum 0 txs) (length txs);
  successful_txs = length (keep (λ tx. tx.success) txs);
})

-- One entry of a block's `transactions`.
pub record BlockTransaction : Type 0 where
  pub hash : String
  pub success : Bool
  pub gas_used : ℕ
  pub messages : List MessageView
  pub logs : Value
  pub involved_addresses : List String
  pub involved_addresses_count : ℕ
  pub message_count : ℕ
  pub message_types : List String
  pub categories : List String

-- The body of `transactions.map(...)`; none if the parser throws.
unfoldable pub block_transaction : Transaction → Option BlockTransaction
unfolding block_messages collect_messages
block_transaction tx =
    let messages = block_messages tx in
    collect_messages nothing_collected messages >>= λ c. some (record {
      hash = tx.hash;
      success = tx.success;
      gas_used = tx.gas_used;
      messages = messages;
      logs = or_else tx.logs (arr nil);
      involved_addresses = c.addresses;
      involved_addresses_count = length c.addresses;
      message_count = length messages;
      message_types = c.types;
      categories = c.categories;
    })

unfoldable pub block_transactions : List Transaction → Option (List BlockTransaction)
unfolding block_transaction
block_transactions [] = some []
block_transactions (tx ∷ txs) = do
  first ← block_transaction tx
  rest ← block_transactions txs
  some (first ∷ rest)

-- A block's row with the consensus address of the joined proposer.
pub record BlockRow : Type 0 where
  pub block : Block
  pub proposer : Option String

pub record BlockResponse : Type 0 where
  pub height : ℕ
  pub hash : String
  pub num_txs : ℕ
  pub total_gas : ℕ
  pub proposer_address : Option String
  pub timestamp : ℕ
  pub proposer : Option String
  pub statistics : BlockStatistics
  pub transactions : List BlockTransaction

-- What the two repositories answer: `find` with `take`, unordered or by the hash.
pub record BlockSource : Type 0 where
  pub numbers : BigInts
  pub parse_height : String → Option ℕ
  pub find_height : Option ℕ → Option BlockRow
  pub find_hash : String → Option BlockRow
  pub find_transactions : ℕ → ℕ → List Transaction
  pub find_by_hash_order : ℕ → ℕ → List Transaction

-- The response for a block that was found.
unfoldable pub block_response : BlockSource → BlockRow → Option BlockResponse
unfolding block_statistics block_transactions
block_response source row =
    block_statistics source.numbers (source.find_transactions row.block.height 1000)
    >>= λ statistics.
        block_transactions (source.find_by_hash_order row.block.height 10) >>= λ transactions.
        some (record {
          height = row.block.height;
          hash = row.block.hash;
          num_txs = row.block.num_txs;
          total_gas = row.block.total_gas;
          proposer_address = row.block.proposer_address;
          timestamp = row.block.timestamp;
          proposer = row.proposer;
          statistics = statistics;
          transactions = transactions;
        })

abbrev respond : BlockSource → String → Option BlockRow → Outcome BlockResponse
respond source key none = not_found key
respond source key (some row) = or_failed (block_response source row)

unfoldable pub get_block_by_height : BlockSource → String → Outcome BlockResponse
unfolding block_response
get_block_by_height source height =
    respond source height (source.find_height (source.parse_height height))

unfoldable pub get_block_by_hash : BlockSource → String → Outcome BlockResponse
unfolding block_response
get_block_by_hash source hash = respond source hash (source.find_hash hash)
