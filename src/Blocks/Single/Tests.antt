-- ===== src/Blocks/Single/Tests.antt =====
-- A block of two transactions, one with a message in its own row.
use safrochain_indexer.Prelude.{
  ℕ, ◌+◌, ◌*◌, ◌<◌, length, arith, Option, none, some, true, List, [], ◌∷◌, ◌≡◌, refl,
}
use safrochain_indexer.Prelude.Int.{◌+ℤ◌}
use safrochain_indexer.Json.Value.{
  Value, null, str, arr, nil, cons, obj, field, end, get, get_field, items_list,
}
use safrochain_indexer.Messages.Registry.{
  add_message_type, add_message_types, message_types, lookup_type, get_message_type_info,
}
use safrochain_indexer.Messages.Parser.{parse_unknown, parse_message}
use safrochain_indexer.Amounts.Decimal.{decimal, parse_int, print_int}
use safrochain_indexer.Entities.{Transaction}
use safrochain_indexer.Transactions.Response.{
  TransactionResponse, message_views, modules_of, transaction_response, calculate_total_fee,
  json_messages, json_message, message_type,
}
use safrochain_indexer.Blocks.Fees.{add_amounts, add_fee, add_fees, total_fees_from, total_fees}
use safrochain_indexer.Blocks.Messages.{
  block_messages, block_json_messages, block_json_message, collect_messages, collect_message,
}
use safrochain_indexer.Blocks.Single.{
  BlockStatistics, block_statistics, BlockTransaction, block_transaction, fee_coin, join_digits,
  power_above, gas_sum, round_div,
}
use safrochain_indexer.Blocks.Single.Laws.{
  gas_total, block_statistics-Overstates, SameMessages, block_transaction-SameMessages,
}

abbrev tx_with : Option (List Value) → ℕ → Transaction
tx_with messages gas_used = record {
  hash = "h1";
  height = 5;
  success = true;
  messages = messages;
  memo = none;
  signer_infos = null;
  fee = obj (
      field "amount"
        (arr (cons (obj (field "denom" (str "usaf") (field "amount" (str "5") end))) nil)) end);
  gas_wanted = 9;
  gas_used = gas_used;
  logs = null;
  partition_id = 0;
  block = none;
}

abbrev own_message : Value
own_message = obj (field "type" (str "/x") (field "sender" (str "ann") end))

abbrev txs : List Transaction
txs = tx_with (some (own_message ∷ [])) 7 ∷ tx_with none 8 ∷ []

statistics : (s : BlockStatistics) × (block_statistics decimal txs ≡ some s)
unfolding block_statistics total_fees total_fees_from add_fees add_fee add_amounts parse_int
    print_int ◌+ℤ◌ fee_coin calculate_total_fee get get_field items_list
statistics = (_, refl)

-- 7 and 8 units of gas are joined to 78, whose half is reported.
rounded : statistics.0.average_gas_per_tx ≡ 39
unfolding statistics round_div gas_sum join_digits power_above
rounded = refl

block_statistics-Overstates_example :
    ((x : Transaction) → txs ≡ x ∷ [] → statistics.0.average_gas_per_tx ≡ x.gas_used)
    × ((x y : Transaction) (rest : List Transaction)
        → txs ≡ x ∷ y ∷ rest
        → 2 * (gas_total txs + 9 * x.gas_used)
          < 2 * (statistics.0.average_gas_per_tx * length txs) + length txs)
block_statistics-Overstates_example =
    block_statistics-Overstates decimal txs statistics.0 statistics.1
      (unfold gas_sum join_digits power_above in omega arith)

abbrev own : Transaction
own = tx_with (some (own_message ∷ [])) 7

entry : (b : BlockTransaction) × (block_transaction own ≡ some b)
unfolding block_transaction block_messages block_json_messages block_json_message collect_messages
    collect_message message_type get get_field parse_message get_message_type_info lookup_type
    message_types add_message_types add_message_type parse_unknown
entry = (_, refl)

response : (t : TransactionResponse) × (transaction_response 3 own [] ≡ some t)
unfolding transaction_response message_views json_messages json_message message_type get get_field
    modules_of parse_message get_message_type_info lookup_type message_types add_message_types
    add_message_type parse_unknown
response = (_, refl)

block_transaction-SameMessages_example : SameMessages entry.0 response.0
block_transaction-SameMessages_example =
    block_transaction-SameMessages 3 own [] entry.0 response.0 refl entry.1 response.1

bare : (b : BlockTransaction) × (block_transaction (tx_with none 8) ≡ some b)
unfolding block_transaction block_messages collect_messages
bare = (_, refl)
