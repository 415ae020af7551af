-- ===== src/Addresses/Response/Laws.antt =====
-- An address's response against the transaction's messages and against the transaction service's
-- response for the same transaction.
use Prim.Native.String.{String}
use safrochain_indexer.Prelude.{
  ℕ, some, true, List, map, ◌≡◌, refl, ◌∙◌, subst, some_inj, bind-eq-some, bind-some, All,
}
use safrochain_indexer.Amounts.{BigInts}
use safrochain_indexer.Blocks.Fees.Totality.{IsAmount}
use safrochain_indexer.Entities.{Transaction, Message}
use safrochain_indexer.Transactions.Response.{MessageView, modules_of, TransactionResponse}
use safrochain_indexer.Addresses.Messages.{address_views}
use safrochain_indexer.Addresses.Response.{
  AddressMessage, address_message, coins_of, total_amount, overall_direction, Includes,
  AddressResponse, address_response,
}
use safrochain_indexer.Addresses.Response.Totals.{IsTotal, total_amount-IsTotal, total_amount_total}

-- An address's message without its direction and amount.
abbrev pub view_of : AddressMessage → MessageView
view_of m = record {
  type_name = m.type_name;
  value = m.value;
  index = m.index;
  involved_addresses = m.involved_addresses;
}

-- What the two services say alike of a transaction; the messages and the logs where they are asked
-- for.
pub record Agrees (included : Includes) (r : AddressResponse) (t : TransactionResponse)
    : Type 0 where
  pub hash_is : r.hash ≡ t.hash
  pub height_is : r.height ≡ t.height
  pub block_hash_is : r.block_hash ≡ t.block_hash
  pub timestamp_is : r.timestamp ≡ t.timestamp
  pub success_is : r.success ≡ t.success
  pub fee_is : r.fee ≡ t.fee
  pub gas_is : r.gas ≡ t.gas
  pub memo_is : r.memo ≡ t.memo
  pub signers_are : r.signer_infos ≡ t.signer_infos
  pub logs_are : included.include_logs ≡ true → r.logs ≡ t.logs
  pub messages_are : included.include_messages ≡ true → map view_of r.messages ≡ t.messages
  pub involved_is : r.involved_addresses ≡ t.involved_addresses
  pub involved_count_is : r.involved_addresses_count ≡ t.involved_addresses_count
  pub count_is : r.message_count ≡ t.message_count
  pub types_are : r.message_types ≡ t.message_types
  pub categories_are : r.categories ≡ t.categories

module _ (n : BigInts) (now : ℕ) (includes : Includes) (a : String) (tx : Transaction)
    (db : List Message) where
  abbrev pub processed : List AddressMessage
  processed = map (address_message a) (address_views tx db)

  -- The total of a response is the sum, over the transaction's messages, of the amounts in the
  -- denomination of the first message that has an amount.
  pub address_response-IsTotal :
      (r : AddressResponse)
      → address_response n now includes a tx db ≡ some r
      → (r.direction ≡ overall_direction processed) × IsTotal n (coins_of processed) r.total
  unfolding address_response
  address_response-IsTotal r e =
      let (modules, parsed, e') = bind-eq-some (modules_of (address_views tx db)) _ e in
      let (total, added, made) = bind-eq-some (total_amount n (coins_of processed)) _ e' in
      subst
        (λ r. (r.direction ≡ overall_direction processed) × IsTotal n (coins_of processed) r.total)
        (some_inj made) (refl, total_amount-IsTotal n (coins_of processed) total added)

  -- The address service answers for every transaction whose messages are parsed without an error
  -- and whose amounts are numbers.
  pub address_response_total :
      (modules : List String)
      → modules_of (address_views tx db) ≡ some modules
      → All (IsAmount n) (coins_of processed)
      → (r : AddressResponse) × (address_response n now includes a tx db ≡ some r)
  unfolding address_response
  address_response_total modules parsed amounts =
      let (total, added) = total_amount_total n (coins_of processed) amounts in
      (_, bind-some _ parsed ∙ bind-some _ added)
