-- ===== src/Entities.antt =====
-- The rows of the database that the services read (entities/block.entity.ts,
-- entities/transaction.entity.ts, entities/message.entity.ts), with the columns that they use.
-- Heights and gas are natural numbers, times are milliseconds.
use safrochain_indexer.Prelude.{ℕ, String, Option, Bool, List}
use safrochain_indexer.Json.Value.{Value}

pub record Block : Type 0 where
  pub height : ℕ
  pub hash : String
  pub num_txs : ℕ
  pub total_gas : ℕ
  pub proposer_address : Option String
  pub timestamp : ℕ

-- `messages` is the JSON column, none for null; `block` is the joined row.
pub record Transaction : Type 0 where
  pub hash : String
  pub height : ℕ
  pub success : Bool
  pub messages : Option (List Value)
  pub memo : Option String
  pub signer_infos : Value
  pub fee : Value
  pub gas_wanted : ℕ
  pub gas_used : ℕ
  pub logs : Value
  pub partition_id : ℕ
  pub block : Option Block

pub record Message : Type 0 where
  pub transaction_hash : String
  pub index : ℕ
  pub type_name : String
  pub value : Value
  pub involved_accounts_addresses : List String
  pub partition_id : ℕ
  pub height : ℕ
