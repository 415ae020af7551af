-- ===== src/Messages/Types.antt =====
-- common/types/message.type.ts. `type` and `module` are `type_name` and `module_name` here.
use safrochain_indexer.Prelude.{String, Option, Bool, List}
use safrochain_indexer.Json.Value.{Value}

pub data MessageCategory : Type 0 where
  bank staking governance distribution slashing mint auth fees upgrade evidence other :
      MessageCategory

pub MessageCategory-discrete : Discrete MessageCategory
MessageCategory-discrete = hlevel

pub record MessageField : Type 0 where
  pub name : String
  pub field_type : String
  pub description : String
  pub required : Bool

pub record MessageTypeInfo : Type 0 where
  pub type_name : String
  pub module_name : String
  pub label : String
  pub description : String
  pub category : MessageCategory
  pub fields : List MessageField

-- `amount` is whatever the body holds there; undefined stands for a missing property.
pub record ParsedMessage : Type 0 where
  pub type_name : String
  pub module_name : String
  pub label : String
  pub value : Value
  pub involved_addresses : List String
  pub amount : Value
  pub description : String
  pub category : Option MessageCategory
