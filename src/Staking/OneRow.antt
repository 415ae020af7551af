-- ===== src/Staking/OneRow.antt =====
-- The lookups of the staking service in tables of one row, and the validators' signing information.
-- An entity's columns are copied to the response, so the response is the row itself.
use Prim.Native.String.{String}
use safrochain_indexer.Prelude.{ℕ, Option, none, some, Bool, List, take}
use safrochain_indexer.Prelude.Outcomes.{Outcome, ok, not_found}
use safrochain_indexer.Json.Value.{Value}

pub record StakingPool : Type 0 where
  pub bonded_tokens : String
  pub not_bonded_tokens : String
  pub unbonding_tokens : String
  pub staked_not_bonded_tokens : String
  pub height : ℕ

-- The tables that hold JSON parameters, the coins of the community pool, or the inflation's value.
pub record RowAt : Type 0 where
  pub content : Value
  pub height : ℕ

pub record SigningInfo : Type 0 where
  pub validator_address : String
  pub start_height : ℕ
  pub index_offset : ℕ
  pub jailed_until : ℕ
  pub tombstoned : Bool
  pub missed_blocks_counter : ℕ
  pub height : ℕ

-- `if (!row) throw new Error(message)`
abbrev pub row_or_error : {A : Type 0} → String → Option A → Outcome A
row_or_error message none = not_found message
row_or_error message (some row) = ok row

-- What `findOne` answers for each table, the newest row first.
pub record StakingTables : Type 0 where
  pub staking_pool : Option StakingPool
  pub staking_params : Option RowAt
  pub community_pool : Option RowAt
  pub distribution_params : Option RowAt
  pub slashing_params : Option RowAt
  pub mint_params : Option RowAt
  pub inflation : Option RowAt
  pub gov_params : Option RowAt
  pub signing_info : String → Option SigningInfo
  pub signing_infos : List SigningInfo

module _ (t : StakingTables) where
  unfoldable pub get_staking_pool : Outcome StakingPool
  get_staking_pool = row_or_error "Staking pool not found" t.staking_pool

  unfoldable pub get_staking_params : Outcome RowAt
  get_staking_params = row_or_error "Staking parameters not found" t.staking_params

  unfoldable pub get_community_pool : Outcome RowAt
  get_community_pool = row_or_error "Community pool not found" t.community_pool

  unfoldable pub get_distribution_params : Outcome RowAt
  get_distribution_params = row_or_error "Distribution parameters not found" t.distribution_params

  unfoldable pub get_slashing_params : Outcome RowAt
  get_slashing_params = row_or_error "Slashing parameters not found" t.slashing_params

  unfoldable pub get_mint_params : Outcome RowAt
  get_mint_params = row_or_error "Mint parameters not found" t.mint_params

  unfoldable pub get_inflation : Outcome RowAt
  get_inflation = row_or_error "Inflation data not found" t.inflation

  unfoldable pub get_gov_params : Outcome RowAt
  get_gov_params = row_or_error "Governance parameters not found" t.gov_params

  unfoldable pub get_validator_signing_info : String → Outcome SigningInfo
  get_validator_signing_info validator =
      row_or_error "Validator signing info not found" (t.signing_info validator)

  -- `find` with `take: 100`
  unfoldable pub get_all_validator_signing_info : List SigningInfo
  get_all_validator_signing_info = take 100 t.signing_infos
