-- ===== src/Validators.antt =====
-- modules/validator/validator.service.ts: the validators, by voting power, and one validator with
-- what the other tables hold of it. The constants that stand for figures not yet tracked are left
-- out. PostgreSQL's ILIKE is the argument `ilike pattern text`.
pub mod Laws
mod Tests
use Prim.Native.String.{String}
use safrochain_indexer.Prelude.{
  ℕ, zero, suc, ◌+◌, ◌-◌, ◌*◌, min, max, Option, none, some, Bool, true, false, not, ◌&&◌, ◌||◌,
  List, [], ◌∷◌, ◌++◌, map, take, length, ltb, ◌==◌, str_eq, if◌then◌else◌, get_or_else,
}
use safrochain_indexer.Prelude.Outcomes.{Outcome, ok, not_found}
use safrochain_indexer.Entities.{Block}
use safrochain_indexer.Paging.Query.{SelectQuery, desc, when_given}
use safrochain_indexer.Transactions.Filters.{given_text, given_num, containing}

-- entities/validator.entity.ts and the tables joined to it, none where a row is missing.
pub record ValidatorInfo : Type 0 where
  pub operator_address : String
  pub self_delegate_address : String
  pub max_change_rate : String
  pub max_rate : String

pub record ValidatorDescription : Type 0 where
  pub moniker : String
  pub identity : Option String
  pub website : Option String
  pub details : Option String
  pub avatar_url : Option String
  pub security_contact : Option String

pub record ValidatorCommission : Type 0 where
  pub commission : String
  pub min_self_delegation : String

pub record ValidatorVotingPower : Type 0 where
  pub voting_power : ℕ
  pub height : ℕ

pub record ValidatorStatus : Type 0 where
  pub status : ℕ
  pub jailed : Bool
  pub height : ℕ

pub record Validator : Type 0 where
  pub consensus_address : String
  pub consensus_pubkey : String
  pub info : Option ValidatorInfo
  pub description : Option ValidatorDescription
  pub commission : Option ValidatorCommission
  pub voting_power : Option ValidatorVotingPower
  pub status : Option ValidatorStatus

-- `ValidatorListDto`
pub record ValidatorList : Type 0 where
  pub page : Option ℕ
  pub limit : Option ℕ
  pub status : Option ℕ
  pub jailed : Option Bool
  pub search : Option String

pub data ValidatorCondition : Type 0 where
  status_is : ℕ → ValidatorCondition
  jailed_is : Bool → ValidatorCondition
  search_like : String → ValidatorCondition

pub data ValidatorColumn : Type 0 where
  voting_power : ValidatorColumn

-- `value || fallback`
abbrev or_num : Option ℕ → ℕ → ℕ
or_num o n = get_or_else (given_num o) n

-- `Math.min(Math.max(filters.limit || 20, 1), 100)`
unfoldable pub validator_limit : Option ℕ → ℕ
validator_limit limit = min (max (or_num limit 20) 1) 100

unfoldable pub validator_filters : ValidatorList → List ValidatorCondition
validator_filters f =
    when_given f.status status_is
    ++ (when_given f.jailed jailed_is
        ++ when_given (given_text f.search) (λ s. search_like (containing s)))

unfoldable pub validators_query : ValidatorList → SelectQuery ValidatorCondition ValidatorColumn
unfolding validator_limit validator_filters
validators_query f = record {
  conditions = validator_filters f;
  order_by = ValidatorColumn.voting_power;
  order = desc;
  limit = some (validator_limit f.limit);
  offset = some ((or_num f.page 1 - 1) * validator_limit f.limit);
}

-- One entry of the listing.
pub record ValidatorEntry : Type 0 where
  pub consensus_address : String
  pub operator_address : String
  pub consensus_pubkey : String
  pub moniker : String
  pub status : ℕ
  pub jailed : Bool
  pub voting_power : ℕ
  pub commission : Option String

abbrev joined_text : {A : Type 0} → (A → String) → String → Option A → String
joined_text f fallback none = fallback
joined_text f fallback (some a) = get_or_else (given_text (some (f a))) fallback

abbrev pub joined_num : {A : Type 0} → (A → ℕ) → Option A → ℕ
joined_num f none = 0
joined_num f (some a) = f a

abbrev pub joined_flag : {A : Type 0} → (A → Bool) → Option A → Bool
joined_flag f none = false
joined_flag f (some a) = f a

-- none stands for the number 0 of a missing commission.
abbrev commission_of : Option ValidatorCommission → Option String
commission_of none = none
commission_of (some c) = given_text (some c.commission)

unfoldable pub validator_entry : Validator → ValidatorEntry
validator_entry v = record {
  consensus_address = v.consensus_address;
  operator_address = joined_text (λ i. i.operator_address) "" v.info;
  consensus_pubkey = v.consensus_pubkey;
  moniker = joined_text (λ d. d.moniker) "Unknown" v.description;
  status = joined_num (λ s. s.status) v.status;
  jailed = joined_flag (λ s. s.jailed) v.status;
  voting_power = joined_num (λ p. p.voting_power) v.voting_power;
  commission = commission_of v.commission;
}

pub record ValidatorPage : Type 0 where
  pub entries : List ValidatorEntry
  pub page : ℕ
  pub limit : ℕ
  pub total : ℕ
  pub total_pages : ℕ
  pub has_next : Bool
  pub has_prev : Bool

abbrev pub ValidatorRows : Type 0
ValidatorRows = SelectQuery ValidatorCondition ValidatorColumn → List Validator

unfoldable pub get_validators : ValidatorRows → ValidatorList → ValidatorPage
unfolding validators_query validator_entry validator_limit
get_validators get_many f =
    let rows = get_many (validators_query f) in
    record {
      entries = map validator_entry rows;
      page = or_num f.page 1;
      limit = validator_limit f.limit;
      total = 0;
      total_pages = 0;
      has_next = length rows == validator_limit f.limit;
      has_prev = ltb 1 (or_num f.page 1);
    }

-- What the repositories answer for one address, the tables' rows each by its own lookup.
pub record ValidatorSource : Type 0 where
  pub find_validator : String → Option Validator
  pub find_info : String → Option ValidatorInfo
  pub find_description : String → Option ValidatorDescription
  pub find_commission : String → Option ValidatorCommission
  pub find_voting_power : String → Option ValidatorVotingPower
  pub find_status : String → Option ValidatorStatus
  pub find_blocks : String → List Block

-- `getRecentActivity`: of the address's blocks, the newest ten.
unfoldable pub get_recent_activity : ValidatorSource → String → List Block
get_recent_activity source address = take 10 (source.find_blocks address)

pub record ValidatorResponse : Type 0 where
  pub consensus_address : String
  pub operator_address : String
  pub consensus_pubkey : String
  pub info : Option ValidatorInfo
  pub description : Option ValidatorDescription
  pub commission : Option ValidatorCommission
  pub voting_power : Option ValidatorVotingPower
  pub status : Option ValidatorStatus
  pub recent_activity : List Block

unfoldable pub get_validator_by_address : ValidatorSource → String → Outcome ValidatorResponse
unfolding get_recent_activity
get_validator_by_address source address = elim (source.find_validator address) [
  | none ↦ not_found address
  | some v ↦ ok (record {
    consensus_address = v.consensus_address;
    operator_address = joined_text (λ i. i.operator_address) "" (source.find_info address);
    consensus_pubkey = v.consensus_pubkey;
    info = source.find_info address;
    description = source.find_description address;
    commission = source.find_commission address;
    voting_power = source.find_voting_power address;
    status = source.find_status address;
    recent_activity = get_recent_activity source address;
  })
]

module _ (ilike : String → String → Bool) where
  abbrev pub status_test : (ValidatorStatus → Bool) → Option ValidatorStatus → Bool
  status_test p none = false
  status_test p (some s) = p s

  -- What SQL makes of each condition; a missing joined row makes a comparison false.
  unfoldable pub validator_holds : ValidatorCondition → Validator → Bool
  validator_holds (status_is n) v = status_test (λ s. s.status == n) v.status
  validator_holds (jailed_is b) v = status_test (λ s. if b then s.jailed else not s.jailed) v.status
  validator_holds (search_like p) v =
      joined_flag (λ d. ilike p d.moniker) v.description
      || (joined_flag (λ i. ilike p i.operator_address) v.info || ilike p v.consensus_address)
