-- ===== src/Validators/Tests.antt =====
-- Three validators, read two to a page.
use Prim.Native.String.{String}
use safrochain_indexer.Prelude.{
  none, some, Bool, true, false, [], ◌∷◌, keep, all, str_eq, refl, ◌≤◌, All, length,
}
use safrochain_indexer.Paging.Query.{cut, skip}
use safrochain_indexer.Validators.{
  Validator, ValidatorList, ValidatorRows, validator_holds, get_validators,
}
use safrochain_indexer.Validators.Laws.{IsAsked, get_validators-All}

abbrev validator_at : String → Bool → Validator
validator_at address jailed = record {
  consensus_address = address;
  consensus_pubkey = "";
  info = none;
  description = none;
  commission = none;
  voting_power = none;
  status = some (record { status = 3; jailed = jailed; height = 1 });
}

abbrev order_of : ValidatorRows
order_of q =
    validator_at "a" false
    ∷ validator_at "b" true
    ∷ validator_at "c" false
    ∷ validator_at "d" false
    ∷ []

abbrev get_many : ValidatorRows
get_many q =
    cut q.limit
      (skip q.offset (keep (λ v. all (λ c. validator_holds str_eq c v) q.conditions) (order_of q)))

abbrev active : ValidatorList
active = record { page = none; limit = some 2; status = some 3; jailed = some false; search = none }

get_validators-All_example :
    (let page = get_validators get_many active in
      (1 ≤ page.limit)
      × (page.limit ≤ 100)
      × (length page.entries ≤ page.limit)
      × All (IsAsked str_eq order_of get_many (λ q. refl) active) page.entries)
get_validators-All_example = get_validators-All str_eq order_of get_many (λ q. refl) active
