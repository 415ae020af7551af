-- ===== src/Staking/Tests.antt =====
-- The staking listings on three messages.
use Prim.Native.String.{String}
use safrochain_indexer.Prelude.{
  ℕ, ◌≤◌, none, some, true, [], ◌∷◌, All, length, keep, all, ◌≡◌, refl,
}
use safrochain_indexer.Prelude.Int.{pos}
use safrochain_indexer.Prelude.Sets.{includes}
use safrochain_indexer.Json.Value.{obj, end}
use safrochain_indexer.Paging.Query.{cut, skip}
use safrochain_indexer.Staking.Listing.{
  StakingRow, StakingRows, staking_holds, staking_rows, delegate, get_delegations_by_address,
  get_delegations_by_validator,
}
use safrochain_indexer.Staking.Listing.Laws.{
  staking_rows-All, get_delegations_by_validator-get_delegations_by_address,
}

abbrev row_of : String → ℕ → StakingRow
row_of type_name height = record {
  message = record {
    transaction_hash = "h";
    index = 0;
    type_name = type_name;
    value = obj end;
    involved_accounts_addresses = "ann" ∷ "val" ∷ [];
    partition_id = 0;
    height = height;
  };
  block = none;
}

abbrev order_of : StakingRows
order_of q = row_of delegate 9 ∷ row_of "/x" 8 ∷ row_of delegate 7 ∷ []

abbrev get_many : StakingRows
get_many q =
    cut q.limit (skip q.offset (keep (λ r. all (λ c. staking_holds c r) q.conditions) (order_of q)))

get_delegations_by_validator-get_delegations_by_address_example :
    get_delegations_by_validator get_many 3 "ann" none none
    ≡ get_delegations_by_address get_many 3 "ann" none none
get_delegations_by_validator-get_delegations_by_address_example =
    get_delegations_by_validator-get_delegations_by_address order_of get_many (λ q. refl) 3 "ann"
      none none (λ q. ((end, refl), ((end, refl), ((end, refl), tt))))

staking_rows-All_example :
    (length (staking_rows get_many delegate "ann" (some (pos 1)) none) ≤ 100)
    × All
        (λ r.
          (r.message.type_name ≡ delegate)
          × (includes r.message.involved_accounts_addresses "ann" ≡ true))
        (staking_rows get_many delegate "ann" (some (pos 1)) none)
staking_rows-All_example =
    staking_rows-All order_of get_many (λ q. refl) delegate "ann" (some (pos 1)) none
