-- ===== src/Paging/Query.antt =====
-- The queries that the services build on TypeORM's `SelectQueryBuilder`: a list of `andWhere`
-- conditions, one `orderBy`, `limit` and `offset`. The builder is a third-party package: what a
-- service hands it is recorded as data here, and running it is a parameter, `get_many`, of which
-- `Answers` states what SQL documents: WHERE keeps the rows that meet every condition, ORDER BY
-- sorts, OFFSET drops a prefix and LIMIT cuts.
use safrochain_indexer.Prelude.{
  ℕ, Option, none, some, Bool, List, [], ◌∷◌, not, ◌≡◌, take, drop, keep, all, if◌then◌else◌,
}

pub data SortOrder : Type 0 where
  asc desc : SortOrder

-- `C` is the service's type of conditions and `F` that of the columns it sorts by.
pub record SelectQuery (C F : Type 0) : Type 0 where
  pub conditions : List C
  pub order_by : F
  pub order : SortOrder
  pub limit : Option ℕ
  pub offset : Option ℕ

module _ {C : Type 0} where
  -- `if (flag) queryBuilder.andWhere(c)`
  abbrev pub when : Bool → C → List C
  when flag c = if flag then c ∷ [] else []

  -- `if (value !== undefined) queryBuilder.andWhere(c(value))`
  abbrev pub when_given {ℓ} : {V : Type ℓ} → Option V → (V → C) → List C
  when_given none c = []
  when_given (some v) c = c v ∷ []

abbrev pub cut {ℓ} : {R : Type ℓ} → Option ℕ → List R → List R
cut none rows = rows
cut (some n) rows = take n rows

abbrev pub skip {ℓ} : {R : Type ℓ} → Option ℕ → List R → List R
skip none rows = rows
skip (some n) rows = drop n rows

-- The first row of each entity, where `same` says that two rows are of one entity.
unfoldable pub once {ℓ} : {R : Type ℓ} → (R → R → Bool) → List R → List R
once same [] = []
once same (r ∷ rows) = r ∷ keep (λ s. not (same r s)) (once same rows)

-- `holds` is the meaning of a condition on a row, `sorted` the table in each order.
module _ {R C F : Type 0} (holds : C → R → Bool) (sorted : F → SortOrder → List R) where
  abbrev pub Answers : (SelectQuery C F → List R) → Type 0
  Answers get_many =
      (q : SelectQuery C F)
      → get_many q
        ≡ cut q.limit (
            skip q.offset
              (keep (λ r. all (λ c. holds c r) q.conditions) (sorted q.order_by q.order)))

  -- Over a join that repeats a row for each row it is joined with: LIMIT and OFFSET count the
  -- repeated rows, and `getMany` returns each entity once.
  abbrev pub AnswersOnce : (R → R → Bool) → (SelectQuery C F → List R) → Type 0
  AnswersOnce same get_many =
      (q : SelectQuery C F)
      → get_many q
        ≡ once same (
            cut q.limit (
              skip q.offset
                (keep (λ r. all (λ c. holds c r) q.conditions) (sorted q.order_by q.order))))

-- Where the order leaves rows tied, each query may read them in an order of its own: `order_of` is
-- the order in which the table is read for a query.
module _ {R C F : Type 0} (holds : C → R → Bool) where
  abbrev pub AnswersInOrder : (SelectQuery C F → List R) → (SelectQuery C F → List R) → Type 0
  AnswersInOrder order_of get_many =
      (q : SelectQuery C F)
      → get_many q
        ≡ cut q.limit (skip q.offset (keep (λ r. all (λ c. holds c r) q.conditions) (order_of q)))
