-- ===== src/Validators/Laws.antt =====
-- What a page of validators holds.
use Prim.Native.String.{String}
use safrochain_indexer.Prelude.{
  ℕ, ◌≤◌, Option, none, some, Bool, true, not, List, [], ◌∷◌, All, map, keep, all, length, suc,
  take, length-take, ◌≡◌, refl, ap, arith, ◌==◌, if◌then◌else◌,
}
use safrochain_indexer.Paging.Query.{skip, AnswersInOrder}
use safrochain_indexer.Paging.Cursor.Laws.{keep-All, All-take}
use safrochain_indexer.Transactions.Listing.Advanced.{All-skip}
use safrochain_indexer.Transactions.Filters.Laws.{all-append_iff, all-when_given}
use safrochain_indexer.Paging.Query.{when_given}
use safrochain_indexer.Validators.{
  Validator, ValidatorStatus, ValidatorList, ValidatorCondition, ValidatorEntry, ValidatorRows,
  status_is, jailed_is, validator_limit, validator_filters, validators_query, validator_entry,
  get_validators, validator_holds, joined_num, joined_flag, status_test,
}

length-map : {A B : Type 0} (g : A → B) (xs : List A) → length (map g xs) ≡ length xs
length-map g [] = refl
length-map g (x ∷ xs) = ap suc (length-map g xs)

All-map :
    {A B : Type 0} (P : A → Type 0) (Q : B → Type 0) (g : A → B) (xs : List A)
    → ((x : A) → P x → Q (g x))
    → All P xs
    → All Q (map g xs)
All-map P Q g [] h a = tt
All-map P Q g (x ∷ xs) h (p, a) = (h x p, All-map P Q g xs h a)

module _ (ilike : String → String → Bool) (order_of get_many : ValidatorRows)
    (answers : AnswersInOrder (validator_holds ilike) order_of get_many) (f : ValidatorList) where
  -- What the filters ask of an entry: the status and the flag that it shows.
  pub record IsAsked (e : ValidatorEntry) : Type 0 where
    pub status_asked : (n : ℕ) → f.status ≡ some n → e.status ≡ n
    pub jailed_asked : (b : Bool) → f.jailed ≡ some b → e.jailed ≡ b

  shown_status :
      (o : Option ValidatorStatus) (n : ℕ)
      → status_test ilike (λ s. s.status == n) o ≡ true
      → joined_num (λ s. s.status) o ≡ n
  shown_status none n h = absurd (cc)
  shown_status (some s) n h = ground arith

  shown_jailed :
      (o : Option ValidatorStatus) (b : Bool)
      → status_test ilike (λ s. if b then s.jailed else not s.jailed) o ≡ true
      → joined_flag (λ s. s.jailed) o ≡ b
  shown_jailed none b h = absurd (cc)
  shown_jailed (some s) b h = ground arith

  abbrev passes : Validator → Bool
  passes v = all (λ c. validator_holds ilike c v) (validator_filters f)

  passes-IsAsked : (v : Validator) → passes v ≡ true → IsAsked (validator_entry v)
  unfolding validator_filters validator_holds validator_entry
  passes-IsAsked v h =
      let p = λ (c : ValidatorCondition). validator_holds ilike c v in
      let (by_status, rest) = (all-append_iff p (when_given f.status status_is) _).0 h in
      let (by_jailed, searched) = (all-append_iff p (when_given f.jailed jailed_is) _).0 rest in
      record {
        status_asked =
            λ n e. shown_status v.status n ((all-when_given p f.status status_is).0 by_status n e);
        jailed_asked =
            λ b e. shown_jailed v.status b ((all-when_given p f.jailed jailed_is).0 by_jailed b e);
      }

  -- Whatever page and limit are asked for, and in whichever order the database reads the rows, a
  -- page has at most as many entries as its limit, which is between 1 and 100, and every entry
  -- shows the status and the jailed flag that the request asks for.
  pub get_validators-All :
      (let page = get_validators get_many f in
        (1 ≤ page.limit)
        × (page.limit ≤ 100)
        × (length page.entries ≤ page.limit)
        × All IsAsked page.entries)
  unfolding get_validators
  get_validators-All =
      let q = validators_query f in
      let rows = skip q.offset (keep passes (order_of q)) in
      let e : get_many q ≡ take (validator_limit f.limit) rows =
        unfold validators_query in answers q in
      let bounds : (1 ≤ validator_limit f.limit) × (validator_limit f.limit ≤ 100) =
        unfold validator_limit in (omega arith, omega arith) in
      rw e (
        bounds.0,
        bounds.1,
        omega (
          arith,
          length-map validator_entry (take (validator_limit f.limit) rows),
          length-take (validator_limit f.limit) rows,
        ),
        All-map (λ v. passes v ≡ true) IsAsked validator_entry _ passes-IsAsked
            (All-take _ (validator_limit f.limit) rows
              (All-skip _ q.offset _ (keep-All passes (order_of q)))),
      )
