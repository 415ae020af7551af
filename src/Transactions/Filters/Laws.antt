-- ===== src/Transactions/Filters/Laws.antt =====
-- A transaction filter's conditions against what each field of the filter asks for.
use safrochain_indexer.Prelude.{
  ℕ, ◌≤◌, String, Option, none, some, Bool, true, not, ◌&&◌, List, [], ◌∷◌, ◌++◌, leb, ◌≡◌, ◌↔◌,
  refl, all, arith, and-eq-true, some_inj, subst, sym, ◌∙◌, if◌then◌else◌,
}
use safrochain_indexer.Prelude.Sets.{includes}
use safrochain_indexer.Paging.Query.{when_given}
use safrochain_indexer.Transactions.Filters.{
  TransactionRow, TransactionFilter, TransactionCondition, success_is, height_ge, height_le,
  gas_used_ge, gas_used_le, gas_wanted_ge, gas_wanted_le, memo_like, signer_like, has_message_type,
  has_address, involves, block_from, block_to, given_num, given_text, given_list,
  build_transaction_query, exists_message, overlaps, block_time, memo_matches, containing, holds,
}

module _ {C : Type 0} (p : C → Bool) where
  pub all-append : (xs ys : List C) → all p (xs ++ ys) ≡ (all p xs && all p ys)
  all-append [] ys = refl
  all-append (x ∷ xs) ys = ground (arith, all-append xs ys)

  pub all-append_iff :
      (xs ys : List C) → (all p (xs ++ ys) ≡ true) ↔ ((all p xs ≡ true) × (all p ys ≡ true))
  all-append_iff xs ys =
      let e = all-append xs ys in
      (λ h. and-eq-true (all p xs) (all p ys) (sym e ∙ h), λ (a, b). ground (arith, e))

  -- A condition that is added for a given value asks something only if the value is given.
  pub all-when_given :
      {V : Type 0} (o : Option V) (c : V → C)
      → (all p (when_given o c) ≡ true) ↔ ((v : V) → o ≡ some v → p (c v) ≡ true)
  all-when_given none c = (λ h v e. absurd (cc), λ h. refl)
  all-when_given (some v) c = (
    λ h w e. subst (λ u. p (c u) ≡ true) (some_inj e) (and-eq-true (p (c v)) true h).0,
    λ h. ground (arith, h v refl),
  )

module _ {C : Type 0} (p : C → Bool) where
  -- What one group of conditions asks and what the next ones ask.
  pub and_part :
      (xs ys : List C) {P Q : Type 0}
      → ((all p xs ≡ true) ↔ P)
      → ((all p ys ≡ true) ↔ Q)
      → (all p (xs ++ ys) ≡ true) ↔ (P × Q)
  and_part xs ys (f, g) (h, k) =
      let (split, join) = all-append_iff p xs ys in
      (λ e. (f (split e).0, h (split e).1), λ (a, b). join (g a, k b))

  -- A condition that is added for a given value asks `P` of that value.
  pub given_part :
      {V : Type 0} (o : Option V) (c : V → C) (P : V → Type 0)
      → ((v : V) → (p (c v) ≡ true) ↔ P v)
      → (all p (when_given o c) ≡ true) ↔ ((v : V) → o ≡ some v → P v)
  given_part o c P h =
      let (to, from) = all-when_given p o c in
      (λ a v e. (h v).0 (to a v e), λ k. from (λ v e. (h v).1 (k v e)))

module _ (ilike : String → String → Bool) (f : TransactionFilter) (r : TransactionRow) where
  -- What a filter asks of a row; a number 0, an empty text, an empty list and the three fields on
  -- fees ask nothing.
  pub record Matches : Type 0 where
    pub success_is : (b : Bool) → f.success ≡ some b → r.transaction.success ≡ b
    pub height_from : (n : ℕ) → given_num f.min_height ≡ some n → n ≤ r.transaction.height
    pub height_to : (n : ℕ) → given_num f.max_height ≡ some n → r.transaction.height ≤ n
    pub gas_used_from : (n : ℕ) → given_num f.min_gas_used ≡ some n → n ≤ r.transaction.gas_used
    pub gas_used_to : (n : ℕ) → given_num f.max_gas_used ≡ some n → r.transaction.gas_used ≤ n
    pub gas_wanted_from :
        (n : ℕ) → given_num f.min_gas_wanted ≡ some n → n ≤ r.transaction.gas_wanted
    pub gas_wanted_to : (n : ℕ) → given_num f.max_gas_wanted ≡ some n → r.transaction.gas_wanted ≤ n
    pub memo_is :
        (s : String)
        → given_text f.memo ≡ some s
        → memo_matches (ilike (containing s)) r.transaction.memo ≡ true
    pub signer_is :
        (s : String) → given_text f.signer ≡ some s → ilike (containing s) r.signer_text ≡ true
    pub types_in :
        (ts : List String)
        → given_list f.message_types ≡ some ts
        → exists_message (λ m. includes ts m.type_name) r.messages ≡ true
    pub addresses_in :
        (addrs : List String)
        → given_list f.addresses ≡ some addrs
        → exists_message (λ m. overlaps m.involved_accounts_addresses addrs) r.messages ≡ true
    pub validator_in :
        (a : String)
        → given_text f.validator ≡ some a
        → exists_message (λ m. includes m.involved_accounts_addresses a) r.messages ≡ true
    pub from_date :
        (t : ℕ) → f.date_from ≡ some t → block_time (λ u. leb t u) r.transaction.block ≡ true
    pub to_date :
        (t : ℕ) → f.date_to ≡ some t → block_time (λ u. leb u t) r.transaction.block ≡ true

  abbrev meets : TransactionCondition → Bool
  meets c = holds ilike c r

  leb→le : (a b : ℕ) → leb a b ≡ true → a ≤ b
  leb→le a b h = ground arith

  le→leb : (a b : ℕ) → a ≤ b → leb a b ≡ true
  le→leb a b h = ground arith

  success_meets : (b s : Bool) → ((if b then s else not s) ≡ true) ↔ (s ≡ b)
  success_meets b s = ground arith

  Matches_of_meets : all meets (build_transaction_query f) ≡ true → Matches
  unfolding build_transaction_query holds
  Matches_of_meets h0 =
      let (c0, h1) = (all-append_iff meets (when_given (f.success) success_is) _).0 h0 in
      let (c1, h2) =
        (all-append_iff meets (when_given (given_num f.min_height) height_ge) _).0 h1 in
      let (c2, h3) =
        (all-append_iff meets (when_given (given_num f.max_height) height_le) _).0 h2 in
      let (c3, h4) =
        (all-append_iff meets (when_given (given_num f.min_gas_used) gas_used_ge) _).0 h3 in
      let (c4, h5) =
        (all-append_iff meets (when_given (given_num f.max_gas_used) gas_used_le) _).0 h4 in
      let (c5, h6) =
        (all-append_iff meets (when_given (given_num f.min_gas_wanted) gas_wanted_ge) _).0 h5 in
      let (c6, h7) =
        (all-append_iff meets (when_given (given_num f.max_gas_wanted) gas_wanted_le) _).0 h6 in
      let (c7, h8) =
        (all-append_iff meets (when_given (given_text f.memo) (λ s. memo_like (containing s))) _).0
          h7 in
      let (c8, h9) =
        (all-append_iff meets (when_given (given_text f.signer) (λ s. signer_like (containing s)))
            _).0
          h8 in
      let (c9, h10) =
        (all-append_iff meets (when_given (given_list f.message_types) has_message_type) _).0 h9 in
      let (c10, h11) =
        (all-append_iff meets (when_given (given_list f.addresses) has_address) _).0 h10 in
      let (c11, h12) =
        (all-append_iff meets (when_given (given_text f.validator) involves) _).0 h11 in
      let (c12, h13) = (all-append_iff meets (when_given (f.date_from) block_from) _).0 h12 in
      record {
        success_is =
            λ b e. (success_meets b _).0 (((all-when_given meets (f.success) success_is).0 c0) b e);
        height_from = λ n e.
            leb→le _ _ (((all-when_given meets (given_num f.min_height) height_ge).0 c1) n e);
        height_to = λ n e.
            leb→le _ _ (((all-when_given meets (given_num f.max_height) height_le).0 c2) n e);
        gas_used_from = λ n e.
            leb→le _ _ (((all-when_given meets (given_num f.min_gas_used) gas_used_ge).0 c3) n e);
        gas_used_to = λ n e.
            leb→le _ _ (((all-when_given meets (given_num f.max_gas_used) gas_used_le).0 c4) n e);
        gas_wanted_from = λ n e.
            leb→le _ _
              (((all-when_given meets (given_num f.min_gas_wanted) gas_wanted_ge).0 c5) n e);
        gas_wanted_to = λ n e.
            leb→le _ _
              (((all-when_given meets (given_num f.max_gas_wanted) gas_wanted_le).0 c6) n e);
        memo_is = ((all-when_given meets (given_text f.memo) (λ s. memo_like (containing s))).0 c7);
        signer_is =
            ((all-when_given meets (given_text f.signer) (λ s. signer_like (containing s))).0 c8);
        types_in = ((all-when_given meets (given_list f.message_types) has_message_type).0 c9);
        addresses_in = ((all-when_given meets (given_list f.addresses) has_address).0 c10);
        validator_in = ((all-when_given meets (given_text f.validator) involves).0 c11);
        from_date = ((all-when_given meets (f.date_from) block_from).0 c12);
        to_date = ((all-when_given meets (f.date_to) block_to).0 h13);
      }

  meets_of_Matches : Matches → all meets (build_transaction_query f) ≡ true
  unfolding build_transaction_query holds
  meets_of_Matches m =
      let c0 =
        (all-when_given meets (f.success) success_is).1
          (λ b e. (success_meets b _).1 (m.success_is b e)) in
      let c1 =
        (all-when_given meets (given_num f.min_height) height_ge).1
          (λ n e. le→leb _ _ (m.height_from n e)) in
      let c2 =
        (all-when_given meets (given_num f.max_height) height_le).1
          (λ n e. le→leb _ _ (m.height_to n e)) in
      let c3 =
        (all-when_given meets (given_num f.min_gas_used) gas_used_ge).1
          (λ n e. le→leb _ _ (m.gas_used_from n e)) in
      let c4 =
        (all-when_given meets (given_num f.max_gas_used) gas_used_le).1
          (λ n e. le→leb _ _ (m.gas_used_to n e)) in
      let c5 =
        (all-when_given meets (given_num f.min_gas_wanted) gas_wanted_ge).1
          (λ n e. le→leb _ _ (m.gas_wanted_from n e)) in
      let c6 =
        (all-when_given meets (given_num f.max_gas_wanted) gas_wanted_le).1
          (λ n e. le→leb _ _ (m.gas_wanted_to n e)) in
      let c7 =
        (all-when_given meets (given_text f.memo) (λ s. memo_like (containing s))).1 (m.memo_is) in
      let c8 =
        (all-when_given meets (given_text f.signer) (λ s. signer_like (containing s))).1
          (m.signer_is) in
      let c9 =
        (all-when_given meets (given_list f.message_types) has_message_type).1 (m.types_in) in
      let c10 = (all-when_given meets (given_list f.addresses) has_address).1 (m.addresses_in) in
      let c11 = (all-when_given meets (given_text f.validator) involves).1 (m.validator_in) in
      let c12 = (all-when_given meets (f.date_from) block_from).1 (m.from_date) in
      let c13 = (all-when_given meets (f.date_to) block_to).1 (m.to_date) in
      let h12 = (all-append_iff meets (when_given (f.date_from) block_from) _).1 (c12, c13) in
      let h11 =
        (all-append_iff meets (when_given (given_text f.validator) involves) _).1 (c11, h12) in
      let h10 =
        (all-append_iff meets (when_given (given_list f.addresses) has_address) _).1 (c10, h11) in
      let h9 =
        (all-append_iff meets (when_given (given_list f.message_types) has_message_type) _).1
          (c9, h10) in
      let h8 =
        (all-append_iff meets (when_given (given_text f.signer) (λ s. signer_like (containing s)))
            _).1
          (c8, h9) in
      let h7 =
        (all-append_iff meets (when_given (given_text f.memo) (λ s. memo_like (containing s))) _).1
          (c7, h8) in
      let h6 =
        (all-append_iff meets (when_given (given_num f.max_gas_wanted) gas_wanted_le) _).1
          (c6, h7) in
      let h5 =
        (all-append_iff meets (when_given (given_num f.min_gas_wanted) gas_wanted_ge) _).1
          (c5, h6) in
      let h4 =
        (all-append_iff meets (when_given (given_num f.max_gas_used) gas_used_le) _).1 (c4, h5) in
      let h3 =
        (all-append_iff meets (when_given (given_num f.min_gas_used) gas_used_ge) _).1 (c3, h4) in
      let h2 =
        (all-append_iff meets (when_given (given_num f.max_height) height_le) _).1 (c2, h3) in
      let h1 =
        (all-append_iff meets (when_given (given_num f.min_height) height_ge) _).1 (c1, h2) in
      let h0 = (all-append_iff meets (when_given (f.success) success_is) _).1 (c0, h1) in h0

  pub build_transaction_query_iff :
      (all (λ c. holds ilike c r) (build_transaction_query f) ≡ true) ↔ Matches
  build_transaction_query_iff = (Matches_of_meets, meets_of_Matches)

  -- A row meets the conditions that are built from a filter exactly when it matches every given
  -- field of the filter other than the three on fees; whatever those three say, the conditions are
  -- the same.
  pub build_transaction_query_lem :
      ((all (λ c. holds ilike c r) (build_transaction_query f) ≡ true) ↔ Matches)
      × ((lowest highest denom : Option String)
          → build_transaction_query
              (record f { min_fee_amount = lowest; max_fee_amount = highest; fee_denom = denom })
            ≡ build_transaction_query f)
  unfolding build_transaction_query
  build_transaction_query_lem = (build_transaction_query_iff, λ lowest highest denom. refl)
