-- ===== src/Transactions/Single/Laws.antt =====
-- One transaction: when it is found, and how its statistics compare with its response.
use Prim.Native.String.{String}
use safrochain_indexer.Prelude.{
  ℕ, suc, Option, none, some, Bool, false, List, [], ◌∷◌, map, length, ◌≡◌, ◌↔◌, refl, ap, sym, ◌∙◌,
  str_eq, ◌||◌, arith, Option-cases, inl, inr, some_inj, bind-eq-some,
}
use safrochain_indexer.Prelude.Sets.{includes, add_all, includes-unique}
use safrochain_indexer.Prelude.Outcomes.{ok, not_found, or_failed}
use safrochain_indexer.Entities.{Transaction, Message}
use safrochain_indexer.Transactions.Response.{
  table_message, collect_addresses, message_views, modules_of, TransactionResponse,
  transaction_response,
}
use safrochain_indexer.Transactions.Response.Laws.{
  involves, includes-collect_addresses, Summarises, transaction_response-Summarises,
}
use safrochain_indexer.Transactions.Filters.{exists_message}
use safrochain_indexer.Transactions.Single.{
  TransactionSource, TransactionStatistics, table_addresses, statistics_of, get_transaction_by_hash,
}
use mathlib.Core.List.{Permᴰ}

-- `findOne` on the table of transactions: a row of the hash, and none only if there is none.
pub record Finds (table : List Transaction) (find_one : String → Option Transaction) : Type 0 where
  pub found_hash : (h : String) (tx : Transaction) → find_one h ≡ some tx → tx.hash ≡ h
  pub none_missing :
      (h : String) → (find_one h ≡ none) ↔ (includes (map (λ tx. tx.hash) table) h ≡ false)

-- How an outcome was reached.
or_failed-ok : {A : Type 0} (o : Option A) (a : A) → or_failed o ≡ ok a → o ≡ some a
or_failed-ok none a e = absurd (cc)
or_failed-ok (some b) a e = ap some (cc)

or_failed-not_found : {A : Type 0} (o : Option A) (s : String) → or_failed o ≡ not_found s → ⊥
or_failed-not_found none s e = cc
or_failed-not_found (some b) s e = cc

response_hash :
    (now : ℕ) (tx : Transaction) (ms : List Message) (r : TransactionResponse)
    → transaction_response now tx ms ≡ some r
    → r.hash ≡ tx.hash
unfolding transaction_response
response_hash now tx ms r e =
    let (modules, found, made) = bind-eq-some (modules_of (message_views tx ms)) _ e in
    sym (ap (λ r. r.hash) (some_inj made))

module _ (table : List Transaction) (source : TransactionSource)
    (finds : Finds table source.find_one) (now : ℕ) where
  -- A hash is answered with "not found" exactly when no transaction has it, and a response that is
  -- returned is of the hash asked for and summarises its messages.
  pub get_transaction_by_hash_lem :
      (h : String)
      → ((get_transaction_by_hash source now h ≡ not_found h)
          ↔ (includes (map (λ tx. tx.hash) table) h ≡ false))
        × ((r : TransactionResponse)
            → get_transaction_by_hash source now h ≡ ok r
            → (r.hash ≡ h) × Summarises r)
  unfolding get_transaction_by_hash
  get_transaction_by_hash_lem h = elim (Option-cases (source.find_one h)) [
    | inl missing ↦
        rw (missing, get_transaction_by_hash)
          ((λ e. (finds.none_missing h).0 missing, λ e. refl), λ r e. absurd (cc))
    | inr (tx, found) ↦
        rw (found, get_transaction_by_hash)
          (
            (
              λ e.
                  absurd
                    (or_failed-not_found (transaction_response now tx (source.find_ordered h)) h e),
              λ e. absurd (let none_there = (finds.none_missing h).1 e in cc),
            ),
            λ r e.
                let answered =
                  or_failed-ok (transaction_response now tx (source.find_ordered h)) r e in
                (
                  response_hash now tx (source.find_ordered h) r answered
                      ∙ finds.found_hash h tx found,
                  transaction_response-Summarises now tx (source.find_ordered h) r answered,
                ),
          )
  ]

collect_table :
    (set : List String) (ms : List Message)
    → table_addresses set ms ≡ collect_addresses set (map table_message ms)
unfolding table_addresses collect_addresses table_message
collect_table set [] = refl
collect_table set (m ∷ ms) = collect_table (add_all set m.involved_accounts_addresses) ms

or_swap : (x y z : Bool) → (x || (y || z)) ≡ (y || (x || z))
or_swap x y z = ground arith

exists_message-perm :
    (p : Message → Bool) {xs ys : List Message}
    → Permᴰ xs ys
    → exists_message p xs ≡ exists_message p ys
unfolding exists_message
exists_message-perm p Permᴰ.nil = refl
exists_message-perm p (Permᴰ.cons e d) = rw (e, exists_message-perm p d) refl
exists_message-perm p (Permᴰ.swap {a = a} {b = b} {a' = a'} {b' = b'} {l = l} e k) =
    rw (e, k) (or_swap (p b') (p a') (exists_message p l))
exists_message-perm p (Permᴰ.trans d k) = exists_message-perm p d ∙ exists_message-perm p k

involves_table :
    (ms : List Message) (a : String)
    → involves (map table_message ms) a
      ≡ exists_message (λ m. includes m.involved_accounts_addresses a) ms
unfolding involves exists_message table_message
involves_table [] a = refl
involves_table (m ∷ ms) a = rw (involves_table ms a) refl

types_table :
    (ms : List Message) (t : String)
    → includes (map (λ m. m.type_name) ms) t ≡ exists_message (λ m. str_eq m.type_name t) ms
unfolding includes exists_message
types_table [] t = refl
types_table (m ∷ ms) t = rw (types_table ms t) refl

length-map : {A B : Type 0} (f : A → B) (xs : List A) → length (map f xs) ≡ length xs
length-map f [] = refl
length-map f (x ∷ xs) = ap suc (length-map f xs)

types_views :
    (ms : List Message) → map (λ m. m.type_name) ms ≡ map (λ m. m.type_name) (map table_message ms)
unfolding table_message
types_views [] = refl
types_views (m ∷ ms) = ap (λ ts. m.type_name ∷ ts) (types_views ms)

length-perm : {xs ys : List Message} → Permᴰ xs ys → length xs ≡ length ys
length-perm Permᴰ.nil = refl
length-perm (Permᴰ.cons e d) = ap suc (length-perm d)
length-perm (Permᴰ.swap e k) = refl
length-perm (Permᴰ.trans d k) = length-perm d ∙ length-perm k

-- What statistics and a response say alike.
pub record SameFacts (s : TransactionStatistics) (r : TransactionResponse) : Type 0 where
  pub hash_is : s.hash ≡ r.hash
  pub fee_is : s.fee ≡ r.fee
  pub count_is : s.message_count ≡ r.message_count
  pub types_are : (t : String) → includes s.message_types t ≡ includes r.message_types t
  pub addresses_are :
      (a : String) → includes s.involved_addresses a ≡ includes r.involved_addresses a

same_field :
    {X : Type 0} {r q : TransactionResponse} {x : X} (f : TransactionResponse → X)
    → r ≡ q
    → x ≡ f r
    → x ≡ f q
same_field f e h = h ∙ ap f e

-- For a transaction whose messages, as a response lists them, are those of the message table, which
-- they are where the JSON column is empty, the statistics give the same count, types, addresses and
-- fee as the response, in whatever order the database returns the messages.
pub statistics_of-SameFacts :
    (now : ℕ) (tx : Transaction) (ordered any_order : List Message) (r : TransactionResponse)
    → message_views tx ordered ≡ map table_message ordered
    → Permᴰ any_order ordered
    → transaction_response now tx ordered ≡ some r
    → SameFacts (statistics_of tx any_order) r
unfolding statistics_of transaction_response
statistics_of-SameFacts now tx ordered any_order r views perm e =
    let (modules, found, made) = bind-eq-some (modules_of (message_views tx ordered)) _ e in
    let r_is = some_inj made in
    record {
      hash_is = same_field (λ r. r.hash) r_is refl;
      fee_is = same_field (λ r. r.fee) r_is refl;
      count_is =
          same_field (λ r. r.message_count) r_is
            (length-perm perm ∙ sym (length-map table_message ordered) ∙ sym (ap length views));
      types_are = λ t.
          same_field (λ r. includes r.message_types t) r_is
            (includes-unique (map (λ m. m.type_name) any_order) t
              ∙ types_table any_order t
              ∙ exists_message-perm (λ m. str_eq m.type_name t) perm
              ∙ sym (types_table ordered t)
              ∙ ap (λ l. includes l t) (types_views ordered)
              ∙ sym (ap (λ vs. includes (map (λ m. m.type_name) vs) t) views)
              ∙ sym (includes-unique _ t));
      addresses_are = λ a.
          same_field (λ r. includes r.involved_addresses a) r_is
            (ap (λ l. includes l a) (collect_table [] any_order)
              ∙ includes-collect_addresses [] (map table_message any_order) a
              ∙ ap (λ b. includes [] a || b)
                  (involves_table any_order a
                    ∙ exists_message-perm (λ m. includes m.involved_accounts_addresses a) perm
                    ∙ sym (involves_table ordered a))
              ∙ sym (includes-collect_addresses [] (map table_message ordered) a)
              ∙ sym (ap (λ vs. includes (collect_addresses [] vs) a) views));
    }
