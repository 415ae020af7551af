-- ===== src/Transactions/Preload/Laws.antt =====
-- Batch preloading gives every transaction the messages that a query of its own would give.
use safrochain_indexer.Prelude.{
  ℕ, String, Option, none, some, Bool, true, false, ◌||◌, List, [], ◌∷◌, ◌++◌, map, keep,
  if◌then◌else◌, str_eq, get_or_else, ◌≡◌, refl, ap, sym, ◌∙◌, arith, eq_iff, eq_refl, append_assoc,
  append-nil, Bool-cases, inl, inr, All,
}
use safrochain_indexer.Prelude.Sets.{includes}
use safrochain_indexer.Paging.Cursor.Laws.{keep-keep}
use safrochain_indexer.Entities.{Transaction, Message}
use safrochain_indexer.Transactions.Response.{has_json, message_views, transaction_response}
use safrochain_indexer.Transactions.Preload.{
  MessageMap, get_messages, set_messages, push_message, group_messages, hashes_needing_preload,
  preload_messages_by_hash, process_transaction_response, process_page,
}

get_messages-set_messages :
    (k h : String) (list : List Message) (m : MessageMap)
    → get_messages h (set_messages k list m) ≡ (if str_eq k h then some list else get_messages h m)
unfolding get_messages set_messages
get_messages-set_messages k h list [] = refl
get_messages-set_messages k h list ((i, l) ∷ m) =
    ground (arith, eq_iff k h, eq_iff i k, eq_iff i h, get_messages-set_messages k h list m)

abbrev pub of_hash : String → Message → Bool
of_hash h m = str_eq m.transaction_hash h

abbrev listed : String → MessageMap → List Message
listed h m = get_or_else (get_messages h m) []

listed-push_message :
    (h : String) (m : MessageMap) (x : Message)
    → listed h (push_message m x) ≡ listed h m ++ keep (of_hash h) (x ∷ [])
unfolding push_message
listed-push_message h m x = elim (Bool-cases (str_eq x.transaction_hash h)) [
  | inl e ↦
      let same = (eq_iff x.transaction_hash h).0 e in
      rw (get_messages-set_messages x.transaction_hash h _ m, e)
        (ap (λ k. listed k m ++ x ∷ []) same)
  | inr e ↦
      rw (get_messages-set_messages x.transaction_hash h _ m, e) (sym (append-nil (listed h m)))
]

keep-cons :
    (p : Message → Bool) (x : Message) (xs : List Message)
    → keep p (x ∷ []) ++ keep p xs ≡ keep p (x ∷ xs)
keep-cons p x xs = ground arith

-- Grouping keeps, for each hash, its messages in the order of the query.
listed-group_messages :
    (h : String) (m : MessageMap) (xs : List Message)
    → listed h (group_messages m xs) ≡ listed h m ++ keep (of_hash h) xs
unfolding group_messages
listed-group_messages h m [] = sym (append-nil (listed h m))
listed-group_messages h m (x ∷ xs) =
    listed-group_messages h (push_message m x) xs
    ∙ ap (λ l. l ++ keep (of_hash h) xs) (listed-push_message h m x)
    ∙ append_assoc (listed h m) (keep (of_hash h) (x ∷ [])) (keep (of_hash h) xs)
    ∙ ap (λ l. listed h m ++ l) (keep-cons (of_hash h) x xs)

none_included : (h : String) → includes [] h ≡ true → ⊥
unfolding includes
none_included h e = cc

or_listed :
    (o : Option (List Message)) (l : List Message) → get_or_else o [] ≡ l → get_or_else o l ≡ l
or_listed none l e = refl
or_listed (some x) l e = e

message_views-json :
    (tx : Transaction) (xs ys : List Message)
    → has_json tx ≡ true
    → message_views tx xs ≡ message_views tx ys
unfolding message_views
message_views-json tx xs ys json = rw json

-- With messages in the JSON column the table's are not looked at.
transaction_response-json :
    (now : ℕ) (tx : Transaction) (xs ys : List Message)
    → has_json tx ≡ true
    → transaction_response now tx xs ≡ transaction_response now tx ys
unfolding transaction_response
transaction_response-json now tx xs ys json = rw (message_views-json tx xs ys json)

or_right : (a : Bool) {b : Bool} → b ≡ true → (a || b) ≡ true
or_right a e = ground arith

first_needed :
    (tx : Transaction) (txs : List Transaction)
    → has_json tx ≡ false
    → includes (hashes_needing_preload (tx ∷ txs)) tx.hash ≡ true
unfolding hashes_needing_preload includes
first_needed tx txs empty = rw empty (rw (eq_refl tx.hash))

later_needed :
    (tx : Transaction) (txs : List Transaction) (h : String)
    → includes (hashes_needing_preload txs) h ≡ true
    → includes (hashes_needing_preload (tx ∷ txs)) h ≡ true
unfolding hashes_needing_preload includes
later_needed tx txs h e = elim (Bool-cases (has_json tx)) [
  | inl json ↦ rw json e
  | inr empty ↦ rw empty (or_right (str_eq tx.hash h) e)
]

-- The hashes asked for are those of all transactions with an empty JSON column.
needed :
    (txs : List Transaction) (hs : List String)
    → ((h : String) → includes (hashes_needing_preload txs) h ≡ true → includes hs h ≡ true)
    → All (λ tx. has_json tx ≡ false → includes hs tx.hash ≡ true) txs
needed [] hs within = tt
needed (tx ∷ txs) hs within = (
  λ empty. within tx.hash (first_needed tx txs empty),
  needed txs hs (λ h e. within h (later_needed tx txs h e)),
)

module _ (table : List Message) (find_in : List String → List Message)
    (find_one : String → List Message)
    (in_lists : (hs : List String) → find_in hs ≡ keep (λ m. includes hs m.transaction_hash) table)
    (one_lists : (h : String) → find_one h ≡ keep (of_hash h) table) where
  listed_preload :
      (h : String) (hs : List String)
      → includes hs h ≡ true
      → listed h (preload_messages_by_hash find_in find_one hs) ≡ find_one h
  unfolding preload_messages_by_hash get_messages
  listed_preload h [] i = absurd (none_included h i)
  listed_preload h (k ∷ hs) i =
      listed-group_messages h [] (find_in (k ∷ hs))
      ∙ ap (keep (of_hash h)) (in_lists (k ∷ hs))
      ∙ keep-keep (λ m. includes (k ∷ hs) m.transaction_hash) (of_hash h) table
          (λ m e. ap (includes (k ∷ hs)) ((eq_iff m.transaction_hash h).0 e) ∙ i)
      ∙ sym (one_lists h)

  -- A transaction is answered the same way from the preloaded map, if its hash was asked for or
  -- its JSON column has the messages.
  process_transaction_response-eq :
      (now : ℕ) (tx : Transaction) (hs : List String)
      → (has_json tx ≡ false → includes hs tx.hash ≡ true)
      → process_transaction_response find_in find_one now tx
          (preload_messages_by_hash find_in find_one hs)
        ≡ transaction_response now tx (find_one tx.hash)
  unfolding process_transaction_response
  process_transaction_response-eq now tx hs asked = elim (Bool-cases (has_json tx)) [
    | inl json ↦ transaction_response-json now tx _ _ json
    | inr empty ↦ ap (transaction_response now tx) (
        or_listed (get_messages tx.hash (preload_messages_by_hash find_in find_one hs)) _
          (listed_preload tx.hash hs (asked empty)))
  ]

  process-All :
      (now : ℕ) (txs : List Transaction) (hs : List String)
      → All (λ tx. has_json tx ≡ false → includes hs tx.hash ≡ true) txs
      → map
          (λ tx.
            process_transaction_response find_in find_one now tx
              (preload_messages_by_hash find_in find_one hs))
          txs
        ≡ map (λ tx. transaction_response now tx (find_one tx.hash)) txs
  process-All now [] hs asked = refl
  process-All now (tx ∷ txs) hs (a, asked) =
      cc (process_transaction_response-eq now tx hs a, process-All now txs hs asked)

  -- A page processed with one batch query is the page processed with a query for each transaction.
  pub process_page-eq :
      (now : ℕ) (txs : List Transaction)
      → process_page find_in find_one now txs
        ≡ map (λ tx. transaction_response now tx (find_one tx.hash)) txs
  unfolding process_page
  process_page-eq now txs =
      process-All now txs (hashes_needing_preload txs)
        (needed txs (hashes_needing_preload txs) (λ h e. e))
