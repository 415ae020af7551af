-- ===== src/Transactions/Response/Laws.antt =====
-- The summary fields of a transaction response against its messages.
use safrochain_indexer.Prelude.{
  ℕ, String, some, Bool, false, ◌||◌, List, [], ◌∷◌, map, length, ◌≡◌, refl, ap, sym, ◌∙◌, arith,
  subst, some_inj, bind-eq-some,
}
use safrochain_indexer.Prelude.Sets.{
  includes, add_all, Distinct, includes-add_all, Distinct-add_all, includes-unique, Distinct-unique,
}
use safrochain_indexer.Messages.Parser.{parse_message}
use safrochain_indexer.Messages.Parser.Laws.{module_of, parse_message-Describes}
use safrochain_indexer.Entities.{Transaction, Message}
use safrochain_indexer.Transactions.Response.{
  MessageView, message_views, collect_addresses, modules_of, TransactionResponse,
  transaction_response,
}

-- Whether some message of a list involves an address.
unfoldable pub involves : List MessageView → String → Bool
involves [] a = false
involves (m ∷ ms) a = includes m.involved_addresses a || involves ms a

or_assoc : (a b c : Bool) → ((a || b) || c) ≡ (a || (b || c))
or_assoc a b c = ground arith

pub includes-collect_addresses :
    (set : List String) (ms : List MessageView) (a : String)
    → includes (collect_addresses set ms) a ≡ (includes set a || involves ms a)
unfolding collect_addresses involves
includes-collect_addresses set [] a = ground arith
includes-collect_addresses set (m ∷ ms) a =
    includes-collect_addresses (add_all set m.involved_addresses) ms a
    ∙ ap (λ b. b || involves ms a) (includes-add_all set m.involved_addresses a)
    ∙ or_assoc (includes set a) (includes m.involved_addresses a) (involves ms a)

Distinct-collect_addresses :
    (set : List String) (ms : List MessageView) → Distinct set → Distinct (collect_addresses set ms)
unfolding collect_addresses
Distinct-collect_addresses set [] d = d
Distinct-collect_addresses set (m ∷ ms) d =
    Distinct-collect_addresses (add_all set m.involved_addresses) ms
      (Distinct-add_all set m.involved_addresses d)

modules_of-eq-some :
    (ms : List MessageView) (modules : List String)
    → modules_of ms ≡ some modules
    → modules ≡ map (λ m. module_of m.type_name) ms
unfolding modules_of
modules_of-eq-some [] modules e = sym (some_inj e)
modules_of-eq-some (m ∷ ms) modules e =
    let (p, parsed, e') =
      bind-eq-some (parse_message m.type_name m.value m.involved_addresses) _ e in
    let (rest, found, made) = bind-eq-some (modules_of ms) _ e' in
    let d = parse_message-Describes m.type_name m.value m.involved_addresses p parsed in
    sym (some_inj made)
    ∙ ap (λ n. n ∷ rest) d.module_is
    ∙ ap (λ r. module_of m.type_name ∷ r) (modules_of-eq-some ms rest found)

-- The summary fields of a response say of its messages exactly what they claim to.
pub record Summarises (r : TransactionResponse) : Type 0 where
  pub counted : r.message_count ≡ length r.messages
  pub addresses_counted : r.involved_addresses_count ≡ length r.involved_addresses
  pub addresses_distinct : Distinct r.involved_addresses
  pub addresses_are : (a : String) → includes r.involved_addresses a ≡ involves r.messages a
  pub types_distinct : Distinct r.message_types
  pub types_are :
      (t : String) → includes r.message_types t ≡ includes (map (λ m. m.type_name) r.messages) t
  pub categories_distinct : Distinct r.categories
  pub categories_are :
      (c : String)
      → includes r.categories c ≡ includes (map (λ m. module_of m.type_name) r.messages) c

-- Every response lists each involved address, message type and module once, just those that occur
-- in its messages, and counts its messages and addresses right.
pub transaction_response-Summarises :
    (now : ℕ) (tx : Transaction) (db_messages : List Message) (r : TransactionResponse)
    → transaction_response now tx db_messages ≡ some r
    → Summarises r
unfolding transaction_response
transaction_response-Summarises now tx db_messages r e =
    let ms = message_views tx db_messages in
    let (modules, found, made) = bind-eq-some (modules_of ms) _ e in
    subst Summarises (some_inj made) (record {
      counted = refl;
      addresses_counted = refl;
      addresses_distinct = Distinct-collect_addresses [] ms tt;
      addresses_are = λ a. unfold includes in includes-collect_addresses [] ms a;
      types_distinct = Distinct-unique _;
      types_are = λ t. includes-unique _ t;
      categories_distinct = Distinct-unique modules;
      categories_are = λ c.
          includes-unique modules c ∙ ap (λ l. includes l c) (modules_of-eq-some ms modules found);
    })
