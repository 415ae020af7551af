-- ===== src/Addresses/Response.antt =====
-- `processAddressTransactionResponse`: what one transaction is to an address. The result is the
-- object that is handed to `serializeDates`. A coin's `amount` and `denom` are strings, as
-- protobuf's JSON encoding has them; another kind counts as missing here. A denomination is no
-- integer, so `Object.entries` lists the groups in the order in which they were made.
pub mod Directions
pub mod Totals
pub mod Laws
use Prim.Native.String.{String}
use safrochain_indexer.Prelude.{
  ℕ, Option, none, some, Bool, true, false, not, ◌&&◌, List, [], ◌∷◌, ◌++◌, map, keep, length, ltb,
  str_eq, if◌then◌else◌, ◌>>=◌,
}
use safrochain_indexer.Prelude.Sets.{includes, unique}
use safrochain_indexer.Json.Value.{Value, str, arr, obj, Items, nil, cons, get, truthy, or_else}
use safrochain_indexer.Json.Text.{codes, includes_codes}
use safrochain_indexer.Amounts.{Coin, BigInts}
use safrochain_indexer.Blocks.Fees.{add_fee}
use safrochain_indexer.Entities.{Transaction, Message}
use safrochain_indexer.Transactions.Response.{
  MessageView, Gas, text_of, collect_addresses, modules_of, block_hash_of, timestamp_of,
}
use safrochain_indexer.Addresses.Messages.{address_views, address_total_fee}
use mathlib.Core.Option

pub data Direction : Type 0 where
  sent received both : Direction

abbrev pub or_text : Option String → String → String
or_text none s = s
or_text (some t) s = t

abbrev pub no_coin : Coin
no_coin = record { denom = ""; amount = "0" }

-- `amount.amount || "0"` and `amount.denom || ""`
unfoldable pub coin_of : Value → Coin
coin_of v = record {
  denom = or_text (text_of (get "denom" v)) "";
  amount = or_text (text_of (get "amount" v)) "0";
}

-- `v === address`
abbrev pub equals_text : Value → String → Bool
equals_text (str s) a = str_eq s a
equals_text v a = false

-- `message.type.includes(part)`
unfoldable pub in_type : String → MessageView → Bool
unfolding includes_codes
in_type part m = includes_codes (codes m.type_name) (codes part)

unfoldable pub bank_direction : Value → String → Option Direction
bank_direction value address =
    if equals_text (get "from_address" value) address
    then some sent
    else if equals_text (get "to_address" value) address
    then some received
    else none

-- The first coin of an array, if there is one.
unfoldable pub bank_coin : Value → Coin
unfolding coin_of
bank_coin value = elim (get "amount" value) [
  | arr (cons c cs) ↦ if truthy c then coin_of c else no_coin
  | v ↦ no_coin
]

-- The direction that a message has for an address, none for undefined: what the bank's branch sets,
-- and the staking's branch after it.
unfoldable pub message_direction : String → MessageView → Option Direction
unfolding in_type bank_direction
message_direction address m =
    let by_bank = if in_type "bank" m then bank_direction m.value address else none in
    if truthy m.value
    then (if in_type "staking" m && equals_text (get "delegator_address" m.value) address
        then some sent
        else by_bank)
    else none

unfoldable pub message_coin : MessageView → Coin
unfolding in_type bank_coin coin_of
message_coin m =
    let by_bank = if in_type "bank" m then bank_coin m.value else no_coin in
    let amount = get "amount" m.value in
    if truthy m.value
    then (if in_type "staking" m && truthy amount then coin_of amount else by_bank)
    else no_coin

pub record AddressMessage : Type 0 where
  pub type_name : String
  pub value : Value
  pub index : ℕ
  pub direction : Option Direction
  pub coin : Coin
  pub involved_addresses : List String

unfoldable pub address_message : String → MessageView → AddressMessage
unfolding message_direction message_coin
address_message address m = record {
  type_name = m.type_name;
  value = m.value;
  index = m.index;
  direction = message_direction address m;
  coin = message_coin m;
  involved_addresses = m.involved_addresses;
}

abbrev pub is_sent : AddressMessage → Bool
is_sent m = elim m.direction [ some sent ↦ true | _ ↦ false ]

abbrev pub is_received : AddressMessage → Bool
is_received m = elim m.direction [ some received ↦ true | _ ↦ false ]

-- `sentMessages` and `receivedMessages`, and the direction made of their lengths.
unfoldable pub overall_direction : List AddressMessage → Direction
overall_direction ms =
    let any_sent = ltb 0 (length (keep is_sent ms)) in
    let any_received = ltb 0 (length (keep is_received ms)) in
    if any_sent && any_received
    then both
    else if any_sent
    then sent
    else if any_received
    then received
    else both

-- `m.amount && m.amount !== "0"`
abbrev pub counts : AddressMessage → Bool
counts m = not (str_eq m.coin.amount "") && not (str_eq m.coin.amount "0")

abbrev pub coins_of : List AddressMessage → List Coin
coins_of ms = map (λ m. m.coin) (keep counts ms)

-- `if (!acc[denom]) acc[denom] = "0"`
unfoldable pub with_zero : List Coin → String → List Coin
unfolding includes
with_zero acc denom =
    if includes (map (λ c. c.denom) acc) denom
    then acc
    else acc ++ record { denom = denom; amount = "0" } ∷ []

-- `Object.entries(groupedAmounts)[0]`, or the initial values.
abbrev pub primary : List Coin → Coin
primary [] = no_coin
primary (c ∷ cs) = c

module _ (n : BigInts) where
  -- The body of `amounts.reduce`.
  unfoldable pub group_amount : List Coin → Coin → Option (List Coin)
  unfolding with_zero add_fee
  group_amount acc c = add_fee n (with_zero acc c.denom) c

  unfoldable pub group_amounts : List Coin → List Coin → Option (List Coin)
  unfolding group_amount
  group_amounts acc [] = some acc
  group_amounts acc (c ∷ cs) = group_amount acc c >>= λ acc'. group_amounts acc' cs

  -- `totalAmount` and `primaryDenom`; none if an amount is no number.
  unfoldable pub total_amount : List Coin → Option Coin
  unfolding group_amounts
  total_amount coins = Option.map primary (group_amounts [] coins)

-- `AddressTransactionResponseDto`, without the quotient `efficiency`.
pub record AddressResponse : Type 0 where
  pub hash : String
  pub height : ℕ
  pub block_hash : String
  pub timestamp : ℕ
  pub success : Bool
  pub fee : List Value
  pub gas : Gas
  pub memo : Option String
  pub messages : List AddressMessage
  pub logs : Value
  pub involved_addresses : List String
  pub involved_addresses_count : ℕ
  pub signer_infos : Value
  pub direction : Direction
  pub total : Coin
  pub message_count : ℕ
  pub message_types : List String
  pub categories : List String

-- `filters.include_messages` and `filters.include_logs`
pub record Includes : Type 0 where
  pub include_messages : Bool
  pub include_logs : Bool

-- The response for a transaction whose table messages are at hand; none if the parser or `BigInt`
-- throws.
unfoldable pub address_response :
    BigInts → ℕ → Includes → String → Transaction → List Message → Option AddressResponse
unfolding address_message overall_direction total_amount address_total_fee address_views
address_response n now includes address tx db_messages =
    let messages = address_views tx db_messages in
    let processed = map (address_message address) messages in
    let addresses = collect_addresses [] messages in
    modules_of messages >>= λ modules. total_amount n (coins_of processed) >>= λ total.
    some (record {
      hash = tx.hash;
      height = tx.height;
      block_hash = block_hash_of tx.block;
      timestamp = timestamp_of now tx.block;
      success = tx.success;
      fee = address_total_fee tx.fee;
      gas = record { wanted = tx.gas_wanted; used = tx.gas_used; gas_limit = tx.gas_wanted };
      memo = tx.memo;
      messages = if includes.include_messages then processed else [];
      logs = if includes.include_logs then or_else tx.logs (arr nil) else arr nil;
      involved_addresses = addresses;
      involved_addresses_count = length addresses;
      signer_infos = tx.signer_infos;
      direction = overall_direction processed;
      total = total;
      message_count = length messages;
      message_types = unique (map (λ m. m.type_name) messages);
      categories = unique modules;
    })
