-- ===== src/Addresses/Response/Directions.antt =====
-- The direction of a transaction for an address, against its messages.
use Prim.Native.String.{String}
use safrochain_indexer.Prelude.{
  ℕ, Option, none, some, Bool, true, false, ◌&&◌, ◌||◌, List, [], ◌∷◌, keep, length, ltb, str_eq,
  if◌then◌else◌, ◌≡◌, ◌↔◌, refl, sym, subst, arith, Bool-cases, inl, inr, eq_iff,
}
use safrochain_indexer.Prelude.Sets.{includes}
use safrochain_indexer.Json.Value.{Value, str, obj, Fields, end, field, get, get_field, truthy}
use safrochain_indexer.Json.Addresses.{is_address_field}
use safrochain_indexer.Json.Addresses.Laws.{
  stands, stands_field, stands_fields, extract_addresses_from_message_iff,
}
use safrochain_indexer.Transactions.Response.{MessageView, json_message}
use safrochain_indexer.Addresses.Messages.{address_json_message}
use safrochain_indexer.Addresses.Messages.Laws.{json_message_same}
use safrochain_indexer.Addresses.Response.{
  Direction, sent, received, both, equals_text, in_type, bank_direction, message_direction,
  AddressMessage, is_sent, is_received, overall_direction,
}

-- Whether some message of a list has a property.
unfoldable pub any : (AddressMessage → Bool) → List AddressMessage → Bool
any p [] = false
any p (m ∷ ms) = p m || any p ms

or_left : (a b : Bool) → a ≡ true → (a || b) ≡ true
or_left a b h = ground arith

or_right : (a b : Bool) → b ≡ true → (a || b) ≡ true
or_right a b h = ground arith

any-keep :
    (p : AddressMessage → Bool) (ms : List AddressMessage) → ltb 0 (length (keep p ms)) ≡ any p ms
unfolding any
any-keep p [] = refl
any-keep p (m ∷ ms) = ground (arith, any-keep p ms)

abbrev IsOverall : Direction → Bool → Bool → Type 0
IsOverall d any_sent any_received =
    ((d ≡ sent) ↔ ((any_sent ≡ true) × (any_received ≡ false)))
    × ((d ≡ received) ↔ ((any_sent ≡ false) × (any_received ≡ true)))
    × ((d ≡ both) ↔ (any_sent ≡ any_received))

flags_direction :
    (s r : Bool)
    → IsOverall (if s && r then both else if s then sent else if r then received else both) s r
flags_direction true true = (
  (λ e. absurd (cc), λ (e, f). absurd (cc)),
  (λ e. absurd (cc), λ (e, f). absurd (cc)),
  (λ e. refl, λ e. refl),
)
flags_direction true false = (
  (λ e. (refl, refl), λ e. refl),
  (λ e. absurd (cc), λ (e, f). absurd (cc)),
  (λ e. absurd (cc), λ e. absurd (cc)),
)
flags_direction false true = (
  (λ e. absurd (cc), λ (e, f). absurd (cc)),
  (λ e. (refl, refl), λ e. refl),
  (λ e. absurd (cc), λ e. absurd (cc)),
)
flags_direction false false = (
  (λ e. absurd (cc), λ (e, f). absurd (cc)),
  (λ e. absurd (cc), λ (e, f). absurd (cc)),
  (λ e. refl, λ e. refl),
)

-- A transaction's direction is "sent" exactly when a message is sent and none is received,
-- "received" exactly when one is received and none is sent, and "both" exactly when there are
-- messages of either kind or of neither.
pub overall_direction_iff :
    (ms : List AddressMessage)
    → ((overall_direction ms ≡ sent) ↔ ((any is_sent ms ≡ true) × (any is_received ms ≡ false)))
      × ((overall_direction ms ≡ received)
          ↔ ((any is_sent ms ≡ false) × (any is_received ms ≡ true)))
      × ((overall_direction ms ≡ both) ↔ (any is_sent ms ≡ any is_received ms))
unfolding overall_direction
overall_direction_iff ms =
    rw (any-keep is_sent ms, any-keep is_received ms)
      (flags_direction (any is_sent ms) (any is_received ms))

-- What a message must be to count as sent, or as received, by an address.
abbrev pub IsSentBy : String → MessageView → Type 0
IsSentBy a m =
    ((in_type "staking" m && equals_text (get "delegator_address" m.value) a)
      || (in_type "bank" m && equals_text (get "from_address" m.value) a))
    ≡ true

abbrev pub IsReceivedBy : String → MessageView → Type 0
IsReceivedBy a m =
    ((in_type "staking" m && equals_text (get "delegator_address" m.value) a) ≡ false)
    × (in_type "bank" m ≡ true)
    × (equals_text (get "from_address" m.value) a ≡ false)
    × (equals_text (get "to_address" m.value) a ≡ true)

-- A value that is not truthy has no properties.
get_falsy :
    (key : String) (v : Value) (a : String) → truthy v ≡ false → equals_text (get key v) a ≡ false
unfolding get
get_falsy key (obj fs) a e = absurd (cc)
get_falsy key v a e = refl

abbrev flags_message : Bool → Bool → Bool → Bool → Bool → Bool → Option Direction
flags_message v s d b f t =
    if v
    then (if s && d
        then some sent
        else if b
        then (if f then some sent else if t then some received else none)
        else none)
    else none

flags_message_sent :
    (v s d b f t : Bool)
    → (v ≡ false → (d ≡ false) × (f ≡ false))
    → (flags_message v s d b f t ≡ some sent) ↔ (((s && d) || (b && f)) ≡ true)
flags_message_sent v s d b f t h = ground arith

flags_message_some :
    (v s d b f t : Bool) (dir : Direction) {P : Type 0}
    → flags_message v s d b f t ≡ some dir
    → (d ≡ true → P)
    → (f ≡ true → P)
    → (t ≡ true → P)
    → P
flags_message_some false s d b f t dir e g h k = absurd (cc)
flags_message_some true true true b f t dir e g h k = g refl
flags_message_some true s false true true t dir e g h k = h refl
flags_message_some true s false true false true dir e g h k = k refl
flags_message_some true s false true false false dir e g h k = absurd (ground arith)
flags_message_some true s false false f t dir e g h k = absurd (ground arith)
flags_message_some true false true true true t dir e g h k = h refl
flags_message_some true false true true false true dir e g h k = k refl
flags_message_some true false true true false false dir e g h k = absurd (cc)
flags_message_some true false true false f t dir e g h k = absurd (cc)

flags_message_received :
    (v s d b f t : Bool)
    → (v ≡ false → t ≡ false)
    → (flags_message v s d b f t ≡ some received)
      ↔ (((s && d) ≡ false) × (b ≡ true) × (f ≡ false) × (t ≡ true))
flags_message_received v s d b f t h = ground arith

-- A message is sent by an address exactly when it is a staking message whose delegator is the
-- address or a bank message whose sender is; it is received exactly when it is a bank message to
-- the address and not sent by it.
pub message_direction_iff :
    (a : String) (m : MessageView)
    → ((message_direction a m ≡ some sent) ↔ IsSentBy a m)
      × ((message_direction a m ≡ some received) ↔ IsReceivedBy a m)
unfolding message_direction bank_direction
message_direction_iff a m = (
  flags_message_sent (truthy m.value) (in_type "staking" m)
      (equals_text (get "delegator_address" m.value) a) (in_type "bank" m)
      (equals_text (get "from_address" m.value) a) (equals_text (get "to_address" m.value) a)
      (λ e. (get_falsy "delegator_address" m.value a e, get_falsy "from_address" m.value a e)),
  flags_message_received (truthy m.value) (in_type "staking" m)
      (equals_text (get "delegator_address" m.value) a) (in_type "bank" m)
      (equals_text (get "from_address" m.value) a) (equals_text (get "to_address" m.value) a)
      (λ e. get_falsy "to_address" m.value a e),
)

stands_field_of :
    (key : String) (v : Value) (a : String)
    → is_address_field key ≡ true
    → equals_text v a ≡ true
    → stands_field a key v ≡ true
unfolding stands
stands_field_of key (str s) a named e = rw (named, e) refl
stands_field_of key v a named e = absurd (cc)

-- A string under a key that names an address stands in the object.
stands-get_field :
    (key : String) (fs : Fields) (a : String)
    → is_address_field key ≡ true
    → equals_text (get_field key fs) a ≡ true
    → stands a (obj fs) ≡ true
unfolding stands get_field
stands-get_field key end a named e = absurd (cc)
stands-get_field key (field k v fs) a named e = elim (Bool-cases (str_eq k key)) [
  | inl same ↦
      let here : stands_field a k v ≡ true =
        stands_field_of k v a
          (subst (λ j. is_address_field j ≡ true) (sym ((eq_iff k key).0 same)) named)
          (rw (same, get_field) at e) in
      or_left (stands_field a k v) (stands_fields a fs) here
  | inr other ↦
      or_right (stands_field a k v) (stands_fields a fs)
        (stands-get_field key fs a named (rw (other, get_field) at e))
]

named_fields :
    (is_address_field "delegator_address" ≡ true)
    × (is_address_field "from_address" ≡ true)
    × (is_address_field "to_address" ≡ true)
unfolding is_address_field includes
named_fields = (refl, refl, refl)

stands-get :
    (key : String) (v : Value) (a : String)
    → is_address_field key ≡ true
    → equals_text (get key v) a ≡ true
    → stands a v ≡ true
unfolding get
stands-get key (obj fs) a named e = stands-get_field key fs a named e
stands-get key v a named e = absurd (cc)

message_direction-includes_json :
    (a : String) (index : ℕ) (msg : Value) (d : Direction)
    → message_direction a (json_message index msg) ≡ some d
    → includes (json_message index msg).involved_addresses a ≡ true
unfolding json_message message_direction bank_direction
message_direction-includes_json a index msg d e =
    let (delegator, from, to) = named_fields in
    (extract_addresses_from_message_iff msg a).1 (
      flags_message_some (truthy msg) _ _ _ _ _ d e (stands-get "delegator_address" msg a delegator)
        (stands-get "from_address" msg a from) (stands-get "to_address" msg a to))

-- A message of the JSON column that is sent or received by an address lists the address among
-- those it involves.
pub message_direction-includes :
    (a : String) (index : ℕ) (msg : Value) (d : Direction)
    → message_direction a (address_json_message index msg) ≡ some d
    → includes (address_json_message index msg).involved_addresses a ≡ true
message_direction-includes a index msg d e =
    let same = json_message_same index msg in
    rw same (message_direction-includes_json a index msg d (rw same at e))
