-- ===== src/Messages/Registry.antt =====
-- The registry of `MessageParserService`: a `Map` from type name to what is known of the type, in
-- insertion order.
pub mod Entries
pub mod Laws
use safrochain_indexer.Prelude.{
  String, Option, none, some, Bool, true, false, List, [], ◌∷◌, keep, str_eq, if◌then◌else◌,
}
use safrochain_indexer.Messages.Types.{MessageCategory, MessageCategory-discrete, MessageTypeInfo}
use Entries.{initial_message_types}

-- `this.messageTypes.set(info.type, info)`: a key that is there keeps its place.
unfoldable pub add_message_type : MessageTypeInfo → List MessageTypeInfo → List MessageTypeInfo
add_message_type info [] = info ∷ []
add_message_type info (t ∷ types) =
    if str_eq t.type_name info.type_name then info ∷ types else t ∷ add_message_type info types

unfoldable pub add_message_types :
    List MessageTypeInfo → List MessageTypeInfo → List MessageTypeInfo
unfolding add_message_type
add_message_types types [] = types
add_message_types types (info ∷ infos) = add_message_types (add_message_type info types) infos

-- What the constructor leaves in `this.messageTypes`.
unfoldable pub message_types : List MessageTypeInfo
unfolding add_message_types
message_types = add_message_types [] initial_message_types

-- `this.messageTypes.get(type)`
unfoldable pub lookup_type : String → List MessageTypeInfo → Option MessageTypeInfo
lookup_type type_name [] = none
lookup_type type_name (t ∷ types) =
    if str_eq t.type_name type_name then some t else lookup_type type_name types

unfoldable pub get_message_type_info : String → Option MessageTypeInfo
get_message_type_info type_name = lookup_type type_name message_types

unfoldable pub get_all_message_types : List MessageTypeInfo
get_all_message_types = message_types

unfoldable pub get_message_types_by_module : String → List MessageTypeInfo
get_message_types_by_module module_name = keep (λ t. str_eq t.module_name module_name) message_types

abbrev pub same_category : MessageCategory → MessageCategory → Bool
same_category a b = elim (MessageCategory-discrete a b) [ yes e ↦ true | no n ↦ false ]

unfoldable pub get_message_types_by_category : MessageCategory → List MessageTypeInfo
get_message_types_by_category category = keep (λ t. same_category t.category category) message_types
