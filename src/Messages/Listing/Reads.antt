-- ===== src/Messages/Listing/Reads.antt =====
-- What a client that follows the cursors of the message listings reads.
use safrochain_indexer.Prelude.{
  ℕ, ◌≤◌, ◌<◌, String, Option, none, some, Bool, true, List, [], ◌++◌, map, ltb, keep, all, length,
  All, ◌≡◌, refl, ap, fun_ext, ◌∙◌, append-nil,
}
use safrochain_indexer.Paging.Params.{
  ConfigService, get_max_limit, normalize_page_pagination-IsWindow,
}
use safrochain_indexer.Paging.Query.{SortOrder, desc, Answers}
use safrochain_indexer.Paging.Cursor.{CursorPage, follow}
use safrochain_indexer.Paging.Cursor.Laws.{Serves, keep-All, All-imp}
use safrochain_indexer.Paging.Cursor.Sublists.{Sublist, has_height, All-Sublist}
use safrochain_indexer.Paging.Cursor.Liveness.{
  IsNewestFirst, IsNewestFirst-keep, Reads, follow_ends,
}
use safrochain_indexer.Paging.Cursor.Endpoint.{cursor_query-Serves}
use safrochain_indexer.Paging.Meta.{build_pagination_meta}
use safrochain_indexer.DateFilters.Calendar.{Clock}
use safrochain_indexer.DateFilters.Conditions.{apply_date_filters}
use safrochain_indexer.Messages.Listing.{
  MessageList, MessageCondition, height_lt, MessageColumn, timestamp, message_filters, page_limit,
  messages_query, Messages, list_messages, request_conditions, get_messages, message_holds,
}
use safrochain_indexer.Entities.{Message}
use safrochain_indexer.Messages.Listing.Laws.{IsWanted, message_filters_iff}

module _ (value_matches text_matches : String → Message → Bool)
    (sorted : MessageColumn → SortOrder → List Message) (get_many : Messages)
    (answers : Answers (message_holds value_matches text_matches) sorted get_many) where
  abbrev pub listed : List MessageCondition → List Message
  listed conditions =
      keep (λ m. all (λ c. message_holds value_matches text_matches c m) conditions)
        (sorted MessageColumn.height desc)

  -- A listing as a client sees it, one cursor to a request.
  abbrev pub serve_messages : List MessageCondition → ℕ → Option ℕ → CursorPage Message
  serve_messages conditions limit cursor =
      let page = list_messages get_many conditions limit cursor in
      record { rows = page.rows; next_cursor = page.meta.next_cursor }

  below_holds :
      (n : ℕ) (m : Message)
      → message_holds value_matches text_matches (height_lt n) m ≡ ltb m.height n
  unfolding message_holds
  below_holds n m = refl

  serve_messages-Serves :
      (conditions : List MessageCondition) (limit : ℕ)
      → Serves (λ m. m.height) limit (listed conditions) (serve_messages conditions limit)
  unfolding list_messages messages_query build_pagination_meta
  serve_messages-Serves conditions limit =
      cursor_query-Serves (λ m. m.height) (message_holds value_matches text_matches) sorted get_many
        answers conditions height_lt MessageColumn.height limit below_holds

  -- Each message listing, whatever its conditions, is read to its end by a client that follows the
  -- cursors, in at most one request more than it has messages.
  pub list_messages-Reads :
      (conditions : List MessageCondition) (limit fuel : ℕ)
      → IsNewestFirst (λ m. m.height) (sorted MessageColumn.height desc)
      → 1 ≤ limit
      → length (listed conditions) < fuel
      → Reads (λ m. m.height) (serve_messages conditions limit) fuel none (listed conditions)
  list_messages-Reads conditions limit fuel d h enough =
      follow_ends (λ m. m.height) limit (listed conditions) (serve_messages conditions limit)
        (serve_messages-Serves conditions limit) fuel (IsNewestFirst-keep (λ m. m.height) _ _ d) h
        enough

  -- `getMessages` as a client sees it.
  abbrev pub serve_request : Clock → ConfigService → MessageList → Option ℕ → CursorPage Message
  serve_request clock config f cursor =
      let page = get_messages get_many clock config (record f { cursor = cursor }) in
      record { rows = page.rows; next_cursor = page.meta.next_cursor }

  serve_undated :
      (clock : Clock) (config : ConfigService) (f : MessageList)
      → apply_date_filters clock f.dates ≡ []
      → serve_request clock config f ≡ serve_messages (message_filters f) (page_limit config f.page)
  unfolding get_messages message_filters request_conditions
  serve_undated clock config f undated =
      let same : message_filters f ++ map timestamp (apply_date_filters clock f.dates)
          ≡ message_filters f =
        ap (λ ds. message_filters f ++ map timestamp ds) undated ∙ append-nil (message_filters f) in
      fun_ext (λ c. ap (λ cs. serve_messages cs (page_limit config f.page) c) same)

  -- A client that follows the cursors of a request without dates comes to the end, within one
  -- request more than there are such messages. It has then read only messages that the request asks
  -- for, in the order of the table and none twice, and a message of every height at which there is one.
  pub get_messages-Reads :
      (clock : Clock) (config : ConfigService) (f : MessageList) (fuel : ℕ)
      → IsNewestFirst (λ m. m.height) (sorted MessageColumn.height desc)
      → 1 ≤ get_max_limit config
      → apply_date_filters clock f.dates ≡ []
      → length (listed (message_filters f)) < fuel
      → (got : List Message) × (follow (λ m. m.height) (serve_request clock config f) fuel none
          ≡ some got)
        × All (IsWanted value_matches text_matches f) got
        × Sublist got (listed (message_filters f))
        × ((h : ℕ)
            → has_height (λ m. m.height) h (listed (message_filters f)) ≡ true
            → has_height (λ m. m.height) h got ≡ true)
  get_messages-Reads clock config f fuel d h undated enough =
      let (got, read, sub, heights) =
        list_messages-Reads (message_filters f) (page_limit config f.page) fuel d
          (normalize_page_pagination-IsWindow f.page config h).limit_pos enough in
      (
        got,
        ap (λ s. follow (λ m. m.height) s fuel none) (serve_undated clock config f undated) ∙ read,
        All-Sublist (IsWanted value_matches text_matches f) sub (
            All-imp _ (IsWanted value_matches text_matches f) _
              (λ m e. (message_filters_iff value_matches text_matches f m).0 e)
              (keep-All _ (sorted MessageColumn.height desc))),
        sub,
        heights,
      )
