-- ===== src/Sync/Response.antt =====
-- The download half of a synchronisation: `_build_response` of
-- apps/server/src/balloon_crumbs_server/service.py.
use balloon_crumbs.Prelude.{
  ℕ, ◌+◌, String, Bool, ◌&&◌, List, [], ◌∷◌, ◌++◌, ltb, if◌then◌else◌, length, take, keep,
}
use balloon_crumbs.Result.{relay_service_error, value_error, Result, ok, ◌>>=◌, or_raise}
use balloon_crumbs.Json.{
  Value, natural, text, array, object, Items, nil, cons, Fields, end, field, as_object,
}
use balloon_crumbs.Models.{StoredEvent, is_live}
use balloon_crumbs.Prelude.Order.{order_by}
use balloon_crumbs.Text.{utf8}
use balloon_crumbs.Env.{Env}
use balloon_crumbs.Crypto.{decrypt_json, encode_cursor}
use balloon_crumbs.Sync.Store.{event_aad, event_of}

abbrev pub text_items : List String → Items
text_items [] = nil
text_items (s ∷ rest) = cons (text s) (text_items rest)

abbrev pub object_items : List Fields → Items
object_items [] = nil
object_items (f ∷ rest) = cons (object f) (object_items rest)

pub record SyncResponse : Type 0 where
  pub cursor : String
  pub accepted_event_ids : List String
  pub events : List Fields

-- `SyncResponse(...).model_dump()`
unfoldable pub model_dump : SyncResponse → Value
model_dump r = object (
    field "protocolVersion" (natural 1) (
      field "cursor" (text r.cursor) (
        field "acceptedEventIds" (array (text_items r.accepted_event_ids))
          (field "events" (array (object_items r.events)) end))))

-- the rows of `WHERE ride_id = … AND sequence > … AND expires_at > now ORDER BY sequence`
abbrev pub is_pending : String → ℕ → ℕ → StoredEvent → Bool
is_pending ride_id cursor now e =
    event_of ride_id e && ltb cursor e.sequence && is_live now e.expires_at

unfoldable pub pending : String → ℕ → ℕ → List StoredEvent → List StoredEvent
pending ride_id cursor now events =
    keep (is_pending ride_id cursor now) (order_by (λ e. e.sequence) events)

module _ (env : Env) (ride_id : String) (accepted_ids : List String) where
  unfoldable pub read_event : StoredEvent → Result Fields
  read_event row = do
    value ← decrypt_json env row.body_ciphertext (event_aad ride_id row.event_id)
    or_raise (as_object value) (relay_service_error 500 "Stored event is invalid")

  -- the size of the response that ends with this row
  unfoldable pub candidate_size : StoredEvent → List Fields → Result ℕ
  candidate_size row events = do
    dumped ←
        or_raise
          (env.dumps_ascii (
            model_dump (record {
              cursor = encode_cursor env ride_id row.sequence;
              accepted_event_ids = accepted_ids;
              events = events;
            })))
          value_error
    ok (length (utf8 dumped))

  -- the loop over the rows, with `result_events` and `last_sequence`
  unfoldable pub fill : List StoredEvent → List Fields → ℕ → Result (List Fields × ℕ)
  unfolding read_event candidate_size
  fill [] result_events last_sequence = ok (result_events, last_sequence)
  fill (row ∷ rows) result_events last_sequence = do
    value ← read_event row
    size ← candidate_size row (result_events ++ value ∷ [])
    let rest = fill rows (result_events ++ value ∷ []) row.sequence
    if ltb env.settings.maximum_response_bytes size then ok (result_events, last_sequence) else rest

  unfoldable pub build_response : ℕ → ℕ → List StoredEvent → Result SyncResponse
  unfolding fill
  build_response cursor_sequence now events = do
    let rows =
        take (env.settings.maximum_download_events + 1) (pending ride_id cursor_sequence now events)
    page ← fill (take env.settings.maximum_download_events rows) [] cursor_sequence
    ok (record {
      cursor = encode_cursor env ride_id page.1;
      accepted_event_ids = accepted_ids;
      events = page.0;
    })
