-- ===== src/Eventstoredb/Client.antt =====
-- The EventStoreDB client (github.com/EventStore/EventStore-Client-Go) as internal/pkg/eventstroredb
-- uses it. The client is not part of the repository: it is a parameter, over a server state `S`.
use go_ecommerce_microservic.Common.{
  ℕ, suc, length, Text, text, List, [], ◌∷◌, ◌++◌, ◌≢◌, Option, none, some, Action, ok, err, ◌≡◌,
  take, drop,
}
use go_ecommerce_microservic.EventSourcing.Error.{
  ClientError, stream_not_found, end_of_file, wrong_expected_stream_revision,
}

pub data ContentType : Type 0 where
  json_content_type binary_content_type : ContentType

pub record EventData : Type 0 where
  pub event_id : ℕ
  pub event_type : Text
  pub content : List ℕ
  pub metadata : List ℕ
  pub content_type : ContentType

pub data ExpectedRevision : Type 0 where
  no_stream any stream_exists : ExpectedRevision
  stream_revision : ℕ → ExpectedRevision

pub data StreamPosition : Type 0 where
  start end : StreamPosition
  revision : ℕ → StreamPosition

pub data Direction : Type 0 where
  forwards backwards : Direction

pub record RecordedEvent : Type 0 where
  pub event_id : ℕ
  pub event_type : Text
  pub content_type : Text
  pub stream_id : Text
  pub event_number : ℕ
  pub commit_position : ℕ
  pub content : List ℕ
  pub user_metadata : List ℕ

-- `original_event` is what the client's `OriginalEvent()` gives: the link, or else the event.
pub record ResolvedEvent : Type 0 where
  pub event : RecordedEvent
  pub original_event : RecordedEvent

-- An opened read: the events that `Recv` gives, in turn, and the error that it ends with, which
-- comes with a nil event.
pub record ReadStream : Type 0 where
  pub events : List ResolvedEvent
  pub last : ClientError

pub record WriteResult : Type 0 where
  pub commit_position : ℕ
  pub next_expected_version : ℕ

pub record StreamMetadata : Type 0 where
  pub max_count : Option ℕ
  pub truncate_before : Option ℕ

pub record Client (S : Type 0) : Type 0 where
  -- the content type of the zero value of `esdb.EventData`
  pub zero_content_type : ContentType
  pub read_stream : Text → Direction → StreamPosition → ℕ → Action S ClientError ReadStream
  pub append_to_stream : Text → ExpectedRevision → List EventData → Action S ClientError WriteResult
  pub set_stream_metadata :
      Text → ExpectedRevision → StreamMetadata → Action S ClientError WriteResult
  pub delete_stream : Text → ExpectedRevision → Action S ClientError (Unit {0})

-- What the documentation says of reading a stream forwards: a read changes nothing, gives at most
-- the events asked for, in order, from the position on, and then ends; a read of a stream that is
-- not there fails. `events_of` is the server's content.
pub record ReadsForwards {S : Type 0} (c : Client S)
    (events_of : S → Text → Option (List ResolvedEvent)) : Type 0 where
  pub from_start :
      (s : S) (name : Text) (n : ℕ) (es : List ResolvedEvent)
      → events_of s name ≡ some es
      → c.read_stream name forwards start n s
        ≡ (ok (record { events = take n es; last = end_of_file }), s)
  pub from_revision :
      (s : S) (name : Text) (r n : ℕ) (es : List ResolvedEvent)
      → events_of s name ≡ some es
      → c.read_stream name forwards (revision r) n s
        ≡ (ok (record { events = take n (drop r es); last = end_of_file }), s)
  pub of_missing :
      (s : S) (name : Text) (p : StreamPosition) (n : ℕ)
      → events_of s name ≡ none
      → c.read_stream name forwards p n s ≡ (err stream_not_found, s)

-- What a stream holds of an event that was sent.
pub record IsRecorded (d : EventData) (r : ResolvedEvent) : Type 0 where
  pub same_type : r.event.event_type ≡ d.event_type
  pub same_content : r.event.content ≡ d.content
  pub same_metadata : r.event.user_metadata ≡ d.metadata
  pub as_json : d.content_type ≡ json_content_type → r.event.content_type ≡ text "application/json"

abbrev pub AreRecorded : List EventData → List ResolvedEvent → Type 0
AreRecorded [] [] = Unit
AreRecorded (d ∷ ds) (r ∷ rs) = IsRecorded d r × AreRecorded ds rs
AreRecorded [] (r ∷ rs) = ⊥
AreRecorded (d ∷ ds) [] = ⊥

-- What the documentation says of appending with an expected revision: events go behind those that
-- are there if the stream is in the expected state, and else nothing changes. Revisions count from 0.
pub record Appends {S : Type 0} (c : Client S) (events_of : S → Text → Option (List ResolvedEvent))
    : Type 0 where
  pub to_no_stream :
      (s : S) (name : Text) (sent : List EventData)
      → events_of s name ≡ none
      → (result : WriteResult) × (s' : S) × (es : List ResolvedEvent) × (c.append_to_stream name
            no_stream sent s
          ≡ (ok result, s'))
        × (events_of s' name ≡ some es)
        × AreRecorded sent es
  pub no_stream_refused :
      (s : S) (name : Text) (sent : List EventData) (old : List ResolvedEvent)
      → events_of s name ≡ some old
      → c.append_to_stream name no_stream sent s ≡ (err wrong_expected_stream_revision, s)
  pub at_revision :
      (s : S) (name : Text) (sent : List EventData) (old : List ResolvedEvent) (r : ℕ)
      → events_of s name ≡ some old
      → length old ≡ suc r
      → (result : WriteResult) × (s' : S) × (es : List ResolvedEvent) × (c.append_to_stream name
            (stream_revision r)
            sent
            s
          ≡ (ok result, s'))
        × (events_of s' name ≡ some (old ++ es))
        × AreRecorded sent es
  pub revision_refused :
      (s : S) (name : Text) (sent : List EventData) (old : List ResolvedEvent) (r : ℕ)
      → events_of s name ≡ some old
      → length old ≢ suc r
      → c.append_to_stream name (stream_revision r) sent s ≡ (err wrong_expected_stream_revision, s)
