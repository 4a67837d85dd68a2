-- ===== src/Eventstoredb/Tests/Memory.antt =====
-- An event store in memory that meets the documented laws of the client
-- (github.com/EventStore/EventStore-Client-Go). It stands for no code of the repository.
use mathlib.Core.List.{reverse}
use go_ecommerce_microservic.Common.{
  ℕ, suc, ◌≡◌, refl, ap, Bool, true, false, Text, text, text_eq, text_eq_refl, List, [], ◌∷◌, ◌++◌,
  Option, none, some, Outcome, ok, err, arith, ◌==◌, if◌then◌else◌, length, take, drop,
}
use go_ecommerce_microservic.EventSourcing.Error.{
  ClientError, stream_not_found, wrong_expected_stream_revision, end_of_file,
}
use go_ecommerce_microservic.Eventstoredb.Client.{
  Client, ContentType, json_content_type, binary_content_type, EventData, ExpectedRevision,
  StreamPosition, Direction, forwards, backwards, RecordedEvent, ResolvedEvent, ReadStream,
  WriteResult, ReadsForwards, AreRecorded, Appends,
}

abbrev pub Server : Type 0
Server = List (Text × List ResolvedEvent)

unfoldable pub find : Server → Text → Option (List ResolvedEvent)
unfolding text_eq
find [] name = none
find ((n, es) ∷ rest) name = if text_eq n name then some es else find rest name

-- The newest entry of a name counts.
abbrev pub put : Text → List ResolvedEvent → Server → Server
put name es s = (name, es) ∷ s

abbrev type_text : ContentType → Text
type_text json_content_type = text "application/json"
type_text binary_content_type = text "application/octet-stream"

abbrev pub recorded : Text → ℕ → EventData → RecordedEvent
recorded name number d = record {
  event_id = d.event_id;
  event_type = d.event_type;
  content_type = type_text d.content_type;
  stream_id = name;
  event_number = number;
  commit_position = number;
  content = d.content;
  user_metadata = d.metadata;
}

abbrev pub record_all : Text → ℕ → List EventData → List ResolvedEvent
record_all name number [] = []
record_all name number (d ∷ ds) =
    record { event = recorded name number d; original_event = recorded name number d }
    ∷ record_all name (suc number) ds

abbrev position_from : Direction → StreamPosition → List ResolvedEvent → List ResolvedEvent
position_from forwards StreamPosition.start es = es
position_from forwards (StreamPosition.revision r) es = drop r es
position_from forwards StreamPosition.end es = []
position_from backwards StreamPosition.start es = reverse (take 1 es)
position_from backwards (StreamPosition.revision r) es = reverse (take (suc r) es)
position_from backwards StreamPosition.end es = reverse es

abbrev read_found :
    Option (List ResolvedEvent) → Direction → StreamPosition → ℕ → Outcome ClientError ReadStream
read_found none direction p n = err stream_not_found
read_found (some es) direction p n =
    ok (record { events = take n (position_from direction p es); last = end_of_file })

abbrev is_expected : ExpectedRevision → Option (List ResolvedEvent) → Bool
is_expected ExpectedRevision.any found = true
is_expected ExpectedRevision.no_stream none = true
is_expected ExpectedRevision.stream_exists (some es) = true
is_expected (ExpectedRevision.stream_revision r) (some es) = length es == suc r
is_expected _ _ = false

abbrev content_of : Option (List ResolvedEvent) → List ResolvedEvent
content_of none = []
content_of (some es) = es

abbrev written : List ResolvedEvent → WriteResult
written es = record { commit_position = length es; next_expected_version = length es }

abbrev append_found :
    Option (List ResolvedEvent)
    → Text
    → ExpectedRevision
    → List EventData
    → Server
    → Outcome ClientError WriteResult × Server
append_found found name expected ds s =
    let es = content_of found ++ record_all name (length (content_of found)) ds in
    if is_expected expected found
    then (ok (written es), put name es s)
    else (err wrong_expected_stream_revision, s)

abbrev pub memory : Client Server
memory = record {
  zero_content_type = binary_content_type;
  read_stream = λ name direction p n s. (read_found (find s name) direction p n, s);
  append_to_stream = λ name expected ds s. append_found (find s name) name expected ds s;
  set_stream_metadata =
      λ name expected m s. (ok (record { commit_position = 0; next_expected_version = 0 }), s);
  delete_stream = λ name expected s. (ok tt, s);
}

find-put :
    (name : Text) (es : List ResolvedEvent) (s : Server) → find (put name es s) name ≡ some es
unfolding find
find-put name es s = rw (text_eq_refl name)

AreRecorded-record_all :
    (name : Text) (number : ℕ) (ds : List EventData) → AreRecorded ds (record_all name number ds)
AreRecorded-record_all name number [] = tt
AreRecorded-record_all name number (d ∷ ds) = (
  record {
    same_type = refl;
    same_content = refl;
    same_metadata = refl;
    as_json = λ e. ap type_text e;
  },
  AreRecorded-record_all name (suc number) ds,
)

pub memory-ReadsForwards : ReadsForwards memory find
memory-ReadsForwards = record {
  from_start = λ s name n es h. rw h;
  from_revision = λ s name r n es h. rw h;
  of_missing = λ s name p n h. rw h;
}

pub memory-Appends : Appends memory find
memory-Appends = record {
  to_no_stream = λ s name ds h. (
    written (record_all name 0 ds),
    put name (record_all name 0 ds) s,
    record_all name 0 ds,
    rw h,
    find-put name _ s,
    AreRecorded-record_all name 0 ds,
  );
  no_stream_refused = λ s name ds old h. rw h;
  at_revision = λ s name ds old r h n. (
    written (old ++ record_all name (length old) ds),
    put name (old ++ record_all name (length old) ds) s,
    record_all name (length old) ds,
    rw h (rw n (ground arith)),
    find-put name _ s,
    AreRecorded-record_all name (length old) ds,
  );
  revision_refused = λ s name ds old r h n. rw h (ground arith);
}
