-- ===== src/Mongodb/Memory.antt =====
-- A collection in memory, for the theorems on repositories over the driver of MongoDB: the newest entry of
-- an id counts, and an entry without a document is a deletion.
use go_ecommerce_microservic.Common.{
  Text, text, text_eq, text_eq_refl, List, [], ◌∷◌, refl, Option, none, some, Outcome, ok, err,
  if◌then◌else◌,
}
use go_ecommerce_microservic.HttpErrors.Chain.{GoError, leaf}
use go_ecommerce_microservic.Mongodb.{
  bson_string, Filter, fields, FindError, no_documents, failed, end, Collection,
}
use go_ecommerce_microservic.Mongodb.Stored.{IsCollection}

abbrev pub Entries : Type 0 → Type 0
Entries D = List (Text × Option D)

module _ {D : Type 0} where
  abbrev pub entry : Entries D → Text → Option D
  entry [] k = none
  entry ((j, d) ∷ entries) k = let rest = entry entries k in if text_eq j k then d else rest

  abbrev pub inserted_in : Entries D → Text → D → Option D → Outcome {0, 0} GoError Unit × Entries D
  inserted_in entries k d none = (ok tt, (k, some d) ∷ entries)
  inserted_in entries k d (some old) = (err (leaf (text "duplicate key")), entries)

  abbrev pub one_of : Option D → Outcome FindError D
  one_of none = err no_documents
  one_of (some d) = ok d

  abbrev pub deleted_in : Entries D → Text → Option D → Outcome {0, 0} FindError Unit × Entries D
  deleted_in entries k none = (err no_documents, entries)
  deleted_in entries k (some d) = (ok tt, (k, none) ∷ entries)

  -- What is read of the documents with a text in a field that is not the id.
  module _ (key : D → Text) (other : Text → Text → Entries D → Option D) where
    abbrev pub matching : Filter → Entries D → Option D
    matching (fields ((name, bson_string k) ∷ [])) entries =
        if text_eq name (text "_id") then entry entries k else other name k entries
    matching _ entries = none

    -- An update under another id is refused.
    abbrev pub updated_in : Filter → D → Entries D → Outcome FindError D × Entries D
    updated_in (fields ((name, bson_string k) ∷ [])) d entries =
        if text_eq (key d) k
        then (ok d, (key d, some d) ∷ entries)
        else (err (failed (leaf (text "immutable field '_id'"))), entries)
    updated_in _ d entries = (ok d, entries)

    abbrev pub removed_in : Filter → Entries D → Outcome {0, 0} FindError Unit × Entries D
    removed_in (fields ((name, bson_string k) ∷ [])) entries =
        deleted_in entries k (entry entries k)
    removed_in _ entries = (err no_documents, entries)

    abbrev pub collection_in_memory : Collection (Entries D) D
    collection_in_memory = record {
      insert_one = λ d entries. inserted_in entries (key d) d (entry entries (key d));
      find_one = λ filter entries. (one_of (matching filter entries), entries);
      find_one_and_update = updated_in;
      find_one_and_delete = removed_in;
      find = λ filter window entries. (ok end, entries);
      count_documents = λ filter entries. (ok 0, entries);
    }

    pub collection_in_memory-IsCollection : IsCollection collection_in_memory key (λ old d. d) entry
    unfolding text_eq
    collection_in_memory-IsCollection = record {
      inserted = λ d entries h. ((key d, some d) ∷ entries, rw h, refl);
      duplicate = λ d old entries h. (leaf (text "duplicate key"), rw h);
      found = λ k d entries h. rw h;
      missing = λ k entries h. rw h;
      updated = λ d entries. ((key d, some d) ∷ entries, rw (text_eq_refl (key d)), refl);
      deleted = λ k d entries h. ((k, none) ∷ entries, rw h, refl);
      not_deleted = λ k entries h. rw h;
    }
