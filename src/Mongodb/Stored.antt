-- ===== src/Mongodb/Stored.antt =====
-- What the repositories of internal/pkg/mongodb/repository make of a collection whose documents have texts as
-- their ids: a table of data models by id, which every operation reads or changes at one id.
use go_ecommerce_microservic.Common.{
  ℕ, true, false, Text, text_eq, List, [], ◌∷◌, ◌≡◌, Option, none, some, Outcome, ok, err, panic,
  if◌then◌else◌,
}
use go_ecommerce_microservic.HttpErrors.Chain.{GoError}
use go_ecommerce_microservic.HttpErrors.CustomErrors.{is_not_found_error}
use go_ecommerce_microservic.Mongodb.{bson_string, by_id, no_documents, Collection}

abbrev pub Table : Type 0 → Type 0
Table D = Text → Option D

abbrev pub put : {D : Type 0} → Text → Option D → Table D → Table D
put key entry table k = if text_eq key k then entry else table k

module _ {D : Type 0} (key k : Text) (entry : Option D) (table : Table D) where
  pub put-same : text_eq key k ≡ true → put key entry table k ≡ entry
  put-same h = rw h

  pub put-other : text_eq key k ≡ false → put key entry table k ≡ table k
  put-other h = rw h

-- The documented behaviour of a collection, whose documents `table` gives by their ids: no two documents
-- have the same id, and an update sets the fields of a data model in the document, or inserts it.
pub record IsCollection {W D : Type 0} (c : Collection W D) (key : D → Text)
    (merged : Option D → D → D) (table : W → Text → Option D) : Type 0 where
  pub inserted :
      (d : D) (w : W)
      → table w (key d) ≡ none
      → (w' : W) × (c.insert_one d w ≡ (ok tt, w')) × (table w' ≡ put (key d) (some d) (table w))
  pub duplicate :
      (d old : D) (w : W)
      → table w (key d) ≡ some old
      → (e : GoError) × (c.insert_one d w ≡ (err e, w))
  pub found :
      (k : Text) (d : D) (w : W)
      → table w k ≡ some d
      → c.find_one (by_id (bson_string k)) w ≡ (ok d, w)
  pub missing :
      (k : Text) (w : W)
      → table w k ≡ none
      → c.find_one (by_id (bson_string k)) w ≡ (err no_documents, w)
  pub updated :
      (d : D) (w : W)
      → (w' : W) × (c.find_one_and_update (by_id (bson_string (key d))) d w
          ≡ (ok (merged (table w (key d)) d), w'))
        × (table w' ≡ put (key d) (some (merged (table w (key d)) d)) (table w))
  pub deleted :
      (k : Text) (d : D) (w : W)
      → table w k ≡ some d
      → (w' : W) × (c.find_one_and_delete (by_id (bson_string k)) w ≡ (ok tt, w'))
        × (table w' ≡ put k none (table w))
  pub not_deleted :
      (k : Text) (w : W)
      → table w k ≡ none
      → c.find_one_and_delete (by_id (bson_string k)) w ≡ (err no_documents, w)

pub data Operation (E : Type 0) : Type 0 where
  to_add to_update : E → Operation E
  to_delete to_get : ℕ → Operation E

-- What a client sees of an operation, without the texts of errors.
pub data Answer (E : Type 0) : Type 0 where
  done not_found refused crashed : Answer E
  gave : E → Answer E

module _ {E : Type 0} where
  abbrev pub as_done : {A : Type 0} → Outcome GoError A → Answer E
  as_done (ok a) = done
  as_done (err e) = refused
  as_done panic = crashed

  abbrev pub as_given : Outcome GoError E → Answer E
  as_given (ok entity) = gave entity
  as_given (err e) = if is_not_found_error e then not_found else refused
  as_given panic = crashed

module _ {E D : Type 0} (to_data : E → D) (to_entity : D → E) (key : D → Text)
    (merged : Option D → D → D) (show_id : ℕ → Text) where
  abbrev pub added : D → Option D → Table D → Answer E × Table D
  added d none table = (done, put (key d) (some d) table)
  added d (some old) table = (refused, table)

  abbrev pub removed : Text → Option D → Table D → Answer E × Table D
  removed k none table = (refused, table)
  removed k (some d) table = (done, put k none table)

  abbrev pub given : Option D → Answer E
  given none = not_found
  given (some d) = gave (to_entity d)

  -- The operations on a table.
  abbrev pub on_table : Operation E → Table D → Answer E × Table D
  on_table (to_add entity) table = let d = to_data entity in added d (table (key d)) table
  on_table (to_update entity) table =
      let d = to_data entity in (done, put (key d) (some (merged (table (key d)) d)) table)
  on_table (to_delete id) table = removed (show_id id) (table (show_id id)) table
  on_table (to_get id) table = (given (table (show_id id)), table)

  abbrev pub all_on_table : List (Operation E) → Table D → List (Answer E) × Table D
  all_on_table [] table = ([], table)
  all_on_table (operation ∷ operations) table =
      let (answer, table') = on_table operation table in
      let (answers, table'') = all_on_table operations table' in (answer ∷ answers, table'')
