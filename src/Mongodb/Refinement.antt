-- ===== src/Mongodb/Refinement.antt =====
-- The generic repository of internal/pkg/mongodb/repository/mongo_generic_repository.go against a table.
use go_ecommerce_microservic.Common.{
  ℕ, Text, text, List, [], ◌∷◌, ◌≡◌, refl, ap, ◌∙◌, Option, none, some, Outcome, ok, err,
}
use go_ecommerce_microservic.HttpErrors.Chain.{GoError}
use go_ecommerce_microservic.HttpErrors.CustomErrors.{is_not_found_error, new_not_found_error_wrap}
use go_ecommerce_microservic.Mongodb.{bson_string, find_error, no_documents}
use go_ecommerce_microservic.GenericRepository.{data_of, entity_of, entity_after}
use go_ecommerce_microservic.Mongodb.Repository.{
  MongoGenericRepository, id_of, add, update, delete, get_by_id, cant_find,
}
use go_ecommerce_microservic.Mongodb.Stored.{
  Table, IsCollection, Operation, to_add, to_update, to_delete, to_get, Answer, done, not_found,
  as_done, as_given, on_table, all_on_table,
}

module _ {W D E : Type 0} (m : MongoGenericRepository W D E) where
  abbrev pub seen :
      {A : Type 0} → (Outcome GoError A → Answer E) → Outcome GoError A × W → Answer E × W
  seen as_answer (r, w) = (as_answer r, w)

  abbrev pub perform : Operation E → W → Answer E × W
  perform (to_add entity) w = seen as_done (add m entity w)
  perform (to_update entity) w = seen as_done (update m entity w)
  perform (to_delete id) w = seen as_done (delete m id w)
  perform (to_get id) w = seen as_given (get_by_id m id w)

  abbrev pub perform_all : List (Operation E) → W → List (Answer E) × W
  perform_all [] w = ([], w)
  perform_all (operation ∷ operations) w =
      let (answer, w') = perform operation w in
      let (answers, w'') = perform_all operations w' in (answer ∷ answers, w'')

-- The mapping between entities and data models does not fail, and the id of a data model is a text.
pub record IsMapped {W D E : Type 0} (m : MongoGenericRepository W D E) (to_data : E → D)
    (to_entity : D → E) (key : D → Text) : Type 0 where
  pub stored : (entity : E) → data_of m.models entity ≡ ok (to_data entity)
  pub read : (d : D) → entity_of m.models d ≡ ok (to_entity d)
  pub after : (entity : E) (d : D) → (e : E) × (entity_after m.models entity d ≡ ok e)
  pub identified : (d : D) → m.get_field_value_by_name d (text "Id") ≡ some (bson_string (key d))

not_found_told :
    {E : Type 0} (message : Text)
    → as_given {E = E} (err (new_not_found_error_wrap (some (find_error no_documents)) message))
      ≡ not_found
unfolding is_not_found_error new_not_found_error_wrap
not_found_told message = refl

module _ {W D E : Type 0} (m : MongoGenericRepository W D E) (to_data : E → D) (to_entity : D → E)
    (key : D → Text) (merged : Option D → D → D) (table : W → Text → Option D)
    (documented : IsCollection m.collection key merged table)
    (mapped : IsMapped m to_data to_entity key) where
  abbrev viewed : {A : Type 0} → A × W → A × Table D
  viewed (a, w) = (a, table w)

  add-on_table :
      (entity : E) (w : W) (entry : Option D)
      → table w (key (to_data entity)) ≡ entry
      → viewed (perform m (to_add entity) w)
        ≡ on_table to_data to_entity key merged m.show_id (to_add entity) (table w)
  unfolding add
  add-on_table entity w none h =
      let r = documented.inserted (to_data entity) w h in
      rw (add, mapped.stored entity, r.1, mapped.read (to_data entity), h) (ap (λ t. (done, t)) r.2)
  add-on_table entity w (some old) h =
      let r = documented.duplicate (to_data entity) old w h in
      rw (add, mapped.stored entity, r.1, h)

  update-on_table :
      (entity : E) (w : W)
      → viewed (perform m (to_update entity) w)
        ≡ on_table to_data to_entity key merged m.show_id (to_update entity) (table w)
  unfolding update
  update-on_table entity w =
      let d = to_data entity in
      let r = documented.updated d w in
      let e = mapped.after entity (merged (table w (key d)) d) in
      let id : id_of m d ≡ ok (bson_string (key d)) = rw (id_of, mapped.identified d) in
      rw (update, mapped.stored entity, id, r.1, e.1) (ap (λ t. (done, t)) r.2)

  delete-on_table :
      (id : ℕ) (w : W) (entry : Option D)
      → table w (m.show_id id) ≡ entry
      → viewed (perform m (to_delete id) w)
        ≡ on_table to_data to_entity key merged m.show_id (to_delete id) (table w)
  unfolding delete
  delete-on_table id w none h = rw (delete, documented.not_deleted (m.show_id id) w h, h)
  delete-on_table id w (some d) h =
      let r = documented.deleted (m.show_id id) d w h in
      rw (delete, r.1, h) (ap (λ t. (done, t)) r.2)

  get_by_id-on_table :
      (id : ℕ) (w : W) (entry : Option D)
      → table w (m.show_id id) ≡ entry
      → viewed (perform m (to_get id) w)
        ≡ on_table to_data to_entity key merged m.show_id (to_get id) (table w)
  unfolding get_by_id
  get_by_id-on_table id w none h =
      rw (get_by_id, documented.missing (m.show_id id) w h, h)
        (ap (λ a. (a, table w)) (not_found_told (cant_find m id)))
  get_by_id-on_table id w (some d) h =
      rw (get_by_id, documented.found (m.show_id id) d w h, mapped.read d, h)

  perform-on_table :
      (operation : Operation E) (w : W)
      → viewed (perform m operation w)
        ≡ on_table to_data to_entity key merged m.show_id operation (table w)
  perform-on_table (to_add entity) w = add-on_table entity w (table w (key (to_data entity))) refl
  perform-on_table (to_update entity) w = update-on_table entity w
  perform-on_table (to_delete id) w = delete-on_table id w (table w (m.show_id id)) refl
  perform-on_table (to_get id) w = get_by_id-on_table id w (table w (m.show_id id)) refl

  -- Whatever operations a client performs one after the other, it sees the answers of a table of data
  -- models by id, and the collection holds that table afterwards: an entity is added unless its id is
  -- taken, an update sets the fields of an entity or inserts it, a deletion of an id that is not there
  -- fails, and getting an id gives its entity or a not-found error. The collection behaves as
  -- documented, the ids of data models are texts, and the mapping does not fail.
  pub perform_all-on_table :
      (operations : List (Operation E)) (w : W)
      → viewed (perform_all m operations w)
        ≡ all_on_table to_data to_entity key merged m.show_id operations (table w)
  perform_all-on_table [] w = refl
  perform_all-on_table (operation ∷ operations) w =
      let p = perform m operation w in
      let spec = all_on_table to_data to_entity key merged m.show_id operations in
      ap (λ q. (p.0 ∷ q.0, q.1)) (perform_all-on_table operations p.1)
      ∙ ap (λ q. (q.0 ∷ (spec q.1).0, (spec q.1).1)) (perform-on_table operation w)
