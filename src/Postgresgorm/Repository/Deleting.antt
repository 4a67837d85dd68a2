-- ===== src/Postgresgorm/Repository/Deleting.antt =====
-- What a client of internal/pkg/postgresgorm/repository/gorm_generic_repository.go sees of a table, one
-- operation at a time.
use go_ecommerce_microservic.Common.{ℕ, true, ◌≡◌, refl, Option, none, some, ok, err}
use go_ecommerce_microservic.HttpErrors.Chain.{GoError}
use go_ecommerce_microservic.HttpErrors.CustomErrors.{is_not_found_error, new_not_found_error_wrap}
use go_ecommerce_microservic.GenericRepository.{same, data_of, entity_of}
use go_ecommerce_microservic.Postgresgorm.Repository.{
  record_not_found, first_error, GormTable, GormGenericRepository, cant_find, add, get_by_id,
  delete,
}

-- The documented behaviour of gorm on a table, whose rows `row` gives by their ids. The entities are the data
-- models, so that both name the same table.
pub record IsGormTable {W D : Type 0} (db : GormTable W D D) (key : D → ℕ) (row : W → ℕ → Option D)
    : Type 0 where
  pub created :
      (d : D) (w : W)
      → row w (key d) ≡ none
      → (w' : W) × (db.create d w ≡ (ok d, w')) × (row w' (key d) ≡ some d)
  pub found : (id : ℕ) (d : D) (w : W) → row w id ≡ some d → db.first id w ≡ (ok d, w)
  pub missing : (id : ℕ) (w : W) → row w id ≡ none → db.first id w ≡ (err record_not_found, w)
  pub deleted :
      (d : D) (id : ℕ) (w : W)
      → (w' : W) × (db.delete_entity d id w ≡ (ok tt, w')) × (row w' id ≡ none)

module _ {W D : Type 0} (r : GormGenericRepository W D D) (unmapped : r.models ≡ same) (key : D → ℕ)
    (row : W → ℕ → Option D) (documented : IsGormTable r.db key row) where
  stored : (d : D) → data_of r.models d ≡ ok d
  stored d = rw unmapped

  read : (d : D) → entity_of r.models d ≡ ok d
  read d = rw unmapped

  abbrev pub missing_entity : ℕ → GoError
  missing_entity id =
      new_not_found_error_wrap (some (first_error record_not_found)) (cant_find r id)

  get_by_id-missing :
      (id : ℕ) (w : W) → row w id ≡ none → get_by_id r id w ≡ (err (missing_entity id), w)
  unfolding get_by_id
  get_by_id-missing id w h = rw (get_by_id, documented.missing id w h)

  get_by_id-found : (id : ℕ) (d : D) (w : W) → row w id ≡ some d → get_by_id r id w ≡ (ok d, w)
  unfolding get_by_id
  get_by_id-found id d w h = rw (get_by_id, documented.found id d w h, read d)

  -- An entity with a new id lives from its creation to its deletion: before it, the id is not found and
  -- cannot be deleted; created, it is given back for its id; it can be deleted;
  -- and then its id is not found again and a second deletion fails. A not-found error of its own kind is
  -- given each time, and the table is left as it was. gorm behaves as documented, and the entities are the
  -- data models themselves.
  pub add-delete-get_by_id :
      (entity : D) (w : W)
      → let id = key entity in
        row w id ≡ none
        → (w1 w2 : W) × (get_by_id r id w ≡ (err (missing_entity id), w))
          × (delete r id w ≡ (err (missing_entity id), w))
          × (add r entity w ≡ (ok entity, w1))
          × (get_by_id r id w1 ≡ (ok entity, w1))
          × (delete r id w1 ≡ (ok tt, w2))
          × (get_by_id r id w2 ≡ (err (missing_entity id), w2))
          × (delete r id w2 ≡ (err (missing_entity id), w2))
          × (is_not_found_error (missing_entity id) ≡ true)
  unfolding add delete is_not_found_error new_not_found_error_wrap
  add-delete-get_by_id entity w h =
      let d = entity in
      let id = key d in
      let a = documented.created d w h in
      let z = documented.deleted d id a.0 in
      (
        a.0,
        z.0,
        get_by_id-missing id w h,
        rw (delete, get_by_id-missing id w h),
        rw (add, stored entity, a.1, read d),
        get_by_id-found id d a.0 a.2,
        rw (delete, get_by_id-found id d a.0 a.2, z.1),
        get_by_id-missing id z.0 z.2,
        rw (delete, get_by_id-missing id z.0 z.2),
        refl,
      )
