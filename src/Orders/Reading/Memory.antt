-- ===== src/Orders/Reading/Memory.antt =====
-- Orders in memory, searched by their order ids, for the theorems on the orders to read.
use go_ecommerce_microservic.Common.{
  true, false, Text, text, text_eq, text_eq→eq, text_eq_refl, text_eq-ne, [], ◌∷◌, ◌≡◌, refl, ap,
  sym, ◌∙◌, Option, none, some, inl, inr, Bool-cases, if◌then◌else◌,
}
use go_ecommerce_microservic.HttpErrors.Chain.{leaf}
use go_ecommerce_microservic.Mongodb.{Collection}
use go_ecommerce_microservic.Mongodb.Stored.{IsCollection}
use go_ecommerce_microservic.Mongodb.Memory.{
  Entries, entry, one_of, collection_in_memory, collection_in_memory-IsCollection,
}
use go_ecommerce_microservic.Orders.Projection.{OrderReadModel}
use go_ecommerce_microservic.Orders.Reading.Finding.{
  id_of_order, IsUnused, IsOrderCollection, IsSearchable,
}

module _ {F : Type 0} (k : Text) where
  -- The order, if it has the order id, and else the rest of the search.
  abbrev hit : Option (OrderReadModel F) → Option (OrderReadModel F) → Option (OrderReadModel F)
  hit none rest = rest
  hit (some o) rest = if text_eq o.order_id k then some o else rest

  -- The ids of the entries, each with the document that it has among all entries.
  abbrev searched :
      Entries (OrderReadModel F) → Entries (OrderReadModel F) → Option (OrderReadModel F)
  searched all [] = none
  searched all ((j, d) ∷ entries) = let rest = searched all entries in hit (entry all j) rest

  abbrev Holds : Entries (OrderReadModel F) → OrderReadModel F → Type 0
  Holds all o = (j : Text) × (entry all j ≡ some o) × (o.order_id ≡ k)

  the_hit :
      (o : OrderReadModel F) (rest : Option (OrderReadModel F))
      → text_eq o.order_id k ≡ true
      → hit (some o) rest ≡ some o
  the_hit o rest e = rw e

  the_rest :
      (o : OrderReadModel F) (rest : Option (OrderReadModel F))
      → text_eq o.order_id k ≡ false
      → hit (some o) rest ≡ rest
  the_rest o rest e = rw e

  hit-Holds :
      (all : Entries (OrderReadModel F)) (j : Text) (found rest : Option (OrderReadModel F))
      (o : OrderReadModel F)
      → entry all j ≡ found
      → (rest ≡ some o → Holds all o)
      → hit found rest ≡ some o
      → Holds all o
  hit-Holds all j none rest o e ih h = ih h
  hit-Holds all j (some o') rest o e ih h = elim (Bool-cases (text_eq o'.order_id k)) [
    | inl same ↦
        let h' : o' ≡ o = cc (the_hit o' rest same, h) in
        (
          j,
          e ∙ ap some h',
          ap (λ (x : OrderReadModel F). x.order_id) (sym h') ∙ text_eq→eq o'.order_id k same,
        )
    | inr other ↦ ih (sym (the_rest o' rest other) ∙ h)
  ]

  searched-Holds :
      (all entries : Entries (OrderReadModel F)) (o : OrderReadModel F)
      → searched all entries ≡ some o
      → Holds all o
  searched-Holds all [] o h = cc
  searched-Holds all ((j, d) ∷ entries) o h =
      hit-Holds all j (entry all j) (searched all entries) o refl (searched-Holds all entries o) h

  hit-some :
      (found rest : Option (OrderReadModel F))
      → (o : OrderReadModel F) × (rest ≡ some o)
      → (o : OrderReadModel F) × (hit found rest ≡ some o)
  hit-some none rest h = h
  hit-some (some o') rest h = elim (Bool-cases (text_eq o'.order_id k)) [
    | inl same ↦ (o', rw same)
    | inr other ↦ (h.0, rw other h.1)
  ]

  searched-some :
      (all entries : Entries (OrderReadModel F)) (j : Text) (o : OrderReadModel F)
      → entry all j ≡ some o
      → o.order_id ≡ k
      → entry entries j ≡ some o
      → (o' : OrderReadModel F) × (searched all entries ≡ some o')
  searched-some all [] j o live e h = cc
  searched-some all ((i, d) ∷ entries) j o live e h = elim (Bool-cases (text_eq i j)) [
    | inl same ↦
        let here : entry all i ≡ some o = ap (entry all) (text_eq→eq i j same) ∙ live in
        let is_k : text_eq o.order_id k ≡ true =
          ap (text_eq o.order_id) (sym e) ∙ text_eq_refl o.order_id in
        (o, rw (here, is_k))
    | inr other ↦
        hit-some (entry all i) (searched all entries)
          (searched-some all entries j o live e (rw other at h))
  ]

abbrev by_order_id :
    {F : Type 0} → Text → Text → Entries (OrderReadModel F) → Option (OrderReadModel F)
by_order_id name k entries = searched k entries entries

module _ {F : Type 0} where
  abbrev pub orders : Collection (Entries (OrderReadModel F)) (OrderReadModel F)
  orders = collection_in_memory id_of_order by_order_id

  orders-IsCollection : IsCollection orders id_of_order (λ old d. d) entry
  orders-IsCollection = collection_in_memory-IsCollection id_of_order by_order_id

  pub orders-IsOrderCollection : IsOrderCollection orders (λ o. o) entry
  orders-IsOrderCollection = record {
    same_id = λ o. refl;
    same_order_id = λ o. refl;
    inserted = orders-IsCollection.inserted;
    found = orders-IsCollection.found;
    missing = orders-IsCollection.missing;
  }

  searched-none :
      (k : Text) (entries : Entries (OrderReadModel F)) (found : Option (OrderReadModel F))
      → IsUnused k (entry entries)
      → searched k entries entries ≡ found
      → found ≡ none
  searched-none k entries none unused e = refl
  searched-none k entries (some o) unused e =
      let h = searched-Holds k entries entries o e in absurd (unused h.0 o h.1 h.2)

  pub orders-IsSearchable : IsSearchable orders entry
  unfolding text_eq
  orders-IsSearchable = record {
    found_by = λ k o entries live e only.
        let s = searched-some k entries entries o.id o live e live in
        let h = searched-Holds k entries entries s.0 s.1 in
        ap (λ r. (one_of r, entries)) (s.1 ∙ ap some (only h.0 s.0 h.1 h.2));
    found_by_none = λ k entries unused.
        ap (λ r. (one_of r, entries))
          (searched-none k entries (searched k entries entries) unused refl);
    immutable =
        λ k o entries differ. (leaf (text "immutable field '_id'"), rw (text_eq-ne o.id k differ));
  }
