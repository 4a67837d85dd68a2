-- ===== src/Orders/Items.antt =====
-- The items of an order (internal/services/orderservice/internal/orders/models/orders/value_objects,
-- dtos/v1, models/orders/read_models) and what the mappings of configurations/mappings make of them.
-- `float64` is a parameter `F`. A nil slice and an empty one are the same here.
use go_ecommerce_microservic.Common.{
  ℕ, ◌≡◌, refl, Bool, true, Text, List, [], ◌∷◌, map, Outcome, ok, err, if◌then◌else◌,
}
use go_ecommerce_microservic.EventSourcing.Error.{Error, plain, map_not_exist}

-- The operations on `float64` that the code calls.
pub record Float64 (F : Type 0) : Type 0 where
  pub zero_float : F
  pub add : F → F → F
  pub mul : F → F → F
  pub of_uint64 : ℕ → F

pub record ShopItem (F : Type 0) : Type 0 where
  pub title : Text
  pub description : Text
  pub quantity : ℕ
  pub price : F

pub record ShopItemDto (F : Type 0) : Type 0 where
  pub title : Text
  pub description : Text
  pub quantity : ℕ
  pub price : F

pub record ShopItemReadModel (F : Type 0) : Type 0 where
  pub title : Text
  pub description : Text
  pub quantity : ℕ
  pub price : F

pub record ShopItemReadDto (F : Type 0) : Type 0 where
  pub title : Text
  pub description : Text
  pub quantity : ℕ
  pub price : F

-- Which of the mappings `ConfigureOrdersMappings` has registered with the mapper.
pub record Mappings : Type 0 where
  pub shop_item_to_dto : Bool
  pub dto_to_shop_item : Bool
  pub dto_to_read_model : Bool
  pub order_read_model_to_dto : Bool

-- What `ConfigureOrdersMappings` leaves: every mapping is registered.
abbrev pub configured : Mappings
configured = record {
  shop_item_to_dto = true;
  dto_to_shop_item = true;
  dto_to_read_model = true;
  order_read_model_to_dto = true;
}

-- `mapper.Map` on slices, for a pair of types and the function of their mapping.
abbrev pub map_slice : {A B : Type 0} → Bool → (A → B) → List A → Outcome Error (List B)
map_slice registered f [] = ok []
map_slice registered f (x ∷ xs) =
    if registered then ok (f x ∷ map f xs) else err (plain map_not_exist)

module _ {F : Type 0} where
  abbrev pub create_new_shop_item : Text → Text → ℕ → F → ShopItem F
  create_new_shop_item title description quantity price = record {
    title = title;
    description = description;
    quantity = quantity;
    price = price;
  }

  -- `ShopItem -> ShopItemDto`: the fields by their names, through the getters.
  abbrev pub to_dto : ShopItem F → ShopItemDto F
  to_dto i = record {
    title = i.title;
    description = i.description;
    quantity = i.quantity;
    price = i.price;
  }

  -- `ShopItemDto -> ShopItem`
  abbrev pub to_shop_item : ShopItemDto F → ShopItem F
  to_shop_item src = create_new_shop_item src.title src.description src.quantity src.price

  -- `ShopItemDto -> ShopItemReadModel`
  abbrev pub to_read_model : ShopItemDto F → ShopItemReadModel F
  to_read_model i = record {
    title = i.title;
    description = i.description;
    quantity = i.quantity;
    price = i.price;
  }

  -- `ShopItemReadModel -> ShopItemReadDto`
  abbrev pub to_read_dto : ShopItemReadModel F → ShopItemReadDto F
  to_read_dto i = record {
    title = i.title;
    description = i.description;
    quantity = i.quantity;
    price = i.price;
  }

pub map_slice-registered :
    {A B : Type 0} (f : A → B) (xs : List A) → map_slice true f xs ≡ ok (map f xs)
map_slice-registered f [] = refl
map_slice-registered f (x ∷ xs) = refl
