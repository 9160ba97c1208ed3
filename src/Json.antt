-- ===== src/Json.antt =====
-- JSON values, over the type of their numbers. Objects keep the order in which they were built; a
-- parser leaves no two entries of one key.
use memoturn.Prelude.{Bool, List, [], ◌∷◌, String}

mutual
  pub data Json (Num : Type 0) : Type 0 where
    null : Json Num
    bool : Bool → Json Num
    num : Num → Json Num
    str : String → Json Num
    arr : Items Num → Json Num
    obj : Fields Num → Json Num

  pub data Items (Num : Type 0) : Type 0 where
    nil : Items Num
    cons : Json Num → Items Num → Items Num

  pub data Fields (Num : Type 0) : Type 0 where
    end : Fields Num
    field : String → Json Num → Fields Num → Fields Num

module _ {Num : Type 0} where
  abbrev pub items : Items Num → List (Json Num)
  items nil = []
  items (cons v vs) = v ∷ items vs

  abbrev pub fields : Fields Num → List (String × Json Num)
  fields end = []
  fields (field k v fs) = (k, v) ∷ fields fs
