-- ===== src/Redact/Mask.antt =====
-- `_mask_walk` of mcp-server/server.py: PII keys in the results of graph queries.
use Prim.Native.String.{◌++◌}
use powerbrain.Base.{
  ◌≡◌, refl, ◌⊎◌, inl, inr, String, false, Option, none, some, Bool-cases, Option-cases, truthy,
  if◌then◌else◌,
}
use powerbrain.Base.Dict.{Dict, lookup}
use powerbrain.Base.Json.{Json, Items, Fields}
use powerbrain.Base.Text.{lower}

-- `f"<{entity}>"`
abbrev entity_tag : String → String
entity_tag e = "<" ++ (e ++ ">")

-- What a text under a key becomes.
pub mask_text : Dict String → String → String → String
unfolding lower lookup
mask_text keys k s =
    if truthy s
    then elim (lookup (lower k) keys) [ none ↦ s | some e ↦ if truthy e then entity_tag e else s ]
    else s

unfoldable mutual
  unfolding mask_text

  pub mask_walk : Dict String → Json → Json
  mask_walk keys Json.null = Json.null
  mask_walk keys (Json.bool b) = Json.bool b
  mask_walk keys (Json.num n) = Json.num n
  mask_walk keys (Json.str s) = Json.str s
  mask_walk keys (Json.arr xs) = Json.arr (mask_items keys xs)
  mask_walk keys (Json.obj fs) = Json.obj (mask_fields keys fs)

  mask_items : Dict String → Items → Items
  mask_items keys Items.nil = Items.nil
  mask_items keys (Items.cons x xs) = Items.cons (mask_walk keys x) (mask_items keys xs)

  mask_fields : Dict String → Fields → Fields
  mask_fields keys Fields.end = Fields.end
  mask_fields keys (Fields.field k v fs) =
      Fields.field k (mask_value keys k v) (mask_fields keys fs)

  mask_value : Dict String → String → Json → Json
  mask_value keys k Json.null = Json.null
  mask_value keys k (Json.bool b) = Json.bool b
  mask_value keys k (Json.num n) = Json.num n
  mask_value keys k (Json.str s) = Json.str (mask_text keys k s)
  mask_value keys k (Json.arr xs) = Json.arr (mask_items keys xs)
  mask_value keys k (Json.obj fs) = Json.obj (mask_fields keys fs)

-- A text under a key that the configuration classifies is empty or the tag of its class.
abbrev IsCovered : Option String → String → Type 0
IsCovered none s = Unit
IsCovered (some e) s = (truthy e ≡ false) ⊎ (truthy s ≡ false) ⊎ (s ≡ entity_tag e)

-- At any depth, through objects and lists, the texts that stand right under a key are covered.
mutual
  pub IsMasked : Dict String → Json → Type 0
  IsMasked keys Json.null = Unit
  IsMasked keys (Json.bool b) = Unit
  IsMasked keys (Json.num n) = Unit
  IsMasked keys (Json.str s) = Unit
  IsMasked keys (Json.arr xs) = AreMasked keys xs
  IsMasked keys (Json.obj fs) = FieldsMasked keys fs

  AreMasked : Dict String → Items → Type 0
  AreMasked keys Items.nil = Unit
  AreMasked keys (Items.cons x xs) = IsMasked keys x × AreMasked keys xs

  FieldsMasked : Dict String → Fields → Type 0
  FieldsMasked keys Fields.end = Unit
  FieldsMasked keys (Fields.field k v fs) = ValueMasked keys k v × FieldsMasked keys fs

  ValueMasked : Dict String → String → Json → Type 0
  ValueMasked keys k Json.null = Unit
  ValueMasked keys k (Json.bool b) = Unit
  ValueMasked keys k (Json.num n) = Unit
  ValueMasked keys k (Json.str s) = IsCovered (lookup (lower k) keys) s
  ValueMasked keys k (Json.arr xs) = AreMasked keys xs
  ValueMasked keys k (Json.obj fs) = FieldsMasked keys fs

mask_text-IsCovered :
    (keys : Dict String) (k s : String) → IsCovered (lookup (lower k) keys) (mask_text keys k s)
unfolding mask_text
mask_text-IsCovered keys k s = elim (Option-cases (lookup (lower k) keys)) [
  | inl e ↦ rw e tt
  | inr (t, e) ↦ rw e (elim (Bool-cases (truthy s)) [
    | inr f ↦ rw f (inr (inl f))
    | inl f ↦ elim (Bool-cases (truthy t)) [ inl g ↦ rw (f, g) (inr (inr refl)) | inr g ↦ inl g ]
  ])
]

mutual
  unfolding mask_walk mask_items mask_fields mask_value IsMasked AreMasked FieldsMasked ValueMasked

  walk-IsMasked : (keys : Dict String) (v : Json) → IsMasked keys (mask_walk keys v)
  walk-IsMasked keys Json.null = tt
  walk-IsMasked keys (Json.bool b) = tt
  walk-IsMasked keys (Json.num n) = tt
  walk-IsMasked keys (Json.str s) = tt
  walk-IsMasked keys (Json.arr xs) = items-AreMasked keys xs
  walk-IsMasked keys (Json.obj fs) = fields-FieldsMasked keys fs

  items-AreMasked : (keys : Dict String) (xs : Items) → AreMasked keys (mask_items keys xs)
  items-AreMasked keys Items.nil = tt
  items-AreMasked keys (Items.cons x xs) = (walk-IsMasked keys x, items-AreMasked keys xs)

  fields-FieldsMasked : (keys : Dict String) (fs : Fields) → FieldsMasked keys (mask_fields keys fs)
  fields-FieldsMasked keys Fields.end = tt
  fields-FieldsMasked keys (Fields.field k v fs) =
      (value-ValueMasked keys k v, fields-FieldsMasked keys fs)

  value-ValueMasked :
      (keys : Dict String) (k : String) (v : Json) → ValueMasked keys k (mask_value keys k v)
  value-ValueMasked keys k Json.null = tt
  value-ValueMasked keys k (Json.bool b) = tt
  value-ValueMasked keys k (Json.num n) = tt
  value-ValueMasked keys k (Json.str s) = mask_text-IsCovered keys k s
  value-ValueMasked keys k (Json.arr xs) = items-AreMasked keys xs
  value-ValueMasked keys k (Json.obj fs) = fields-FieldsMasked keys fs

-- After the walk, every text that stands at any depth as the value of a classified key is empty
-- or the tag of its class. (A text inside a list under such a key is not the value of a key.)
pub mask_walk-IsMasked : (keys : Dict String) (v : Json) → IsMasked keys (mask_walk keys v)
mask_walk-IsMasked keys v = walk-IsMasked keys v

-- Lists of texts pass unmasked, also under a classified key.
mask_list_of_text :
    (keys : Dict String) (k s : String)
    → mask_walk keys
        (Json.obj (Fields.field k (Json.arr (Items.cons (Json.str s) Items.nil)) Fields.end))
      ≡ Json.obj (Fields.field k (Json.arr (Items.cons (Json.str s) Items.nil)) Fields.end)
unfolding mask_walk mask_items mask_fields mask_value
mask_list_of_text keys k s = refl
