-- ===== src/Base/Json.antt =====
-- Values of JSON, as `json.loads` returns them. Numbers are natural, which is all that the program
-- reads of them here.
use Prim.Native.Nat.{ℕ}
use Prim.Native.String.{String}
use mathlib.Core.Path.{◌≡◌, refl, ap, ◌∙◌}
use native.Mathlib.Omega.{arith}
use text.Mathlib.TextEquality.{eq_iff}
use mathlib.Core.Bool.{Bool, true, false, not}
use mathlib.Core.Option.{Option, none, some}
use powerbrain.Base.Tests.{str_eq, nat_beq, truthy, if◌then◌else◌}

mutual
  pub data Json : Type 0 where
    null : Json
    bool : Bool → Json
    num : ℕ → Json
    str : String → Json
    arr : Items → Json
    obj : Fields → Json

  pub data Items : Type 0 where
    nil : Items
    cons : Json → Items → Items

  pub data Fields : Type 0 where
    end : Fields
    field : String → Json → Fields → Fields

-- Python's `bool(v)`.
abbrev pub truth : Json → Bool
truth Json.null = false
truth (Json.bool b) = b
truth (Json.num n) = not (nat_beq n 0)
truth (Json.str s) = truthy s
truth (Json.arr Items.nil) = false
truth (Json.arr (Items.cons _ _)) = true
truth (Json.obj Fields.end) = false
truth (Json.obj (Fields.field _ _ _)) = true

-- `d.get(k)` of an object.
unfoldable pub member : String → Fields → Option Json
member k Fields.end = none
member k (Fields.field j v fs) = if str_eq j k then some v else member k fs

-- `d[k] = v` of an object, and `{**a, **b}`.
unfoldable pub set_field : String → Json → Fields → Fields
set_field k v Fields.end = Fields.field k v Fields.end
set_field k v (Fields.field j w fs) =
    if str_eq j k then Fields.field j v fs else Fields.field j w (set_field k v fs)

unfoldable pub merge_fields : Fields → Fields → Fields
unfolding set_field
merge_fields a Fields.end = a
merge_fields a (Fields.field k v fs) = merge_fields (set_field k v a) fs

member-set_field :
    (k j : String) (v : Json) (fs : Fields)
    → member j (set_field k v fs) ≡ (if str_eq k j then some v else member j fs)
unfolding member set_field
member-set_field k j v Fields.end = refl
member-set_field k j v (Fields.field i w fs) =
    ground (arith, eq_iff k j, eq_iff i k, eq_iff i j, member-set_field k j v fs)

-- The value of the last field of a name.
unfoldable pub last_member : String → Fields → Option Json → Option Json
last_member j Fields.end d = d
last_member j (Fields.field k v fs) d = last_member j fs (if str_eq k j then some v else d)

pub member-merge_fields :
    (j : String) (a b : Fields) → member j (merge_fields a b) ≡ last_member j b (member j a)
unfolding merge_fields last_member
member-merge_fields j a Fields.end = refl
member-merge_fields j a (Fields.field k v fs) =
    member-merge_fields j (set_field k v a) fs ∙ ap (last_member j fs) (member-set_field k j v a)
