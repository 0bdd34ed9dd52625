-- ===== src/Tools/Merge.antt =====
-- The array that `merge_tools` of pb-proxy/tool_injection.py builds, and the names of the tools.
use Prim.Native.String.{◌++◌}
use powerbrain.Base.{
  ◌≡◌, refl, ap, ◌∙◌, String, ◌||◌, not, Option, none, some, List, [], ◌∷◌, arith, eq_iff, str_eq,
  truthy, if◌then◌else◌, Bool-cases, Option-cases, ◌&&◌, inl, inr,
}
use powerbrain.Base.Dict.{Dict, lookup, insert, lookup-insert}
use powerbrain.Base.Unique.{Unique}
use powerbrain.Base.Json.{Json}
use powerbrain.Base.Text.{starts_with, starts_with-append}
use powerbrain.Tools.{
  ToolEntry, ClientTool, permitted, merge_mcp, merge_client, new_name, merged, prefixed_tool_name,
}

-- What a server offers under a name, as far as the servers are permitted.
abbrev pub offered : Option (List String) → Option ToolEntry → Option Json
offered allowed none = none
offered allowed (some e) = if permitted allowed e then some e.schema else none

-- The first tool of the client under a name; "" is no name.
abbrev pub first_of : String → List ClientTool → Option Json
first_of n [] = none
first_of n (t ∷ ts) = if str_eq t.name n && truthy n then some t.tool else first_of n ts

abbrev pub or_else : Option Json → Option Json → Option Json
or_else none b = b
or_else (some v) b = some v

lookup-merge_client :
    (n : String) (ts : List ClientTool) (d : Dict Json)
    → lookup n (merge_client ts d) ≡ or_else (lookup n d) (first_of n ts)
unfolding merge_client
lookup-merge_client n [] d = elim (Option-cases (lookup n d)) [
  | inl e ↦ rw e refl
  | inr (v, e) ↦ rw e refl
]
lookup-merge_client n (t ∷ ts) d = elim (Bool-cases (new_name t.name d)) [
  | inl y ↦ rw y (
      lookup-merge_client n ts (insert t.name t.tool d)
      ∙ rw (lookup-insert t.name n t.tool d) (ground (arith, eq_iff t.name n)))
  | inr y ↦ rw y (lookup-merge_client n ts d ∙ ground (arith, eq_iff t.name n))
]

lookup-merge_mcp :
    (allowed : Option (List String)) (n : String) (es : Dict ToolEntry) (d : Dict Json)
    → Unique es
    → lookup n (merge_mcp allowed es d) ≡ or_else (offered allowed (lookup n es)) (lookup n d)
unfolding merge_mcp lookup
lookup-merge_mcp allowed n [] d u = refl
lookup-merge_mcp allowed n ((m, e) ∷ es) d u = elim (Bool-cases (permitted allowed e)) [
  | inl y ↦ rw y (
      lookup-merge_mcp allowed n es (insert m e.schema d) (u.1)
      ∙ rw (lookup-insert m n e.schema d) (ground (arith, u.0, eq_iff m n)))
  | inr y ↦ rw y (lookup-merge_mcp allowed n es d (u.1) ∙ ground (arith, u.0, eq_iff m n))
]

none_after : (o : Option Json) → or_else o none ≡ o
none_after none = refl
none_after (some v) = refl

-- Under every name the merged array has the tool of a permitted server if there is one, and
-- otherwise the first tool that the client has under this name.
pub lookup-merged :
    (tools : Dict ToolEntry) (client : List ClientTool) (allowed : Option (List String))
    (n : String)
    → Unique tools
    → lookup n (merged tools client allowed)
      ≡ or_else (offered allowed (lookup n tools)) (first_of n client)
unfolding merged
lookup-merged tools client allowed n u =
    lookup-merge_client n client (merge_mcp allowed tools [])
    ∙ ap (λ o. or_else o (first_of n client))
        (lookup-merge_mcp allowed n tools [] u
          ∙ unfold lookup in none_after (offered allowed (lookup n tools)))

-- To prefix a name that is prefixed changes nothing.
pub prefixed_tool_name-idempotent :
    (p : Option String) (n : String)
    → prefixed_tool_name p (prefixed_tool_name p n) ≡ prefixed_tool_name p n
unfolding prefixed_tool_name
prefixed_tool_name-idempotent none n = refl
prefixed_tool_name-idempotent (some p) n =
    elim (Bool-cases (not (truthy p) || starts_with (p ++ "_") n)) [
      | inl y ↦ rw (y, y) refl
      | inr y ↦ rw (y, starts_with-append (p ++ "_") n) (ground arith)
    ]
