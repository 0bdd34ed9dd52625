-- ===== src/Pii.antt =====
-- pb-proxy/pii_middleware.py: pseudonyms of messages, tool arguments and tool results (the
-- filter of content that is no text is in Filter). The services behind the HTTP client are arguments: what they
-- answer, or `none` for an exception. A missing "content" counts as null, as it does in the source.
mod Texts
mod Messages
mod Filter
mod Examples
use Prim.Native.Char.{code}
use Prim.Native.String.{◌++◌}
use powerbrain.Base.{
  ℕ, zero, suc, ◌-◌, ◌+◌, String, Bool, true, false, ◌&&◌, ◌||◌, not, Option, none, some, List, [],
  ◌∷◌, leb, nat_beq, str_eq, truthy, any, map, get_or, and_then, if◌then◌else◌,
}
use powerbrain.Base.Dict.{Dict, insert}
use powerbrain.Base.Json.{Json, Items, Fields, member}
use powerbrain.Base.Text.{strip, starts_with, text_length}

-- `s.replace(old, new)` of a text that is not empty; the number counts the characters of a match
-- that are still to be passed over.
unfoldable pub replace_from : String → String → ℕ → String → String
unfolding text_length starts_with
replace_from old new skip String.[] = ""
replace_from old new (suc skip) (String.◌∷◌ c s) = replace_from old new skip s
replace_from old new zero (String.◌∷◌ c s) =
    let rest = replace_from old new 0 s in
    let after = replace_from old new (text_length old - 1) s in
    if starts_with old (String.◌∷◌ c s) then new ++ after else String.◌∷◌ c rest

-- `s.replace("", new)`
interleave : String → String → String
interleave new String.[] = new
interleave new (String.◌∷◌ c s) = new ++ String.◌∷◌ c (interleave new s)

unfoldable pub replace : String → String → String → String
unfolding replace_from interleave
replace old new s = if truthy old then replace_from old new 0 s else interleave new s

-- `sorted(reverse_map, key=len, reverse=True)`, with the originals.
unfoldable pub insert_long : String × String → Dict String → Dict String
unfolding text_length
insert_long e [] = e ∷ []
insert_long e (x ∷ xs) =
    let rest = insert_long e xs in
    if leb (text_length x.0) (text_length e.0) then e ∷ x ∷ xs else x ∷ rest

unfoldable pub sort_long : Dict String → Dict String
unfolding insert_long
sort_long [] = []
sort_long (e ∷ es) = insert_long e (sort_long es)

unfoldable pub replace_all : Dict String → String → String
unfolding replace
replace_all [] text = text
replace_all ((pseudo, original) ∷ es) text = replace_all es (replace pseudo original text)

-- `depseudonymize_text`; with an empty map the loop does nothing.
pub depseudonymize_text : String → Dict String → String
unfolding replace_all sort_long
depseudonymize_text text reverse_map = replace_all (sort_long reverse_map) text

-- `depseudonymize_tool_arguments`; with an empty map nothing is replaced.
unfoldable mutual
  unfolding depseudonymize_text

  pub depseudonymize_tool_arguments : Fields → Dict String → Fields
  depseudonymize_tool_arguments Fields.end m = Fields.end
  depseudonymize_tool_arguments (Fields.field k v fs) m =
      Fields.field k (depseudonymize_value v m) (depseudonymize_tool_arguments fs m)

  depseudonymize_value : Json → Dict String → Json
  depseudonymize_value Json.null m = Json.null
  depseudonymize_value (Json.bool b) m = Json.bool b
  depseudonymize_value (Json.num n) m = Json.num n
  depseudonymize_value (Json.str s) m = Json.str (depseudonymize_text s m)
  depseudonymize_value (Json.arr vs) m = Json.arr (depseudonymize_items vs m)
  depseudonymize_value (Json.obj fs) m = Json.obj (depseudonymize_tool_arguments fs m)

  depseudonymize_items : Items → Dict String → Items
  depseudonymize_items Items.nil m = Items.nil
  depseudonymize_items (Items.cons v vs) m =
      Items.cons (depseudonymize_item v m) (depseudonymize_items vs m)

  -- A list in a list is left as it is.
  depseudonymize_item : Json → Dict String → Json
  depseudonymize_item Json.null m = Json.null
  depseudonymize_item (Json.bool b) m = Json.bool b
  depseudonymize_item (Json.num n) m = Json.num n
  depseudonymize_item (Json.str s) m = Json.str (depseudonymize_text s m)
  depseudonymize_item (Json.arr vs) m = Json.arr vs
  depseudonymize_item (Json.obj fs) m = Json.obj (depseudonymize_tool_arguments fs m)

-- What /pseudonymize answers; the mapping leads from the originals to the pseudonyms.
pub record Pseudonymized : Type 0 where
  pub contains_pii : Bool
  pub text : String
  pub mapping : Dict String

abbrev pub Service : Type 0
Service = String → Option Pseudonymized

-- `for original, pseudo in mapping: reverse_map[pseudo] = original`
pub add_reverse : Dict String → Dict String → Dict String
unfolding insert
add_reverse [] m = m
add_reverse ((original, pseudo) ∷ es) m = add_reverse es (insert pseudo original m)

pub record Message : Type 0 where
  pub role : String
  pub content : Json

-- The text of a message that is to be scanned.
pub scanned_text : Json → Option String
unfolding strip
scanned_text (Json.str s) = if truthy (strip s) then some s else none
scanned_text _ = none

abbrev pub receive : Pseudonymized → Message → Dict String → Message × Dict String
receive r m reverse_map =
    if r.contains_pii
    then (record m { content = Json.str r.text }, add_reverse r.mapping reverse_map)
    else (m, reverse_map)

-- One message; `none` is the exception that is raised again.
pub pseudonymize_message : Service → Message → Dict String → Option (Message × Dict String)
unfolding scanned_text add_reverse
pseudonymize_message service m reverse_map = elim (scanned_text m.content) [
  | none ↦ some (m, reverse_map)
  | some s ↦ and_then (service s) (λ r. some (receive r m reverse_map))
]

pub pseudonymize_loop : Service → List Message → Dict String → Option (List Message × Dict String)
unfolding pseudonymize_message
pseudonymize_loop service [] reverse_map = some ([], reverse_map)
pseudonymize_loop service (m ∷ ms) reverse_map =
    and_then (pseudonymize_message service m reverse_map)
      (λ x. and_then (pseudonymize_loop service ms x.1) (λ y. some (x.0 ∷ y.0, y.1)))

pub pseudonymize_messages : Service → List Message → Option (List Message × Dict String)
unfolding pseudonymize_loop
pseudonymize_messages service ms = pseudonymize_loop service ms []

unfoldable pub pseudonymize_tool_result : Service → String → Dict String → String × Dict String
unfolding strip add_reverse
pseudonymize_tool_result service text reverse_map =
    if truthy (strip text)
    then elim (service text) [
      | none ↦ (text, reverse_map)
      | some r ↦
          if r.contains_pii
          then (r.text, add_reverse r.mapping reverse_map)
          else (text, reverse_map)
    ]
    else (text, reverse_map)

-- PII_PSEUDONYM_PATTERN: a bracket, a type, a colon, eight digits, a bracket.
abbrev is_type_char : ℕ → Bool
is_type_char c = (leb 65 c && leb c 90) || nat_beq c 95

abbrev pub is_hex : ℕ → Bool
is_hex c = (leb 97 c && leb c 102) || (leb 48 c && leb c 57)

digits_then : ℕ → String → Bool
digits_then n String.[] = false
digits_then zero (String.◌∷◌ c s) = nat_beq (code c) b']'
digits_then (suc n) (String.◌∷◌ c s) = is_hex (code c) && digits_then n s

type_then : String → Bool
unfolding digits_then
type_then String.[] = false
type_then (String.◌∷◌ c s) =
    let rest = type_then s in
    if is_type_char (code c) then rest else nat_beq (code c) b':' && digits_then 8 s

after_bracket : String → Bool
unfolding type_then
after_bracket String.[] = false
after_bracket (String.◌∷◌ c s) = is_type_char (code c) && type_then s

pub has_pseudonym : String → Bool
unfolding after_bracket
has_pseudonym String.[] = false
has_pseudonym (String.◌∷◌ c s) = (nat_beq (code c) b'[' && after_bracket s) || has_pseudonym s

pub record Stats : Type 0 where
  pub total : ℕ
  pub resolved : ℕ
  pub skipped : ℕ

abbrev pub no_stats : Stats
no_stats = record { total = 0; resolved = 0; skipped = 0 }

-- What /vault/resolve answers; a text that is missing leaves the old one.
pub record Resolved : Type 0 where
  pub text : Option String
  pub stats : Stats

-- `vault_resolve_tool_result`; a text with a pseudonym is not empty and has a bracket.
unfoldable pub vault_resolve_tool_result : (String → Option Resolved) → String → String × Stats
unfolding has_pseudonym
vault_resolve_tool_result resolve text =
    if has_pseudonym text
    then elim (resolve text) [ none ↦ (text, no_stats) | some r ↦ (get_or r.text text, r.stats) ]
    else (text, no_stats)
