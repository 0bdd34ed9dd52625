-- ===== src/Pii/Filter.antt =====
-- `filter_non_text_content` of pb-proxy/pii_middleware.py.
use powerbrain.Base.{
  ◌≡◌, refl, ap, ◌∙◌, and_then, String, Bool, true, false, Option, none, some, List, [], ◌∷◌, All,
  any, map, str_eq, if◌then◌else◌, Bool-cases, inl, inr, not, ◌||◌,
}
use powerbrain.Base.Json.{Json, Items, Fields, member}
use powerbrain.Pii.{Message}

-- `part.get("type") == "text"`
abbrev is_text_type : Option Json → Bool
is_text_type (some (Json.str t)) = str_eq t "text"
is_text_type _ = false

is_text_part : Fields → Bool
unfolding member
is_text_part fs = is_text_type (member "type" fs)

-- A part that is an object, and not a text.
abbrev non_text_part : Json → Bool
non_text_part (Json.obj fs) = not (is_text_part fs)
non_text_part _ = false

has_non_text_parts : Items → Bool
unfolding is_text_part
has_non_text_parts Items.nil = false
has_non_text_parts (Items.cons v vs) = non_text_part v || has_non_text_parts vs

pub is_mixed : Json → Bool
unfolding has_non_text_parts
is_mixed (Json.arr parts) = has_non_text_parts parts
is_mixed _ = false

placeholder : Json
placeholder = Json.obj (
    Fields.field "type" (Json.str "text") (
      Fields.field "text" (Json.str "[Non-text content removed — not scanned for PII by policy]")
        Fields.end))

-- The parts that are objects, each a text or replaced.
replaced_parts : Items → Items
unfolding is_text_part
replaced_parts Items.nil = Items.nil
replaced_parts (Items.cons (Json.obj fs) vs) =
    Items.cons (if is_text_part fs then Json.obj fs else placeholder) (replaced_parts vs)
replaced_parts (Items.cons Json.null vs) = replaced_parts vs
replaced_parts (Items.cons (Json.bool b) vs) = replaced_parts vs
replaced_parts (Items.cons (Json.num n) vs) = replaced_parts vs
replaced_parts (Items.cons (Json.str s) vs) = replaced_parts vs
replaced_parts (Items.cons (Json.arr ws) vs) = replaced_parts vs

pub replaced : Json → Json
unfolding replaced_parts
replaced (Json.arr parts) = Json.arr (replaced_parts parts)
replaced v = v

-- One message with content that is no text; `none` is the ValueError of "block".
abbrev act : String → Message → Option Message
act action m =
    if str_eq action "block"
    then none
    else if str_eq action "allow"
    then some m
    else some (record m { content = replaced m.content })

pub filter_non_text_content : List Message → String → Option (List Message × Bool)
unfolding is_mixed replaced
filter_non_text_content [] action = some ([], false)
filter_non_text_content (m ∷ ms) action =
    let rest = filter_non_text_content ms action in
    if is_mixed m.content
    then and_then (act action m) (λ m'. and_then rest (λ r. some (m' ∷ r.0, true)))
    else and_then rest (λ r. some (m ∷ r.0, r.1))

placeholder-text : (fs : Fields) → non_text_part placeholder ≡ false
unfolding placeholder is_text_part member
placeholder-text fs = refl

text_parts : (vs : Items) → has_non_text_parts (replaced_parts vs) ≡ false
unfolding replaced_parts has_non_text_parts
text_parts Items.nil = refl
text_parts (Items.cons (Json.obj fs) vs) = elim (Bool-cases (is_text_part fs)) [
  | inl y ↦ rw (y, y) (text_parts vs)
  | inr y ↦ rw (y, placeholder-text fs) (text_parts vs)
]
text_parts (Items.cons Json.null vs) = text_parts vs
text_parts (Items.cons (Json.bool b) vs) = text_parts vs
text_parts (Items.cons (Json.num n) vs) = text_parts vs
text_parts (Items.cons (Json.str s) vs) = text_parts vs
text_parts (Items.cons (Json.arr ws) vs) = text_parts vs

text_only : (v : Json) → is_mixed (replaced v) ≡ false
unfolding is_mixed replaced
text_only Json.null = refl
text_only (Json.bool b) = refl
text_only (Json.num n) = refl
text_only (Json.str s) = refl
text_only (Json.arr vs) = text_parts vs
text_only (Json.obj fs) = refl

abbrev pub mixed : Message → Bool
mixed m = is_mixed m.content

-- A message whose content is replaced if it is mixed.
abbrev pub cleaned : Message → Message
cleaned m = if mixed m then record m { content = replaced m.content } else m

filter_run :
    (action : String) (ms : List Message)
    → str_eq action "block" ≡ false
    → str_eq action "allow" ≡ false
    → filter_non_text_content ms action ≡ some (map cleaned ms, any mixed ms)
unfolding filter_non_text_content
filter_run action [] b a = refl
filter_run action (m ∷ ms) b a = elim (Bool-cases (mixed m)) [
  | inl y ↦
      rw (y, b, a)
        (ap (λ o. and_then o (λ r. some (record m { content = replaced m.content } ∷ r.0, true)))
          (filter_run action ms b a))
  | inr y ↦ rw y (ap (λ o. and_then o (λ r. some (m ∷ r.0, r.1))) (filter_run action ms b a))
]

All-cleaned : (ms : List Message) → All (λ m. mixed m ≡ false) (map cleaned ms)
All-cleaned [] = tt
All-cleaned (m ∷ ms) = elim (Bool-cases (mixed m)) [
  | inl y ↦ rw y (text_only m.content, All-cleaned ms)
  | inr y ↦ rw y (y, All-cleaned ms)
]

-- Any action but "block" and "allow" leaves no content with an object that is not a text, touches
-- only the messages that had one, and the flag tells whether there was any.
pub filter_non_text_content-clean :
    (action : String) (ms : List Message)
    → str_eq action "block" ≡ false
    → str_eq action "allow" ≡ false
    → (filter_non_text_content ms action ≡ some (map cleaned ms, any mixed ms))
      × All (λ m. mixed m ≡ false) (map cleaned ms)
filter_non_text_content-clean action ms b a = (filter_run action ms b a, All-cleaned ms)

-- "block" raises exactly if some content has an object that is not a text, and passes the messages
-- on as they are otherwise.
pub filter_non_text_content-block :
    (ms : List Message)
    → filter_non_text_content ms "block" ≡ (if any mixed ms then none else some (ms, false))
unfolding filter_non_text_content
filter_non_text_content-block [] = refl
filter_non_text_content-block (m ∷ ms) = elim (Bool-cases (mixed m)) [
  | inl y ↦ rw y refl
  | inr y ↦ rw y (
      ap (λ o. and_then o (λ r. some (m ∷ r.0, r.1))) (filter_non_text_content-block ms)
      ∙ elim (Bool-cases (any mixed ms)) [ inl z ↦ rw z refl | inr z ↦ rw z refl ])
]
