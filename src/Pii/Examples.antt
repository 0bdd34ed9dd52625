-- ===== src/Pii/Examples.antt =====
-- Messages, pseudonyms and parts for pb-proxy/pii_middleware.py, and the theorems there.
use powerbrain.Base.{
  ◌≡◌, refl, String, true, false, none, some, List, [], ◌∷◌, All, any, map, str_eq, if◌then◌else◌,
}
use powerbrain.Base.Dict.{Dict}
use powerbrain.Base.Json.{Json, Items, Fields}
use powerbrain.Base.Text.{starts_with}
use powerbrain.Pii.{
  Service, Message, depseudonymize_text, depseudonymize_tool_arguments, has_pseudonym,
}
use powerbrain.Pii.Texts.{depseudonymize_text-apart}
use powerbrain.Pii.Filter.{
  filter_non_text_content, mixed, cleaned, filter_non_text_content-clean,
  filter_non_text_content-block,
}

abbrev service : Service
service s =
    if str_eq s "I am Ann"
    then some (record {
      contains_pii = true;
      text = "I am [PERSON:a04de656]";
      mapping = ("Ann", "[PERSON:a04de656]") ∷ [];
    })
    else some (record { contains_pii = false; text = ""; mapping = [] })

abbrev chat : List Message
chat =
    record { role = "system"; content = Json.str "  " }
    ∷ record { role = "user"; content = Json.str "I am Ann" }
    ∷ record { role = "user"; content = Json.str "Hello" }
    ∷ []

abbrev hidden : List Message
hidden =
    record { role = "system"; content = Json.str "  " }
    ∷ record { role = "user"; content = Json.str "I am [PERSON:a04de656]" }
    ∷ record { role = "user"; content = Json.str "Hello" }
    ∷ []

abbrev reverse_map : Dict String
reverse_map = ("[PERSON:a04de656]", "Ann") ∷ []

restores : depseudonymize_text "Hi [PERSON:a04de656]!" reverse_map ≡ "Hi Ann!"
unfolding depseudonymize_text
restores = refl

matches : has_pseudonym "see [PERSON:a04de656]" ≡ true
unfolding has_pseudonym
matches = refl

-- A text in a list in a list keeps its pseudonym.
nested_kept :
    depseudonymize_tool_arguments
      (Fields.field "names"
        (Json.arr
          (Items.cons (Json.arr (Items.cons (Json.str "[PERSON:a04de656]") Items.nil)) Items.nil))
        Fields.end)
      reverse_map
    ≡ Fields.field "names"
        (Json.arr
          (Items.cons (Json.arr (Items.cons (Json.str "[PERSON:a04de656]") Items.nil)) Items.nil))
        Fields.end
unfolding depseudonymize_tool_arguments
nested_kept = refl

depseudonymize_text-apart_example : depseudonymize_text "Hello" reverse_map ≡ "Hello"
unfolding starts_with
depseudonymize_text-apart_example = depseudonymize_text-apart "Hello" reverse_map ((refl, refl), tt)

abbrev part : String → Json
part t = Json.obj (Fields.field "type" (Json.str t) Fields.end)

abbrev picture : List Message
picture =
    record {
      role = "user";
      content = Json.arr (Items.cons (part "text") (Items.cons (part "image_url") Items.nil));
    }
    ∷ []

filter_non_text_content-clean_example :
    (filter_non_text_content picture "placeholder" ≡ some (map cleaned picture, any mixed picture))
    × All (λ m. mixed m ≡ false) (map cleaned picture)
filter_non_text_content-clean_example =
    filter_non_text_content-clean "placeholder" picture refl refl

filter_non_text_content-block_example :
    filter_non_text_content picture "block"
    ≡ (if any mixed picture then none else some (picture, false))
filter_non_text_content-block_example = filter_non_text_content-block picture
