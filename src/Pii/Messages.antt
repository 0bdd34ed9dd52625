-- ===== src/Pii/Messages.antt =====
-- `pseudonymize_messages` of pb-proxy/pii_middleware.py.
use mathlib.Core.List.{Memᴰ}
use powerbrain.Base.{◌≡◌, String, true, Option, none, some, List, [], ◌∷◌, All, if◌then◌else◌}
use powerbrain.Base.Dict.{Dict, lookup, has_key}
use powerbrain.Base.Json.{Json}
use powerbrain.Pii.{Service, Pseudonymized, Message, scanned_text}

-- Every pseudonym of a mapping has an original in a reverse map.
abbrev Reversible : Dict String → Dict String → Type 0
Reversible mapping reverse_map =
    All (λ (e : String × String). has_key e.1 reverse_map ≡ true) mapping

-- What a message has become: with a text to scan, the service has scanned it, the content is the
-- service's if it found PII, and each of its pseudonyms can be reversed.
abbrev Handled : Service → Dict String → Option String → Message → Message → Type 0
Handled service reverse_map none m m' = m' ≡ m
Handled service reverse_map (some s) m m' =
    (r : Pseudonymized) × (service s ≡ some r)
    × (m' ≡ (if r.contains_pii then record m { content = Json.str r.text } else m))
    × (r.contains_pii ≡ true → Reversible r.mapping reverse_map)

abbrev pub AllHandled : Service → Dict String → List Message → List Message → Type 0
AllHandled service reverse_map [] [] = Unit
AllHandled service reverse_map (m ∷ ms) (m' ∷ ms') =
    Handled service reverse_map (scanned_text m.content) m m'
    × AllHandled service reverse_map ms ms'
AllHandled service reverse_map _ _ = ⊥

-- A reverse map that has at least the keys of another.
abbrev pub Extends : Dict String → Dict String → Type 0
Extends a b = (k : String) → has_key k a ≡ true → has_key k b ≡ true

-- What the service has said of some text: an original and its pseudonym.
abbrev pub Given : Service → String → String → Type 0
Given service pseudo original =
    (text : String) × (r : Pseudonymized) × (service text ≡ some r)
    × Memᴰ (original, pseudo) r.mapping

-- A reverse map leads from a pseudonym to nothing but an original that it was given for.
abbrev pub Originals : Service → Dict String → Type 0
Originals service reverse_map =
    (pseudo original : String)
    → lookup pseudo reverse_map ≡ some original
    → Given service pseudo original
