-- ===== src/PiiVerify/Examples.antt =====
-- A text with three hits for shared/pii_verify_provider.py, and the theorems there.
use powerbrain.Base.{
  ℕ, ◌-◌, ◌≡◌, refl, String, Bool, true, false, Option, none, some, List, [], ◌∷◌, str_eq,
  if◌then◌else◌,
}
use powerbrain.Base.Json.{Json, Fields}
use powerbrain.PiiVerify.{
  Location, Candidate, build_candidates_from_locations, VerifyStats, verify, parse_verdicts, Scan,
  apply_verdicts_to_scan_result,
}
use powerbrain.PiiVerify.Recall.{count_false, count_kind, verify-reverted, verify-keeps_patterns}

abbrev note : String
note = "Chef a@b.c Bonn"

abbrev hits : List Location
hits =
    record { kind = "PERSON"; start = 0; stop = 4 }
    ∷ record { kind = "EMAIL_ADDRESS"; start = 5; stop = 10 }
    ∷ record { kind = "LOCATION"; start = 11; stop = 15 }
    ∷ []

-- The model drops the first of the two hits that it is asked about.
abbrev model : List Candidate → Option (List Bool)
model cs = some (false ∷ true ∷ [])

abbrev stats : VerifyStats
stats = record {
  input_count = 3;
  forwarded = 1;
  reviewed = 2;
  kept = 2;
  reverted = 0;
  errors = 0;
  by_entity_type =
      ("PERSON", record { total = 1; forwarded = 0; kept = 0; reverted = 1 })
      ∷ ("EMAIL_ADDRESS", record { total = 1; forwarded = 1; kept = 0; reverted = 0 })
      ∷ ("LOCATION", record { total = 1; forwarded = 0; kept = 1; reverted = 0 })
      ∷ [];
}

reviewed :
    verify model (build_candidates_from_locations note hits)
    ≡ some (false ∷ true ∷ true ∷ [], stats)
unfolding verify build_candidates_from_locations
reviewed = refl

abbrev left : Scan
left = record {
  contains_pii = true;
  entity_counts = ("EMAIL_ADDRESS", 1) ∷ ("LOCATION", 1) ∷ [];
  entity_locations =
      record { kind = "EMAIL_ADDRESS"; start = 5; stop = 10 }
      ∷ record { kind = "LOCATION"; start = 11; stop = 15 }
      ∷ [];
}

applied : apply_verdicts_to_scan_result hits (false ∷ true ∷ true ∷ []) ≡ some left
unfolding apply_verdicts_to_scan_result
applied = refl

-- One hit is dropped, and none is reported as reverted.
verify-reverted_example : stats.reverted ≡ count_false (false ∷ true ∷ true ∷ []) - stats.forwarded
verify-reverted_example =
    verify-reverted model (build_candidates_from_locations note hits) (false ∷ true ∷ true ∷ [])
      stats reviewed

verify-keeps_patterns_example :
    count_kind "EMAIL_ADDRESS" left.entity_locations ≡ count_kind "EMAIL_ADDRESS" hits
verify-keeps_patterns_example =
    verify-keeps_patterns model note "EMAIL_ADDRESS" hits (false ∷ true ∷ true ∷ []) stats left refl
      reviewed applied

abbrev loads : String → Option Json
loads s =
    if str_eq s "{\"0\": false}"
    then some (Json.obj (Fields.field "0" (Json.bool false) Fields.end))
    else none

abbrev int_of : String → Option ℕ
int_of s = if str_eq s "0" then some 0 else none

parsed : parse_verdicts loads int_of "Sure: {\"0\": false} done" 2 ≡ some (false ∷ true ∷ [])
unfolding parse_verdicts
parsed = refl
