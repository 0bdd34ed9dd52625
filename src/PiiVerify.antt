-- ===== src/PiiVerify.antt =====
-- shared/pii_verify_provider.py: the verifier that goes over the hits of the PII scanner. The answer
-- of the model to the ambiguous hits is an argument, and so are `json.loads` and Python's `int`.
mod Recall
mod Verdicts
mod Examples
use Prim.Native.Char.{code}
use Prim.Native.String.{◌++◌, char_at}
use powerbrain.Base.{
  ℕ, zero, suc, ◌+◌, ◌-◌, min, String, Bool, true, false, ◌&&◌, not, Option, none, some, List, [],
  ◌∷◌, length, keep, contains, ltb, leb, nat_beq, truthy, str_eq, and_then, get_or, if◌then◌else◌,
  map,
}
use powerbrain.Base.Dict.{Dict, lookup, insert}
use powerbrain.Base.Json.{Json, Fields, truth}
use powerbrain.Base.Text.{text_length, text_slice, replace_char, lower}

-- A hit of the scanner, a location of a PIIScanResult.
pub record Location : Type 0 where
  pub kind : String
  pub start : ℕ
  pub stop : ℕ

pub record Candidate : Type 0 where
  pub entity_type : String
  pub text : String
  pub start : ℕ
  pub stop : ℕ
  pub context : String

-- PATTERN_TYPES
abbrev pub pattern_types : List String
pattern_types =
    "IBAN_CODE" ∷ "EMAIL_ADDRESS" ∷ "PHONE_NUMBER" ∷ "CREDIT_CARD" ∷ "IP_ADDRESS" ∷ "DE_TAX_ID"
    ∷ "DE_SOCIAL_SECURITY" ∷ "DE_DATE_OF_BIRTH" ∷ "DATE_OF_BIRTH" ∷ []

pub is_pattern : Candidate → Bool
is_pattern c = contains c.entity_type pattern_types

-- CONTEXT_WINDOW
abbrev context_window : ℕ
context_window = 60

pub build_candidate : String → Location → Candidate
unfolding text_length text_slice replace_char
build_candidate text l =
    let raw =
      if ltb l.start l.stop && leb l.stop (text_length text)
      then text_slice l.start l.stop text
      else "" in
    record {
      entity_type = l.kind;
      text = raw;
      start = l.start;
      stop = l.stop;
      context = replace_char b'\n' (char_at " " 0) (
          text_slice (l.start - context_window) l.start text
          ++ ("[["
              ++ (raw
                  ++ ("]]"
                      ++ text_slice l.stop (min (text_length text) (l.stop + context_window))
                          text))));
    }

pub build_candidates_from_locations : String → List Location → List Candidate
unfolding build_candidate
build_candidates_from_locations text ls = map (build_candidate text) ls

pub record Bucket : Type 0 where
  pub total : ℕ
  pub forwarded : ℕ
  pub kept : ℕ
  pub reverted : ℕ

pub record VerifyStats : Type 0 where
  pub input_count : ℕ
  pub forwarded : ℕ
  pub reviewed : ℕ
  pub kept : ℕ
  pub reverted : ℕ
  pub errors : ℕ
  pub by_entity_type : Dict Bucket

abbrev empty_bucket : Bucket
empty_bucket = record { total = 0; forwarded = 0; kept = 0; reverted = 0 }

-- The first loop: the buckets' totals, and what is forwarded.
count_in : Candidate → Bucket → Bucket
unfolding is_pattern
count_in c b =
    if is_pattern c
    then record b { total = b.total + 1; forwarded = b.forwarded + 1 }
    else record b { total = b.total + 1 }

split_buckets : List Candidate → Dict Bucket → Dict Bucket
unfolding count_in lookup insert
split_buckets [] d = d
split_buckets (c ∷ cs) d =
    split_buckets cs
      (insert c.entity_type (count_in c (get_or (lookup c.entity_type d) empty_bucket)) d)

pub ambiguous : List Candidate → List Candidate
unfolding is_pattern
ambiguous cs = keep (λ c. not (is_pattern c)) cs

count_forwarded : List Candidate → ℕ
unfolding is_pattern
count_forwarded cs = length (keep is_pattern cs)

-- The second loop: the verdicts in the places of the ambiguous candidates; `none` is IndexError.
pub place_verdicts : List Candidate → List Bool → Option (List Bool)
unfolding is_pattern
place_verdicts [] vs = some []
place_verdicts (c ∷ cs) [] =
    let rest = place_verdicts cs [] in
    if is_pattern c then and_then rest (λ ks. some (true ∷ ks)) else none
place_verdicts (c ∷ cs) (v ∷ vs) =
    and_then (place_verdicts cs (if is_pattern c then v ∷ vs else vs))
      (λ ks. some ((if is_pattern c then true else v) ∷ ks))

decide_bucket : Bool → Bucket → Bucket
decide_bucket v b =
    if v then record b { kept = b.kept + 1 } else record b { reverted = b.reverted + 1 }

decide_buckets : List Candidate → List Bool → Dict Bucket → Dict Bucket
unfolding decide_bucket lookup insert
decide_buckets [] vs d = d
decide_buckets (c ∷ cs) [] d = d
decide_buckets (c ∷ cs) (v ∷ vs) d =
    decide_buckets cs vs
      (insert c.entity_type (decide_bucket v (get_or (lookup c.entity_type d) empty_bucket)) d)

abbrev pub all_true : List Candidate → List Bool
all_true [] = []
all_true (c ∷ cs) = true ∷ all_true cs

abbrev pub count_true : List Bool → ℕ
count_true [] = 0
count_true (b ∷ bs) = (if b then 1 else 0) + count_true bs

-- The statistics of a call that has gone through. A difference below 0 counts as 0.
pub final_stats : List Candidate → List Bool → List Bool → VerifyStats
unfolding split_buckets decide_buckets ambiguous count_forwarded
final_stats cs vs ks = record {
  input_count = length cs;
  forwarded = count_forwarded cs;
  reviewed = length (ambiguous cs);
  kept = count_true ks;
  reverted = length cs - count_true ks - 0 - count_forwarded cs;
  errors = 0;
  by_entity_type = decide_buckets (ambiguous cs) vs (split_buckets cs []);
}

pub no_ambiguous : List Candidate → List Bool × VerifyStats
unfolding split_buckets count_forwarded
no_ambiguous cs = (
  all_true cs,
  record {
    input_count = length cs;
    forwarded = count_forwarded cs;
    reviewed = 0;
    kept = count_forwarded cs;
    reverted = 0;
    errors = 0;
    by_entity_type = split_buckets cs [];
  },
)

pub failed_review : List Candidate → List Bool × VerifyStats
unfolding split_buckets ambiguous count_forwarded
failed_review cs = (
  all_true cs,
  record {
    input_count = length cs;
    forwarded = count_forwarded cs;
    reviewed = length (ambiguous cs);
    kept = length cs;
    reverted = 0;
    errors = length (ambiguous cs);
    by_entity_type = split_buckets cs [];
  },
)

-- What follows on the review: `none` is an exception of the backend.
pub after_review : List Candidate → Option (List Bool) → Option (List Bool × VerifyStats)
unfolding failed_review place_verdicts final_stats
after_review cs none = some (failed_review cs)
after_review cs (some vs) = and_then (place_verdicts cs vs) (λ ks. some (ks, final_stats cs vs ks))

pub review :
    (List Candidate → Option (List Bool))
    → List Candidate
    → List Candidate
    → Option (List Bool × VerifyStats)
unfolding no_ambiguous after_review
review verify_ambiguous cs [] = some (no_ambiguous cs)
review verify_ambiguous cs (a ∷ rest) = after_review cs (verify_ambiguous (a ∷ rest))

unfoldable pub verify :
    (List Candidate → Option (List Bool)) → List Candidate → Option (List Bool × VerifyStats)
unfolding review ambiguous
verify verify_ambiguous cs = review verify_ambiguous cs (ambiguous cs)

-- `_JSON_OBJECT_RE`: the first brace that is closed before any other brace.
to_brace : String → Option String
to_brace String.[] = none
to_brace (String.◌∷◌ c s) =
    let rest = to_brace s in
    if nat_beq (code c) b'}'
    then some (String.◌∷◌ c "")
    else if nat_beq (code c) b'{'
    then none
    else and_then rest (λ t. some (String.◌∷◌ c t))

pub first_object : String → Option String
unfolding to_brace
first_object String.[] = none
first_object (String.◌∷◌ c s) =
    let later = first_object s in
    if nat_beq (code c) b'{'
    then elim (to_brace s) [ none ↦ later | some t ↦ some (String.◌∷◌ c t) ]
    else later

abbrev pub set_at : {A : Type 0} → ℕ → A → List A → List A
set_at n a [] = []
set_at zero a (x ∷ xs) = a ∷ xs
set_at (suc n) a (x ∷ xs) = x ∷ set_at n a xs

-- A key that is no number, or none of 0 to n - 1, is passed over.
pub set_verdicts : (String → Option ℕ) → Fields → List Bool → List Bool
set_verdicts int_of Fields.end vs = vs
set_verdicts int_of (Fields.field k v fs) vs =
    set_verdicts int_of fs (elim (int_of k) [ none ↦ vs | some i ↦ set_at i (truth v) vs ])

abbrev pub replicate_true : ℕ → List Bool
replicate_true zero = []
replicate_true (suc n) = true ∷ replicate_true n

-- Anything but an object is a ValueError.
pub verdicts_of : (String → Option ℕ) → ℕ → Json → Option (List Bool)
unfolding set_verdicts
verdicts_of int_of n (Json.obj fs) = some (set_verdicts int_of fs (replicate_true n))
verdicts_of int_of n _ = none

pub parse_verdicts : (String → Option Json) → (String → Option ℕ) → String → ℕ → Option (List Bool)
unfolding first_object verdicts_of
parse_verdicts loads int_of content n =
    and_then (first_object content) (λ t. and_then (loads t) (verdicts_of int_of n))

pub record Scan : Type 0 where
  pub contains_pii : Bool
  pub entity_counts : Dict ℕ
  pub entity_locations : List Location

-- The locations that stay; `none` if the lists are not of one length.
pub filter_locations : List Bool → List Location → Option (List Location)
filter_locations [] [] = some []
filter_locations (b ∷ bs) (l ∷ ls) =
    and_then (filter_locations bs ls) (λ kept. some (if b then l ∷ kept else kept))
filter_locations _ _ = none

pub count_types : List Location → Dict ℕ → Dict ℕ
unfolding lookup insert
count_types [] d = d
count_types (l ∷ ls) d = count_types ls (insert l.kind (get_or (lookup l.kind d) 0 + 1) d)

abbrev pub is_empty : List Location → Bool
is_empty [] = true
is_empty (l ∷ ls) = false

pub scan_of : List Location → Scan
unfolding count_types
scan_of kept = record {
  contains_pii = not (is_empty kept);
  entity_counts = count_types kept [];
  entity_locations = kept;
}

unfoldable pub apply_verdicts_to_scan_result : List Location → List Bool → Option Scan
unfolding filter_locations scan_of
apply_verdicts_to_scan_result ls ks =
    and_then (filter_locations ks ls) (λ kept. some (scan_of kept))

-- `create_pii_verify_provider`: the answers of the backend; "noop" keeps every hit.
noop : List Candidate → Option (List Bool)
noop cs = some (all_true cs)

unfoldable pub create_pii_verify_provider :
    String
    → String
    → String
    → (List Candidate → Option (List Bool))
    → List Candidate
    → Option (List Bool)
unfolding noop lower
create_pii_verify_provider backend base_url model llm =
    if str_eq (lower backend) "llm" && (truthy base_url && truthy model) then llm else noop
