-- ===== src/Ingest/Examples.antt =====
-- Chunks and the loop over them, of ingestion/ingestion_api.py, on concrete texts.
use powerbrain.Base.{◌≡◌, ◌≤◌, refl, String, some, List, [], ◌∷◌, All, arith}
use powerbrain.Base.Text.{text_length}
use powerbrain.Ingest.Chunks.{chunk_text, rejoin, chunk_text-rejoin}

chunks_run : chunk_text "abcdefg" 4 1 ≡ some ("abcd" ∷ "defg" ∷ "g" ∷ [])
unfolding chunk_text text_length
chunks_run = refl

chunk_text-rejoin_example :
    (cs : List String) × (chunk_text "abcdefg" 4 1 ≡ some cs)
    × (All (λ c. text_length c ≤ 4) cs × (rejoin 1 cs ≡ "abcdefg"))
chunk_text-rejoin_example = chunk_text-rejoin "abcdefg" 4 1 (omega arith)
