-- ===== src/Uploads/Tests.antt =====
-- The uploads' theorems at a concrete input.
use fast_api_boiler_plate.Base.{
  ℕ, ◌≡◌, ◌+◌, refl, [], ◌∷◌, ◌==◌, arith, codes, length, All, Str, List, if◌then◌else◌,
}
use fast_api_boiler_plate.Uploads.{
  Limits, Upload, Staged, chunk_limit, save, save_chunk, open_stream, pieces,
}
use fast_api_boiler_plate.Uploads.Bounds.{
  save_all, IsAllowed, concat, save_all-All, pieces-concat, pieces-length,
}

abbrev limits : Limits
limits = record { max_total_size = 100; max_chunk_size = 4; max_chunks = 10; upload_ttl = 60 }

abbrev upload : Upload
upload = record {
  upload_id = codes "upload-1";
  user_id = codes "u";
  total_chunks = 2;
  total_size = 5;
}

-- The second chunk comes first; an empty one is refused.
abbrev calls : List (ℕ × Str)
calls = (2, codes "de") ∷ (1, codes "abc") ∷ (2, []) ∷ []

abbrev staged : Staged
staged = (2, codes "de") ∷ (1, codes "abc") ∷ []

staged_now : save_all limits upload calls [] ≡ staged
unfolding save save_chunk chunk_limit
staged_now = refl

save_all-All_example : All (IsAllowed limits upload) (save_all limits upload calls [])
save_all-All_example = save_all-All limits upload calls [] tt

abbrev contents : ℕ → Str
contents n = if n == 1 then codes "abc" else codes "de"

pieces-concat_example :
    pieces 5 0 1 2 staged ≡ (concat contents 1 2, 0 + length (concat contents 1 2) == 5)
unfolding open_stream
pieces-concat_example = pieces-concat contents 5 0 1 2 staged (λ m le lt. ground arith)

pieces-length_example : 0 + length (pieces 5 0 1 2 staged).0 ≡ 5
unfolding open_stream pieces
pieces-length_example = pieces-length 5 0 1 2 staged refl
