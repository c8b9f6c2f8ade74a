-- ===== src/Uploads/Bounds.antt =====
-- What can be staged for an upload, and what a reassembled stream holds
-- (app/services/file/chunked_upload.py).
use fast_api_boiler_plate.Base.{
  ℕ, zero, suc, ◌+◌, ◌*◌, ◌≤◌, ◌<◌, ◌||◌, Option-cases, ◌≡◌, true, false, ◌&&◌, some, List, [], ◌∷◌,
  ◌++◌, arith, Str, ltb, leb, ◌==◌, length, length-append, All, inl, inr, Bool-cases, some_inj, ap,
}
use fast_api_boiler_plate.Uploads.{
  Limits, Upload, Staged, chunk_limit, save, save_chunk, open_stream, pieces,
}

-- The requests for one upload, each with a chunk's number and bytes.
abbrev pub save_all : Limits → Upload → List (ℕ × Str) → Staged → Staged
save_all limits u [] d = d
save_all limits u ((n, bytes) ∷ calls) d =
    save_all limits u calls (save_chunk limits (some u) n bytes d).1

abbrev pub IsAllowed : Limits → Upload → ℕ × Str → Type 0
IsAllowed limits u (n, bytes) =
    (1 ≤ n) × (n ≤ u.total_chunks) × (1 ≤ length bytes) × (length bytes ≤ chunk_limit limits u)

save-All :
    (limits : Limits) (u : Upload) (n : ℕ) (bytes : Str) (d : Staged)
    → IsAllowed limits u (n, bytes)
    → All (IsAllowed limits u) d
    → All (IsAllowed limits u) (save n bytes d)
unfolding save
save-All limits u n bytes [] new h = (new, tt)
save-All limits u n bytes ((m, old) ∷ d) new h = elim (Bool-cases (m == n)) [
  | inl t ↦ rw t (new, h.1)
  | inr t ↦ rw t (h.0, save-All limits u n bytes d new h.1)
]

save_chunk-All :
    (limits : Limits) (u : Upload) (n : ℕ) (bytes : Str) (d : Staged)
    → All (IsAllowed limits u) d
    → All (IsAllowed limits u) (save_chunk limits (some u) n bytes d).1
unfolding save_chunk
save_chunk-All limits u n bytes d h = elim (Bool-cases (leb 1 n && leb n u.total_chunks)) [
  | inr t ↦ rw t h
  | inl t ↦ elim (Bool-cases (length bytes == 0 || ltb (chunk_limit limits u) (length bytes))) [
    | inl e ↦ rw (t, e) h
    | inr e ↦ rw (t, e) (save-All limits u n bytes d (ground arith) h)
  ]
]

-- Whatever is sent, in whatever order and however often, every staged chunk has a number from 1
-- to the declared count, is not empty, and is within the limit for a chunk.
pub save_all-All :
    (limits : Limits) (u : Upload) (calls : List (ℕ × Str)) (d : Staged)
    → All (IsAllowed limits u) d
    → All (IsAllowed limits u) (save_all limits u calls d)
save_all-All limits u [] d h = h
save_all-All limits u ((n, bytes) ∷ calls) d h =
    save_all-All limits u calls (save_chunk limits (some u) n bytes d).1
      (save_chunk-All limits u n bytes d h)

open_stream-le :
    (limits : Limits) (u : Upload) (n : ℕ) (d : Staged) {bytes : Str}
    → All (IsAllowed limits u) d
    → open_stream n d ≡ some bytes
    → length bytes ≤ chunk_limit limits u
unfolding open_stream
open_stream-le limits u n [] h e = absurd (cc)
open_stream-le limits u n ((m, old) ∷ d) {bytes} h e = elim (Bool-cases (m == n)) [
  | inl t ↦ let here : old ≡ bytes = some_inj (rw t at e) in omega (arith, ap length here, h.0.3)
  | inr t ↦ open_stream-le limits u n d h.1 (rw t at e)
]

abbrev pub concat : (ℕ → Str) → ℕ → ℕ → Str
concat contents n zero = []
concat contents n (suc k) = contents n ++ concat contents (n + 1) k

-- With every chunk staged, in whatever order, the stream is the chunks by ascending number, and
-- it ends well exactly when they have the declared size.
pub pieces-concat :
    (contents : ℕ → Str) (size total n k : ℕ) (d : Staged)
    → ((m : ℕ) → n ≤ m → m < n + k → open_stream m d ≡ some (contents m))
    → pieces size total n k d ≡ (concat contents n k, total + length (concat contents n k) == size)
unfolding pieces
pieces-concat contents size total n zero d h = ground arith
pieces-concat contents size total n (suc k) d h =
    let rest =
      pieces-concat contents size (total + length (contents n)) (n + 1) k d
        (λ m le lt. h m (omega arith) (omega arith)) in
    rw (pieces, h n (omega arith) (omega arith), rest)
      (ap (λ (x : ℕ). (contents n ++ concat contents (n + 1) k, x == size))
        (omega (arith, length-append (contents n) (concat contents (n + 1) k))))

-- A stream that ends well has the declared number of bytes, whatever was staged.
pub pieces-length :
    (size total n k : ℕ) (d : Staged)
    → (pieces size total n k d).1 ≡ true
    → total + length (pieces size total n k d).0 ≡ size
unfolding pieces
pieces-length size total n zero d h = ground arith
pieces-length size total n (suc k) d h = elim (Option-cases (open_stream n d)) [
  | inl missing ↦ absurd (let bad : false ≡ true = rw (pieces, missing) at h in cc)
  | inr (bytes, there) ↦
      let rest = pieces-length size (total + length bytes) (n + 1) k d (rw (pieces, there) at h) in
      rw (pieces, there)
        (omega
          (arith, rest, length-append bytes (pieces size (total + length bytes) (n + 1) k d).0))
]

-- A stream of allowed chunks is no longer than the limit for a chunk times their count.
pub length-pieces-le :
    (limits : Limits) (u : Upload) (size total n k : ℕ) (d : Staged)
    → All (IsAllowed limits u) d
    → length (pieces size total n k d).0 ≤ k * chunk_limit limits u
unfolding pieces
length-pieces-le limits u size total n zero d h = omega arith
length-pieces-le limits u size total n (suc k) d h = elim (Option-cases (open_stream n d)) [
  | inl missing ↦ rw (pieces, missing) (omega arith)
  | inr (bytes, there) ↦
      let le = open_stream-le limits u n d {bytes = bytes} h there in
      let rest = length-pieces-le limits u size (total + length bytes) (n + 1) k d h in
      rw (pieces, there)
        (omega
          (arith, rest, le, length-append bytes (pieces size (total + length bytes) (n + 1) k d).0))
]
