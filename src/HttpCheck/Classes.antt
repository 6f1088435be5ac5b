-- ===== src/HttpCheck/Classes.antt =====
-- What an HTTP answer means, for each category, and how much of a body is read.
use teslamate_watchdog.Shared.{
  ℕ, ◌+◌, ◌≤◌, ◌<◌, String, ◌≡◌, refl, ap, ◌≢◌, ◌⊎◌, inl, inr, Bool, true, false, List, [], ◌++◌,
  arith, length, length-append, leb, or_default, Bool-cases,
}
use teslamate_watchdog.HttpCheck.SignIn.{ShowsSignIn}
use teslamate_watchdog.HttpCheck.{
  HttpCategory, connection_failure, request_failure, Stream, end, broken, chunk, Response, Got,
  raised, got, max_body_bytes, read_chunks,
}

-- The body is read, up to the limit, and these are its bytes.
abbrev pub Reads : Response → List ℕ → Type 0
Reads r bytes = read_chunks 0 [] r.body ≡ inr bytes

-- every chunk of a body has at most `k` bytes
abbrev pub Chunked : ℕ → Stream → Type 0
Chunked k end = Unit
Chunked k (broken _) = Unit
Chunked k (chunk c rest) = (length c ≤ k) × Chunked k rest

read_chunks-length :
    (k total : ℕ) (bytes : List ℕ) (s : Stream) (read : List ℕ)
    → Chunked k s
    → total ≡ length bytes
    → total < max_body_bytes
    → read_chunks total bytes s ≡ inr read
    → length read < max_body_bytes + k
unfolding read_chunks
read_chunks-length k total bytes end read h e b r = ground arith
read_chunks-length k total bytes (broken f) read h e b r = cc
read_chunks-length k total bytes (chunk c rest) read h e b r =
    elim (Bool-cases (leb max_body_bytes (total + length c))) [
      | inl full ↦
          let same : bytes ++ c ≡ read = cc (rw full at r) in
          omega (arith, length-append {0} bytes c, ap length same, h.0)
      | inr more ↦
          read_chunks-length k (total + length c) (bytes ++ c) rest read h.1
            (omega (arith, length-append {0} bytes c)) (ground arith) (ground arith)
    ]

-- If every chunk of a body has at most k bytes and the body could be read, fewer bytes than the
-- limit plus k are kept.
pub read_chunks_bound :
    (k : ℕ) (s : Stream) (read : List ℕ)
    → Chunked k s
    → read_chunks 0 [] s ≡ inr read
    → length read < max_body_bytes + k
read_chunks_bound k s read h r = read_chunks-length k 0 [] s read h refl (omega arith) r

module _ (lower : String → String) (decode : List ℕ → String) (search : String → Bool)
    (markers : List String) where
  -- What was got from the web interface, for each category.
  abbrev pub Means : Got → HttpCategory → Type 0
  Means (raised f) category =
      ((n : String) × (t : String) × (f ≡ connection_failure n t)
        × (category ≡ HttpCategory.unreachable))
      ⊎ ((n : String) × (t : String) × (f ≡ request_failure n t)
          × (category ≡ HttpCategory.unknown))
  Means (got r) HttpCategory.logged_out =
      ((300 ≤ r.status_code) × (r.status_code < 400) × (search (or_default r.location "") ≡ true))
      ⊎ ((r.status_code ≡ 200)
          × ((bytes : List ℕ) × Reads r bytes × ShowsSignIn lower markers (decode bytes)))
  Means (got r) HttpCategory.authenticated =
      (r.status_code ≡ 200)
      × ((bytes : List ℕ) × Reads r bytes × ¬ ShowsSignIn lower markers (decode bytes))
  Means (got r) HttpCategory.application_error = 500 ≤ r.status_code
  Means (got r) HttpCategory.unreachable =
      (r.status_code ≡ 200)
      × ((n : String) × (t : String) × (read_chunks 0 [] r.body ≡ inl (connection_failure n t)))
  Means (got r) HttpCategory.unknown =
      ((300 ≤ r.status_code) × (r.status_code < 400) × (search (or_default r.location "") ≡ false))
      ⊎ ((r.status_code ≡ 200)
          × ((n : String) × (t : String) × (read_chunks 0 [] r.body ≡ inl (request_failure n t))))
      ⊎ ((r.status_code < 500)
          × (r.status_code ≢ 200)
          × ((r.status_code < 300) ⊎ (400 ≤ r.status_code)))
