-- ===== src/WebServer/Etags.antt =====
-- The cache of checksums gives every file the checksum of its bytes.
use esp32_s3_hot_tub_base.Base.{
  ℕ, zero, suc, ◌%◌, ◌≡◌, ◌≢◌, ◌≤◌, ◌<◌, refl, ◌∙◌, ap, sym, ◌^◌, Bool, true, if◌then◌else◌, List,
  [], ◌∷◌, Option, none, some, length, take, set, replicate, All, arith,
}
use esp32_s3_hot_tub_base.WebServer.Files.{
  same_bytes, EtagEntry, EtagCache, empty_cache, cached_crc, etag_from, file_etag,
}

-- The string is not empty and fits the path of an entry, with its terminator.
abbrev pub IsShort : List ℕ → Type 0
IsShort path = (path ≢ []) × (length path < 96)

same_bytes-eq : (a b : List ℕ) → same_bytes a b ≡ true → a ≡ b
unfolding same_bytes
same_bytes-eq [] [] e = refl
same_bytes-eq [] (y ∷ b) e = absurd (ground arith)
same_bytes-eq (x ∷ a) [] e = absurd (ground arith)
same_bytes-eq (x ∷ a) (y ∷ b) e = ground (arith, same_bytes-eq a b)

take-short : (n : ℕ) (path : List ℕ) → length path ≤ n → take n path ≡ path
take-short zero [] le = refl
take-short zero (b ∷ bs) le = absurd (omega arith)
take-short (suc n) [] le = refl
take-short (suc n) (b ∷ bs) le = ap (◌∷◌ b) (take-short n bs (omega arith))

module _ (crc_of size_of : List ℕ → ℕ) where
  -- An entry for a path has the checksum of its file.
  abbrev pub IsOfFile : EtagEntry → Type 0
  IsOfFile e = e.path ≢ [] → e.crc ≡ crc_of e.path

  -- The requests for files, each with whether the file can be opened.
  unfoldable pub after_requests : List (List ℕ × Bool) → EtagCache → EtagCache
  unfolding file_etag
  after_requests [] c = c
  after_requests ((path, opens) ∷ rs) c =
      let read_crc = if opens then some (crc_of path) else none in
      after_requests rs (file_etag read_crc path (size_of path) c).1

  set-IsOfFile :
      (i : ℕ) (e : EtagEntry) (es : List EtagEntry)
      → IsOfFile e
      → All IsOfFile es
      → All IsOfFile (set es i e)
  set-IsOfFile i e [] f a = tt
  set-IsOfFile zero e (d ∷ es) f a = (f, a.1)
  set-IsOfFile (suc i) e (d ∷ es) f a = (a.0, set-IsOfFile i e es f a.1)

  cached-right :
      (path : List ℕ) (size crc : ℕ) (es : List EtagEntry)
      → path ≢ []
      → All IsOfFile es
      → cached_crc path size es ≡ some crc
      → crc ≡ crc_of path
  unfolding cached_crc
  cached-right path size crc [] ne a e = absurd (ground arith)
  cached-right path size crc (d ∷ es) ne a e =
      ground (arith, same_bytes-eq d.path path, ap crc_of, cached-right path size crc es ne a.1)

  etag_from-IsOfFile :
      (found read_crc : Option ℕ) (path : List ℕ) (c : EtagCache)
      → IsShort path
      → ((crc : ℕ) → read_crc ≡ some crc → crc ≡ crc_of path)
      → All IsOfFile c.entries
      → All IsOfFile (etag_from found read_crc path (size_of path) c).1.entries
  unfolding etag_from
  etag_from-IsOfFile (some crc) read_crc path c short r a = a
  etag_from-IsOfFile none none path c short r a = a
  etag_from-IsOfFile none (some crc) path c short r a =
      let t : take 95 path ≡ path = take-short 95 path (omega (arith, short.1)) in
      set-IsOfFile c.next (record { path = take 95 path; size = size_of path % 2 ^ 32; crc = crc })
        c.entries (λ ne. r crc refl ∙ ap crc_of (sym t)) a

  etag-IsOfFile :
      (opens : Bool) (path : List ℕ) (c : EtagCache)
      → IsShort path
      → All IsOfFile c.entries
      → let read_crc = if opens then some (crc_of path) else none in
        All IsOfFile (file_etag read_crc path (size_of path) c).1.entries
  unfolding file_etag
  etag-IsOfFile opens path c short a =
      etag_from-IsOfFile (cached_crc path (size_of path) c.entries)
        (if opens then some (crc_of path) else none) path c short (λ crc e. ground arith) a

  etag_from-right :
      (found : Option ℕ) (path : List ℕ) (c : EtagCache)
      → ((crc : ℕ) → found ≡ some crc → crc ≡ crc_of path)
      → (etag_from found (some (crc_of path)) path (size_of path) c).0
        ≡ some (crc_of path, size_of path)
  unfolding etag_from
  etag_from-right none path c h = refl
  etag_from-right (some crc) path c h = ap (λ k. some (k, size_of path)) (h crc refl)

  requests-IsOfFile :
      (rs : List (List ℕ × Bool)) (c : EtagCache)
      → All (λ r. IsShort r.0) rs
      → All IsOfFile c.entries
      → All IsOfFile (after_requests rs c).entries
  unfolding after_requests
  requests-IsOfFile [] c s a = a
  requests-IsOfFile ((path, opens) ∷ rs) c s a =
      requests-IsOfFile rs
        (file_etag (if opens then some (crc_of path) else none) path (size_of path) c).1 s.1
        (etag-IsOfFile opens path c s.0 a)

  replicate-IsOfFile :
      (n : ℕ) → All IsOfFile (replicate n (record { path = []; size = 0; crc = 0 }))
  replicate-IsOfFile zero = tt
  replicate-IsOfFile (suc n) = (λ ne. absurd (ne refl), replicate-IsOfFile n)

  -- While the files stay as they are, and for paths that are not empty and shorter than 96 bytes: after
  -- any requests from an empty cache, the validator of a file that can be opened is made of the
  -- checksum of its own bytes and its size, as without the cache.
  pub etag_is_of_file :
      (rs : List (List ℕ × Bool)) (path : List ℕ)
      → All (λ r. IsShort r.0) rs
      → IsShort path
      → (file_etag (some (crc_of path)) path (size_of path) (after_requests rs empty_cache)).0
        ≡ some (crc_of path, size_of path)
  unfolding file_etag
  etag_is_of_file rs path s short =
      let c : EtagCache = after_requests rs empty_cache in
      let a : All IsOfFile c.entries = requests-IsOfFile rs empty_cache s (replicate-IsOfFile 16) in
      etag_from-right (cached_crc path (size_of path) c.entries) path c
        (λ crc e. cached-right path (size_of path) crc c.entries short.0 a e)
