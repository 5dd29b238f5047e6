-- ===== src/Storage/RoundTrip.antt =====
-- Wi-Fi credentials that were stored are read back.
use esp32_s3_hot_tub_base.Base.{
  ℕ, zero, suc, ◌≡◌, ◌≤◌, ◌<◌, refl, ◌∙◌, sym, ap, subst, ◌-◌, true, List, [], ◌∷◌, ◌++◌, Option,
  some, length, length-append, length-replicate, take, drop, replicate, arith,
}
use esp32_s3_hot_tub_base.Esp.{EspErr, ok}
use esp32_s3_hot_tub_base.HotTub.State.{c_string}
use esp32_s3_hot_tub_base.Storage.Driver.{NvsStore, NvsStoreLaws, Storage, open_storage}
use esp32_s3_hot_tub_base.Storage.Credentials.{
  WifiRecord, to_bytes, of_bytes, has_nul, field_of, is_invalid, strnlen, checked, record_bytes,
  read_record, get_wifi_credentials, set_wifi_credentials, ssid_storage_size, password_storage_size,
}

module _ {ℓ} {A : Type ℓ} where
  take-append : (xs ys : List A) → take (length xs) (xs ++ ys) ≡ xs
  take-append [] ys = refl
  take-append (x ∷ xs) ys = ap (◌∷◌ x) (take-append xs ys)

  drop-append : (xs ys : List A) → drop (length xs) (xs ++ ys) ≡ ys
  drop-append [] ys = refl
  drop-append (x ∷ xs) ys = drop-append xs ys

of_bytes-to_bytes : (r : WifiRecord) → length r.ssid ≡ ssid_storage_size → of_bytes (to_bytes r) ≡ r
unfolding of_bytes to_bytes
of_bytes-to_bytes r l =
    ap
      (λ s. record {
        version = r.version;
        ssid = s;
        password = drop ssid_storage_size (r.ssid ++ r.password);
      })
      (subst (λ n. take n (r.ssid ++ r.password) ≡ r.ssid) l (take-append r.ssid r.password))
    ∙ ap (λ p. record { version = r.version; ssid = r.ssid; password = p })
        (subst (λ n. drop n (r.ssid ++ r.password) ≡ r.password) l (drop-append r.ssid r.password))

length-field_of : (size : ℕ) (str : List ℕ) → length str ≤ size → length (field_of size str) ≡ size
unfolding field_of
length-field_of size str le = omega (
  arith,
  length-append str (replicate (size - length str) 0),
  length-replicate (size - length str) (zero),
)

c_string-zeros : (n : ℕ) → c_string (replicate n 0) ≡ []
unfolding c_string
c_string-zeros zero = refl
c_string-zeros (suc n) = refl

c_string-cons : (b : ℕ) (bs : List ℕ) → c_string (suc b ∷ bs) ≡ suc b ∷ c_string bs
unfolding c_string
c_string-cons b bs = ground arith

c_string-append : (str : List ℕ) (n : ℕ) → c_string (c_string str ++ replicate n 0) ≡ c_string str
unfolding c_string
c_string-append [] n = c_string-zeros n
c_string-append (zero ∷ bs) n = c_string-zeros n
c_string-append (suc b ∷ bs) n =
    ap (λ x. c_string (x ++ replicate n 0)) (c_string-cons b bs)
    ∙ c_string-cons b (c_string bs ++ replicate n 0)
    ∙ ap (◌∷◌ (suc b)) (c_string-append bs n)
    ∙ sym (c_string-cons b bs)

has_nul-append : (xs : List ℕ) (n : ℕ) → 0 < n → has_nul (xs ++ replicate n 0) ≡ true
unfolding has_nul
has_nul-append [] zero lt = absurd (omega arith)
has_nul-append [] (suc n) lt = refl
has_nul-append (b ∷ bs) n lt = ground (arith, has_nul-append bs n lt)

-- The record that the writer stores.
abbrev stored : List ℕ → List ℕ → WifiRecord
stored ssid password = record {
  version = 1;
  ssid = field_of ssid_storage_size (c_string ssid);
  password = field_of password_storage_size (c_string password);
}

c_string-field_of :
    (size : ℕ) (str : List ℕ) → c_string (field_of size (c_string str)) ≡ c_string str
unfolding field_of
c_string-field_of size str = c_string-append str (size - length (c_string str))

has_nul-field_of :
    (size : ℕ) (str : List ℕ) → length str < size → has_nul (field_of size str) ≡ true
unfolding field_of
has_nul-field_of size str lt = has_nul-append str (size - length str) (omega arith)

-- The record of strings that fit passes the checks of the reader.
checked-stored :
    (nvs : NvsStore) (ssid password : List ℕ) (m n : ℕ)
    → 0 < length (c_string ssid)
    → length (c_string ssid) < ssid_storage_size
    → length (c_string password) < password_storage_size
    → length (c_string ssid) < m
    → length (c_string password) < n
    → checked nvs m n (stored ssid password) ≡ (ok, some (c_string ssid, c_string password))
unfolding checked is_invalid
checked-stored nvs ssid password m n nz ls lp lm ln = ground (
  arith,
  c_string-field_of ssid_storage_size ssid,
  c_string-field_of password_storage_size password,
  has_nul-field_of ssid_storage_size (c_string ssid) ls,
  has_nul-field_of password_storage_size (c_string password) lp,
)

length-to_bytes :
    (ssid password : List ℕ)
    → length (c_string ssid) < ssid_storage_size
    → length (c_string password) < password_storage_size
    → length (to_bytes (stored ssid password)) ≡ record_bytes
unfolding to_bytes
length-to_bytes ssid password ls lp = omega (
  arith,
  length-append (stored ssid password).ssid (stored ssid password).password,
  length-field_of ssid_storage_size (c_string ssid) (omega arith),
  length-field_of password_storage_size (c_string password) (omega arith),
)

module _ (nvs : NvsStore) where
  open nvs use {blob_size, get_blob, set_blob, commit}

  open_storage-ok :
      (s : Storage nvs) → (open_storage nvs s).0 ≡ ok → (open_storage nvs s).1.initialized ≡ true
  unfolding open_storage
  open_storage-ok s e = ground arith

  -- A write that reports success stored the record.
  pub set_wifi_credentials-ok :
      (ssid password : List ℕ) (s0 : Storage nvs)
      → (set_wifi_credentials nvs ssid password s0).0 ≡ ok
      → let s = (open_storage nvs s0).1 in
        let b = to_bytes (stored ssid password) in
        let s' = (set_wifi_credentials nvs ssid password s0).1 in
        (0 < length (c_string ssid))
        × (length (c_string ssid) < ssid_storage_size)
        × (length (c_string password) < password_storage_size)
        × ((set_blob b s.flash).0 ≡ ok)
        × ((commit (set_blob b s.flash).1).0 ≡ ok)
        × (s'.flash ≡ (commit (set_blob b s.flash).1).1)
        × (s'.initialized ≡ true)
  unfolding set_wifi_credentials strnlen
  set_wifi_credentials-ok ssid password s0 e = ground (arith, open_storage-ok s0)

  read_record-ok :
      (m n : ℕ) (b : List ℕ)
      → read_record nvs m n (ok, record_bytes) (ok, b) ≡ checked nvs m n (of_bytes b)
  unfolding read_record
  read_record-ok m n b = refl

  get_wifi_credentials-open :
      (m n : ℕ) (s : Storage nvs) (res : EspErr × Option (List ℕ × List ℕ))
      → s.initialized ≡ true
      → 0 < m
      → 0 < n
      → read_record nvs m n (blob_size s.flash) (get_blob s.flash) ≡ res
      → get_wifi_credentials nvs m n s ≡ (res.0, res.1, s)
  unfolding get_wifi_credentials open_storage
  get_wifi_credentials-open m n s res i lm ln e = ground (arith, e)

  -- With a storage that returns what it stored, credentials whose writing reports success are read
  -- back, as the C strings that were given, by a reader whose buffers have room for them.
  pub credentials_round_trip :
      NvsStoreLaws nvs
      → (ssid password : List ℕ) (m n : ℕ) (s0 : Storage nvs)
      → (set_wifi_credentials nvs ssid password s0).0 ≡ ok
      → length (c_string ssid) < m
      → length (c_string password) < n
      → let s = (set_wifi_credentials nvs ssid password s0).1 in
        get_wifi_credentials nvs m n s ≡ (ok, some (c_string ssid, c_string password), s)
  credentials_round_trip laws ssid password m n s0 e lm ln =
      let q = set_wifi_credentials-ok ssid password s0 e in
      let s : Storage nvs = (set_wifi_credentials nvs ssid password s0).1 in
      let back =
        laws.blob_back (to_bytes (stored ssid password)) (open_storage nvs s0).1.flash q.3 q.4 in
      let size : blob_size s.flash ≡ (ok, record_bytes) =
        ap blob_size q.5 ∙ back.0 ∙ ap (λ k. (ok, k)) (length-to_bytes ssid password q.1 q.2) in
      let bytes : get_blob s.flash ≡ (ok, to_bytes (stored ssid password)) =
        ap get_blob q.5 ∙ back.1 in
      get_wifi_credentials-open m n s (ok, some (c_string ssid, c_string password)) q.6
        (omega arith) (omega arith)
        (ap (λ k. read_record nvs m n k (get_blob s.flash)) size
          ∙ ap (read_record nvs m n (ok, record_bytes)) bytes
          ∙ read_record-ok m n (to_bytes (stored ssid password))
          ∙ ap (checked nvs m n) (
              of_bytes-to_bytes (stored ssid password)
                (length-field_of ssid_storage_size (c_string ssid) (omega arith)))
          ∙ checked-stored nvs ssid password m n q.0 q.1 q.2 lm ln)
