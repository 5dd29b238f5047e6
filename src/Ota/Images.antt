-- ===== src/Ota/Images.antt =====
-- components/ota_manager/src/ota_manager.c: the downloads into a partition and into a buffer. What
-- the HTTP client and the flash return is an argument.
use esp32_s3_hot_tub_base.Base.{
  ℕ, ◌+◌, ◌*◌, ◌%◌, ◌^◌, Bool, not, ◌&&◌, ◌||◌, List, [], ◌∷◌, ◌++◌, Option, none, some, length,
  leb, ltb, ◌==◌, if◌then◌else◌,
}
use esp32_s3_hot_tub_base.Esp.{EspErr, ok, fail, no_mem, invalid_size, is_ok}

-- A read: it failed, or it has the bytes, none at the end; with what writing them returns.
pub record Read : Type 0 where
  pub bytes : Option (List ℕ)
  pub written : EspErr

-- What the calls of `download_partition_image` return. A content length that is not positive is 0.
pub record ImageRun : Type 0 where
  pub client : Bool
  pub opened : EspErr
  pub content_length : ℕ
  pub status_is_200 : Bool
  pub erased : EspErr
  pub reads : List Read

-- What became of the partition: it is as it was, its erasing failed and may have erased a part of it,
-- or it was erased and has these bytes at its start.
pub data Image : Type 0 where
  untouched partly_erased : Image
  holds : List ℕ → Image

-- The loop of `download_partition_image`, from the bytes that were written on. The bytes of a write
-- that failed are not counted.
unfoldable pub write_reads : ℕ → List ℕ → List Read → EspErr × List ℕ
write_reads size done [] = (ok, done)
write_reads size done (r ∷ rs) = elim r.bytes [
  | none ↦ (fail, done)
  | some [] ↦ (ok, done)
  | some (b ∷ bs) ↦
      let rest = write_reads size (done ++ (b ∷ bs)) rs in
      if ltb size (length done + length (b ∷ bs))
      then (invalid_size, done)
      else (if is_ok r.written then rest else (r.written, done))
]

-- `download_partition_image`, into a partition of a size. The length is compared to it as a `size_t`
-- of 32 bits, and to the bytes that were written as it is.
unfoldable pub download_partition_image : ImageRun → ℕ → EspErr × Image
unfolding write_reads
download_partition_image r size =
    let (err, done) = write_reads size [] r.reads in
    if not r.client
    then (no_mem, untouched)
    else (if not (is_ok r.opened)
        then (r.opened, untouched)
        else (if not r.status_is_200
            then (fail, untouched)
            else (if r.content_length == 0 || ltb size (r.content_length % 2 ^ 32)
                then (invalid_size, untouched)
                else (if not (is_ok r.erased)
                    then (r.erased, partly_erased)
                    else (if not (is_ok err)
                        then (err, holds done)
                        else (if length done == r.content_length
                            then (ok, holds done)
                            else (fail, holds done)))))))

-- What the calls of `ota_manager_download_url_to_buffer` return: whether there is a client, the
-- opening, the content length or 0, whether there is memory, and for each read its bytes, if it
-- did not fail, with whether a larger buffer can be had.
pub record BufferRun : Type 0 where
  pub client : Bool
  pub opened : EspErr
  pub content_length : ℕ
  pub has_memory : Bool
  pub reads : List (Option (List ℕ) × Bool)

-- The size of the first buffer.
abbrev pub first_size : ℕ → ℕ
first_size content_length =
    if ltb 0 content_length && ltb content_length 65536 then content_length + 1 else 65536

-- The loop: the result, the bytes in the buffer, and the size of the buffer.
unfoldable pub read_into : ℕ → List ℕ → List (Option (List ℕ) × Bool) → EspErr × List ℕ × ℕ
read_into size done [] = (ok, done, size)
read_into size done ((none, grows) ∷ rs) = (fail, done, size)
read_into size done ((some [], grows) ∷ rs) = (ok, done, size)
read_into size done ((some (b ∷ bs), grows) ∷ rs) =
    let done' = done ++ (b ∷ bs) in
    let grown = read_into (size * 2) done' rs in
    let rest = read_into size done' rs in
    if leb size (length done' + 1) then (if grows then grown else (no_mem, done', size)) else rest

-- `ota_manager_download_url_to_buffer`: the bytes before the terminator, and the size of the buffer.
unfoldable pub download_url_to_buffer : BufferRun → EspErr × Option (List ℕ × ℕ)
unfolding read_into
download_url_to_buffer r =
    let (err, done, size) = read_into (first_size r.content_length) [] r.reads in
    if not r.client
    then (no_mem, none)
    else (if not (is_ok r.opened)
        then (r.opened, none)
        else (if not r.has_memory
            then (no_mem, none)
            else (if is_ok err then (ok, some (done, size)) else (err, none))))
