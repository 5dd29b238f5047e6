-- ===== src/Ota/Complete.antt =====
-- The firmware is only installed over a complete image, and no image goes beyond its partition.
use esp32_s3_hot_tub_base.Base.{
  ℕ, ◌+◌, ◌≡◌, ◌≤◌, refl, ◌⊎◌, inl, inr, Bool, true, false, List, [], ◌∷◌, ◌++◌, Option, none, some,
  length, length-append, ltb, Bool-cases, Option-cases, arith,
}
use esp32_s3_hot_tub_base.Esp.{EspErr, ok, invalid_state, is_ok}
use esp32_s3_hot_tub_base.WebServer.Files.{Label}
use esp32_s3_hot_tub_base.Ota.Urls.{storage_label_for_next_app, storage_image_url}
use esp32_s3_hot_tub_base.Ota.Images.{
  Read, ImageRun, Image, untouched, partly_erased, holds, write_reads, download_partition_image,
}
use esp32_s3_hot_tub_base.Ota.Update.{
  UpdateRun, Update, Ota, requested, failed, preparing_storage, publish_progress, stopped,
  install_firmware, write_partition, update_storage, run_github_ota,
}

abbrev pub Fits : ℕ → Image → Type 0
Fits size untouched = Unit {0}
Fits size partly_erased = Unit {0}
Fits size (holds bytes) = length bytes ≤ size

abbrev pub IsWhole : ℕ → Image → Type 0
IsWhole n untouched = ⊥
IsWhole n partly_erased = ⊥
IsWhole n (holds bytes) = length bytes ≡ n

below : (m n : ℕ) → ltb m n ≡ false → n ≤ m
below m n e = ground arith

write_reads-Fits :
    (size : ℕ) (done : List ℕ) (rs : List Read)
    → length done ≤ size
    → length (write_reads size done rs).1 ≤ size
unfolding write_reads
write_reads-Fits size done [] le = le
write_reads-Fits size done (r ∷ rs) le = elim (Option-cases r.bytes) [
  | inl e ↦ rw e le
  | inr ([], e) ↦ rw e le
  | inr (b ∷ bs, e) ↦ rw e (elim (Bool-cases (ltb size (length done + length (b ∷ bs)))) [
    | inl f ↦ rw f le
    | inr f ↦
        let rest = write_reads-Fits size (done ++ (b ∷ bs)) rs (
          omega
            (arith, length-append done (b ∷ bs), below size (length done + length (b ∷ bs)) f)) in
        rw f (elim (Bool-cases (is_ok r.written)) [ inl g ↦ rw g rest | inr g ↦ rw g le ])
  ])
]

-- The download of an image stays in the partition, and one that reports success is complete.
download-Fits : (r : ImageRun) (size : ℕ) → Fits size (download_partition_image r size).1
unfolding download_partition_image
download-Fits r size = ground (arith, write_reads-Fits size [] r.reads (omega arith))

download-IsWhole :
    (r : ImageRun) (size : ℕ)
    → (download_partition_image r size).0 ≡ ok
    → IsWhole r.content_length (download_partition_image r size).1
unfolding download_partition_image
download-IsWhole r size e = ground arith

-- What is true of the partition that an update wrote, and of the firmware.
abbrev pub SoundImage : UpdateRun → Bool → Option (Label × Image) → Type 0
SoundImage r installed none = installed ≡ false
SoundImage r installed (some (l, image)) =
    (storage_label_for_next_app r.next_app ≡ some l)
    × ((size : ℕ) × ((r.partition l ≡ some (size, false))
          × Fits size image
          × ((installed ≡ false) ⊎ IsWhole r.image.content_length image)))

abbrev pub IsSoundUpdate : UpdateRun → Update → Type 0
IsSoundUpdate r u = (is_ok u.result ≡ u.installed) × SoundImage r u.installed u.image

install-IsSoundUpdate :
    (r : UpdateRun) (l : Label) (size : ℕ) (image : Image) (o : Ota)
    → storage_label_for_next_app r.next_app ≡ some l
    → r.partition l ≡ some (size, false)
    → Fits size image
    → IsWhole r.image.content_length image
    → IsSoundUpdate r (install_firmware r (l, image) o).0
unfolding install_firmware
install-IsSoundUpdate r l size image o named there fits whole =
    elim (Bool-cases (is_ok r.firmware)) [
      | inl e ↦ rw e (refl, (named, (size, (there, fits, inr whole))))
      | inr e ↦ rw e (e, (named, (size, (there, fits, inl refl))))
    ]

is_ok-ok : (e : EspErr) → is_ok e ≡ true → e ≡ ok
is_ok-ok e q = ground arith

write_partition-IsSoundUpdate :
    (r : UpdateRun) (l : Label) (p : Option (ℕ × Bool)) (o : Ota)
    → storage_label_for_next_app r.next_app ≡ some l
    → r.partition l ≡ p
    → IsSoundUpdate r (write_partition r l p o).0
unfolding write_partition
write_partition-IsSoundUpdate r l none o named there = (refl, refl)
write_partition-IsSoundUpdate r l (some (size, true)) o named there = (refl, refl)
write_partition-IsSoundUpdate r l (some (size, false)) o named there =
    let image = download_partition_image r.image size in
    let fits = download-Fits r.image size in
    elim (Bool-cases (is_ok image.0)) [
      | inl e ↦ rw e (
          install-IsSoundUpdate r l size image.1 (publish_progress preparing_storage 0 none none o)
            named there fits (download-IsWhole r.image size (is_ok-ok image.0 e)))
      | inr e ↦ rw e (e, (named, (size, (there, fits, inl refl))))
    ]

update_storage-IsSoundUpdate :
    (r : UpdateRun) (url storage_url : List ℕ) (l : Label) (o : Ota)
    → storage_label_for_next_app r.next_app ≡ some l
    → IsSoundUpdate r (update_storage r url storage_url l o).0
unfolding update_storage
update_storage-IsSoundUpdate r url storage_url l o named =
    let err = (storage_image_url r.has_memory r.has_memory' url storage_url l).0 in
    elim (Bool-cases (is_ok err)) [
      | inl e ↦ rw e (write_partition-IsSoundUpdate r l (r.partition l) o named refl)
      | inr e ↦ rw e (e, refl)
    ]

begun-IsSoundUpdate :
    (r : UpdateRun) (url storage_url : List ℕ) (n : Option Label) (o lost : Ota)
    → storage_label_for_next_app r.next_app ≡ n
    → let begun : Update × Ota = elim n [
      | none ↦ (stopped invalid_state, lost)
      | some l ↦ update_storage r url storage_url l o
    ] in
      IsSoundUpdate r begun.0
begun-IsSoundUpdate r url storage_url none o lost named = (refl, refl)
begun-IsSoundUpdate r url storage_url (some l) o lost named =
    update_storage-IsSoundUpdate r url storage_url l o named

-- Whatever the calls of an update return: it reports success exactly when the firmware was
-- installed; the only storage partition that it writes is the one of the next application, which
-- is not mounted, and it writes no more bytes than the partition has; and where the firmware was
-- installed, this partition has exactly as many bytes of the image as the server announced.
pub run_github_ota-IsSoundUpdate :
    (r : UpdateRun) (url storage_url : List ℕ) (o : Ota)
    → IsSoundUpdate r (run_github_ota r url storage_url o).0
unfolding run_github_ota
run_github_ota-IsSoundUpdate r [] storage_url o = (refl, refl)
run_github_ota-IsSoundUpdate r (c ∷ cs) storage_url o0 =
    let o = publish_progress requested 0 (some 0) none (record o0 { fast_heartbeat = true }) in
    let lost = publish_progress failed 0 (some 0) none o in
    elim (Bool-cases r.has_context) [
      | inl e ↦ rw e (
          begun-IsSoundUpdate r (c ∷ cs) storage_url (storage_label_for_next_app r.next_app) o lost
            refl)
      | inr e ↦ rw e (refl, refl)
    ]
