-- ===== src/WebServer/Table.antt =====
-- The table of WebSocket clients: what a change of one slot keeps, and its invariant.
use esp32_s3_hot_tub_base.Base.{
  ℕ, ◌≡◌, ◌≢◌, ◌<◌, refl, ◌∙◌, ◌⊎◌, inl, inr, ap, Bool, true, false, List, [], ◌∷◌, none, All,
  length, Bool-cases, arith,
}
use esp32_s3_hot_tub_base.WebServer.Clients.{WsSlot, find_slot, change_slot, has_fd, filled}

-- No client has two slots.
abbrev pub DistinctFds : List WsSlot → Type 0
DistinctFds [] = Unit {0}
DistinctFds (s ∷ ss) = (s.fd ≢ 0 → find_slot (has_fd s.fd) ss ≡ none) × DistinctFds ss

-- A client has failed less than 30 times in a row, and nothing is being sent to a free slot.
abbrev pub IsSound : WsSlot → Type 0
IsSound s = (s.fd ≢ 0 → s.fail_count < 30) × (s.fd ≡ 0 → s.send_inflight ≡ false)

-- A change keeps the descriptor or frees the slot.
abbrev pub Frees : (WsSlot → WsSlot) → Type 0
Frees f = (s : WsSlot) → ((f s).fd ≡ s.fd) ⊎ ((f s).fd ≡ 0)

pub length-change_slot :
    (test : WsSlot → Bool) (f : WsSlot → WsSlot) (ss : List WsSlot)
    → length (change_slot test f ss) ≡ length ss
unfolding change_slot
length-change_slot test f [] = refl
length-change_slot test f (s ∷ ss) = ground (arith, length-change_slot test f ss)

pub change_slot-All {ℓ} :
    (P : WsSlot → Type ℓ) (test : WsSlot → Bool) (f : WsSlot → WsSlot) (ss : List WsSlot)
    → ((s : WsSlot) → test s ≡ true → P s → P (f s))
    → All P ss
    → All P (change_slot test f ss)
unfolding change_slot
change_slot-All P test f [] h a = tt
change_slot-All P test f (s ∷ ss) h a = elim (Bool-cases (test s)) [
  | inl e ↦ rw e (h s e a.0, a.1)
  | inr e ↦ rw e (a.0, change_slot-All P test f ss h a.1)
]

change_slot-absent :
    (d : ℕ) (test : WsSlot → Bool) (f : WsSlot → WsSlot) (ss : List WsSlot)
    → d ≢ 0
    → Frees f
    → find_slot (has_fd d) ss ≡ none
    → find_slot (has_fd d) (change_slot test f ss) ≡ none
unfolding find_slot change_slot
change_slot-absent d test f [] nz k e = refl
change_slot-absent d test f (s ∷ ss) nz k e =
    ground (arith, k s, change_slot-absent d test f ss nz k)

pub change_slot-DistinctFds :
    (test : WsSlot → Bool) (f : WsSlot → WsSlot) (ss : List WsSlot)
    → Frees f
    → DistinctFds ss
    → DistinctFds (change_slot test f ss)
unfolding change_slot
change_slot-DistinctFds test f [] k d = tt
change_slot-DistinctFds test f (s ∷ ss) k d = elim (Bool-cases (test s)) [
  | inl e ↦ rw e (elim (k s) [
    | inl q ↦ (λ nz. ap (λ n. find_slot (has_fd n) ss) q ∙ d.0 (λ z. nz (q ∙ z)), d.1)
    | inr q ↦ (λ nz. absurd (nz q), d.1)
  ])
  | inr e ↦ rw e (
    λ nz. change_slot-absent s.fd test f ss nz k (d.0 nz),
    change_slot-DistinctFds test f ss k d.1,
  )
]

-- A descriptor that no slot has may be put into a free one.
filled-absent :
    (d fd now_us g : ℕ) (ss : List WsSlot)
    → d ≢ fd
    → find_slot (has_fd d) ss ≡ none
    → find_slot (has_fd d) (change_slot (has_fd 0) (filled fd now_us g) ss) ≡ none
unfolding find_slot change_slot
filled-absent d fd now_us g [] ne e = refl
filled-absent d fd now_us g (s ∷ ss) ne e = ground (arith, filled-absent d fd now_us g ss ne)

found-ne :
    (fd : ℕ) (s : WsSlot) (ss : List WsSlot) → find_slot (has_fd fd) (s ∷ ss) ≡ none → s.fd ≢ fd
unfolding find_slot
found-ne fd s ss e q = ground arith

absent-tail :
    (fd : ℕ) (s : WsSlot) (ss : List WsSlot)
    → find_slot (has_fd fd) (s ∷ ss) ≡ none
    → find_slot (has_fd fd) ss ≡ none
unfolding find_slot
absent-tail fd s ss e = ground arith

pub filled-DistinctFds :
    (fd now_us g : ℕ) (ss : List WsSlot)
    → find_slot (has_fd fd) ss ≡ none
    → DistinctFds ss
    → DistinctFds (change_slot (has_fd 0) (filled fd now_us g) ss)
unfolding change_slot
filled-DistinctFds fd now_us g [] e d = tt
filled-DistinctFds fd now_us g (s ∷ ss) e d = elim (Bool-cases (has_fd 0 s)) [
  | inl q ↦ rw q (λ nz. absent-tail fd s ss e, d.1)
  | inr q ↦ rw q (
    λ nz. filled-absent s.fd fd now_us g ss (found-ne fd s ss e) (d.0 nz),
    filled-DistinctFds fd now_us g ss (absent-tail fd s ss e) d.1,
  )
]
