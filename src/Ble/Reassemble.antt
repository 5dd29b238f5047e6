-- ===== src/Ble/Reassemble.antt =====
-- What a client gets when it joins the frames of a message.
use esp32_s3_hot_tub_base.Base.{
  ℕ, zero, suc, ◌+◌, ◌-◌, ◌*◌, ◌%◌, ◌^◌, ◌<◌, ◌≤◌, ◌≡◌, refl, ◌∙◌, ap, sym, inl, inr, true, false,
  List, [], ◌∷◌, ◌++◌, length, length-append, take, drop, length-take, All, leb, Bool-cases, arith,
}
use esp32_s3_hot_tub_base.Esp.{EspErr, ok, is_ok}
use mathlib.Core.List.{append_assoc}
use esp32_s3_hot_tub_base.Ble.Frames.{
  Frame, frame_bytes, max_payload_of, begin_header, chunk_header, end_header, SendRun, send_frames,
  total_chunks, send_long, send_short, send_chunked, reserved_header,
}
use esp32_s3_hot_tub_base.Ble.Sizes.{
  chunk_header-length, begin_header-length, end_header-length, total_chunks-enough, total_chunks-le,
}

-- The bytes of the message that the frames carry.
abbrev pub joined : List Frame → List ℕ
joined [] = []
joined (f ∷ fs) = f.content ++ joined fs

-- Every notification is taken, and there is memory for every frame.
pub record AllSent (r : SendRun) : Type 0 where
  pub first_ok : (bytes : List ℕ) → r.first bytes ≡ ok
  pub memory_ok : (i : ℕ) → r.frame_memory i ≡ true
  pub chunk_ok : (i : ℕ) (bytes : List ℕ) → r.chunk i bytes ≡ ok
  pub last_ok : (bytes : List ℕ) → r.last bytes ≡ ok

abbrev pub IsAtMost : ℕ → Frame → Type 0
IsAtMost max f = length (frame_bytes f) ≤ max

module _ {ℓ} {A : Type ℓ} where
  take-drop : (n : ℕ) (xs : List A) → take n xs ++ drop n xs ≡ xs
  take-drop zero xs = refl
  take-drop (suc n) [] = refl
  take-drop (suc n) (x ∷ xs) = ap (◌∷◌ x) (take-drop n xs)

  length-drop : (n : ℕ) (xs : List A) → length (drop n xs) ≡ length xs - n
  length-drop zero xs = omega arith
  length-drop (suc n) [] = omega arith
  length-drop (suc n) (x ∷ xs) = omega (arith, length-drop n xs)

empty-of : (xs : List ℕ) → length xs ≤ 0 → [] ≡ xs
empty-of [] le = refl
empty-of (x ∷ xs) le = absurd (omega arith)

-- Enough chunks carry the rest of the message, each within the size of a notification.
module _ (r : SendRun) (all : AllSent r) (id total max : ℕ) where
  frames-joined :
      (left index : ℕ) (rest : List ℕ)
      → id < 2 ^ 32
      → total < 1000000
      → index + left ≤ total
      → 32 < max
      → max < 65536
      → length rest ≤ left * (max - 32)
      → let e = send_frames r id total max left index rest in
        (e.0 ≡ ok) × (joined e.1 ≡ rest) × All (IsAtMost max) e.1
  unfolding send_frames
  frames-joined zero index rest a b le lo hi enough = (refl, empty-of rest (omega arith), tt)
  frames-joined (suc left) index rest a b le lo hi enough =
      let header = chunk_header id (index + 1) total in
      let h = chunk_header-length id (index + 1) total a (omega arith) b in
      let available = (max + 2 ^ 32 - length header) % 2 ^ 32 in
      let v : available ≡ max - length header = omega (arith, h) in
      let l : suc left * (max - 32) ≡ left * (max - 32) + (max - 32) = omega arith in
      let d = length-drop available rest in
      let next =
        frames-joined left (index + 1) (drop available rest) a b (omega arith) lo hi
          (omega (arith, h, l, d)) in
      let t = length-append header (take available rest) in
      let t' = length-take available rest in
      let content = take available rest in
      let sent : is_ok (r.chunk index (header ++ content)) ≡ true =
        ap is_ok (all.chunk_ok index (header ++ content)) in
      rw (all.memory_ok index) (
        rw sent (
          next.0,
          ap (λ x. content ++ x) next.1 ∙ take-drop available rest,
          (omega (arith, t, t', v, h), next.2),
        ))

All-append : {A : Type 0} (P : A → Type 0) (xs ys : List A) → All P xs → All P ys → All P (xs ++ ys)
All-append P [] ys p q = q
All-append P (x ∷ xs) ys p q = (p.0, All-append P xs ys p.1 q)

joined-append : (fs gs : List Frame) → joined (fs ++ gs) ≡ joined fs ++ joined gs
joined-append [] gs = refl
joined-append (f ∷ fs) gs =
    ap (λ x. f.content ++ x) (joined-append fs gs)
    ∙ sym (append_assoc f.content (joined fs) (joined gs))

append-empty : (xs : List ℕ) → xs ++ [] ≡ xs
append-empty [] = refl
append-empty (x ∷ xs) = ap (◌∷◌ x) (append-empty xs)

-- A message is carried whole, in frames that are short enough.
abbrev pub Carries : ℕ → List ℕ → EspErr × List Frame → Type 0
Carries max payload (err, frames) =
    (err ≡ ok) × (joined frames ≡ payload) × All (IsAtMost max) frames

send_long-Carries :
    (r : SendRun) (max id : ℕ) (payload : List ℕ)
    → AllSent r
    → id < 2 ^ 32
    → 32 < max
    → max < 65536
    → 0 < length payload
    → length payload < 1000000
    → Carries max payload (send_long r max id payload)
unfolding send_long
send_long-Carries r max id payload all a lo hi nz lt =
    let begin : Frame = record { header = begin_header id (length payload) max; content = [] } in
    let end : Frame = record { header = end_header id; content = [] } in
    let total = total_chunks (length payload) max in
    let few = total_chunks-le (length payload) max lo nz in
    let chunks = send_frames r id total max total 0 payload in
    let q =
      frames-joined r all id total max total 0 payload a (omega (arith, few)) (omega arith) lo hi
        (total_chunks-enough (length payload) max lo) in
    let begun : is_ok (r.first (frame_bytes begin)) ≡ true =
      ap is_ok (all.first_ok (frame_bytes begin)) in
    let wide : leb max reserved_header ≡ false = ground arith in
    let sent : is_ok chunks.0 ≡ true = ap is_ok q.0 in
    let ended : is_ok (r.last (frame_bytes end)) ≡ true =
      ap is_ok (all.last_ok (frame_bytes end)) in
    let b = begin_header-length id (length payload) max a lt lo hi in
    let c = end_header-length id a in
    let all_short : All (IsAtMost max) (begin ∷ (chunks.1 ++ (end ∷ []))) = (
      omega (arith, b, length-append (begin_header id (length payload) max) []),
      All-append (IsAtMost max) chunks.1 (end ∷ []) q.2
          (omega (arith, c, length-append (end_header id) []), tt),
    ) in
    rw begun (
      rw wide (
        rw sent (
          rw ended (
            refl,
            joined-append chunks.1 (end ∷ []) ∙ append-empty (joined chunks.1) ∙ q.1,
            all_short,
          ))))

send_short-Carries :
    (r : SendRun) (max : ℕ) (payload : List ℕ)
    → AllSent r
    → length payload ≤ max
    → Carries max payload (send_short r payload)
unfolding send_short
send_short-Carries r max payload all le =
    let sent : is_ok (r.first payload) ≡ true = ap is_ok (all.first_ok payload) in
    rw sent (refl, append-empty payload, (le, tt))

-- On a connection with an MTU of more than 35 bytes, when every notification is taken and there is
-- memory for each: a message of 1 to 999,999 bytes is sent with the result `ok`, the frames carry
-- exactly its bytes in their order, and none is longer than the connection allows.
pub send_chunked-Carries :
    (r : SendRun) (mtu msg_id : ℕ) (payload : List ℕ)
    → AllSent r
    → 35 < mtu
    → mtu < 65536
    → 0 < length payload
    → length payload < 1000000
    → let e = send_chunked r mtu msg_id payload in Carries (max_payload_of mtu) payload (e.0, e.1)
unfolding send_chunked max_payload_of
send_chunked-Carries r mtu msg_id payload all lo hi nz lt =
    let max = max_payload_of mtu in
    let id = (msg_id + 1) % 2 ^ 32 in
    let wide : 32 < max = ground arith in
    let narrow : max < 65536 = ground arith in
    elim (Bool-cases (leb (length payload) max)) [
      | inl e ↦ rw e (send_short-Carries r max payload all (ground arith))
      | inr e ↦ rw e (send_long-Carries r max id payload all (omega arith) wide narrow nz lt)
    ]
