-- ===== src/Circle/Cap.antt =====
-- `read_reply` of crates/xusdc-light-attester/src/circle.rs: the cap on what is read of a reply.
use miden_usdcx.Prelude.{
  ℕ, ◌≤◌, ◌≡◌, ◌≢◌, Bool, true, false, List, ◌++◌, Bytes, arith, length, length-append, ok,
  Result-cases, inl, inr, ◌↔◌,
}
use mathlib.Core.List.{append-nil, append_assoc}
use miden_usdcx.Circle.{
  Chunks, end, chunk, broken, RawResponse, max_response_body_bytes, read_chunks, read_reply,
}
use miden_usdcx.Circle.Status.{too_many_requests}

-- Everything that a reply sends, and whether it arrives whole.
pub joined : Chunks → Bytes
joined end = List.[]
joined (chunk c cs) = c ++ joined cs
joined (broken e) = List.[]

pub is_whole : Chunks → Bool
is_whole end = true
is_whole (chunk c cs) = is_whole cs
is_whole (broken e) = false

read_chunks_lem :
    (body : Bytes) (cs : Chunks) (r : Bytes)
    → length body ≤ max_response_body_bytes
    → read_chunks body cs ≡ ok r
    → (r ≡ (body ++ joined cs)) × (length r ≤ max_response_body_bytes) × (is_whole cs ≡ true)
unfolding read_chunks joined is_whole
read_chunks_lem body end r small h = ground (arith, append-nil body)
read_chunks_lem body (chunk c cs) r small h =
    ground (
      arith,
      append_assoc body c (joined cs),
      length-append body c,
      read_chunks_lem (body ++ c) cs r,
    )
read_chunks_lem body (broken e) r small h = ground arith

read_chunks-total :
    (body : Bytes) (cs : Chunks)
    → is_whole cs ≡ true
    → length (body ++ joined cs) ≤ max_response_body_bytes
    → read_chunks body cs ≡ ok (body ++ joined cs)
unfolding read_chunks joined is_whole
read_chunks-total body end w small = ground (arith, append-nil body)
read_chunks-total body (chunk c cs) w small = ground (
  arith,
  append_assoc body c (joined cs),
  length-append body c,
  length-append (body ++ c) (joined cs),
  read_chunks-total (body ++ c) cs,
)
read_chunks-total body (broken e) w small = ground arith

-- A reply is read exactly when it arrives whole, is at most one MiB, and is not a 429: the result
-- then holds the status and all that was sent.
pub read_reply_lem :
    (status : ℕ) (cs : Chunks) (r : RawResponse)
    → (read_reply status cs ≡ ok r) ↔ (
        (is_whole cs ≡ true)
        × (length (joined cs) ≤ max_response_body_bytes)
        × (status ≢ too_many_requests)
        × (r ≡ record { status = status; body = joined cs }))
unfolding read_reply
read_reply_lem status cs r = elim (Result-cases (read_chunks (List.[]) cs)) [
  | inl (body, e) ↦
      let l = read_chunks_lem (List.[]) cs body (omega arith) e in
      (λ h. ground arith, λ h. ground (arith, read_chunks-total (List.[]) cs))
  | inr (error, e) ↦ (λ h. ground arith, λ h. ground (arith, read_chunks-total (List.[]) cs))
]
