-- ===== src/Relayer/Fetched.antt =====
-- What `CircleClient::fetch_page` of crates/xreserve-deposit-relayer/src/circle.rs lets through.
use miden_usdcx.Prelude.{
  ℕ, ◌≤◌, String, ◌≡◌, ◌≢◌, refl, ap, ◌∙◌, true, inl, inr, Option, none, some, List, [], ◌∷◌, ◌++◌,
  arith, Bool-cases, Option-cases, ok, length, Bytes, str_eq, str_eq_iff, ltb, ensure, ok_or,
  >>=-eq-ok,
}
use miden_usdcx.Telemetry.{transient}
use miden_usdcx.Relayer.{Page, RelayLibraries}
use miden_usdcx.Relayer.Feed.{
  fail, PageResponse, max_response_bytes, is_success, bad_status, link_text, read_body, token_of,
  page_after, parse_next_link, next_of, decode_page, fetch_page,
}

-- The page of a successful response: its body is within the ceiling and decodes to this page, which
-- has no more entries than were asked for and names no empty cursor.
pub record IsFetched (lib : RelayLibraries) (page_size : ℕ) (answer : Option PageResponse)
    (page : Page) : Type 0 where
  pub response : PageResponse
  pub answered : answer ≡ some response
  pub succeeded : is_success response.status ≡ true
  pub body : Bytes
  pub link : Option String
  pub received : read_body [] response.chunks ≡ ok body
  pub within : length body ≤ max_response_bytes
  pub decoded : decode_page lib body link ≡ some page
  pub asked : length page.entries ≤ page_size
  pub named : page.next ≢ some ""

read_body-bound :
    (body : Bytes) (chunks : List (Option Bytes)) (all : Bytes)
    → length body ≤ max_response_bytes
    → read_body body chunks ≡ ok all
    → length all ≤ max_response_bytes
unfolding read_body
read_body-bound body [] all b h = ground arith
read_body-bound body (none ∷ chunks) all b h = absurd cc
read_body-bound body (some chunk ∷ chunks) all b h =
    elim (Bool-cases (ltb max_response_bytes (length (body ++ chunk)))) [
      | inl e ↦ absurd (ground arith)
      | inr e ↦ read_body-bound (body ++ chunk) chunks all (ground arith) (ground arith)
    ]

token_of-named : (token : Option String) → token_of token ≢ some ""
unfolding token_of
token_of-named none h = cc
token_of-named (some token) h = elim (Bool-cases (str_eq token "")) [
  | inl e ↦ ground arith
  | inr e ↦ let p : token ≡ "" = ground arith in let q = (str_eq_iff token "").1 p in cc
]

parse_next_link-named :
    (lib : RelayLibraries) (header : String) → parse_next_link lib header ≢ some (some "")
unfolding parse_next_link
parse_next_link-named lib header h = elim (Option-cases (lib.next_query header)) [
  | inl e ↦ ground arith
  | inr (none, e) ↦ ground arith
  | inr (some query, e) ↦ ground (arith, token_of-named (page_after query))
]

next_of-named : (lib : RelayLibraries) (link : Option String) → next_of lib link ≢ some (some "")
next_of-named lib none h = cc
next_of-named lib (some header) h = parse_next_link-named lib header h

decode_page-named :
    (lib : RelayLibraries) (body : Bytes) (link : Option String) (page : Page)
    → decode_page lib body link ≡ some page
    → page.next ≢ some ""
unfolding decode_page
decode_page-named lib body link page h n = elim (Option-cases (lib.list_response body)) [
  | inl e ↦ ground arith
  | inr (values, e) ↦ elim (Option-cases (next_of lib link)) [
    | inl f ↦ ground arith
    | inr (next, f) ↦
        let p : next ≡ page.next = ground arith in next_of-named lib link (f ∙ ap some (p ∙ n))
  ]
]

-- A page that is fetched came with a successful status, in a body of at most the ceiling of bytes that
-- decodes to it, has at most as many entries as were asked for, and names no empty cursor.
pub fetch_page-IsFetched :
    (lib : RelayLibraries) (page_size : ℕ) (answer : Option PageResponse) (page : Page)
    → fetch_page lib page_size answer ≡ ok page
    → IsFetched lib page_size answer page
unfolding fetch_page
fetch_page-IsFetched lib page_size none page h = absurd cc
fetch_page-IsFetched lib page_size (some response) page h =
    let (u, e, h1) =
      >>=-eq-ok (ensure (is_success response.status) (bad_status response.status)) _ h in
    let (link, f, h2) = >>=-eq-ok (link_text response.link) _ h1 in
    let (body, g, h3) = >>=-eq-ok (read_body [] response.chunks) _ h2 in
    let (found, k, h4) =
      >>=-eq-ok (ok_or (decode_page lib body link) (fail (transient "invalid_response"))) _ h3 in
    let same : found ≡ page = ground arith in
    let decoded : decode_page lib body link ≡ some page = ground arith in
    record {
      response = response;
      answered = refl;
      succeeded = ground arith;
      body = body;
      link = link;
      received = g;
      within = read_body-bound [] response.chunks body (omega arith) g;
      decoded = decoded;
      asked = ground arith;
      named = decode_page-named lib body link page decoded;
    }
