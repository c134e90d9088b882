-- ===== src/Relayer/Feed.antt =====
-- `Entry::decode`, `Page::decode`, `parse_next_link` and `CircleClient::fetch_page` of
-- crates/xreserve-deposit-relayer/src/circle.rs: one page of Circle's feed.
use miden_usdcx.Prelude.{
  ℕ, suc, ◌*◌, min, String, Bool, false, not, ◌&&◌, ◌==◌, leb, ltb, Option, none, some, List, [],
  ◌∷◌, ◌++◌, length, str_eq, Bytes, if◌then◌else◌, Result, ok, err, ensure, ok_or, ◌>>◌, ◌>>=◌,
}
use miden_usdcx.Telemetry.{FailureClass, transient}
use miden_usdcx.Relayer.{Entry, attestation, undecodable, Page, Failure, RawEntry, RelayLibraries}

abbrev pub fail : FailureClass → Failure
fail class = record { class = class; expired_submission = false }

-- `PageSize`
abbrev pub min_page_size : ℕ
min_page_size = 1

abbrev pub max_page_size : ℕ
max_page_size = 1000

abbrev pub local_proving_max : ℕ
local_proving_max = 10

abbrev pub remote_proving_max : ℕ
remote_proving_max = 40

-- `PageSize::try_from`
unfoldable pub try_page_size : ℕ → Option ℕ
try_page_size value =
    if leb min_page_size value && leb value max_page_size then some value else none

-- `Config::effective_page_size`
unfoldable pub effective_page_size : Bool → ℕ → ℕ
effective_page_size remote_proving configured =
    min configured (if remote_proving then remote_proving_max else local_proving_max)

-- `limit_to_local_proving`, with whether the size changed.
unfoldable pub limit_to_local_proving : ℕ → ℕ × Bool
limit_to_local_proving page_size =
    let smaller = min page_size local_proving_max in (smaller, not (smaller == page_size))

-- An element that does not decode keeps its place.
unfoldable pub decode_entry : ℕ → RawEntry → Entry
decode_entry position value = elim value.attestation [
  | some a ↦ attestation a
  | none ↦ undecodable position value.message_hash value.reason
]

unfoldable pub decode_entries : ℕ → List RawEntry → List Entry
unfolding decode_entry
decode_entries position [] = []
decode_entries position (v ∷ vs) = decode_entry position v ∷ decode_entries (suc position) vs

-- `find(key == "pageAfter")`, of a query with the next page's token.
unfoldable pub page_after : List (String × String) → Option String
page_after [] = none
page_after ((key, value) ∷ rest) =
    let later = page_after rest in if str_eq key "pageAfter" then some value else later

unfoldable pub token_of : Option String → Option String
token_of none = none
token_of (some token) = if str_eq token "" then none else some token

module _ (lib : RelayLibraries) where
  -- A header without a `next` relation ends the feed; one that cannot be read, or whose `next` has no
  -- token, is an error.
  unfoldable pub parse_next_link : String → Option (Option String)
  unfolding page_after token_of
  parse_next_link header = elim (lib.next_query header) [
    | none ↦ none
    | some none ↦ some none
    | some (some query) ↦ elim (token_of (page_after query)) [
      | none ↦ none
      | some token ↦ some (some token)
    ]
  ]

  abbrev pub next_of : Option String → Option (Option String)
  next_of none = some none
  next_of (some header) = parse_next_link header

  -- `Page::decode`
  unfoldable pub decode_page : Bytes → Option String → Option Page
  unfolding parse_next_link decode_entries
  decode_page body link = elim (lib.list_response body) [
    | none ↦ none
    | some values ↦ elim (next_of link) [
      | none ↦ none
      | some next ↦ some (record { entries = decode_entries 1 values; next = next })
    ]
  ]

-- A response: its status, its `Link` header (which may not be text) and the chunks of its body, of
-- which one may fail to arrive.
pub record PageResponse : Type 0 where
  pub status : ℕ
  pub link : Option (Option String)
  pub chunks : List (Option Bytes)

abbrev pub max_response_bytes : ℕ
max_response_bytes = 8 * 1024 * 1024

abbrev pub is_success : ℕ → Bool
is_success status = leb 200 status && ltb status 300

-- A header that is there must be text.
abbrev pub link_text : Option (Option String) → Result Failure (Option String)
link_text none = ok none
link_text (some none) = err (fail (transient "invalid_response"))
link_text (some (some header)) = ok (some header)

-- Chunk by chunk, up to the ceiling.
unfoldable pub read_body : Bytes → List (Option Bytes) → Result Failure Bytes
read_body body [] = ok body
read_body body (none ∷ chunks) = err (fail (transient "circle_unavailable"))
read_body body (some chunk ∷ chunks) =
    let rest = read_body (body ++ chunk) chunks in
    if ltb max_response_bytes (length (body ++ chunk))
    then err (fail (transient "invalid_response"))
    else rest

abbrev pub bad_status : ℕ → Failure
bad_status status =
    fail (if status == 429 then transient "rate_limited" else transient "unexpected_status")

module _ (lib : RelayLibraries) where
  -- The answer to the request for a page of this size; `none` if the request failed.
  unfoldable pub fetch_page : ℕ → Option PageResponse → Result Failure Page
  unfolding read_body decode_page
  fetch_page page_size answer = do
    response ← ok_or answer (fail (transient "circle_unavailable"))
    ensure (is_success response.status) (bad_status response.status)
    link ← link_text response.link
    body ← read_body [] response.chunks
    page ← ok_or (decode_page lib body link) (fail (transient "invalid_response"))
    ensure (leb (length page.entries) page_size) (fail (transient "invalid_response"))
    ok page
