-- ===== src/Circle/Status.antt =====
-- The HTTP status codes that crates/xusdc-light-attester/src names, as `StatusCode::…`.
use miden_usdcx.Prelude.{ℕ}

abbrev pub ok : ℕ
ok = 200

abbrev pub created : ℕ
created = 201

abbrev pub bad_request : ℕ
bad_request = 400

abbrev pub conflict : ℕ
conflict = 409

abbrev pub too_many_requests : ℕ
too_many_requests = 429
