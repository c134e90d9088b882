-- ===== src/Telemetry.antt =====
-- crates/usdcx-telemetry/src/lib.rs: how loudly a failure is alerted on.
use miden_usdcx.Prelude.{String}

pub data FailureClass : Type 0 where
  -- Something the service authenticates did not check out.
  integrity : String → FailureClass
  -- A failure that will not fix itself and needs an operator.
  actionable : String → FailureClass
  -- A failure that is retried by design.
  transient : String → FailureClass

unfoldable pub kind : FailureClass → String
kind (integrity k) = k
kind (actionable k) = k
kind (transient k) = k
