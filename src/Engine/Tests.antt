-- ===== src/Engine/Tests.antt =====
-- Tests of the classification of traps.
use trytet.Prelude.{◌≡◌, refl, none, codes}
use trytet.Engine.{crash, suspended, security_violation, classify_trap}

suspend_is_suspended : classify_trap (codes "TET_SUSPEND") ≡ suspended
unfolding classify_trap
suspend_is_suspended = refl

violation_is_crash :
    classify_trap (codes "Security Violation: HTTPS required")
    ≡ crash (record {
      error_type = security_violation;
      instruction_offset = none;
      message = codes "Security Violation: HTTPS required";
    })
unfolding classify_trap
violation_is_crash = refl
