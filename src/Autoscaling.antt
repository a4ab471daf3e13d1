-- ===== src/Autoscaling.antt =====
-- src/controllers/restatedeployment/reconcilers/autoscaling.rs: what to do with the HPA of a
-- version that is not the latest. The HPA object itself is opaque.
use restate_operator.Base.{Bool, if◌then◌else◌}

pub data HpaPlan : Type 0 where
  ensure remove_and_restore skip : HpaPlan

unfoldable pub plan_active_version_hpa : Bool → Bool → HpaPlan
plan_active_version_hpa autoscaling_configured rd_deleting =
    if rd_deleting then skip else if autoscaling_configured then ensure else remove_and_restore
