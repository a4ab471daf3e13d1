-- ===== src/Controller/Entry.antt =====
-- `reconcile` of src/controllers/restatedeployment/controller.rs, which the controller calls for
-- each event: a suspended resource has its status written, and any other goes through the finalizer
-- helper of the crate kube, a parameter.
use restate_operator.Base.{ℕ, if◌then◌else◌}
use restate_operator.Errors.{FinalizerError, finalizer_error}
use restate_operator.Resources.{RestateDeployment}
use restate_operator.Effects.{Run, pure, fail, ◌>>=◌, ◌>>◌}
use restate_operator.Calls.{Call, publish, World, kube_call}
use restate_operator.Deletion.Finalizer.{Action}
use restate_operator.Status.{reconciliation_suspended, reconcile_suspended}

pub data FinalizerReply : Type 0 where
  settled : Action → FinalizerReply
  failed : FinalizerError → FinalizerReply

-- `finalizer` is given what to run for `Event::Apply` and for `Event::Cleanup`.
module _ (w : World) (finalizer : Run Call Action → Run Call Action → Run Call FinalizerReply)
    (rsd : RestateDeployment) (now : ℕ) where
  unfoldable pub report_failure : FinalizerReply → Run Call Action
  report_failure (settled action) = pure action
  report_failure (failed e) = do kube_call w (publish "FailedReconcile"); fail (finalizer_error e)

  unfoldable pub reconcile : Run Call Action → Run Call Action → Run Call Action
  reconcile reconcile_status cleanup =
      if reconciliation_suspended rsd
      then reconcile_suspended w rsd now
      else (finalizer reconcile_status cleanup >>= report_failure)
