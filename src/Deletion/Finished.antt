-- ===== src/Deletion/Finished.antt =====
-- When the finalizer of src/controllers/restatedeployment/controller.rs lets a deletion through.
use restate_operator.Base.{◌≡◌, ◌⊎◌, String, some, List}
use restate_operator.Platform.{Chrono}
use restate_operator.Resources.{RestateDeployment}
use restate_operator.Calls.{Call, World, missing}
use restate_operator.Deletion.Teardown.{Stores, IsTornDown}
use restate_operator.Deletion.Finalizer.{DeletionClock}

module _ (w : World) (chrono : Chrono) (clock : DeletionClock) (rsd : RestateDeployment) where
  -- The two ways in which a deletion is let through.
  abbrev pub LetThrough : String → Stores → List Call → Type 0
  LetThrough namespace stores calls =
      ((name : String) × (rsd.restate.register.cluster ≡ some name)
        × (w.cluster_lookup name ≡ missing))
      ⊎ IsTornDown rsd namespace stores calls
