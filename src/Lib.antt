-- ===== src/Lib.antt =====
-- The RestateDeployment controller of the Restate operator: the rollout of a version, the cleanup of
-- old ones, the deletion of a RestateDeployment, its status, and the intervals of the retries; and
-- the RestateCluster controller: the credentials, the storage and the provisioning of a cluster.
--
-- A RestateDeployment is a versioned Restate service. Each version is a ReplicaSet or a Knative
-- Configuration, named by a hash of its pod template, that the operator registers with Restate.
-- When a version is superseded, or the RestateDeployment is deleted, the operator asks Restate
-- which versions it still needs, tears the others down, and comes back later for the rest. Paths
-- are from the repository's root.
--
-- The parts and their files:
--   Base         the names, lists, integers and texts that the parts share
--   Errors       src/lib.rs: `Error`, `metric_label`; `root_cause` of the controller
--   Platform     chrono's dates, a draw of rand and `Duration::mul_f64`, as records of what the code
--                calls, with their documented behaviour
--   Resources    src/resources/restatedeployments.rs, src/resources/mod.rs: spec and status
--   Retry        src/controllers/restatedeployment/retry.rs; Retry/Bounds has the bounds
--   Cleanup      src/controllers/restatedeployment/cleanup.rs: the mode of a pass, the usage of a
--                deployment, what a pass reports; Cleanup/Usage and Cleanup/Modes have the theorems
--   Effects      a run: the calls that were made, in order, and the result, an error or a panic
--   Fallible     code that may fail and makes no calls
--   Calls        the calls to the API server and to the admin API, and `World`, what they answer
--   Cloud        src/resources/restatecloudenvironments.rs: the URLs and the token of an environment;
--                Cloud/InProcess is the parameters of an in-process tunnel; Cloud/Regions and
--                Cloud/Accepted have the theorems
--   Endpoints    `RestateAdminEndpoint` of src/resources/restatedeployments.rs, `service_url` of
--                src/controllers/mod.rs, and `Context::request` and `in_process_tunnel_params` of
--                src/controllers/restatedeployment/controller.rs; Endpoints/Tokens has the theorem
--   Naming       `generate_pod_template_hash` and `safe_encode_u32` of
--                src/controllers/restatedeployment/reconcilers/replicaset.rs; Naming/Encoding and
--                Naming/Injective have the theorems
--   Autoscaling  src/controllers/restatedeployment/reconcilers/autoscaling.rs: the plan
--   Stateful     code that changes a state in place while it makes calls
--   Versions     what the cleanup of ReplicaSets and that of Configurations share: the order, the
--                loop, what it keeps track of, the deregistration and the deadlines of
--                src/controllers/restatedeployment/cleanup.rs; Versions/Outcome states what a
--                cleanup pass promises, and it and Versions/Spared carry the proofs for both
--   ReplicaSets  `cleanup_old_replicasets` of
--                src/controllers/restatedeployment/reconcilers/replicaset.rs: Select is the choice of
--                the versions, Visit the body of the loop, Pass the whole; Order, Spares, Outcome and
--                Forced have the theorems, and Turn the lemmas on one version
--   Knative      src/controllers/restatedeployment/reconcilers/knative.rs and what it reads of
--                src/resources/knative/: Template is the annotations and labels, Apply the
--                Configuration and the Route, Ready their checks, Endpoint and Register the
--                registration, Reconcile the pass, Cleanup the removal of old tags; Annotated,
--                Registered, Reset, Live and Removed have the theorems
--   Deletion     `cleanup` and what it calls in src/controllers/restatedeployment/controller.rs:
--                Report is what it writes to the status, Finalizer the pass, Teardown the versions of
--                the mode; Finished and Hold have the theorems
--   ErrorPolicy  `error_policy` of src/controllers/restatedeployment/controller.rs; ErrorPolicy/Pacing
--                relates the error of a deletion to the requeue
--   Registration src/controllers/restatedeployment/registration.rs: the plan, the owned ids, the
--                confirmation of the routing; Registration/Plan, Owned and Confirm have the theorems
--   Rollout      `reconcile` of src/controllers/restatedeployment/controller.rs: Inject puts the
--                environment of a tunnel into the pod template, Adopt creates or adopts the
--                ReplicaSet, Readiness checks it, Flow registers it, Reconcile is the whole method;
--                Injected, Adopted, Guarded and Confirmed have the theorems on the parts
--   Status       `reconcile_status`, `reconcile_suspended` and `status_from_replica_set` of
--                src/controllers/restatedeployment/controller.rs, and the suspension of
--                src/controllers/mod.rs; Ready, Suspension, Resuming and Collisions have the theorems
--   Controller   `reconcile_status` with the reconcile of the mode in it, and what it reports;
--                Controller/Entry is the function `reconcile`, which the controller calls
--   StatefulSets the change of a RestateCluster's storage in
--                src/controllers/restatecluster/reconcilers/compute.rs, and `validate_pod_volumes`;
--                Strategy and Recreated have the theorems, History and Reasons their lemmas
--   Clusters     src/controllers/restatecluster/: Texts is the operations on texts, Canary the Jobs that
--                try out credentials, Provisioning `provisioning.rs` of reconcilers/, Compute
--                `reconcile_compute`, Status `reconcile` and `reconcile_status`; Guarded, Truth and
--                Progress have the theorems, Guards, Up, Quiet, Signals and Explained their lemmas
--   Examples     concrete inputs, tests and witnesses
--
-- How they interact: a pass of Rollout.Reconcile finds the tunnel with Endpoints and Cloud, names
-- the version with Naming, creates or adopts its ReplicaSet, and hands the URL to Rollout.Flow,
-- which plans with Registration and removes old versions with ReplicaSets. Status turns its outcome
-- into the status and the time of the next pass. A pass of Deletion.Finalizer chooses the mode with
-- Cleanup, queries the usage, and hands both to Deletion.Teardown, which is ReplicaSets or Knative
-- by the deployment mode; a pass of Knative.Reconcile is the counterpart of Rollout.Reconcile. The
-- error that it ends with goes to ErrorPolicy, which computes the requeue with Retry. A pass of
-- Clusters.Compute makes the calls of StatefulSets among its own, and Clusters.Status turns its
-- outcome into the status of the cluster. An awaited call is a call of `World`, or of
-- `ClusterWorld` for a RestateCluster, so each theorem holds for all answers of the servers. `?`
-- stops a run at the first error; a failed `expect` is a panic.
--
-- Bounds: the functions recurse on lists, so none has fuel but the spelling of a hash, where the
-- number itself is enough. The u64 counts of a usage are natural numbers, and their sum is taken
-- modulo 2 ^ 64; the i64 counts of the rows are integers, and the theorem on the sum assumes that
-- they fit. The i32 collision count wraps, and so do the differences of replica counts. A date is a
-- number of nanoseconds from the earliest one that chrono represents; an addition that leaves
-- chrono's dates has no result. `TimeDelta::seconds` panics for more than i64::MAX / 1000 seconds,
-- which is assumed away for `drain.timeoutSeconds` and `drainDelaySeconds`. The count of versions
-- kept for a rollback does not exceed the length of a list, and its i32 is a natural number.
--
-- An f64 factor between 1 and 2 is a number of 2^-52, and a duration times such a factor is a
-- parameter that is off by at most a nanosecond, up to 5 minutes.
--
-- Parameters for what is not in the repository: the crate `url`, with a `Url` as its serialization;
-- the FNV hash and the bytes of a text, of which only the injectivity and the bytes of ASCII are
-- assumed; the decoding of a JSON body; how an error is displayed, which attributes generate;
-- the update strategy of a StatefulSet, whose JSON is read back as it was written; and the parser of
-- the crate `toml`.
--
-- Not modelled: the SQL texts of the usage queries, the JSON of the patches, the composition of
-- Kubernetes objects, logging, metrics, and the other controllers and reconcilers
-- (RestateCloudEnvironment, network policies, the signing key, the watches), which are separate
-- parts. The network policies and the signing key are one call each in the pass of a
-- RestateCluster. The cached objects are a list that does not change within a pass.
pub mod Base
pub mod Errors
pub mod Platform
pub mod Resources
pub mod Retry
pub mod Cleanup
pub mod Effects
pub mod Calls
pub mod Fallible
pub mod Stateful
pub mod Cloud
pub mod Endpoints
pub mod Naming
pub mod Autoscaling
pub mod Versions
pub mod ReplicaSets
pub mod Knative
pub mod Deletion
pub mod ErrorPolicy
pub mod Registration
pub mod Rollout
pub mod Status
pub mod Clusters
pub mod StatefulSets
pub mod Controller
pub mod Examples
