-- ===== src/Examples.antt =====
-- Tests, and each theorem at a concrete input.
mod Data
mod Deletion
mod Versions
mod Knative
mod Policy
mod Registration
mod Rollout
mod Cloud
mod Naming
mod Reconcile
mod Status
mod StatefulSets
mod Clusters
mod Inject
