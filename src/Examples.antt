-- ===== src/Examples.antt =====
-- The theorems at concrete inputs.
mod Clusters
mod Checks
mod Releasers
mod Reconcilers
mod Machines
mod Lifecycles
mod Servers
mod Rollouts
mod Resources
mod Events
mod Strategies
mod Deployments
mod Releases
mod Entries
mod Admissions
