-- ===== src/Examples.antt =====
-- Runs of the components on concrete inputs, which the theorems about them are applied to.
mod Radius
mod Eap
mod Billing
mod Renewal
mod Dunning
mod Stores
mod Jobqueue
mod System
mod Partner
mod Nas
mod Fup
