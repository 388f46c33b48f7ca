-- ===== src/Examples.antt =====
-- Tests, and concrete inputs at which the hypotheses of the theorems hold.
mod Reconcile
mod Engine
mod Storage
mod Vault
mod Match
mod SignIn
mod Update
mod Prefs
mod Session
mod Store
mod Router
mod Bridge
mod Account
mod Autofill
mod Import
mod Bytes
mod TokenServer
mod AuthCheck
