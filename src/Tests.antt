-- ===== src/Tests.antt =====
-- The statements at work on concrete inputs: a small runner, a service with one cohort, and a run
-- of each result on them.
mod Service
mod Publishing
mod Storage
mod Monitoring
mod Data
mod Lifecycle
mod Payments
mod Reading
mod Requests
mod Tables
