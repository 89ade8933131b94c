-- ===== src/Tests.antt =====
-- Runs of the definitions at concrete inputs, and the theorems applied to them.
mod Data
mod Session
mod Routes
mod Ranges
mod Pages
mod Urls
mod Texts
mod Dashboard
mod Panel
mod Stored
