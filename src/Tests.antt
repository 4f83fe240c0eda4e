-- ===== src/Tests.antt =====
-- Runs of the definitions and uses of the theorems on concrete inputs.
mod Codes
mod Line
mod Remote
mod Table
mod Target
mod First
mod Devices
mod Images
mod Setup
mod Tools
mod Answers
mod Prepared
