-- ===== src/Tests.antt =====
-- Runs of the definitions at inputs of the judges of the labs, and the theorems at concrete inputs.
mod Formula
mod Spsc
mod RefCount
mod Sdk
mod Catalog
mod Interop
mod Bridge
mod Plugin
mod Strings
mod Device
mod Threaded
mod Buffers
mod Templates
mod Config
mod Retrofit
mod Events
mod Wire
mod Counter
mod Lookups
