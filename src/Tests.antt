-- ===== src/Tests.antt =====
-- Runs of the definitions on small inputs, and the theorems at concrete inputs.
mod Wire
mod Control
mod App
mod Logcap
mod Model
mod State
mod Mqtt
mod Observe
mod Bridge
mod Cloud
mod Washer
mod Stream
mod Ages
mod Modules
mod Appliance
mod Topics
mod Extract
mod Seed
mod RelayLog
