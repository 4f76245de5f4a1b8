-- ===== src/Tests.antt =====
-- Concrete inputs: the tests of the definitions and the theorems at inputs that meet their premises.
mod Inputs
mod Json
mod Protocol
mod Ws
mod Parse
mod Dns
mod Net
mod Tcp
mod Request
mod Server
mod Wifi
