-- ===== src/Tests.antt =====
-- Runs of the code and of its theorems at concrete inputs.
mod Board
mod Frames
mod Ports
mod Random
mod Sessions
mod Timers
mod Willing
mod Keys
mod Pins
mod Desk
mod Shells
mod Clocks
