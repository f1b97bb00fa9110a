-- ===== src/Tests.antt =====
-- Runs of the definitions at concrete inputs, and each theorem at an input that meets its hypotheses.
mod Fat
mod Vfs
mod Video
mod Util
mod Mm
mod Vmm
mod Sched
mod Tasks
mod Disk
mod Fs
mod Pic
mod Im
