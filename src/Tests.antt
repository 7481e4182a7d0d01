-- ===== src/Tests.antt =====
-- Runs of the models at concrete inputs, and the theorems applied at inputs that meet their
-- hypotheses.
mod Bio
mod Bytes
mod Console
mod Fs
mod Ftable
mod Grep
mod Kalloc
mod Log
mod Pipe
mod Printf
mod Proc
mod Scheduler
mod Shell
mod Spinlock
mod Syscall
mod Sysfile
mod Virtio
mod Vm
