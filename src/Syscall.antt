-- ===== src/Syscall.antt =====
-- source/syscall.c, the services of the nucleus: processes, semaphores, handlers and devices.
pub mod Pid
pub mod Process
pub mod Semaphore
pub mod Handlers
pub mod Device
