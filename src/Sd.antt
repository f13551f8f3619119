-- ===== src/Sd.antt =====
-- shortfin/python/shortfin_apps/sd/components: the server of the Stable Diffusion application.
pub mod Inputs
pub mod Requests
pub mod Executor
pub mod Batcher
pub mod Workers
