-- ===== src/Examples.antt =====
-- Runs of the model on concrete inputs, part by part.
mod Http3
mod Web
mod Raw
mod RawSessions
mod Transport
mod Keys
mod Composed
mod Configs
mod RawThread
