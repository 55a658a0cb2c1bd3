-- ===== src/Tests.antt =====
-- Runs of the model on concrete inputs, and each theorem that has hypotheses or binders at one of
-- them.
mod Digest
mod Wire
mod Client
mod Files
mod Fanout
mod Serve
mod Mime
mod Cli
mod Api
mod Daemon
mod Wired
