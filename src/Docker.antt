-- ===== src/Docker.antt =====
-- pkg/docker: container discovery and the logs of containers.
pub mod Demux
pub mod Watcher
pub mod Client
