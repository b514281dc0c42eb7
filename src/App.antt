-- ===== src/App.antt =====
-- app: the applications that come with the repository.
pub mod Ota
