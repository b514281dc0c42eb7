-- ===== src/Utils.antt =====
-- common/utils/src: the helpers that the other components share.
pub mod Strings
pub mod List
pub mod Downloader
pub mod Json
