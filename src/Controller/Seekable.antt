-- ===== src/Controller/Seekable.antt =====
-- Controller.cpp with `seekable` and without caching: the tasks that hold the address of a file.
pub mod Pending
pub mod Waiting
pub mod Guarded
pub mod Frames
pub mod Runs
pub mod Opens
pub mod Calls
pub mod Starts
pub mod FreedFiles
pub mod Tests
