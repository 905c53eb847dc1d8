-- ===== src/FileSystem.antt =====
-- exam5/File_System/main.cpp: a FAT file system on a virtual disk of one megabyte.
pub mod Fcb
pub mod Fat
pub mod Dir
pub mod Oft
pub mod Create
pub mod Delete
pub mod Write
pub mod Read
pub mod Format
pub mod Open
pub mod Control
pub mod Failure
pub mod Usable
pub mod Cd
pub mod Listing
pub mod Input
pub mod Session
pub mod Command
mod Sample
mod Examples
mod TreeExamples
mod SessionExamples
