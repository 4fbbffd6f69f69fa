-- ===== src/Tests.antt =====
-- Concrete inputs: tests, and the theorems applied where their hypotheses hold.
mod Inode
mod Directory
mod Intq
mod Pagedir
mod Palloc
mod OpenInodes
mod Hash
mod Links
mod Stdlib
mod Stdio
mod Random
mod Storage
mod Strings
mod Threads
mod Synch
