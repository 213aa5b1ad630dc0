-- ===== src/Tests.antt =====
-- Tests of the definitions on concrete inputs, and the theorems at work on them.
mod Catalog
mod Row
mod Log
mod Recovery
mod Locks
mod Pages
mod Pool
mod Tokens
mod Queries
mod Txns
mod Nodes
