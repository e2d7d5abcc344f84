-- ===== src/Tests.antt =====
-- The theorems at concrete inputs, and runs of the definitions.
mod Ownership
mod Export
mod Macros
mod Match
mod Equal
mod Containers
mod Made
mod Dictionary
mod Ipc
mod Client
mod Conversation
mod Atom
mod Socket
mod Symbol
