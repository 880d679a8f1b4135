-- ===== src/Core/Evm.antt =====
-- core/vm.go: the stack machine that runs the code of a transaction.
pub mod Word
pub mod Stack
pub mod Memory
pub mod Machine
pub mod Exec
pub mod Run
pub mod Gas
pub mod Loop
pub mod Invariant
pub mod Arithmetic
pub mod Unbounded
pub mod Storage
mod Tests
