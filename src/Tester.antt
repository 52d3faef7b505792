-- ===== src/Tester.antt =====
-- tester1: the tests' groups of servers and clients, on the simulated network.
pub mod Group
pub mod Clnt
mod Tests
