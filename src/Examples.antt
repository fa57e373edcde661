-- ===== src/Examples.antt =====
-- Runs of the model on concrete machines, systems and objects.
mod Toy
mod Systems
mod Threads
mod Polls
mod Legacy
mod Starts
mod Waits
mod Complexes
mod Servers
mod Sockets
mod Sessions
mod Networks
mod Programs
mod Clocks
mod Desks
mod Windows
mod Sames
mod WindowsClocks
