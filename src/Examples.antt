-- ===== src/Examples.antt =====
-- Runs of the desk on concrete data.
mod Data
mod Scores
mod Pairs
mod Device
mod Screens
mod Session
mod Boards
mod Exchange
mod Rooms
