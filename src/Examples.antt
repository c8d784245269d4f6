-- ===== src/Examples.antt =====
-- Runs of the models on concrete inputs.
mod Uris
mod Promisors
mod Messages
mod Queues
mod Streams
mod Requests
mod Builds
mod Processes
mod Sockets
mod Loops
