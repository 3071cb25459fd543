-- ===== src/V3/Client/Examples.antt =====
-- src/v3_client.rs: concrete runs of the client of v3.
mod Messages
mod Clients
mod Requests
mod States
