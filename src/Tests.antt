-- ===== src/Tests.antt =====
-- Each theorem with a hypothesis at a concrete input, by the part of the program.
mod Ports
mod Handlers
mod Tunnels
mod Agents
mod Controls
mod Shared
mod Files
mod Fleet
mod Relays
mod Commands
