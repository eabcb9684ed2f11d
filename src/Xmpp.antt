-- ===== src/Xmpp.antt =====
-- The XMPP server, `bumper/xmpp/xmpp.py`: the connection of a client as a state machine, the
-- login and the binding of a resource, the routing of stanzas, and the server's list of clients.
pub mod Element
pub mod Client
pub mod Login
pub mod Route
pub mod Dispatch
pub mod Server
pub mod Access
pub mod Repair
