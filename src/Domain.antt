-- ===== src/Domain.antt =====
-- The transport-independent model of internal/domain: identifiers, transactions, health, forwards,
-- firewall rules, routes, outbounds, relays and the settings of HAProxy and Xray, each with its
-- `Validate`.
pub mod Issue
pub mod Identifier
pub mod Health
pub mod Transaction
pub mod Forward
pub mod Firewall
pub mod Route
pub mod Endpoint
pub mod Outbound
pub mod Relay
pub mod Haproxy
pub mod Xray
