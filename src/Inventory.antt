-- ===== src/Inventory.antt =====
-- internal/inventory: listeners of the host and the conflicts of requested bindings with them. The
-- text form of an address is the standard library's; it is taken as an interface.
pub mod Conflict
use egress_manager.Base.{◌≡◌, true, Option, some, Bytes}
use egress_manager.Net.{Addr, Prefix, is_valid}

-- `netip.ParseAddr`, `Addr.String` and `Prefix.String`: an address that is printed is read back.
pub record AddrText : Type 0 where
  pub parse_addr : Bytes → Option Addr
  pub addr_string : Addr → Bytes
  pub prefix_string : Prefix → Bytes
  pub parse-string : (a : Addr) → is_valid a ≡ true → parse_addr (addr_string a) ≡ some a
