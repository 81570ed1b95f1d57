-- ===== src/Config/Port.antt =====
-- port.go: `PortSelector.Select`. `W` is the state of the host and of the source of randomness; a
-- draw of four bytes and an attempt to listen on a port and to close the listener are arguments.
pub mod Choice
use egress_manager.Base.{
  ℕ, zero, suc, ◌+◌, ◌-◌, ◌%◌, ◌^◌, Bool, true, false, ◌&&◌, ◌||◌, not, Option, none, some, List,
  [], ◌∷◌, ltb, ◌==◌, if◌then◌else◌, any,
}
use egress_manager.Net.{Addr, is_valid}
use egress_manager.Effect.{Result, ok, err}

pub record PortSelector : Type 0 where
  pub has_random : Bool
  pub has_listen : Bool
  pub min : ℕ
  pub max : ℕ

pub data PortError : Type 0 where
  bad_address bad_selector no_randomness no_available_port : PortError

abbrev pub random_attempts : ℕ
random_attempts = 64

-- `NewPortSelector`
abbrev pub new_port_selector : PortSelector
new_port_selector = record { has_random = true; has_listen = true; min = 20000; max = 60999 }

abbrev pub is_excluded : List ℕ → ℕ → Bool
is_excluded excluded port = any (λ p. p == port) excluded

-- `width`, a uint32
abbrev pub width : PortSelector → ℕ
width selector = (selector.max + 2 ^ 32 - selector.min + 1) % 2 ^ 32

-- The candidate of a draw: the sum is a uint32, and it is cut to a uint16.
abbrev pub candidate : PortSelector → ℕ → ℕ
candidate selector r = (selector.min + r % 2 ^ 32 % width selector) % 2 ^ 32 % 2 ^ 16

abbrev pub selector_is_valid : PortSelector → Bool
selector_is_valid s = not (not s.has_random || not s.has_listen || s.min == 0 || ltb s.max s.min)

module _ {W : Type 0} (draw : W → Option ℕ × W) (listen : Addr → ℕ → W → Bool × W) where
  module _ (address : Addr) (excluded : List ℕ) where
    unfoldable pub available : ℕ → W → Bool × W
    available port w = if is_excluded excluded port then (false, w) else listen address port w

    -- What follows a draw, with the attempts that are left.
    abbrev pub attempt :
        PortSelector
        → Option ℕ
        → W
        → (W → Result PortError (Option ℕ) × W)
        → Result PortError (Option ℕ) × W
    attempt selector none w rest = (err no_randomness, w)
    attempt selector (some r) w rest =
        let port = candidate selector r in
        let (free, w1) = available port w in if free then (ok (some port), w1) else rest w1

    -- The loop over the attempts: `none` if none of them found a port.
    unfoldable pub try_random : PortSelector → ℕ → W → Result PortError (Option ℕ) × W
    try_random selector zero w = (ok none, w)
    try_random selector (suc n) w =
        let (drawn, w1) = draw w in attempt selector drawn w1 (λ v. try_random selector n v)

    -- The loop over the ports from the given one on; the first number counts those that are left.
    unfoldable pub scan_ports : ℕ → ℕ → W → Option ℕ × W
    scan_ports zero port w = (none, w)
    scan_ports (suc n) port w =
        let (free, w1) = available (port % 2 ^ 16) w in
        let rest = scan_ports n (port + 1) w1 in if free then (some (port % 2 ^ 16), w1) else rest

    abbrev pub chosen : Option ℕ → Result PortError ℕ
    chosen none = err no_available_port
    chosen (some port) = ok port

    abbrev pub after_random :
        PortSelector → Result PortError (Option ℕ) → W → Result PortError ℕ × W
    after_random selector (err e) w = (err e, w)
    after_random selector (ok (some port)) w = (ok port, w)
    after_random selector (ok none) w =
        let (found, w1) = scan_ports (selector.max + 1 - selector.min) selector.min w in
        (chosen found, w1)

  -- `Select`
  unfoldable pub select_port : PortSelector → Addr → List ℕ → W → Result PortError ℕ × W
  select_port selector address excluded w =
      if not (is_valid address)
      then (err bad_address, w)
      else if not (selector_is_valid selector)
      then (err bad_selector, w)
      else let (r, w1) = try_random address excluded selector random_attempts w in
        after_random address excluded selector r w1

-- The loop of `ProtectedInstallerPorts`, as the ports that it adds.
unfoldable pub protected_from : List ℕ → List ℕ
protected_from [] = []
protected_from (port ∷ ports) =
    let rest = protected_from ports in if port == 0 then rest else port ∷ rest

unfoldable pub protected_installer_ports : List ℕ → List ℕ
protected_installer_ports ssh_ports = 22 ∷ protected_from ssh_ports
