-- ===== src/Scenarios/Proxying.antt =====
-- Frontends of HAProxy at concrete values.
use egress_manager.Haproxy.Plan.{
  Plan, build_plan, check_backends, check_frontends, count_enabled, filter_owned, listener_of,
}
use egress_manager.Domain.Haproxy.{
  HaproxyBackend, HaproxyFrontend, balance_round_robin, validate_backend, validate_backend_ids,
  validate_frontend,
}
use egress_manager.Domain.Issue.{join_errors}
use egress_manager.Domain.Identifier.{is_trimmed, matches_id, validate_display_name, validate_id}
use egress_manager.Domain.Endpoint.{fold_letters, is_label, matches_hostname, validate_endpoint}
use egress_manager.Base.{
  All, List, Pairs, [], false, fields, length, lit, refl, select, some, sort_by, split_lines,
  split_on, trim_space, true, ◌*◌, ◌++◌, ◌^◌, ◌∷◌, ◌≡◌, ◌≤◌,
}
use egress_manager.Nat.Render.{digits}
use egress_manager.Domain.Health.{unknown, validate_health, validate_status}
use egress_manager.Haproxy.Text.{
  Settings, duration, endpoint_string, find_backend, frontend_text, frontend_texts, join_host_port,
  maximum_candidate, ports_valid, render_haproxy, server_line, server_lines, settings_valid,
}
use egress_manager.Haproxy.Parse.{
  State, inside_brackets, parse_bind, parse_lines, parse_port, parse_state, split_host_port,
  split_last_colon, value_of,
}
use egress_manager.Inventory.Conflict.{
  Binding, Listener, addresses_overlap, binding_is_valid, collect_conflicts, conflicts_of,
  detect_conflicts, is_conflict,
}
use egress_manager.Net.{v4}
use egress_manager.Effect.{ok}
use egress_manager.Haproxy.Plan.Apart.{IsApart}
use egress_manager.Haproxy.Plan.Safe.{IsSafe, build_plan-IsSafe}
use egress_manager.Scenarios.Planning.{text}

abbrev settings : Settings
settings = record {
  runtime_socket = lit "/run/egm/haproxy.sock";
  pid_file = lit "/run/egm/haproxy.pid";
  max_connections = 1000;
  connect_timeout = 5 * 10 ^ 9;
  client_timeout = 30 * 10 ^ 9;
  server_timeout = 1500 * 10 ^ 6;
  protected_ports = 22 ∷ 8443 ∷ [];
}

abbrev backend : HaproxyBackend
backend = record {
  id = lit "b1";
  name = lit "web";
  server = record { host = lit "web.example.org"; port = 8080 };
  weight = 10;
  backup = false;
  health_check = true;
  health = record { status = unknown; latency_negative = false; detail = [] };
  enabled = true;
}

abbrev frontend : HaproxyFrontend
frontend = record {
  id = lit "f1";
  name = lit "front";
  bind = v4 127;
  port = 443;
  backend_ids = lit "b1" ∷ [];
  algorithm = balance_round_robin;
  enabled = true;
}

abbrev frontends : List HaproxyFrontend
frontends = frontend ∷ record frontend { id = lit "f2"; port = 444 } ∷ []

-- The instance's own listener, and one of another program on the second port's neighbour.
abbrev listeners : List Listener
listeners =
    record { protocol = lit "tcp"; address = 0 ∷ 127 ∷ []; port = 443; process = lit "haproxy" }
    ∷ record { protocol = lit "tcp"; address = lit "*"; port = 445; process = lit "nginx" }
    ∷ []

abbrev owned : List Binding
owned = record { protocol = lit "tcp"; address = 0 ∷ 127 ∷ []; port = 443 } ∷ []

abbrev state : State
state = record { exists = true; hash = lit "h"; bindings = some owned }

abbrev made : Plan
made = record {
  engine = lit "haproxy";
  state_hash = lit "h";
  enabled_frontends = 2;
  enabled_backends = 1;
  replaces = true;
  candidate = render_haproxy text settings frontends (backend ∷ []);
}

built : build_plan text settings frontends (backend ∷ []) listeners state ≡ ok made
unfolding sort_by build_plan settings_valid ports_valid check_backends check_frontends count_enabled
    filter_owned validate_backend validate_frontend validate_backend_ids text join_errors
    validate_id matches_id validate_display_name is_trimmed validate_endpoint matches_hostname
    split_on fold_letters is_label validate_health validate_status find_backend detect_conflicts
    collect_conflicts binding_is_valid conflicts_of is_conflict addresses_overlap render_haproxy
    frontend_texts frontend_text server_lines server_line endpoint_string join_host_port duration
    digits
built = refl

build_plan-IsSafe_example :
    All (IsSafe text settings (backend ∷ []) listeners owned) (select (λ f. f.enabled) frontends)
    × Pairs (λ f g. IsApart text g (listener_of text f)) (select (λ f. f.enabled) frontends)
    × (length made.candidate ≤ maximum_candidate)
build_plan-IsSafe_example =
    build_plan-IsSafe text settings frontends (backend ∷ []) listeners state owned made refl built

-- What is rendered is read again as the bindings of the frontends.
read_again :
    parse_state text (λ content exists. lit "h") made.candidate true
    ≡ ok (record {
      exists = true;
      hash = lit "h";
      bindings =
          some (owned ++ record { protocol = lit "tcp"; address = 0 ∷ 127 ∷ []; port = 444 } ∷ []);
    })
unfolding parse_state render_haproxy frontend_texts frontend_text server_lines server_line
    endpoint_string join_host_port duration digits text split_lines trim_space fields parse_lines
    parse_bind split_host_port split_last_colon inside_brackets parse_port value_of find_backend
read_again = refl
