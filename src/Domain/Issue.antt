-- ===== src/Domain/Issue.antt =====
-- The complaints of the `Validate` methods of internal/domain, one constructor for each message. A
-- joined error is the list of its parts in order; the nil error is the empty list.
use egress_manager.Base.{Bool, true, false, ◌≡◌, refl, List, [], ◌∷◌, ◌++◌, if◌then◌else◌, All}

pub data Issue : Type 0 where
  bad_id bad_display_name control_characters bad_linux_name bad_config_name : Issue
  bad_state no_requested_change no_snapshot no_candidate : Issue
  no_timestamps update_precedes_creation long_failure_detail : Issue
  bad_health_status negative_latency long_health_detail : Issue
  no_protocol bad_protocol duplicate_protocol : Issue
  bad_listen_address bad_remote_address family_mismatch : Issue
  no_ports both_port_modes too_many_ranges bad_range remap_needs_one_range remap_overflow : Issue
  too_many_sources source_not_canonical source_family_mismatch : Issue
  bad_firewall_prefix bad_firewall_action firewall_source_not_canonical long_comment : Issue
  other_source_fields bad_source_subnet bad_source_port bad_source_kind : Issue
  bad_failure_policy bad_dns_policy bad_ipv4_policy bad_ipv6_policy : Issue
  fallback_is_primary unexpected_fallback bad_mtu bad_mss mss_exceeds_mtu : Issue
  direct_with_kill_switch no_kill_switch : Issue
  bad_dns_count bad_dns_server duplicate_dns_server unexpected_dns_servers : Issue
  bad_host not_a_host bad_endpoint_port : Issue
  bad_adapter bad_outbound_type bad_probe_status bad_external_ip : Issue
  bad_outbound_latency long_outbound_detail : Issue
  too_many_secrets duplicate_secret missing_secret no_capability incompatible_adapter : Issue
  bad_relay_network bad_relay_address bad_relay_port too_many_relay_sources : Issue
  relay_source_not_canonical duplicate_relay_source untrimmed_relay_address : Issue
  bad_bind bad_frontend_port no_backend too_many_backends duplicate_backend : Issue
  bad_algorithm bad_weight bad_xray_tag control_in_xray_tag : Issue

-- One complaint if the test holds.
abbrev pub issue_if : Bool → Issue → List Issue
issue_if b issue = if b then issue ∷ [] else []

-- `joinErrors` and `errorsFrom`: the complaints that are present, in order.
unfoldable pub join_errors : List (List Issue) → List Issue
join_errors [] = []
join_errors (e ∷ es) = e ++ join_errors es

append-nil_split : (xs ys : List Issue) → xs ++ ys ≡ [] → (xs ≡ []) × (ys ≡ [])
append-nil_split [] ys h = (refl, h)
append-nil_split (x ∷ xs) ys h = absurd (cc)

-- No complaint in all is none in each part.
pub join_errors-nil : (es : List (List Issue)) → join_errors es ≡ [] → All (λ e. e ≡ []) es
unfolding join_errors
join_errors-nil [] h = tt
join_errors-nil (e ∷ es) h =
    let (here, rest) = append-nil_split e (join_errors es) h in (here, join_errors-nil es rest)

pub issue_if-nil : (b : Bool) (i : Issue) → issue_if b i ≡ [] → b ≡ false
issue_if-nil true i h = absurd (cc)
issue_if-nil false i h = refl

-- The first complaints, if there are any; else the second.
unfoldable pub or_else : List Issue → List Issue → List Issue
or_else [] others = others
or_else (e ∷ es) others = e ∷ es

pub or_else-nil : (es others : List Issue) → or_else es others ≡ [] → (es ≡ []) × (others ≡ [])
unfolding or_else
or_else-nil [] others h = (refl, h)
or_else-nil (e ∷ es) others h = absurd (cc)
