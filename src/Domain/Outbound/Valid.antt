-- ===== src/Domain/Outbound/Valid.antt =====
-- What `Outbound.Validate` guarantees when it has no complaint.
use egress_manager.Base.{
  ◌≤◌, ◌≡◌, ◌≢◌, ◌⊎◌, inl, inr, refl, Bool, true, false, not, ◌&&◌, List, [], ◌∷◌, Bytes, bytes_eq,
  any, length, All, Pairs, Fresh, Fresh-nil, Fresh-cons, arith, subst,
}
use egress_manager.Inventory.{AddrText}
use egress_manager.Domain.Issue.{join_errors-nil, issue_if-nil}
use egress_manager.Domain.Identifier.{matches_config_name, validate_config_name}
use egress_manager.Domain.Outbound.{
  OutboundType, other_outbound, vless, wireguard, openvpn, OutboundAdapter, adapter_sing_box,
  adapter_interface, adapter_xray, other_adapter, Outbound, adapter_supports, required_secrets,
  validate_secrets, missing_secrets, validate_adapter, validate_type, validate_outbound,
}

-- Which adapter carries which type: the interfaces WireGuard and OpenVPN, Xray VLESS, and sing-box
-- all but OpenVPN.
abbrev pub Compatible : OutboundAdapter → OutboundType → Type 0
Compatible adapter_sing_box t = (t ≢ openvpn) × ((s : Bytes) → t ≢ other_outbound s)
Compatible adapter_interface t = (t ≡ wireguard) ⊎ (t ≡ openvpn)
Compatible adapter_xray t = t ≡ vless
Compatible (other_adapter s) t = ⊥

pub record IsValid (o : Outbound) : Type 0 where
  pub compatible : Compatible o.adapter o.type
  pub has_secrets :
      All (λ key. any (bytes_eq key) o.secret_metadata ≡ true) (required_secrets o.type)
  pub secrets_named : All (λ key. matches_config_name key ≡ true) o.secret_metadata
  pub secrets_distinct : Pairs (λ a b. bytes_eq b a ≡ false) o.secret_metadata
  pub few_secrets : length o.secret_metadata ≤ 32
  pub carries : (o.capabilities.tcp ≡ true) ⊎ (o.capabilities.udp ≡ true)

compatible_lem :
    (a : OutboundAdapter) (t : OutboundType)
    → validate_adapter a ≡ []
    → validate_type t ≡ []
    → adapter_supports a t ≡ true
    → Compatible a t
unfolding adapter_supports
compatible_lem adapter_sing_box t ha ht h = (
  (λ e. absurd (ground (arith, subst (λ k. adapter_supports adapter_sing_box k ≡ true) e h))),
  (λ s e. absurd (ground (arith, subst (λ k. validate_type k ≡ []) e ht))),
)
compatible_lem adapter_interface wireguard ha ht h = inl refl
compatible_lem adapter_interface openvpn ha ht h = inr refl
compatible_lem adapter_interface _ ha ht h = absurd (cc)
compatible_lem adapter_xray vless ha ht h = refl
compatible_lem adapter_xray _ ha ht h = absurd (cc)
compatible_lem (other_adapter s) t ha ht h = absurd (cc)

missing_secrets-All :
    (present keys : List Bytes)
    → missing_secrets present keys ≡ []
    → All (λ key. any (bytes_eq key) present ≡ true) keys
unfolding missing_secrets
missing_secrets-All present [] h = tt
missing_secrets-All present (key ∷ keys) h =
    let e = join_errors-nil _ h in
    (ground (arith, issue_if-nil _ _ e.0), missing_secrets-All present keys e.1.0)

validate_secrets-Fresh :
    (seen keys : List Bytes)
    → validate_secrets seen keys ≡ []
    → All (λ key. matches_config_name key ≡ true) keys × Fresh bytes_eq seen keys
unfolding validate_secrets validate_config_name
validate_secrets-Fresh seen [] h = (tt, Fresh-nil bytes_eq seen)
validate_secrets-Fresh seen (key ∷ keys) h =
    let e = join_errors-nil _ h in
    let (names, fresh) = validate_secrets-Fresh (key ∷ seen) keys e.1.1.0 in
    (
      (ground (arith, issue_if-nil _ _ e.0), names),
      Fresh-cons bytes_eq key seen keys (issue_if-nil _ _ e.1.0) fresh,
    )

carries_lem : (tcp udp : Bool) → (not tcp && not udp) ≡ false → (tcp ≡ true) ⊎ (udp ≡ true)
carries_lem true udp h = inl refl
carries_lem false true h = inr refl
carries_lem false false h = absurd (ground arith)

-- An outbound without a complaint has an adapter that carries its type, a name for each secret that
-- its type requires, at most 32 well-formed and distinct names of secrets, and carries TCP or UDP.
pub validate_outbound-IsValid :
    (text : AddrText) (o : Outbound) → validate_outbound text o ≡ [] → IsValid o
unfolding validate_outbound
validate_outbound-IsValid text o h =
    let e = join_errors-nil _ h in
    let kinds = e.1.1 in
    let rest = kinds.1.1.1.1 in
    let (names, fresh) = validate_secrets-Fresh [] o.secret_metadata rest.1.1.1.0 in
    record {
      compatible =
          compatible_lem o.adapter o.type kinds.0 kinds.1.0
            (ground (arith, issue_if-nil _ _ rest.1.0));
      has_secrets = missing_secrets-All o.secret_metadata (required_secrets o.type) rest.1.1.1.1.0;
      secrets_named = names;
      secrets_distinct = fresh.distinct;
      few_secrets = ground (arith, issue_if-nil _ _ rest.1.1.0);
      carries = carries_lem o.capabilities.tcp o.capabilities.udp (issue_if-nil _ _ rest.0);
    }
