-- ===== src/Domain/Xray.antt =====
-- xray.go: bindings between tags of Xray.
use egress_manager.Base.{
  Bool, ◌||◌, not, List, [], ◌∷◌, ltb, ◌==◌, if◌then◌else◌, Bytes, any, length,
}
use egress_manager.Domain.Issue.{Issue, issue_if, join_errors, bad_xray_tag, control_in_xray_tag}
use egress_manager.Domain.Identifier.{validate_id, is_trimmed, is_control}

pub record XrayBinding : Type 0 where
  pub id : Bytes
  pub inbound_tag : Bytes
  pub outbound_tag : Bytes
  pub enabled : Bool

unfoldable pub validate_xray_tag : Bytes → List Issue
validate_xray_tag tag =
    if length tag == 0 || not (is_trimmed tag) || ltb 128 (length tag)
    then bad_xray_tag ∷ []
    else issue_if (any is_control tag) control_in_xray_tag

unfoldable pub validate_binding : XrayBinding → List Issue
validate_binding binding = join_errors (
    validate_id binding.id
    ∷ validate_xray_tag binding.inbound_tag
    ∷ validate_xray_tag binding.outbound_tag
    ∷ [])
