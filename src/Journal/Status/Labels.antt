-- ===== src/Journal/Status/Labels.antt =====
-- src/journal/mod.rs, src/lock/mod.rs and src/domain.rs: `parse` after `label`, for each enumeration.
use skillmount.Prelude.{some, ◌≡◌, refl}
use skillmount.Mount.Action.{PathPrecondition, precondition_label, parse_precondition}
use skillmount.Journal.Status.{
  TransactionStatus, ActionStatus, ActionOperation, RecordedKind, AgentId, LockResourceKind,
  LockAccess, transaction_label, parse_transaction, action_label, parse_action, operation_label,
  parse_operation, kind_label, parse_kind, agent_label, parse_agent, resource_label, parse_resource,
  access_label, parse_access,
}

pub parse_transaction-label :
    (x : TransactionStatus) → parse_transaction (transaction_label x) ≡ some x
unfolding parse_transaction
parse_transaction-label TransactionStatus.planned = refl
parse_transaction-label TransactionStatus.applying = refl
parse_transaction-label TransactionStatus.active = refl
parse_transaction-label TransactionStatus.supervising = refl
parse_transaction-label TransactionStatus.cleaning = refl
parse_transaction-label TransactionStatus.completed = refl
parse_transaction-label TransactionStatus.kept = refl
parse_transaction-label TransactionStatus.failed = refl

pub parse_action-label : (x : ActionStatus) → parse_action (action_label x) ≡ some x
unfolding parse_action
parse_action-label ActionStatus.planned = refl
parse_action-label ActionStatus.intent = refl
parse_action-label ActionStatus.staged = refl
parse_action-label ActionStatus.applied = refl
parse_action-label ActionStatus.reused = refl
parse_action-label ActionStatus.rolled_back = refl

pub parse_operation-label : (x : ActionOperation) → parse_operation (operation_label x) ≡ some x
unfolding parse_operation
parse_operation-label ActionOperation.create_directory = refl
parse_operation-label ActionOperation.create_config_file = refl
parse_operation-label ActionOperation.create_directory_link = refl
parse_operation-label ActionOperation.reuse_existing_link = refl

pub parse_kind-label : (x : RecordedKind) → parse_kind (kind_label x) ≡ some x
unfolding parse_kind
parse_kind-label RecordedKind.file = refl
parse_kind-label RecordedKind.directory = refl
parse_kind-label RecordedKind.symlink = refl
parse_kind-label RecordedKind.junction = refl
parse_kind-label RecordedKind.undecided = refl

pub parse_agent-label : (x : AgentId) → parse_agent (agent_label x) ≡ some x
unfolding parse_agent
parse_agent-label AgentId.codex = refl
parse_agent-label AgentId.claude = refl
parse_agent-label AgentId.omp = refl

pub parse_resource-label : (x : LockResourceKind) → parse_resource (resource_label x) ≡ some x
unfolding parse_resource
parse_resource-label LockResourceKind.discovery_entry = refl
parse_resource-label LockResourceKind.backing_store = refl

pub parse_access-label : (x : LockAccess) → parse_access (access_label x) ≡ some x
unfolding parse_access
parse_access-label LockAccess.observe = refl
parse_access-label LockAccess.mutate = refl

pub parse_precondition-label :
    (x : PathPrecondition) → parse_precondition (precondition_label x) ≡ some x
unfolding parse_precondition
parse_precondition-label PathPrecondition.missing = refl
parse_precondition-label PathPrecondition.existing_link_to_source = refl
