-- ===== src/Models.antt =====
-- The rows of sql/models.py that the components read and write, without the columns that they
-- neither test nor change. Dates are numbers (seconds).
use dbshield.Common.{ℕ, String, Bool, Option, List}
use dbshield.Const.{WorkflowType, query, sql_review, archive, WorkflowStatus, SqlStatus}

-- django.contrib.auth's `Group`: an approval group
pub record Group : Type 0 where
  pub id : ℕ
  pub name : String

-- `resource_group` holds the ids of the resource groups, `groups` the approval groups.
-- `has_perm` is Django's `user.has_perm`, code that is not in the repository.
pub record Users : Type 0 where
  pub id : ℕ
  pub username : String
  pub display : String
  pub is_superuser : Bool
  pub is_active : Bool
  pub groups : List Group
  pub resource_group : List ℕ
  pub has_perm : String → Bool

pub record ResourceGroup : Type 0 where
  pub group_id : ℕ
  pub group_name : String
  pub is_deleted : Bool

-- sql/engines/models.py: one statement of a review, with the fields that the audit reads
pub record ReviewResult : Type 0 where
  pub errlevel : ℕ
  pub sql : String
  pub affected_rows : ℕ

-- `id` is `none` until the row is saved. `review_content` is decoded from its JSON text; `none` is
-- the empty text. The instance is here by the fields that the audit reads.
pub record SqlWorkflow : Type 0 where
  pub id : Option ℕ
  pub workflow_name : String
  pub group_id : ℕ
  pub group_name : String
  pub db_type : String
  pub instance_tag : List String
  pub syntax_type : ℕ
  pub is_backup : Bool
  pub engineer : String
  pub engineer_display : String
  pub status : SqlStatus
  pub audit_auth_groups : String
  pub run_date_start : Option ℕ
  pub run_date_end : Option ℕ
  pub finish_time : Option ℕ
  pub is_offline_export : Bool
  pub review_content : Option (List ReviewResult)

pub record QueryPrivilegesApply : Type 0 where
  pub apply_id : Option ℕ
  pub group_id : ℕ
  pub group_name : String
  pub title : String
  pub user_name : String
  pub user_display : String
  pub instance_id : ℕ
  pub db_list : String
  pub table_list : String
  pub valid_date : ℕ
  pub limit_num : ℕ
  pub priv_type : ℕ
  pub status : WorkflowStatus
  pub audit_auth_groups : String

pub record ArchiveConfig : Type 0 where
  pub id : Option ℕ
  pub title : String
  pub resource_group_id : ℕ
  pub audit_auth_groups : String
  pub status : WorkflowStatus
  pub state : Bool
  pub user_name : String
  pub user_display : String

-- `audit_id` is `none` until the row is saved
pub record WorkflowAudit : Type 0 where
  pub audit_id : Option ℕ
  pub group_id : ℕ
  pub group_name : String
  pub workflow_id : Option ℕ
  pub workflow_type : WorkflowType
  pub workflow_title : String
  pub audit_auth_groups : String
  pub current_audit : String
  pub next_audit : String
  pub current_status : WorkflowStatus
  pub create_user : String
  pub create_user_display : String

pub record WorkflowAuditDetail : Type 0 where
  pub audit_id : Option ℕ
  pub audit_user : String
  pub audit_status : WorkflowStatus
  pub audit_time : ℕ
  pub remark : String

pub record WorkflowAuditSetting : Type 0 where
  pub group_id : ℕ
  pub group_name : String
  pub workflow_type : WorkflowType
  pub audit_auth_groups : String

pub record WorkflowLog : Type 0 where
  pub audit_id : Option ℕ
  pub operation_type : ℕ
  pub operation_type_desc : String
  pub operation_info : String
  pub operator : String
  pub operator_display : String

-- `Union[SqlWorkflow, ArchiveConfig, QueryPrivilegesApply]`; what `isinstance` tells apart
pub data Workflow : Type 0 where
  sql_workflow : SqlWorkflow → Workflow
  archive_config : ArchiveConfig → Workflow
  query_apply : QueryPrivilegesApply → Workflow

-- `WorkflowAuditMixin.workflow_type`
abbrev pub workflow_type_of : Workflow → WorkflowType
workflow_type_of (sql_workflow w) = sql_review
workflow_type_of (archive_config w) = archive
workflow_type_of (query_apply w) = query

-- `workflow.pk`, by `workflow_pk_field`
abbrev pub pk_of : Workflow → Option ℕ
pk_of (sql_workflow w) = w.id
pk_of (archive_config w) = w.id
pk_of (query_apply w) = w.apply_id
