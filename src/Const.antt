-- ===== src/Const.antt =====
-- common/utils/const.py, and the states of a SQL workflow in sql/models.py.
use dbshield.Common.{ℕ, String, true, arith, ◌≡◌, ◌↔◌, Eq, nat_beq}

pub data WorkflowType : Type 0 where
  query sql_review archive : WorkflowType

pub data WorkflowStatus : Type 0 where
  waiting passed rejected aborted : WorkflowStatus

pub data WorkflowAction : Type 0 where
  submit pass reject abort execute_set_time execute_start execute_end : WorkflowAction

-- `.value` of the three enumerations
abbrev pub type_value : WorkflowType → ℕ
type_value query = 1
type_value sql_review = 2
type_value archive = 3

abbrev pub status_value : WorkflowStatus → ℕ
status_value waiting = 0
status_value passed = 1
status_value rejected = 2
status_value aborted = 3

abbrev pub action_value : WorkflowAction → ℕ
action_value submit = 0
action_value pass = 1
action_value reject = 2
action_value abort = 3
action_value execute_set_time = 4
action_value execute_start = 5
action_value execute_end = 6

-- `.label`
abbrev pub action_label : WorkflowAction → String
action_label submit = "提交"
action_label pass = "审核通过"
action_label reject = "审核不通过"
action_label abort = "审核取消"
action_label execute_set_time = "设置定时执行"
action_label execute_start = "开始执行"
action_label execute_end = "执行结束"

abbrev pub type_label : WorkflowType → String
type_label query = "查询权限申请"
type_label sql_review = "SQL上线申请"
type_label archive = "数据归档申请"

pub type_beq_iff : (a b : WorkflowType) → (nat_beq (type_value a) (type_value b) ≡ true) ↔ (a ≡ b)
type_beq_iff a b = ground arith

pub status_beq_iff :
    (a b : WorkflowStatus) → (nat_beq (status_value a) (status_value b) ≡ true) ↔ (a ≡ b)
status_beq_iff a b = ground arith

pub action_beq_iff :
    (a b : WorkflowAction) → (nat_beq (action_value a) (action_value b) ≡ true) ↔ (a ≡ b)
action_beq_iff a b = ground arith

instance abbrev pub type_eq : Eq WorkflowType
type_eq = record { same = λ a b. nat_beq (type_value a) (type_value b); same_iff = type_beq_iff }

instance abbrev pub status_eq : Eq WorkflowStatus
status_eq = record {
  same = λ a b. nat_beq (status_value a) (status_value b);
  same_iff = status_beq_iff;
}

instance abbrev pub action_eq : Eq WorkflowAction
action_eq = record {
  same = λ a b. nat_beq (action_value a) (action_value b);
  same_iff = action_beq_iff;
}

-- the `status` of a `SqlWorkflow`
pub data SqlStatus : Type 0 where
  workflow_finish workflow_abort workflow_manreviewing workflow_review_pass : SqlStatus
  workflow_timingtask workflow_queuing workflow_executing : SqlStatus
  workflow_autoreviewwrong workflow_exception : SqlStatus

abbrev pub sql_status_value : SqlStatus → ℕ
sql_status_value workflow_finish = 0
sql_status_value workflow_abort = 1
sql_status_value workflow_manreviewing = 2
sql_status_value workflow_review_pass = 3
sql_status_value workflow_timingtask = 4
sql_status_value workflow_queuing = 5
sql_status_value workflow_executing = 6
sql_status_value workflow_autoreviewwrong = 7
sql_status_value workflow_exception = 8

pub sql_status_beq_iff :
    (a b : SqlStatus) → (nat_beq (sql_status_value a) (sql_status_value b) ≡ true) ↔ (a ≡ b)
sql_status_beq_iff a b = ground arith

instance abbrev pub sql_status_eq : Eq SqlStatus
sql_status_eq = record {
  same = λ a b. nat_beq (sql_status_value a) (sql_status_value b);
  same_iff = sql_status_beq_iff;
}
