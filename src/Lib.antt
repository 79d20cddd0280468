-- ===== src/Lib.antt =====
-- DBShield: the review of changes to databases.
--
-- A user submits a workflow (a SQL change, a request for query privileges, an archive job). The
-- review of it is a row of `WorkflowAudit` that goes from one approval group to the next; the class
-- `AuditV2` of sql/utils/workflow_audit.py holds the workflow and this row, and its methods write
-- the row, the details and the log. The settings (`SysConfig`, common/config.py) decide what is
-- approved or turned down without a person, and whether submitters may review their own workflows.
--
-- The files:
--   Common: the Python that the code stands on: lists, strings, `str.split` and `join`, `int`, and
--     methods that change objects and rows and may raise (Common/Monad, with Common/Returns for
--     what holds when one returned; Common/Checks for code that only reads).
--   Const: the enumerations of common/utils/const.py. Models: the rows of sql/models.py.
--   Config: `SysConfig` of common/config.py; Config/Reads and Config/Writes are about its reads and
--     writes, and Config/Tests has concrete settings.
--   SqlText/Comments: `remove_comments` of sql/utils/sql_utils.py. The regular expression is a scan
--     from the left; its fuel is the text's length, and each round takes a character at least;
--     SqlText/Tests has concrete texts.
--   Audit: `AuditV2` of sql/utils/workflow_audit.py. Audit/State has the rows and the object,
--     with the calls of the database as functions on the rows; Audit/Review is `is_auto_reject`
--     and `is_auto_review`, Audit/Lookup `review_info` and `generate_audit_setting`, Audit/Create
--     `create_audit`, Audit/CanOperate `can_operate`, Audit/Operate `operate`, Audit/Nodes
--     `get_review_info`, Audit/Readable the text of its nodes, Audit/Init the construction of the
--     object, Audit/Legacy the todo count and the settings of the class `Audit`.
--     Audit/Permissions and Audit/Complete are about who may take a step, Audit/Chain,
--     Audit/Passes, Audit/Progress and Audit/Ends about approvals in a row, Audit/Repeats about a
--     group that stands twice in a flow, Audit/Outcomes and Audit/Steps about the statuses,
--     Audit/Keeps about the workflow, Audit/Flow and Audit/Submit about submissions; Audit/Tests
--     and Audit/SubmitTests run concrete reviews.
--   Online: a SQL workflow once it is reviewed. Online/State has the rows; Online/Access is
--     sql/utils/sql_review.py, with `can_review` of the class `Audit`; Online/Execute is
--     sql/utils/execute_sql.py. Online/Groups is about the groups of a user, Online/Rights about
--     who may do what, Online/Effects and Online/Once about the execution, and Online/Tests has
--     concrete workflows.
--   Privileges: who may query what. Privileges/State has the rows and `user_instances` of
--     sql/utils/resource_group.py; Privileges/Check is `query_priv_check` of
--     sql/query_privileges.py; Privileges/Grant is `query_apply_audit_call_back` of
--     sql/services/privilege_service.py; Privileges/Modify is `query_priv_modify`.
--     Privileges/Limits and Privileges/Complete are about the loops over tables and databases,
--     Privileges/Verdicts about the whole check, Privileges/Granted and Privileges/Callback about
--     what the callback writes, Privileges/Composed about the callback and the loops after it;
--     Privileges/Tests has concrete rows.
--   SchemaDiff: sql/services/schema_diff_service.py. SchemaDiff/Columns has the definitions and
--     the signatures of columns (SchemaDiff/Floats the texts that Python's `float` reads),
--     SchemaDiff/Indexes those of indexes and table options, SchemaDiff/Tables `diff_table`, and
--     SchemaDiff/Schemas `build_alter` and `diff_schemas`. SchemaDiff/Quoting is about the
--     quoting of names, SchemaDiff/Times about the defaults of times, SchemaDiff/Same,
--     SchemaDiff/Names and SchemaDiff/Equal about equal sides, SchemaDiff/Summary about the
--     counts; SchemaDiff/Tests has concrete tables.
--   Api: the requests of sql_api/api_workflow.py that pass or cancel a workflow, execute it or
--     show its log, with their serializers. Api/State has the rows that the components share,
--     with the part of each, and `get_auditor`; Api/Review is `AuditWorkflow.post`, Api/Execute
--     `ExecuteWorkflow.post` (with the type as it is sent, a number or a text) and
--     `WorkflowLogList.post`. Api/Auditor is about the object of `get_auditor`, Api/Actors about
--     who acts, Api/Cancel and Api/Late about cancels, Api/Modes, Api/Execution and Api/Once
--     about executions and the tasks in the queue; Api/Tests has concrete requests.
--   Masking: sql/utils/data_masking.py. Masking/Regex is `regex`, with the three lazy groups of
--     the rule 100; Masking/Columns has `del_repeat` and `analyze_query_tree`, Masking/Rows
--     `data_masking`, Masking/Brute `brute_mask`. Masking/Thirds is about the rule 100,
--     Masking/Untouched about the columns that no rule hits; Masking/Tests has concrete rules and
--     results.
--   Archive: archive jobs. Archive/Review has the requests of sql_api/api_archiver.py that decide
--     on a job (`ArchiveAudit`), switch it (`ArchiveSwitchView`) and queue it
--     (`ArchiveOnceView`), on the rows of Api/State, and `add_archive_task` of sql/archiver.py.
--     Archive/Outcome is about the decisions, Archive/Rearm about the actions of the execution;
--     Archive/Tests has a concrete job.
--   SlowQuery: the collection of slow queries. SlowQuery/Collector has the cursor and the upsert of
--     sql/collectors/base.py, where three attempts are made, with `collect_detail` of
--     sql/collectors/redis_collector.py; SlowQuery/Again is about a log that is collected twice;
--     SlowQuery/Tests has a concrete log.
--   Query: the online queries. Query/State has the rows, and the engine of an instance as a
--     record of its operations, with `update_favorite` of sql/services/querylog_service.py;
--     Query/Service is `execute_sql_query` of sql/services/sqlquery_service.py, which asks
--     `query_priv_check` of Privileges. Query/Asked is about the queries that reach an engine,
--     Query/Released about the results that reach the user; Query/Tests has a concrete engine.
--   Login: common/auth.py. Login/State has the accounts, with `Users.save` of sql/models.py and
--     `init_user`; Login/Authenticate is `DBShieldAuth`. Login/Lock has what one login with a
--     wrong password leaves, Login/Guesses and Login/Threshold are about many of them;
--     Login/Tests has a concrete account. Times are counted in microseconds.
--
-- A method is a function from the state to a result and the state that it leaves, also where it
-- raises. Code that is not in the repository is a parameter: the permissions of a user are a
-- function (`has_perm`), and the administrator's regular expression is the parameter `re_match`
-- of the automatic review. The engine that runs a workflow is the parameter `engine` of
-- `execute`; the list `executed` of a site records what it was given. The parser of
-- `query_priv_check` (goInception), the tokens of the sqlparse package and the `order_by` of
-- Django's query sets are parameters of the check; the cache before the parser is taken with it.
-- The masking has the parser of sqlparse, the answer of the goInception server, the filter of
-- pandas and the search of the administrator's regular expressions as parameters. The queries
-- have the engine of an instance as a parameter, a record of the operations that the service
-- calls (the drivers of the servers do the rest); the login has Django's `authenticate`, and the
-- collection has the digest of MD5, the outcome of the insert and those of the attempts of the
-- upsert.
--
-- Not modelled: the database engines (the clients of the servers, each a driver's calls), the
-- HTTP views but `query_priv_modify` and those of Api and Archive (of sql_api/api_workflow.py,
-- those that parse dates or only show rows are left), the process of pt-archiver, the collectors
-- of the other servers, LDAP, OIDC and sessions, notification, the pages, the masking by column
-- names (`simple_column_mask`), and the columns that the operations neither test nor change.
-- Reads and writes of one method are taken as one step: requests that run at the same time on the
-- same rows are not interleaved.
pub mod Common
pub mod Config
pub mod SqlText
pub mod Const
pub mod Models
pub mod Audit
pub mod Online
pub mod Privileges
pub mod SchemaDiff
pub mod Api
pub mod Masking
pub mod Login
pub mod Query
pub mod Archive
pub mod SlowQuery
