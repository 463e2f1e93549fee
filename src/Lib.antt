-- ===== src/Lib.antt =====
-- Cloud Glider: the propagation state machine of daemon/cloud_glider/daemon.py, its gateway to AWS of
-- daemon/cloud_glider/aws_sdk.py, and the family daemon of daemon/cloud_glider/family_daemon.py.
--
-- A daemon runs on one EC2 instance, the current generation. Its main loop reads a control record,
-- writes a heartbeat, and, while propagation is enabled and it owns the chain, takes a lease, creates
-- the next generation's stack, waits until that generation beats steadily, hands ownership over to it
-- and deletes its own stack. Every condition that does not hold stops it: a SafetyViolation ends the run
-- and invokes the emergency hold, a TransientFailure ends the cycle and preserves the stack.
--
-- Files, and the code they model:
--   Prelude, Prelude/*: shared names, Boolean tests, integers and lists.
--   Python, Python/*: the parts of Python that the code uses: exceptions as results (Result), methods
--     that mutate and raise (Exec) with rules to reason about them (Hoare), dicts (Dict), the JSON values
--     of records (Value), texts and the patterns they must match (Text).
--   Daemon/Config: DaemonConfig, `load`, `validate`.
--   Daemon/Control: `_validated_control`, `_control_identity`; Control/Approved describes its result.
--   Daemon/Gateway, Daemon/Session: the Gateway protocol, the attributes of Daemon, and the trace.
--   Daemon/Specification: `_identity`, `_successor_parameters`, `_stack_specification`, `stable_token`.
--   Daemon/Identity: `verify_self`, `is_current_owner`, `heartbeat`, `ensure_bootstrap_ownership`.
--   Daemon/Provision: `_fresh_enabled_control`, `provision_successor`, `_renew`.
--   Daemon/Heartbeat, Daemon/Readiness: `_eligible_heartbeat`, `wait_for_healthy_successor`.
--   Daemon/Handoff, Daemon/Cycle, Daemon/Run: `conditional_handoff`, `cycle`, `run`.
--   Daemon/Trace, Daemon/Calls, Daemon/Quiet, Daemon/Gives: rules about the calls a method makes and
--     what it may return. Daemon/Guard, Daemon/Exit, Daemon/Lineage: what a run does.
--   Daemon/Lab, Daemon/Examples: a small world that answers the gateway, and runs in it.
--   Aws/Attribute, Aws/Dynamo, Aws/Services: DynamoDB's attributes with `_av`, `_unmarshal`, `_ddb_item` and
--     `_item` of daemon/cloud_glider/aws_sdk.py, its requests, and the services that the code calls.
--   Aws/Client, Aws/Metadata: `_call`, `_get`; `_imds` and `AwsSdkGateway.__init__`.
--   Aws/Fence, Aws/Lease: `_lifecycle_check`, `_fenced_write`; `acquire_lease`, `renew_lease`, `release_lease`.
--   Aws/Snapshot, Aws/Current: `_read_control_snapshot` and the reads and writes of CURRENT and heartbeats.
--   Aws/Provisioning, Aws/Description, Aws/Stacks: the provisioning marker, and the stacks.
--   Aws/Capacity, Aws/Handoff, Aws/Hold: `_pages`, `check_capacity`; `handoff`; `invoke_hold`.
--   Aws/Store: what DynamoDB documents of these requests, with rules for the calls. Their proofs stand in
--     children of each: Fence/Told, Fence/Conflict, Lease/Exclusive, Handoff/Moves, Stacks/Single, and so on.
--   Aws/Gateway: the whole as the `Gateway` of daemon.py, with Gateway/Handover.
--   Aws/Lab, Aws/Examples, Aws/Trials: a small account that answers as documented, and runs in it.
--   Family/Monitor: `ControlMonitor` of daemon/cloud_glider/family_daemon.py, with Monitor/Evidence.
--   Family/Config: the fields of `Ec2DaemonConfig` of daemon/cloud_glider/ec2_daemon.py.
--   Family/Inherited: `validate`, `child_paths`, `specification` of daemon/cloud_glider/inherited.py, and
--     Inherited/Tree and Inherited/Exact, the tree of node paths, and Inherited/Valid, what `validate` accepts.
--   Family/Session, Family/Cycle: `FamilyDaemon.__init__`, `spec`, `stop_children`, `cycle` of
--     family_daemon.py, with Cycle/Guard, which says what stands before each step.
--   Family/Run: `FamilyDaemon.__init__` and `run`, with Run/Exit and Run/Backoff.
--   Family/Lab, Family/Examples: a small world for the family daemon, and cycles in it.
--   Ec2/Config: `Ec2DaemonConfig.validate` of ec2_daemon.py. Ec2/Control: `Ec2Daemon._validated_control`
--     and `_artifact_identity`, with Control/Approved.
--   Ec2/Session, Ec2/Specification: the EC2 daemon's gateway, its trace, and what it computes.
--   Ec2/Ownership, Ec2/Provision: the startup checks, `is_current_owner`, `_fresh_enabled_control`,
--     `_renew`, `provision_successor`, `continuation_preflight`.
--   Ec2/Authority, Ec2/Retirement: `retire_predecessor`, with Authority/Authorized and
--     Authority/Predecessor, what its checks mean. Ec2/Proof, Ec2/Handoff:
--     `_eligible_functional_readiness`, `wait_for_ready_successor`, on fuel, and `conditional_handoff`,
--     with Ec2/Progress.
--   Ec2/Guard: what stands before a launch, a termination and a handoff, with Guard/Launch, Guard/Retire
--     and Guard/Handover, which share Guard/Reads, Guard/Steps and Guard/Observed.
--   Ec2/Lab, Ec2/Examples: a small chain and runs in it.
--   Python/Json: `json.dumps`, as `control_fingerprint` calls it.
--
-- In a family every node has up to two children, named by its path from the root and a digit. A node
-- launches its children, proves that they run, and retires once its own parent is gone. Its monitor polls
-- a remote stop from a thread of its own, and each step of a cycle asks it first.
--
-- The gateway is a parameter: a record of operations on a world of which nothing is assumed. Each may
-- change the world, return or raise. A session is the daemon's attributes, the world and the trace of
-- gateway calls and, for daemon.py and ec2_daemon.py, of readings of the clock, newest first. A log line is recorded by the name of its event.
--
-- The AWS gateway runs on services, which are parameters: a request is answered, refused with a
-- `ClientError`, or ends in another exception. `Documented` assumes of them what DynamoDB documents: the
-- tables of a world, that a transaction is done if it is answered and not done if it is refused, and what
-- its conditions and writes mean. An internal error of the service that is answered after the write was
-- done lies outside of it. An expression stands with its placeholders filled in. The pages of
-- `check_capacity` are read on fuel, one unit for each page. A quota counts thousandths.
--
-- The clock counts milliseconds, so `int(self.clock())` is a division by 1000; the code compares the
-- floating-point clock itself only in the deadline of the waiting loop. Texts are compared and lowered as
-- ASCII. Numbers in records are integers. The message of an exception is kept where the code logs it, the
-- code of a SafetyViolation always; any other exception is `uncaught`.
--
-- Each waiting loop runs on fuel, one unit for each round, and says when the fuel ran out. The main loop
-- has no end of its own in the source: it runs for a given number of cycles, and says when it would go on.
--
-- In a family, a launch that the thread pool runs is taken to run where it is submitted. The monitor's
-- ticks are a sequence, since each holds its lock; what a cycle asks of its monitor is answered by the
-- world, so a cycle holds for any monitor. Each clock of the family counts milliseconds.
--
-- Not modelled: the EC2 and family gateways (ec2_sdk.py, family_sdk.py), the heartbeats, functional
-- probe, cycle and run of the EC2 daemon (ec2_daemon.py), `user_data`, the monitor's thread and
-- the log of a family run, the bootstrap Lambda, the observer, the operator scripts and the image tools.
-- SHA-256, identifiers, the date, JSON and URL quoting are parameters. Numbers with fractions in items, the
-- durations of calls and the closing of clients and response bodies are left out.
pub mod Prelude
pub mod Python
pub mod Daemon
pub mod Aws
pub mod Ec2
pub mod Family
