-- ===== src/Family/Examples.antt =====
-- Cycles of the family daemon in the small world, ticks of a monitor, and the theorems at them.
use cloud_glider.Prelude.{
  if◌then◌else◌, ℕ, ◌+◌, ◌*◌, ◌^◌, ◌<◌, ◌≤◌, ◌≡◌, refl, arith, true, false, some, none, List, [],
  ◌∷◌, ◌++◌,
}
use cloud_glider.Prelude.Int.{pos}
use cloud_glider.Prelude.Lists.{All, length}
use cloud_glider.Python.Result.{ok, err, transient}
use cloud_glider.Python.Hoare.{Ends}
use cloud_glider.Python.Dict.{lookup, insert, update, keys, has_key, dict_eq}
use cloud_glider.Python.Value.{value_eq, truth, to_int, as_number, get, item, as_text}
use cloud_glider.Python.Text.{
  text_length, all_codes, matches_generation, matches_sha256, matches_account, matches_request_id,
  matches_node_path, lower, contains, ends_with, split_colon, decimal, format_06d, format_06d_int,
  take, join, int_of_text,
}
use cloud_glider.Python.Exec.{
  pure, raise, lift, gets, modify, ◌>>=◌, finally, catch_transient, catch_safety,
}
use cloud_glider.Prelude.Int.{◌+ℤ◌, ◌-ℤ◌, ◌*ℤ◌}
use cloud_glider.Daemon.Control.{differs, require}
use cloud_glider.Family.Config.{audit_table_name}
use cloud_glider.Family.Inherited.{
  check_booleans, whole, whole_item, check_numbers, check_pins, check_optional_pins, check_ranges,
  check_lineage, check_place, check_settings, snoc, child_paths, validate, token_parts,
  specification,
}
use cloud_glider.Family.Session.{start, call, observe, monitor_tick, now_ms}
use cloud_glider.Family.Cycle.{
  spec, stop_path, stop_paths, stop_children, unless_halted, timed_out, retire_if_authorized,
  finish, accept_child, accept_all, publish, after_launches, results, future, launch_all,
  begin_unless, begin_wait, late_launch, launch, launch_when_ready, be_leaf, as_owner,
  publish_ready, check_configuration, with_node, read_and_go_on, cycle,
}
use cloud_glider.Family.Cycle.{stopped, retiring}
use cloud_glider.Family.Cycle.Guard.{IsSound}
use cloud_glider.Family.Cycle.Guard.Rules.{Ended}
use cloud_glider.Family.Cycle.Guard.Whole.{cycle-IsGuarded}
use cloud_glider.Family.Monitor.{Tick, monitor, receive, take_reply, expire, submit, tick, ticked}
use cloud_glider.Family.Monitor.Evidence.{Leave, ticked-stopped, ticked-Leave}
use cloud_glider.Family.Inherited.Tree.{IsNode, descendants, descendants-IsNode}
use cloud_glider.Prelude.Int.{◌≤ℤ◌, leb_ℤ}
use cloud_glider.Python.Exec.{catch_transient, catch_safety}
use cloud_glider.Family.Run.{
  family_daemon, check_capacity, sleep, violate, resume_stop, back_off, attempt, after_attempt,
  run_loop, hold, run, longest_delay,
}
use cloud_glider.Family.Inherited.Exact.{IsDistinct, descendants-full}
use cloud_glider.Family.Run.Exit.{IsEnd, run-IsEnd}
use cloud_glider.Family.Run.Backoff.{family_daemon-IsPatient}
use cloud_glider.Family.Inherited.Valid.{validate-IsNode}
use cloud_glider.Family.Lab.{settings, config, gateway, daemon, calm, halting, monitor_settings}

configuration_is_valid : validate gateway.digest config ≡ ok settings
unfolding lookup insert update keys has_key dict_eq value_eq truth to_int as_number get item as_text
    text_length all_codes matches_generation matches_sha256 matches_account matches_request_id
    matches_node_path lower contains ends_with split_colon decimal format_06d format_06d_int take
    join int_of_text pure raise lift gets modify ◌>>=◌ finally catch_transient catch_safety ◌+ℤ◌
    ◌-ℤ◌ ◌*ℤ◌ differs require audit_table_name check_booleans whole whole_item check_numbers
    check_pins check_optional_pins check_ranges check_lineage check_place check_settings snoc
    child_paths validate token_parts specification start call observe monitor_tick now_ms spec
    stop_path stop_paths stop_children unless_halted timed_out retire_if_authorized finish
    accept_child accept_all publish after_launches results future launch_all begin_unless begin_wait
    late_launch launch launch_when_ready be_leaf as_owner publish_ready check_configuration
    with_node read_and_go_on cycle
configuration_is_valid = refl

children_of_node : child_paths "r0" (pos 4) true ≡ "r00" ∷ "r01" ∷ []
unfolding lookup insert update keys has_key dict_eq value_eq truth to_int as_number get item as_text
    text_length all_codes matches_generation matches_sha256 matches_account matches_request_id
    matches_node_path lower contains ends_with split_colon decimal format_06d format_06d_int take
    join int_of_text pure raise lift gets modify ◌>>=◌ finally catch_transient catch_safety ◌+ℤ◌
    ◌-ℤ◌ ◌*ℤ◌ differs require audit_table_name check_booleans whole whole_item check_numbers
    check_pins check_optional_pins check_ranges check_lineage check_place check_settings snoc
    child_paths validate token_parts specification start call observe monitor_tick now_ms spec
    stop_path stop_paths stop_children unless_halted timed_out retire_if_authorized finish
    accept_child accept_all publish after_launches results future launch_all begin_unless begin_wait
    late_launch launch launch_when_ready be_leaf as_owner publish_ready check_configuration
    with_node read_and_go_on cycle
children_of_node = refl

calm_retires : (cycle daemon (start calm)).0 ≡ ok retiring
unfolding lookup insert update keys has_key dict_eq value_eq truth to_int as_number get item as_text
    text_length all_codes matches_generation matches_sha256 matches_account matches_request_id
    matches_node_path lower contains ends_with split_colon decimal format_06d format_06d_int take
    join int_of_text pure raise lift gets modify ◌>>=◌ finally catch_transient catch_safety ◌+ℤ◌
    ◌-ℤ◌ ◌*ℤ◌ differs require audit_table_name check_booleans whole whole_item check_numbers
    check_pins check_optional_pins check_ranges check_lineage check_place check_settings snoc
    child_paths validate token_parts specification start call observe monitor_tick now_ms spec
    stop_path stop_paths stop_children unless_halted timed_out retire_if_authorized finish
    accept_child accept_all publish after_launches results future launch_all begin_unless begin_wait
    late_launch launch launch_when_ready be_leaf as_owner publish_ready check_configuration
    with_node read_and_go_on cycle
calm_retires = refl

halting_stops : (cycle daemon (start halting)).0 ≡ ok stopped
unfolding lookup insert update keys has_key dict_eq value_eq truth to_int as_number get item as_text
    text_length all_codes matches_generation matches_sha256 matches_account matches_request_id
    matches_node_path lower contains ends_with split_colon decimal format_06d format_06d_int take
    join int_of_text pure raise lift gets modify ◌>>=◌ finally catch_transient catch_safety ◌+ℤ◌
    ◌-ℤ◌ ◌*ℤ◌ differs require audit_table_name check_booleans whole whole_item check_numbers
    check_pins check_optional_pins check_ranges check_lineage check_place check_settings snoc
    child_paths validate token_parts specification start call observe monitor_tick now_ms spec
    stop_path stop_paths stop_children unless_halted timed_out retire_if_authorized finish
    accept_child accept_all publish after_launches results future launch_all begin_unless begin_wait
    late_launch launch launch_when_ready be_leaf as_owner publish_ready check_configuration
    with_node read_and_go_on cycle
halting_stops = refl

calm-IsSound : IsSound daemon (start calm)
unfolding start
calm-IsSound = record { guarded = tt; cancelled = λ path k. cc }

cycle-IsGuarded_example :
    Ends
      (λ o s. Ended daemon o s.trace × IsSound daemon s)
      (IsSound daemon)
      (cycle daemon (start calm)).0
      (cycle daemon (start calm)).1
unfolding start
cycle-IsGuarded_example = cycle-IsGuarded daemon (start calm) calm-IsSound

-- A daemon is made from this configuration, and its run ends with the retirement.
daemon_is_made : family_daemon config gateway "c" ≡ ok daemon
unfolding lookup insert update keys has_key dict_eq value_eq truth to_int as_number get item as_text
    text_length all_codes matches_generation matches_sha256 matches_account matches_request_id
    matches_node_path lower contains ends_with split_colon decimal format_06d format_06d_int take
    join int_of_text pure raise lift gets modify ◌>>=◌ finally catch_transient catch_safety ◌+ℤ◌
    ◌-ℤ◌ ◌*ℤ◌ differs require audit_table_name check_booleans whole whole_item check_numbers
    check_pins check_optional_pins check_ranges check_lineage check_place check_settings snoc
    child_paths validate token_parts specification start call observe monitor_tick now_ms spec
    stop_path stop_paths stop_children unless_halted timed_out retire_if_authorized finish
    accept_child accept_all publish after_launches results future launch_all begin_unless begin_wait
    late_launch launch launch_when_ready be_leaf as_owner publish_ready check_configuration
    with_node read_and_go_on cycle family_daemon check_capacity
daemon_is_made = refl

run_retires : (run daemon 3 (start calm)).0 ≡ ok (some 0)
unfolding lookup insert update keys has_key dict_eq value_eq truth to_int as_number get item as_text
    text_length all_codes matches_generation matches_sha256 matches_account matches_request_id
    matches_node_path lower contains ends_with split_colon decimal format_06d format_06d_int take
    join int_of_text pure raise lift gets modify ◌>>=◌ finally catch_transient catch_safety ◌+ℤ◌
    ◌-ℤ◌ ◌*ℤ◌ differs require audit_table_name check_booleans whole whole_item check_numbers
    check_pins check_optional_pins check_ranges check_lineage check_place check_settings snoc
    child_paths validate token_parts specification start call observe monitor_tick now_ms spec
    stop_path stop_paths stop_children unless_halted timed_out retire_if_authorized finish
    accept_child accept_all publish after_launches results future launch_all begin_unless begin_wait
    late_launch launch launch_when_ready be_leaf as_owner publish_ready check_configuration
    with_node read_and_go_on cycle sleep violate resume_stop back_off attempt after_attempt run_loop
    hold run longest_delay
run_retires = refl

run-IsEnd_example :
    Ends
      (λ r s. IsEnd daemon r s.trace × IsSound daemon s)
      (IsSound daemon)
      (run daemon 3 (start calm)).0
      (run daemon 3 (start calm)).1
run-IsEnd_example = run-IsEnd daemon 3 calm

poll_of_settings : whole_item settings "readiness_poll_seconds" ≡ ok (pos 2)
unfolding lookup insert update keys has_key dict_eq value_eq truth to_int as_number get item as_text
    text_length all_codes matches_generation matches_sha256 matches_account matches_request_id
    matches_node_path lower contains ends_with split_colon decimal format_06d format_06d_int take
    join int_of_text pure raise lift gets modify ◌>>=◌ finally catch_transient catch_safety ◌+ℤ◌
    ◌-ℤ◌ ◌*ℤ◌ differs require audit_table_name check_booleans whole whole_item check_numbers
    check_pins check_optional_pins check_ranges check_lineage check_place check_settings snoc
    child_paths validate token_parts specification start call observe monitor_tick now_ms spec
    stop_path stop_paths stop_children unless_halted timed_out retire_if_authorized finish
    accept_child accept_all publish after_launches results future launch_all begin_unless begin_wait
    late_launch launch launch_when_ready be_leaf as_owner publish_ready check_configuration
    with_node read_and_go_on cycle
poll_of_settings = refl

backoff_of_settings : whole_item settings "retry_backoff_max_seconds" ≡ ok (pos 60)
unfolding lookup insert update keys has_key dict_eq value_eq truth to_int as_number get item as_text
    text_length all_codes matches_generation matches_sha256 matches_account matches_request_id
    matches_node_path lower contains ends_with split_colon decimal format_06d format_06d_int take
    join int_of_text pure raise lift gets modify ◌>>=◌ finally catch_transient catch_safety ◌+ℤ◌
    ◌-ℤ◌ ◌*ℤ◌ differs require audit_table_name check_booleans whole whole_item check_numbers
    check_pins check_optional_pins check_ranges check_lineage check_place check_settings snoc
    child_paths validate token_parts specification start call observe monitor_tick now_ms spec
    stop_path stop_paths stop_children unless_halted timed_out retire_if_authorized finish
    accept_child accept_all publish after_launches results future launch_all begin_unless begin_wait
    late_launch launch launch_when_ready be_leaf as_owner publish_ready check_configuration
    with_node read_and_go_on cycle
backoff_of_settings = refl

limit_of_settings : whole_item settings "max_generation" ≡ ok (pos 4)
unfolding lookup insert update keys has_key dict_eq value_eq truth to_int as_number get item as_text
    text_length all_codes matches_generation matches_sha256 matches_account matches_request_id
    matches_node_path lower contains ends_with split_colon decimal format_06d format_06d_int take
    join int_of_text pure raise lift gets modify ◌>>=◌ finally catch_transient catch_safety ◌+ℤ◌
    ◌-ℤ◌ ◌*ℤ◌ differs require audit_table_name check_booleans whole whole_item check_numbers
    check_pins check_optional_pins check_ranges check_lineage check_place check_settings snoc
    child_paths validate token_parts specification start call observe monitor_tick now_ms spec
    stop_path stop_paths stop_children unless_halted timed_out retire_if_authorized finish
    accept_child accept_all publish after_launches results future launch_all begin_unless begin_wait
    late_launch launch launch_when_ready be_leaf as_owner publish_ready check_configuration
    with_node read_and_go_on cycle
limit_of_settings = refl

family_daemon-IsPatient_example :
    (pos 2 ≤ℤ longest_delay (pos 60) (pos 2) 7) × (longest_delay (pos 60) (pos 2) 7 ≤ℤ pos 60)
family_daemon-IsPatient_example =
    family_daemon-IsPatient config gateway "c" daemon (pos 2) (pos 60) 7 daemon_is_made
      poll_of_settings backoff_of_settings

validate-IsNode_example :
    (level : ℕ) × (pos 4 ≤ℤ pos 9)
    × IsNode (pos 4) level config.node_path
    × (int_of_text config.generation ≡ some (pos level))
validate-IsNode_example =
    validate-IsNode (λ r. "digest") config settings (pos 4) configuration_is_valid limit_of_settings

-- A read that was submitted at 1 s is answered at 2 s; the one after it fails, and at 32 s its answer is
-- too old.
abbrev answered_once : List Tick
answered_once =
    (record { now = 8000; reply = some (err (transient "throttled")) })
    ∷ (record { now = 2000; reply = some (ok false) })
    ∷ (record { now = 1000; reply = none })
    ∷ []

abbrev last_tick : Tick
last_tick = record { now = 30999; reply = none }

abbrev late_tick : Tick
late_tick = record { now = 31000; reply = none }

still_going : (ticked monitor_settings 500 (last_tick ∷ answered_once)).stopped ≡ false
unfolding ticked tick submit expire take_reply receive monitor
still_going = refl

expired : (ticked monitor_settings 500 (late_tick ∷ answered_once)).stopped ≡ true
unfolding ticked tick submit expire take_reply receive monitor
expired = refl

ticked-Leave_example :
    (at : ℕ) × Leave monitor_settings 500 at (last_tick ∷ answered_once) × (30999 < at + 30 * 1000)
ticked-Leave_example = ticked-Leave monitor_settings 500 last_tick answered_once still_going

ticked-stopped_example :
    (ticked monitor_settings 500 ((last_tick ∷ []) ++ (late_tick ∷ answered_once))).stopped ≡ true
ticked-stopped_example =
    ticked-stopped monitor_settings 500 (last_tick ∷ []) (late_tick ∷ answered_once) expired

zero_child-IsNode : IsNode (pos 4) 1 "r0"
unfolding matches_node_path text_length all_codes
zero_child-IsNode = record { pattern = refl; long = refl; within = omega arith }

descendants-IsNode_example :
    All (IsNode (pos 4) (3 + 1)) (descendants (pos 4) true "r0" 3)
    × (length (descendants (pos 4) true "r0" 3) ≤ 2 ^ 3)
descendants-IsNode_example =
    descendants-IsNode (pos 4) true 1 "r0" 3 (omega arith) zero_child-IsNode

descendants-full_example :
    IsDistinct (descendants (pos 4) true "r0" 3)
    × (length (descendants (pos 4) true "r0" 3)
        ≡ (if leb_ℤ (pos (3 + 1)) (pos 4) then 2 ^ 3 else 0))
descendants-full_example = descendants-full (pos 4) 1 "r0" 3 (omega arith) zero_child-IsNode
