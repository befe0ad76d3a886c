-- ===== src/Tests/Code.antt =====
-- The code that the concrete runs go through: opening `code` opens all of it.
unfoldable pub code : Unit {0}
unfolding zgent.Tests.Codec.encode zgent.Tests.Codec.decode zgent.Fsm.is_terminal
    zgent.Fsm.transitions zgent.Fsm.accepts zgent.Fsm.transition zgent.Fsm.recover_action
    zgent.World.now zgent.World.publish zgent.World.spawn zgent.World.incident_dirs
    zgent.World.incident_files zgent.World.set_incident_files zgent.World.snapshot
    zgent.Fsm.History.history zgent.Incidents.Smoke.smoke_verifier_fingerprint
    zgent.Incidents.Smoke.announce zgent.Incidents.Smoke.store_logs
    zgent.Incidents.Smoke.run_executor zgent.Incidents.Smoke.select_smoke_evidence
    zgent.Incidents.Coordinator.find_incident zgent.Incidents.Coordinator.latest_incident
    zgent.Incidents.Coordinator.set_status zgent.Incidents.Coordinator.dispatch
    zgent.Incidents.Coordinator.read_capsule zgent.Incidents.Coordinator.can_apply
    zgent.Incidents.Coordinator.previous_outcome zgent.Incidents.Coordinator.start_run
    zgent.Incidents.Evidence.snapshot_log zgent.Incidents.Evidence.snapshot_failure_logs
    zgent.Incidents.Evidence.secret_markers zgent.Incidents.Evidence.is_secret
    zgent.Incidents.Evidence.safe_environment zgent.Incidents.Evidence.dirty_paths
    zgent.Incidents.Evidence.build_failure_capsule zgent.Incidents.Store.read_incident
    zgent.Incidents.Store.write_incident zgent.Incidents.Store.update_incident
    zgent.Incidents.Store.set_run zgent.Incidents.Store.write_run zgent.Incidents.Store.own_attempt
    zgent.Incidents.Store.or_attempt zgent.Incidents.Store.create_run zgent.Incidents.Store.read_run
    zgent.Incidents.Store.update_run zgent.Incidents.Store.write_diagnosis
    zgent.Incidents.Store.set_diff zgent.Incidents.Store.write_proposal
    zgent.Incidents.Store.clear_proposal zgent.Incidents.Store.read_patch
    zgent.Incidents.Store.write_receipt zgent.Incidents.Store.write_smoke_result
    zgent.Incidents.Store.write_smoke_execution zgent.Incidents.Store.clear_agent_artifacts
    zgent.Incidents.Store.list_incidents zgent.Incidents.Store.Names.validate_id
    zgent.Incidents.Store.Frames.put_snapshot zgent.Incidents.Coordinator.Running.invoke
    zgent.Incidents.Coordinator.Running.run_incident
    zgent.Incidents.Coordinator.Running.run_diagnosis
    zgent.Incidents.Coordinator.Deciding.is_awaiting zgent.Incidents.Coordinator.Deciding.same_text
    zgent.Incidents.Coordinator.Deciding.active_proposal zgent.Incidents.Coordinator.Deciding.decide
    zgent.Incidents.Coordinator.Deciding.observe_retry zgent.Incidents.Coordinator.SmokeTest.on_tree
    zgent.Incidents.Coordinator.SmokeTest.smoke_path zgent.Incidents.Coordinator.SmokeTest.run_smoke
    zgent.Incidents.Coordinator.Recovering.recover_smoke
    zgent.Incidents.Coordinator.Recovering.resume_active_run
    zgent.Incidents.Coordinator.Recovering.recover_incident
    zgent.Incidents.Coordinator.Recovering.recover
    zgent.Incidents.Coordinator.Diagnosing.handle_failure
    zgent.Incidents.Coordinator.Diagnosing.follow_up zgent.Jobs.Recover.is_active
    zgent.Jobs.Recover.recover_interrupted zgent.Jobs.EventStore.same_type
    zgent.Jobs.EventStore.same_attempt zgent.Jobs.EventStore.matches
    zgent.Jobs.EventStore.set_events zgent.Jobs.EventStore.set_seq zgent.Jobs.EventStore.loaded
    zgent.Jobs.EventStore.read_events zgent.Jobs.EventStore.repair
    zgent.Jobs.EventStore.load_repairing zgent.Jobs.EventStore.uncached
    zgent.Jobs.EventStore.last_event_seq zgent.Jobs.EventStore.content_or_new
    zgent.Jobs.EventStore.append_payload zgent.Jobs.EventStore.append_event
    zgent.Jobs.EventStore.find_attempt_event zgent.Jobs.Supervisor.stop_starting
    zgent.Jobs.Supervisor.is_exit zgent.Jobs.Supervisor.notify_failure
    zgent.Jobs.Supervisor.next_attempt_id zgent.Jobs.Supervisor.open_logs
    zgent.Jobs.Supervisor.record_launch_failure zgent.Jobs.Supervisor.run_spawned
    zgent.Jobs.Supervisor.launch zgent.Jobs.Supervisor.start zgent.Jobs.Supervisor.retry
    zgent.Jobs.Monitor.drain zgent.Jobs.Monitor.closed zgent.Jobs.Monitor.final_status
    zgent.Jobs.Monitor.final_event zgent.Jobs.Monitor.failure_kind zgent.Jobs.Monitor.monitor
    zgent.Jobs.Monitor.wait zgent.Jobs.Monitor.request_cancel zgent.Jobs.Events.rows
    zgent.Jobs.Events.ends_line zgent.Jobs.Events.terminated zgent.Jobs.Events.load_rows
    zgent.Jobs.Events.repair_rows zgent.Jobs.Events.load_events zgent.Jobs.Events.repaired
    zgent.Jobs.Events.last_seq zgent.Jobs.Store.component zgent.Jobs.Store.job_files
    zgent.Jobs.Store.set_job_files zgent.Jobs.Store.attempt_files zgent.Jobs.Store.set_attempt_files
    zgent.Jobs.Store.write_job zgent.Jobs.Store.create_job zgent.Jobs.Store.read_job
    zgent.Jobs.Store.read_spec zgent.Jobs.Store.list_jobs zgent.Jobs.Store.write_attempt
    zgent.Jobs.Store.read_attempt zgent.Jobs.Store.write_failure zgent.Jobs.Store.read_failure
    zgent.Jobs.Store.read_log_file zgent.Jobs.Store.read_log zgent.Common.Dict.get
    zgent.Common.Dict.put zgent.Common.Dict.remove zgent.Common.Dict.values
    zgent.Common.Decimal.decimal zgent.Common.Decimal.padded4 zgent.Common.Text.is_letter_or_digit
    zgent.Common.Text.str_take zgent.Common.Text.str_drop zgent.Common.Text.is_space
    zgent.Common.Text.lstrip zgent.Common.Text.rstrip zgent.Common.Text.strip
    zgent.Common.Text.is_break zgent.Common.Text.split_lines zgent.Common.Text.has_prefix
    zgent.Common.Text.has_part zgent.Common.Text.upper zgent.Common.Int.negated
    zgent.Common.Sort.insert_latest zgent.Common.Sort.latest_first zgent.Common.Exec.pure
    zgent.Common.Exec.raise zgent.Common.Exec.gets zgent.Common.Exec.lift zgent.Common.Exec.modify
    zgent.Common.Exec.◌>>=◌ zgent.Common.Exec.caught zgent.Common.Exec.try_or_none
    zgent.Common.Exec.os_or_value_error zgent.Common.Exec.is_runtime_error
code = tt
