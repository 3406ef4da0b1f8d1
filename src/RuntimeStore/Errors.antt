-- ===== src/RuntimeStore/Errors.antt =====
-- agent/runtime_store/errors.py: the kinds of failure of the durable store.
pub data StoreErrorCode : Type 0 where
  run_not_found identity_mismatch revision_conflict parent_digest_mismatch stale_writer
        store_generation_mismatch store_busy schema_incompatible fence_conflict session_run_active
        idempotency_conflict prepared_intent_not_found effect_state_conflict finalization_conflict
        checkpoint_lineage_conflict artifact_verification_failed artifact_digest_mismatch
        run_index_conflict terminal_output_missing finalization_injected_failure store_closed
        invalid_argument event_cursor_expired interruption_request_conflict
        interruption_intent_not_found interruption_phase_conflict interruption_injected_failure
        run_already_cancelling run_already_cancelled run_already_timed_out run_not_cancellable :
      StoreErrorCode
