-- ===== src/Approvals/Examples.antt =====
-- Tests of the approval manager's model, and the theorems about it at a concrete manager.
use tau_prime.Prelude.{true, false, none, some, ◌≡◌, refl}
use tau_prime.Messages.{end_fields}
use tau_prime.Approvals.{
  ToolApprovalRequest, allow, deny, Manager, new_manager, resolve, act, requests, announces,
  resolves, audits, publishes, starts, acts, Reachable, result, allows, is_open, get_pending,
  request, fails, resolve_undisturbed, shutdown, cancel, resolution_of, Resolution,
}
use tau_prime.Approvals.Once.{result-allows, result-act, resolve_undisturbed-result, cancel-busy}
use tau_prime.Approvals.Shutdown.{is_open-shutdown}

abbrev shell : ToolApprovalRequest
shell = record {
  approval_id = "a1";
  session_id = "s";
  tool_call_id = "c1";
  tool_name = "bash";
  description = "Run a command";
  arguments = end_fields;
  created_at = "2026-01-01T00:00:00+00:00";
}

abbrev asked : Manager
asked = act (announces shell) (act (requests shell) new_manager)

abbrev allowed : Manager
allowed = act (publishes "a1") (act (audits "a1") (act (resolves "a1" allow none none) asked))

asked-Reachable : Reachable asked
asked-Reachable = acts (announces shell) _ (acts (requests shell) _ starts refl) tt

allowed-Reachable : Reachable allowed
allowed-Reachable =
    acts (publishes "a1") _
      (acts (audits "a1") _ (acts (resolves "a1" allow none none) _ asked-Reachable tt) tt) tt

-- The browser allowed it.
allowed-result : result allowed "a1" ≡ some true
unfolding act resolve request
allowed-result = refl

result-allows_example : allows allowed.audit "a1" ≡ true
result-allows_example = result-allows allowed "a1" allowed-Reachable allowed-result

result-act_example : result (act (fails "a1") allowed) "a1" ≡ some true
result-act_example = result-act (fails "a1") allowed "a1" true allowed-Reachable tt allowed-result

asked-is_open : is_open (get_pending asked "a1") ≡ true
unfolding act request
asked-is_open = refl

resolve_undisturbed-result_example :
    (result (resolve_undisturbed "a1" deny none none asked) "a1" ≡ some false)
    × (resolve "a1" allow none none (resolve_undisturbed "a1" deny none none asked) ≡ none)
resolve_undisturbed-result_example =
    resolve_undisturbed-result "a1" deny allow none none asked asked-is_open

abbrev answering : Manager
answering = act (resolves "a1" allow none none) asked

abbrev answer : Resolution
answer = record {
  approval_id = "a1";
  decision = allow;
  actor_id = none;
  request_id = none;
  audited = false;
}

answer_in_flight : resolution_of answering.resolutions "a1" ≡ some answer
unfolding act resolve request
answer_in_flight = refl

cancel-busy_example :
    (cancel "a1" "runtime-timeout" answering ≡ none) × (result answering "a1" ≡ none)
cancel-busy_example =
    cancel-busy "a1" "runtime-timeout" answer answering
      (acts (resolves "a1" allow none none) asked asked-Reachable tt) answer_in_flight

asked_is_live : asked.closed ≡ false
unfolding act request
asked_is_live = refl

is_open-shutdown_example :
    (is_open (get_pending (shutdown asked) "a1") ≡ false) × (request shell (shutdown asked) ≡ none)
is_open-shutdown_example = is_open-shutdown asked shell "a1" asked_is_live
