-- ===== src/Tests/Undone.antt =====
-- A tenant that keeps the configuration of one project.
use v_cx_credit_guard.Prelude.{◌≡◌, refl, true, false, some, [], ◌∷◌}
use v_cx_credit_guard.Exec.{ok}
use v_cx_credit_guard.Model.Limits.{UndoSnapshot}
use v_cx_credit_guard.Model.Database.{World}
use v_cx_credit_guard.Checkmarx.{Remote, AutoTriageState}
use v_cx_credit_guard.Enforcement.Perform.{perform_triage, undo_triage}
use v_cx_credit_guard.Enforcement.Undone.{
  KeepsConfiguration, triage_state, undo_triage-perform_triage,
}
use v_cx_credit_guard.Tests.Fixtures.{fresh, november}

abbrev one_project : Remote AutoTriageState
one_project = record {
  get_clients = λ t. (ok [], t);
  get_role_mappings = λ u c t. (ok [], t);
  delete_role_mappings = λ u c roles t. (ok tt, t);
  post_role_mappings = λ u c roles t. (ok tt, t);
  get_configuration = λ p t. (ok t, t);
  put_configuration = λ p e c t. (ok tt, record { enabled = some e; config = c });
  get_repo = λ r p t. (ok (some []), t);
  patch_repo = λ r p s t. (ok tt, t);
}

abbrev one_configuration : KeepsConfiguration one_project
one_configuration = record {
  read = λ t p. t;
  write = λ p e c t. record { enabled = some e; config = c };
  reads = λ p t. refl;
  writes = λ p e c t. refl;
  read_back = λ p e c t. refl;
}

abbrev switched : AutoTriageState → World AutoTriageState
switched t = record {
  db = fresh.db;
  tenant = t;
  now = november;
  resolver_uuid = fresh.resolver_uuid;
}

-- In between, somebody has changed the configuration.
undo_triage-perform_triage_example :
    let w = switched (triage_state true (("branches", "main") ∷ [])) in
    let later = switched (triage_state false (("branches", "dev") ∷ [])) in
    (s : UndoSnapshot) × (w' w'' : World AutoTriageState) × (perform_triage one_project "p1" w
      ≡ (ok s, w'))
    × (w'.tenant ≡ triage_state false (("branches", "main") ∷ []))
    × (undo_triage one_project s "p1" later ≡ (ok tt, w''))
    × (w''.tenant ≡ w.tenant)
undo_triage-perform_triage_example =
    undo_triage-perform_triage one_project one_configuration "p1" ("branches", "main") []
      (switched (triage_state true (("branches", "main") ∷ [])))
      (switched (triage_state false (("branches", "dev") ∷ []))) refl
