-- ===== src/Priority/Examples.antt =====
-- An instance of the choice theorem of internal/priority/priority.go.
use actions_runner_scaleset.Prelude.{◌≡◌, refl, false, true, [], ◌∷◌, contains}
use actions_runner_scaleset.Priority.{Class, JobInfo, classify, satisfies, specificity}
use actions_runner_scaleset.Prelude.Choice.{select, select_from}

abbrev any_job : Class
any_job = record {
  name = "batch";
  selector = record { workflow_label = ""; repo = ""; org = "" };
  weight = 1;
  preempt = false;
}

abbrev release_job : Class
release_job = record {
  name = "release";
  selector = record { workflow_label = "release"; repo = ""; org = "acme" };
  weight = 10;
  preempt = true;
}

abbrev job : JobInfo
job = record { org = "acme"; repo = "platform"; workflow_labels = "linux" ∷ "release" ∷ [] }

classify_run : classify (any_job ∷ release_job ∷ []) job ≡ release_job
unfolding classify satisfies specificity select select_from contains
classify_run = refl
