-- ===== src/Sensor/Tests.antt =====
-- An agent session at concrete events.
use decepti_forge.Base.{String, Bool, false, List, [], ◌∷◌, none}
use decepti_forge.Sensor.Rules.{
  Policy, Aggregate, Activity, evaluate, file_read, adjacent, credential, task_relevant, decoy,
  PathClass,
}
use decepti_forge.Sensor.Sessions.{Counted, evaluate-Counted}

abbrev policy : Policy
policy = record {
  denied_paths = [];
  allowed_tools = [];
  denied_tools = "shell" ∷ [];
  allowed_resource_types = [];
  maximum_file_reads = 1;
  maximum_sensitive_reads = 0;
  allow_dependency_changes = false;
  allow_secret_file_access = false;
  allow_database_access = false;
  allow_network_access = false;
}

abbrev fresh : Aggregate
fresh = record {
  file_reads = 0;
  sensitive_reads = 0;
  unrelated_paths = [];
  violation_count = 0;
  surfaces = [];
  modifications = false;
}

abbrev no_match : String → String → Bool
no_match pattern path = false

-- The read of a decoy by a tool that is denied.
abbrev touch : Activity
touch = record {
  event_type = file_read;
  path = "canary.env";
  path_class = decoy;
  tool = "shell";
  resource_type = "";
  decoy_id = none;
}

evaluate-Counted_example : Counted fresh (evaluate no_match policy touch fresh)
evaluate-Counted_example = evaluate-Counted no_match policy touch fresh

abbrev probing : List PathClass
probing = adjacent ∷ task_relevant ∷ credential ∷ []
