-- ===== src/Tests/Vms.antt =====
-- The mounts of the sample VM, and the operations on all VMs.
use lima_jailed_agents.Base.{[], ◌∷◌, ◌≡◌, ◌↔◌, refl, FilePath, different}
use lima_jailed_agents.Base.{ok, err, string_eq, string_discrete, strings_eq, strings_discrete}
use lima_jailed_agents.Lima.Inspect.{lja_instances}
use lima_jailed_agents.Lima.Instances.{LimaInstance}
use lima_jailed_agents.Lima.Lifecycle.{delete_all_vms, stop_all_vms, incompatible_state}
use lima_jailed_agents.Lima.Lifecycle.Laws.{
  TouchesOwn, delete_words, stop_words, IsListing, delete_all_vms-TouchesOwn,
  stop_all_vms-TouchesOwn, stop_all_vms_incompatible,
}
use lima_jailed_agents.Lima.Mounts.{
  expected_mount_paths, with_state_root, mount_paths_of, apart, validate_project_mount, actual_keys,
  expected_key,
}
use lima_jailed_agents.Lima.Mounts.Laws.{
  AreMountsOf, AreExactly, expected_mount_paths-AreMountsOf, validate_project_mount_iff,
}
use lima_jailed_agents.Path.Canonical.{
  canonical_path, canonical_given, expand_home, expand_first, absolute_path, resolve_absolute,
  normalize_darwin, probe_loop,
}
use lima_jailed_agents.Path.Text.{clean, clean_onto, enter, split_path, render, relative}
use lima_jailed_agents.Path.Within.{path_is_within, leads_down}
use lima_jailed_agents.Host.{PathText}
use lima_jailed_agents.Run.Rules.{Emits, Adds}
use lima_jailed_agents.Tests.Sample.{
  project, project_text, sample_host, sample_instance, sample_mount, sample_decode, shell_script,
}
use lima_jailed_agents.Tests.Sample.{running_world, broken_world, resolve, sample_vm, stat_sample}

canonical_project : canonical_path sample_host project_text ≡ ok project
unfolding canonical_path canonical_given expand_home expand_first absolute_path resolve_absolute
    normalize_darwin clean clean_onto enter string_eq string_discrete strings_eq strings_discrete
    resolve
canonical_project = refl

alone : expected_mount_paths sample_host project_text ("" ∷ []) ≡ ok (project ∷ [])
unfolding expected_mount_paths with_state_root string_eq string_discrete
alone = rw canonical_project refl

keys : actual_keys sample_host (sample_mount ∷ []) ≡ ok (expected_key project ∷ [])
unfolding actual_keys split_path render
keys = rw canonical_project refl

abbrev state_text : PathText
state_text = "" ∷ "var" ∷ "state" ∷ []

with_state :
    expected_mount_paths sample_host project_text state_text
    ≡ ok (project ∷ ("var" ∷ "state" ∷ []) ∷ [])
unfolding expected_mount_paths with_state_root mount_paths_of apart canonical_path canonical_given
    expand_home expand_first absolute_path resolve_absolute probe_loop normalize_darwin clean
    clean_onto enter string_eq string_discrete strings_eq strings_discrete resolve stat_sample
    path_is_within leads_down relative
with_state = refl

expected_mount_paths-AreMountsOf_example :
    (p : FilePath) × (canonical_path sample_host project_text ≡ ok p)
    × AreMountsOf sample_host p state_text (project ∷ ("var" ∷ "state" ∷ []) ∷ [])
expected_mount_paths-AreMountsOf_example =
    expected_mount_paths-AreMountsOf sample_host project_text state_text with_state

validate_project_mount_iff_example :
    (validate_project_mount sample_host sample_instance project_text ("" ∷ []) ≡ ok tt)
    ↔ AreExactly (project ∷ []) (expected_key project ∷ [])
validate_project_mount_iff_example =
    validate_project_mount_iff sample_host sample_instance project_text ("" ∷ []) alone keys

delete_all_vms-TouchesOwn_example :
    Emits
      (TouchesOwn delete_words)
      (delete_all_vms shell_script sample_decode running_world "limactl")
delete_all_vms-TouchesOwn_example =
    delete_all_vms-TouchesOwn shell_script sample_decode running_world "limactl"

stop_all_vms-TouchesOwn_example :
    Emits (TouchesOwn stop_words) (stop_all_vms shell_script sample_decode running_world "limactl")
stop_all_vms-TouchesOwn_example =
    stop_all_vms-TouchesOwn shell_script sample_decode running_world "limactl"

abbrev broken : LimaInstance
broken = record sample_instance { status = "Broken" }

listed_broken :
    (lja_instances shell_script sample_decode broken_world "limactl" []).0 ≡ ok (broken ∷ [])
unfolding lja_instances lima_jailed_agents.Lima.Inspect.list_instances
    lima_jailed_agents.Process.run_lima lima_jailed_agents.Process.finish_run
    lima_jailed_agents.Lima.Instances.parse_lima_instances
    lima_jailed_agents.Lima.Instances.raw_instances lima_jailed_agents.Lima.Instances.parse_all
    lima_jailed_agents.Lima.Instances.parse_instance lima_jailed_agents.Lima.Json.get string_eq
    lima_jailed_agents.Lima.Inspect.select_lja
listed_broken = refl

stop_all_vms_incompatible_example :
    ((stop_all_vms shell_script sample_decode broken_world "limactl" []).0
      ≡ err (incompatible_state sample_vm "Broken"))
    × Adds IsListing [] (stop_all_vms shell_script sample_decode broken_world "limactl" []).1
unfolding string_eq string_discrete
stop_all_vms_incompatible_example =
    stop_all_vms_incompatible shell_script sample_decode broken_world "limactl" [] [] broken []
      listed_broken tt (different refl) (different refl)
