-- ===== src/Tests/Replacements.antt =====
-- The replacement of the sample VM.

use lima_jailed_agents.Base.{[], ◌≢◌, refl, different}
use lima_jailed_agents.Recreate.{replace_vm, stage, clean_up, recover}
use lima_jailed_agents.Recreate.Backup.{Ends, replace_vm-Ends}
use lima_jailed_agents.Recreate.Safety.{Spares, KeepsInPlace, replace_vm-Spares, stage-KeepsInPlace}
use lima_jailed_agents.Run.Rules.{Emits}
use lima_jailed_agents.Tests.Sample.{
  sample_vm, sample_replacement, sample_workflow, sample_guests, sample_decode,
}
use lima_jailed_agents.Tests.Sample.{shell_script, running_world}

candidate_other : sample_replacement.candidate ≢ sample_vm
candidate_other = different refl

backup_other : sample_replacement.backup ≢ sample_vm
backup_other = different refl

candidate_backup : sample_replacement.candidate ≢ sample_replacement.backup
candidate_backup = different refl

replace_vm-Spares_example :
    Emits
      (Spares sample_vm)
      (replace_vm shell_script sample_decode running_world sample_workflow sample_replacement)
replace_vm-Spares_example =
    replace_vm-Spares shell_script sample_decode running_world sample_workflow sample_guests
      sample_replacement candidate_other backup_other

stage-KeepsInPlace_example : Emits (KeepsInPlace sample_vm) (
    recover
      (stage shell_script sample_decode running_world sample_workflow sample_replacement)
      (clean_up shell_script sample_decode running_world sample_workflow sample_replacement))
stage-KeepsInPlace_example =
    stage-KeepsInPlace shell_script sample_decode running_world sample_workflow sample_guests
      sample_replacement candidate_other

replace_vm-Ends_example :
    Ends shell_script sample_decode running_world sample_workflow sample_replacement []
      (replace_vm shell_script sample_decode running_world sample_workflow sample_replacement [])
replace_vm-Ends_example =
    replace_vm-Ends shell_script sample_decode running_world sample_workflow sample_guests
      sample_replacement [] candidate_backup
