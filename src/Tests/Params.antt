-- ===== src/Tests/Params.antt =====
-- A job on a virtual machine whose server answers.
use virtual_disks.Base.{◌≡◌, refl, true, none, some, [], ◌∷◌, arith}
use virtual_disks.Base.Int.{pos}
use virtual_disks.Base.Decimal.{write_digits, format_int}
use virtual_disks.Disklib.Types.{ConnectParams}
use virtual_disks.Disklib.Params.{fill_connect_params}
use virtual_disks.Dumper.Types.{ConnParams, DiskParams, DumpMode}
use virtual_disks.Dumper.Params.{new_conn_params, identity_of}
use virtual_disks.Dumper.Params.Remote.{remote_params, IsReady, new_conn_params-IsReady}
use virtual_disks.Tests.Device.{empty_params}
use virtual_disks.Tests.ThumbPrint.{dial, sha1}
use text.Mathlib.TextLemmas.{cons-ne-nil}
use mathlib.Core.List as L

abbrev disk : DiskParams
disk = record { disk_path = "a.vmdk"; disk_path_root = "b.vmdk"; change_id = "*" }

identity_text : identity_of 407 ≡ "rsb_dumper__407"
unfolding identity_of format_int write_digits
identity_text = refl

new_conn_params-IsReady_example :
    (p : ConnParams) × (cp : ConnectParams) × (new_conn_params dial sha1 "vc"
        (pos 443)
        "root"
        "secret"
        "vm-7"
        "snap"
      ≡ (some p, none))
    × (remote_params 4 407 p disk DumpMode.dump_backup true ≡ some cp)
    × IsReady "vc" "root" "secret" "vm-7" (175 ∷ 9 ∷ 2 ∷ []) (fill_connect_params cp empty_params)
unfolding format_int write_digits
new_conn_params-IsReady_example =
    new_conn_params-IsReady dial sha1 "vc" (pos 443) "root" "secret" "vm-7" "snap" (1 ∷ 2 ∷ []) [] 4
      407 disk DumpMode.dump_backup true empty_params (cons-ne-nil _ _) (cons-ne-nil _ _) refl
      (L.cons-ne-nil _ _) (omega arith, (omega arith, (omega arith, tt)))
