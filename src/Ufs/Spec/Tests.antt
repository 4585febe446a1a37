-- ===== src/Ufs/Spec/Tests.antt =====
-- A client's calls, in the specification and in userfs.c.
use sysprog_solutions.Common.{
  ℕ, [], ◌∷◌, some, none, true, false, List, ◌≡◌, ok, refl, total, total,
}
use sysprog_solutions.Ufs.Blocks.Contents.{kept}
use sysprog_solutions.Ufs.Files.Directory.{lookup}
use sysprog_solutions.Ufs.Calls.Deleting.{unname}
use sysprog_solutions.Ufs.State.{
  value, Ufs, minus_one, no_permission, no_permission_message, no_file_message, Slot, wild,
  OpenFlags, Text,
}
use sysprog_solutions.Ufs.Spec.{
  Spec, freed, spec_open, spec_write, spec_size, spec_read, spec_delete, spec_close, handle_on,
  users,
}
use sysprog_solutions.Ufs.Spec.Represents.{Represents}
use sysprog_solutions.Ufs.Spec.Runs.{
  Request, open_request, write_request, read_request, size_request, delete_request, close_request,
  Answer, returned, filled, sized, run, spec_run, run-spec_run, initial, empty,
}
use sysprog_solutions.Ufs.Files.{same_text}

abbrev create_flags : OpenFlags
create_flags = record { create = true; read_only = false; write_only = false; read_write = true }

abbrev again_flags : OpenFlags
again_flags = record { create = false; read_only = true; write_only = false; read_write = false }

abbrev filename : Text
filename = b'f' ∷ []

abbrev slots : List Slot
slots = wild ∷ wild ∷ wild ∷ []

abbrev data' : List ℕ
data' = 1 ∷ 2 ∷ 3 ∷ []

abbrev session : List Request
session =
    open_request filename again_flags
    ∷ open_request filename create_flags
    ∷ write_request 0 data' 3
    ∷ size_request 0
    ∷ open_request filename again_flags
    ∷ read_request 1 (7 ∷ 7 ∷ 7 ∷ 7 ∷ []) 8
    ∷ write_request 1 data' 3
    ∷ delete_request filename
    ∷ delete_request filename
    ∷ close_request 1
    ∷ close_request 0
    ∷ []

abbrev answers : List Answer
answers =
    returned minus_one
    ∷ returned (value 0)
    ∷ returned (value 3)
    ∷ sized 3
    ∷ returned (value 1)
    ∷ filled (value 3) (1 ∷ 2 ∷ 3 ∷ 7 ∷ [])
    ∷ returned minus_one
    ∷ returned (value 0)
    ∷ returned minus_one
    ∷ returned (value 0)
    ∷ returned (value 0)
    ∷ []

abbrev final : Spec
final = record {
  directory = none;
  contents = freed ∷ [];
  handles = [];
  room = 3;
  error = no_permission;
  messages = no_file_message ∷ no_permission_message ∷ [];
}

session_allowed : spec_run session (empty 3) ≡ some (answers, final)
unfolding spec_run spec_open spec_write spec_size spec_read spec_delete spec_close handle_on users
    kept lookup same_text unname total
session_allowed = refl

run-spec_run_example :
    (s : Ufs) × (run session (initial slots) ≡ ok (answers, s)) × Represents s final
run-spec_run_example = run-spec_run slots session answers final session_allowed
