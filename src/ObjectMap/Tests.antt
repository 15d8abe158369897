-- ===== src/ObjectMap/Tests.antt =====
-- The table of file descriptors at concrete inputs.
use hermit_kernel.Base.{◌+◌, ◌≡◌, refl, true, none, some, arith}
use hermit_kernel.Base.Tests.{◌==◌, ltb, if◌then◌else◌}
use hermit_kernel.File.{ok}
use hermit_kernel.ObjectMap.{
  Objects, with_object, insert_object, get_object, dup_object, dup_object2, remove_object,
}
use hermit_kernel.ObjectMap.Entries.{AreTaken, insert_object_lem}

-- The three standard descriptors, and descriptor 5.
abbrev standard : Objects
standard d = if ltb d 3 then some (d + 10) else if d == 5 then some 20 else none

standard-AreTaken : AreTaken standard 0 3
standard-AreTaken d h k = let small : ltb d 3 ≡ true = ground arith in rw small refl

insert_object_lem_example :
    (insert_object 4 standard 30 ≡ ok (3, with_object standard 3 (some 30)))
    × (dup_object 4 standard 5 ≡ ok (3, with_object standard 3 (some 20)))
    × (dup_object2 standard 5 3 ≡ ok (3, with_object standard 3 (some 20)))
    × (get_object (with_object standard 3 (some 30)) 3 ≡ ok 30)
    × (get_object (with_object standard 3 (some 30)) 1 ≡ get_object standard 1)
    × (remove_object (with_object standard 3 (some 30)) 3 ≡ ok (30, standard))
insert_object_lem_example =
    insert_object_lem 4 3 30 5 20 1 standard standard-AreTaken refl (omega arith) (omega arith) refl
      refl
