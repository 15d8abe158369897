-- ===== src/Supervisor/Tests.antt =====
-- The restart policies of src/scheduler/supervisor.rs at concrete inputs.
use hermit_kernel.Base.{ℕ, List, ◌≡◌, suc, min, [], ◌∷◌, arith}
use hermit_kernel.Base.Lists.{length}
use hermit_kernel.Supervisor.{RestartPolicy, new, deaths}
use hermit_kernel.Supervisor.Windows.{window_limit}

-- At most 3 restarts in 1000 microseconds.
abbrev policy : RestartPolicy
policy = RestartPolicy.max_n 3 1000

abbrev later : List ℕ
later = 20 ∷ 30 ∷ 40 ∷ 50 ∷ []

window_limit_example : (deaths (new policy) (10 ∷ later)).0 ≡ min (suc (length later)) 3
window_limit_example =
    window_limit 3 1000 (omega arith) (omega arith) 10 later (omega arith) (omega arith)
      (omega arith, (omega arith, (omega arith, (omega arith, tt))))
