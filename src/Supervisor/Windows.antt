-- ===== src/Supervisor/Windows.antt =====
-- How many restarts the policies permit.
use hermit_kernel.Base.{
  ℕ, suc, ◌+◌, ◌-◌, ◌%◌, ◌^◌, ◌≤◌, ◌<◌, ◌≡◌, refl, ◌∙◌, inl, inr, min, true, false, some, List, [],
  ◌∷◌, ◌++◌, arith,
}
use hermit_kernel.Base.Tests.{ltb, Bool-cases}
use hermit_kernel.Base.Lists.{length, replicate, All, length-replicate}
use hermit_kernel.Task.Types.{EntryPointId}
use hermit_kernel.Supervisor.{
  RestartPolicy, RestartEntry, new, may_restart, count_restart, deaths, should_restart,
  restart_table,
}

-- An entry under the policy `MaxN`, after `c` restarts in the window that began at `s`.
abbrev pub limited : ℕ → ℕ → ℕ → ℕ → RestartEntry
limited count window c s = record {
  policy = RestartPolicy.max_n count window;
  restart_count = c;
  window_start = s;
}

module _ (count window : ℕ) (small : count < 2 ^ 32) (word : window < 2 ^ 64) where
  inside :
      (c s now : ℕ)
      → 0 < s
      → now - s < window
      → may_restart (limited count window c s) now ≡ count_restart (limited count window c s) count
  unfolding may_restart
  inside c s now pos h = let m : window % 2 ^ 64 ≡ window = omega arith in rw m (ground arith)

  count_more :
      (c s : ℕ)
      → c < count
      → count_restart (limited count window c s) count ≡ (true, limited count window (c + 1) s)
  unfolding count_restart
  count_more c s h = ground arith

  count_full :
      (c s : ℕ)
      → count ≤ c
      → count_restart (limited count window c s) count ≡ (false, limited count window c s)
  unfolding count_restart
  count_full c s h = ground arith

  -- The deaths inside a window are permitted up to the limit, in turn.
  deaths_inside :
      (c s : ℕ) (times : List ℕ)
      → 0 < s
      → c ≤ count
      → All (λ now. now - s < window) times
      → deaths (limited count window c s) times
        ≡ (min (length times) (count - c), limited count window (min (c + length times) count) s)
  unfolding deaths
  deaths_inside c s [] pos le h = ground arith
  deaths_inside c s (now ∷ later) pos le h = elim (Bool-cases (ltb c count)) [
    | inl more ↦
        rw
          (
            inside c s now pos h.0,
            count_more c s (ground arith),
            deaths_inside (c + 1) s later pos (ground arith) h.1,
          )
          (ground arith)
    | inr full ↦
        rw
          (
            inside c s now pos h.0,
            count_full c s (ground arith),
            deaths_inside c s later pos le h.1,
          )
          (ground arith)
  ]

  -- The first death begins the window.
  begin_window :
      (now : ℕ)
      → may_restart (limited count window 0 0) now
        ≡ count_restart (limited count window 0 now) count
  unfolding may_restart
  begin_window now = ground arith

  -- A death after the end of the window begins another.
  next_window :
      (c s now : ℕ)
      → 0 < s
      → 0 < window
      → window ≤ now - s
      → may_restart (limited count window c s) now
        ≡ count_restart (limited count window 0 now) count
  unfolding may_restart
  next_window c s now pos w h =
      let m : window % 2 ^ 64 ≡ window = omega arith in rw m (ground arith)

  -- From the first death on, the deaths inside its window are followed by a restart up to the limit
  -- and no further.
  pub window_limit :
      (first : ℕ) (times : List ℕ)
      → 0 < first
      → 0 < count
      → All (λ now. now - first < window) times
      → (deaths (new (RestartPolicy.max_n count window)) (first ∷ times)).0
        ≡ min (suc (length times)) count
  unfolding deaths new
  window_limit first times pos some_allowed h =
      rw
        (
          begin_window first,
          count_more 0 first some_allowed,
          deaths_inside (0 + 1) first times pos (omega arith) h,
        )
        (ground arith)

deaths-append :
    (e : RestartEntry) (xs ys : List ℕ)
    → (deaths e (xs ++ ys)).0 ≡ (deaths e xs).0 + (deaths (deaths e xs).1 ys).0
unfolding deaths
deaths-append e [] ys = omega arith
deaths-append e (now ∷ later) ys = ground (arith, deaths-append (may_restart e now).1 later ys)

All-replicate : (P : ℕ → Type 0) (n a : ℕ) → P a → All P (replicate n a)
All-replicate P Prim.Native.Nat.zero a h = tt
All-replicate P (suc n) a h = (h, All-replicate P n a h)

-- `k + 1` deaths at one time after the end of the window are all followed by a restart.
deaths_after :
    (k window s now : ℕ)
    → suc k < 2 ^ 32
    → window < 2 ^ 64
    → 0 < window
    → 0 < s
    → window ≤ now - s
    → (deaths (limited (suc k) window (suc k) s) (replicate (suc k) now)).0 ≡ suc k
unfolding deaths
deaths_after k window s now small word w pos h =
    rw
      (
        next_window (suc k) window small word (suc k) s now pos w h,
        count_more (suc k) window small word 0 now (omega arith),
        deaths_inside (suc k) window small word (0 + 1) now (replicate k now) (omega arith)
            (omega arith) (All-replicate (λ t. t - now < window) k now (omega arith)),
      )
      (ground (arith, length-replicate k now))

both_windows :
    (k window first : ℕ)
    → suc k < 2 ^ 32
    → window < 2 ^ 64
    → 0 < window
    → 0 < first
    → (deaths
        (limited (suc k) window (0 + 1) first)
        (replicate k (first + window - 1) ++ replicate (suc k) (first + window))).0
      ≡ k + suc k
both_windows k window first small word w pos =
    let early = replicate k (first + window - 1) in
    let late = replicate (suc k) (first + window) in
    let before =
      deaths_inside (suc k) window small word (0 + 1) first early pos (omega arith)
        (All-replicate (λ t. t - first < window) k (first + window - 1) (omega arith)) in
    let n : length early ≡ k = length-replicate k (first + window - 1) in
    let c : min (0 + 1 + length early) (suc k) ≡ suc k = omega arith in
    let m : min (length early) (suc k - (0 + 1)) ≡ k = omega arith in
    let after = deaths_after k window first (first + window) small word w pos (omega arith) in
    deaths-append (limited (suc k) window (0 + 1) first) early late ∙ rw (before, c, m, after)

-- The limit holds for windows that follow one another, and not for every span of that length: with
-- a limit of `k + 1` restarts in `window`, up to `2 * k + 1` deaths in the last microsecond of one
-- window and the first of the next are all followed by a restart.
pub window_burst :
    (k window first : ℕ)
    → suc k < 2 ^ 32
    → window < 2 ^ 64
    → 0 < window
    → 0 < first
    → (deaths
        (new (RestartPolicy.max_n (suc k) window))
        (first ∷ (replicate k (first + window - 1) ++ replicate (suc k) (first + window)))).0
      ≡ 1 + k + suc k
unfolding deaths new
window_burst k window first small word w pos =
    rw
      (
        begin_window (suc k) window small word first,
        count_more (suc k) window small word 0 first (omega arith),
      )
      (omega (arith, both_windows k window first small word w pos))

never_step :
    (e : RestartEntry) (now : ℕ) → e.policy ≡ RestartPolicy.never → may_restart e now ≡ (false, e)
unfolding may_restart
never_step e now h = ground arith

always_step :
    (e : RestartEntry) (now : ℕ)
    → e.policy ≡ RestartPolicy.always
    → ((may_restart e now).0 ≡ true) × ((may_restart e now).1.policy ≡ RestartPolicy.always)
unfolding may_restart
always_step e now h = ground arith

never_restarts :
    (e : RestartEntry) (times : List ℕ) → e.policy ≡ RestartPolicy.never → (deaths e times).0 ≡ 0
unfolding deaths
never_restarts e [] h = refl
never_restarts e (now ∷ later) h = rw (never_step e now h) (never_restarts e later h)

always_restarts :
    (e : RestartEntry) (times : List ℕ)
    → e.policy ≡ RestartPolicy.always
    → (deaths e times).0 ≡ length times
unfolding deaths
always_restarts e [] h = refl
always_restarts e (now ∷ later) h =
    let (permitted, same) = always_step e now h in
    rw permitted (omega (arith, always_restarts (may_restart e now).1 later same))

-- Under the policy never to restart no death is followed by a restart, under the policy to restart
-- always every death is, whatever the counter and the window of the entry.
pub policy_total :
    (c s : ℕ) (times : List ℕ)
    → ((deaths
          (record { policy = RestartPolicy.never; restart_count = c; window_start = s })
          times).0
        ≡ 0)
      × ((deaths
            (record { policy = RestartPolicy.always; restart_count = c; window_start = s })
            times).0
          ≡ length times)
policy_total c s times = (never_restarts _ times refl, always_restarts _ times refl)

-- As the kernel is built no death is followed by a restart: the table refuses every entry point at
-- every time, without a panic, and stays as it is.
pub table_refuses :
    (id : EntryPointId) (now : ℕ)
    → should_restart restart_table id now ≡ some (false, restart_table)
unfolding should_restart restart_table
table_refuses EntryPointId.idle now = refl
table_refuses EntryPointId.app_task now = refl
