-- ===== src/Cache/Monitor.antt =====
-- Cache.cpp with threads: the calls of `read` and `waitUntilFinished` that wait on `readWaiter`, and
-- the writer, whose `notify_all` comes after its critical section. Any interleaving is a sequence of
-- steps. A thread that waits may also wake for no reason, as a condition variable allows.
use pipefs.Common.{
  update, ℕ, suc, ◌-◌, take, ◌≤◌, ◌<◌, ◌≡◌, refl, subst, ◌≢◌, ◌↔◌, Bool, true, false, ◌||◌, arith,
  ltb, length, length-append, Bytes,
}
use pipefs.Cache.{Cache, write, finish, read, blocks}
use pipefs.Cache.Reading.{write-append}

-- What a thread waits for: the negation of the condition of its `while` loop.
pub data Awaited : Type 0 where
  data_at : ℕ → Awaited
  the_end : Awaited

unfoldable pub met : Cache → Awaited → Bool
met c (data_at position) = c.finished || ltb position (length c.contents)
met c the_end = c.finished

-- About to test the condition under the lock, blocked in `wait`, or out of the loop.
pub data Status : Type 0 where
  testing waiting passed : Status

-- `unnotified` counts the calls of `write` and `finish` that have left their critical section and
-- not yet called `notify_all`.
pub record System : Type 0 where
  pub cache : Cache
  pub unnotified : ℕ
  pub threads : ℕ → Status

-- `notify_all`
abbrev pub wake : Status → Status
wake testing = testing
wake waiting = testing
wake passed = passed

module _ (awaited : ℕ → Awaited) where
  -- The steps that the program and the condition variable owe: a thread that is awake tests its
  -- condition, and the writer notifies.
  pub data Owed (s : System) : System → Type 0 where
    leaves :
        (i : ℕ)
        → s.threads i ≡ testing
        → met s.cache (awaited i) ≡ true
        → Owed s (record s { threads = update s.threads i passed })
    waits :
        (i : ℕ)
        → s.threads i ≡ testing
        → met s.cache (awaited i) ≡ false
        → Owed s (record s { threads = update s.threads i waiting })
    notifies :
        (n : ℕ)
        → s.unnotified ≡ suc n
        → Owed s (record s { unnotified = n; threads = λ i. wake (s.threads i) })

  pub data Step (s : System) : System → Type 0 where
    owed : {t : System} → Owed s t → Step s t
    wakes :
        (i : ℕ) → s.threads i ≡ waiting → Step s (record s { threads = update s.threads i testing })
    writes :
        (buf : Bytes) (n : ℕ)
        → n ≤ length buf
        → Step s (record s { cache = write s.cache buf n; unnotified = suc s.unnotified })
    finishes : Step s (record s { cache = finish s.cache; unnotified = suc s.unnotified })

  -- From a cache that is just made, with every thread before its first test.
  pub data Reach : System → Type 0 where
    start : (c : Cache) → Reach (record { cache = c; unnotified = 0; threads = λ _. testing })
    next : {s t : System} → Reach s → Step s t → Reach t

  pub data OwedSteps (s : System) : System → Type 0 where
    done : OwedSteps s s
    then_step : {t u : System} → OwedSteps s t → Owed t u → OwedSteps s u

  -- A thread that waits has nothing to wait for only while a notification is on its way, and one
  -- that has left its loop still finds its condition true.
  pub record IsSound (s : System) : Type 0 where
    pub no_lost_wakeup :
        (i : ℕ) → s.threads i ≡ waiting → met s.cache (awaited i) ≡ true → 0 < s.unnotified
    pub still_met : (i : ℕ) → s.threads i ≡ passed → met s.cache (awaited i) ≡ true

met-write :
    (c : Cache) (buf : Bytes) (n : ℕ) (a : Awaited)
    → n ≤ length buf
    → met c a ≡ true
    → met (write c buf n) a ≡ true
unfolding met
met-write c buf n (data_at p) le h =
    rw (write-append c buf n le) (ground (arith, length-append c.contents (take n buf)))
met-write c buf n the_end le h = rw (write-append c buf n le) h

met-finish : (c : Cache) (a : Awaited) → met (finish c) a ≡ true
unfolding met finish
met-finish c (data_at p) = refl
met-finish c the_end = refl

module _ (awaited : ℕ → Awaited) where
  Owed-IsSound : {s t : System} → Owed awaited s t → IsSound awaited s → IsSound awaited t
  Owed-IsSound {s} (leaves i e m) v = record {
    no_lost_wakeup = λ j w h. ground (arith, v.no_lost_wakeup j);
    still_met = λ j q. ground (arith, v.still_met j);
  }
  Owed-IsSound {s} (waits i e m) v = record {
    no_lost_wakeup = λ j w h. ground (arith, v.no_lost_wakeup j);
    still_met = λ j q. ground (arith, v.still_met j);
  }
  Owed-IsSound {s} (notifies n e) v = record {
    no_lost_wakeup = λ j w h. ground arith;
    still_met = λ j q. ground (arith, v.still_met j);
  }

  pub Step-IsSound : {s t : System} → Step awaited s t → IsSound awaited s → IsSound awaited t
  Step-IsSound (owed o) v = Owed-IsSound o v
  Step-IsSound {s} (wakes i e) v = record {
    no_lost_wakeup = λ j w h. ground (arith, v.no_lost_wakeup j);
    still_met = λ j q. ground (arith, v.still_met j);
  }
  Step-IsSound {s} (writes buf n le) v = record {
    no_lost_wakeup = λ j w h. omega arith;
    still_met = λ j q. met-write s.cache buf n (awaited j) le (v.still_met j q);
  }
  Step-IsSound {s} finishes v = record {
    no_lost_wakeup = λ j w h. omega arith;
    still_met = λ j q. met-finish s.cache (awaited j);
  }

  -- In every state that an interleaving reaches, a thread waits in vain only while a notification
  -- is on its way, and the condition of a thread that has left its loop is still true.
  pub Reach-IsSound : {s : System} → Reach awaited s → IsSound awaited s
  Reach-IsSound (start c) = record { no_lost_wakeup = λ j w h. cc; still_met = λ j q. cc }
  Reach-IsSound (next r st) = Step-IsSound st (Reach-IsSound r)

  -- A thread whose condition has come true gets out of its loop by the steps that the program owes,
  -- with no further write and no wakeup by chance, and the cache stays as it is.
  pub leaves_when_met :
      {s : System} (i : ℕ)
      → Reach awaited s
      → met s.cache (awaited i) ≡ true
      → (t : System) × OwedSteps awaited s t × (t.threads i ≡ passed) × (t.cache ≡ s.cache)
  leaves_when_met {s} i r m = by_status (s.threads i) refl
    where
      after_wake :
          (t : System)
          → OwedSteps awaited s t
          → t.threads i ≡ testing
          → t.cache ≡ s.cache
          → (u : System) × OwedSteps awaited s u × (u.threads i ≡ passed) × (u.cache ≡ s.cache)
      after_wake t steps e same = (
        record t { threads = update t.threads i passed },
        then_step steps (leaves i e (rw same m)),
        ground arith,
        same,
      )

      by_status :
          (v : Status)
          → s.threads i ≡ v
          → (t : System) × OwedSteps awaited s t × (t.threads i ≡ passed) × (t.cache ≡ s.cache)
      by_status passed e = (s, done, e, refl)
      by_status testing e = after_wake s done e refl
      by_status waiting e =
          let some_left = (Reach-IsSound r).no_lost_wakeup i e m in
          let n = s.unnotified - 1 in
          let count : s.unnotified ≡ suc n = omega arith in
          after_wake (record s { unnotified = n; threads = λ j. wake (s.threads j) })
            (then_step done (notifies n count)) (ground arith) refl

-- The condition of a thread in `read` is true exactly if the call does not wait.
pub met-read :
    (c : Cache) (n position : ℕ) → (met c (data_at position) ≡ true) ↔ (read c n position ≢ blocks)
unfolding met read
met-read c n position = (λ h e. ground arith, λ h. ground arith)

-- A thread that has left the loop of `read`, in a state that an interleaving reaches, finds data or
-- the end: on the cache of that state its call does not wait.
passed-read :
    (awaited : ℕ → Awaited) {s : System} (i n position : ℕ)
    → Reach awaited s
    → awaited i ≡ data_at position
    → s.threads i ≡ passed
    → read s.cache n position ≢ blocks
passed-read awaited {s} i n position r e q =
    (met-read s.cache n position).0
      (subst (λ a. met s.cache a ≡ true) e ((Reach-IsSound awaited r).still_met i q))
